-- ===== src/Prelude/Bytes.antt =====
-- Copies into a part of a buffer and reads of a part, as RtlCopyMemory and RtlZeroMemory do them.
use Prim.Native.Nat.{ℕ, zero, suc, ◌+◌, ◌-◌, ◌≤◌, min}
use mathlib.Core.Path.{◌≡◌, refl, ap}
use mathlib.Core.List.{List, [], ◌∷◌, ◌++◌}
use native.Mathlib.Omega.{arith}
use inferno_windows.Prelude.Lists.{length, take, length-take}

module _ {ℓ} {A : Type ℓ} where
  -- `n` items from position `a` on.
  pub slice : ℕ → ℕ → List A → List A
  slice zero n xs = take n xs
  slice (suc a) n [] = []
  slice (suc a) n (x ∷ xs) = slice a n xs

  -- The items `c` over those from the start of the list; what lies past the end is dropped.
  abbrev pub overwrite : List A → List A → List A
  overwrite [] xs = xs
  overwrite (y ∷ c) [] = []
  overwrite (y ∷ c) (x ∷ xs) = y ∷ overwrite c xs

  -- The items `c` over those from position `o` on.
  pub blit : ℕ → List A → List A → List A
  blit zero c xs = overwrite c xs
  blit (suc o) c [] = []
  blit (suc o) c (x ∷ xs) = x ∷ blit o c xs

  length-overwrite : (c xs : List A) → length (overwrite c xs) ≡ length xs
  length-overwrite [] xs = refl
  length-overwrite (y ∷ c) [] = refl
  length-overwrite (y ∷ c) (x ∷ xs) = ap suc (length-overwrite c xs)

  pub length-blit : (o : ℕ) (c xs : List A) → length (blit o c xs) ≡ length xs
  unfolding blit
  length-blit zero c xs = length-overwrite c xs
  length-blit (suc o) c [] = refl
  length-blit (suc o) c (x ∷ xs) = ap suc (length-blit o c xs)

  take-overwrite :
      (k : ℕ) (c xs : List A)
      → k ≤ length c
      → length c ≤ length xs
      → take k (overwrite c xs) ≡ take k c
  take-overwrite zero c xs h w = refl
  take-overwrite (suc k) [] xs h w = absurd (omega arith)
  take-overwrite (suc k) (y ∷ c) [] h w = absurd (omega arith)
  take-overwrite (suc k) (y ∷ c) (x ∷ xs) h w =
      ap (◌∷◌ y) (take-overwrite k c xs (omega arith) (omega arith))

  -- What a copy leaves before it.
  pub slice-blit_before :
      (a n o : ℕ) (c xs : List A) → a + n ≤ o → slice a n (blit o c xs) ≡ slice a n xs
  unfolding slice blit
  slice-blit_before zero zero o c xs h = refl
  slice-blit_before zero (suc n) zero c xs h = absurd (omega arith)
  slice-blit_before zero (suc n) (suc o) c [] h = refl
  slice-blit_before zero (suc n) (suc o) c (x ∷ xs) h =
      ap (◌∷◌ x) (slice-blit_before zero n o c xs (omega arith))
  slice-blit_before (suc a) n zero c xs h = absurd (omega arith)
  slice-blit_before (suc a) n (suc o) c [] h = refl
  slice-blit_before (suc a) n (suc o) c (x ∷ xs) h = slice-blit_before a n o c xs (omega arith)

  slice-overwrite_after :
      (a n : ℕ) (c xs : List A) → length c ≤ a → slice a n (overwrite c xs) ≡ slice a n xs
  unfolding slice
  slice-overwrite_after a n [] xs h = refl
  slice-overwrite_after a n (y ∷ c) [] h = refl
  slice-overwrite_after zero n (y ∷ c) (x ∷ xs) h = absurd (omega arith)
  slice-overwrite_after (suc a) n (y ∷ c) (x ∷ xs) h = slice-overwrite_after a n c xs (omega arith)

  -- What a copy leaves behind it.
  pub slice-blit_after :
      (a n o : ℕ) (c xs : List A) → o + length c ≤ a → slice a n (blit o c xs) ≡ slice a n xs
  unfolding slice blit
  slice-blit_after a n zero c xs h = slice-overwrite_after a n c xs (omega arith)
  slice-blit_after zero n (suc o) c xs h = absurd (omega arith)
  slice-blit_after (suc a) n (suc o) c [] h = refl
  slice-blit_after (suc a) n (suc o) c (x ∷ xs) h = slice-blit_after a n o c xs (omega arith)

  take-blit :
      (m k o t : ℕ) (c xs : List A)
      → o ≡ m
      → t ≡ m + k
      → k ≤ length c
      → m + length c ≤ length xs
      → take t (blit o c xs) ≡ take m xs ++ take k c
  unfolding blit
  take-blit zero k zero t c xs e f h w =
      let t-k : t ≡ k = omega arith in rw t-k (take-overwrite k c xs h (omega arith))
  take-blit zero k (suc o) t c xs e f h w = absurd (omega arith)
  take-blit (suc m) k zero t c xs e f h w = absurd (omega arith)
  take-blit (suc m) k (suc o) zero c xs e f h w = absurd (omega arith)
  take-blit (suc m) k (suc o) (suc t) c [] e f h w = absurd (omega arith)
  take-blit (suc m) k (suc o) (suc t) c (x ∷ xs) e f h w =
      ap (◌∷◌ x) (take-blit m k o t c xs (omega arith) (omega arith) h (omega arith))

  -- A read that begins `m` items before the copy and ends within it, `k` items further.
  pub slice-blit_over :
      (a m k o t : ℕ) (c xs : List A)
      → o ≡ a + m
      → t ≡ m + k
      → k ≤ length c
      → o + length c ≤ length xs
      → slice a t (blit o c xs) ≡ slice a m xs ++ take k c
  unfolding slice blit
  slice-blit_over zero m k o t c xs e f h w = take-blit m k o t c xs (omega arith) f h (omega arith)
  slice-blit_over (suc a) m k zero t c xs e f h w = absurd (omega arith)
  slice-blit_over (suc a) m k (suc o) t c [] e f h w = absurd (omega arith)
  slice-blit_over (suc a) m k (suc o) t c (x ∷ xs) e f h w =
      slice-blit_over a m k o t c xs (omega arith) f h (omega arith)

  pub take_split : (m n t : ℕ) (xs : List A) → t ≡ m + n → take t xs ≡ take m xs ++ slice m n xs
  unfolding slice
  take_split zero n t xs e = let t-n : t ≡ n = omega arith in rw t-n
  take_split (suc m) n zero xs e = absurd (omega arith)
  take_split (suc m) n (suc t) [] e = refl
  take_split (suc m) n (suc t) (x ∷ xs) e = ap (◌∷◌ x) (take_split m n t xs (omega arith))

  -- A read of `t` items is one of `m` and one of the `n` behind them.
  pub slice_split :
      (a m n t b : ℕ) (xs : List A)
      → t ≡ m + n
      → b ≡ a + m
      → slice a t xs ≡ slice a m xs ++ slice b n xs
  unfolding slice
  slice_split zero m n t b xs e f = let b-m : b ≡ m = omega arith in rw b-m (take_split m n t xs e)
  slice_split (suc a) m n t zero xs e f = absurd (omega arith)
  slice_split (suc a) m n t (suc b) [] e f = refl
  slice_split (suc a) m n t (suc b) (x ∷ xs) e f = slice_split a m n t b xs e (omega arith)

  pub blit_nothing : (xs : List A) → blit 0 [] xs ≡ xs
  unfolding blit
  blit_nothing xs = refl

  pub blit-nil : (o : ℕ) (c : List A) → blit o c [] ≡ []
  unfolding blit
  blit-nil zero [] = refl
  blit-nil zero (x ∷ c) = refl
  blit-nil (suc o) c = refl

  pub slice-zero : (a : ℕ) (xs : List A) → slice a 0 xs ≡ []
  unfolding slice
  slice-zero zero xs = refl
  slice-zero (suc a) [] = refl
  slice-zero (suc a) (x ∷ xs) = slice-zero a xs

  pub length-slice : (a n : ℕ) (xs : List A) → length (slice a n xs) ≡ min n (length xs - a)
  unfolding slice
  length-slice zero n xs = omega (arith, length-take {ℓ} n xs)
  length-slice (suc a) n [] = omega arith
  length-slice (suc a) n (x ∷ xs) = omega (arith, length-slice a n xs)
