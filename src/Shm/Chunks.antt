-- ===== src/Shm/Chunks.antt =====
-- Splitting a write into calls of InfernoShmWrite.
use native.Mathlib.Nat.{mul-le-mul_right, add_comm, zero-add}
use mathlib.Core.Path.{◌≡⟨◌⟩◌, ◌∎}
use inferno_windows.Prelude.{
  ℕ, zero, suc, ◌+◌, ◌*◌, ◌%◌, ◌≤◌, ◌<◌, ◌^◌, ◌≡◌, refl, sym, ap, arith, List, ◌++◌, length, get_or,
  get_or-append_left, get_or-append_right, Option, none, some,
}
use inferno_windows.Shm.{
  View, Shm, frame_slot, write_channels, write_frames, write_view, write_base, write,
}

-- The loop over the channels reads its samples at `f * ch + c` only.
write_channels_cong :
    (xs ys : List ℕ) (ch slot f g n c : ℕ) (ring : List ℕ)
    → ((i : ℕ)
        → i < c + n
        → get_or xs ((f * ch + i) % 2 ^ 32) 0 ≡ get_or ys ((g * ch + i) % 2 ^ 32) 0)
    → write_channels xs ch slot f n c ring ≡ write_channels ys ch slot g n c ring
unfolding write_channels
write_channels_cong xs ys ch slot f g zero c ring same = refl
write_channels_cong xs ys ch slot f g (suc n) c ring same =
    rw (same c (omega arith))
      (write_channels_cong xs ys ch slot f g n (c + 1) _ (λ i h. same i (omega arith)))

-- A loop over `m + n` frames is one over `m`, then one over `n`.
write_frames_add :
    (samples : List ℕ) (ch w m n f : ℕ) (ring : List ℕ)
    → write_frames samples ch w (m + n) f ring
      ≡ write_frames samples ch w n (f + m) (write_frames samples ch w m f ring)
unfolding write_frames
write_frames_add samples ch w zero n f ring =
    let e : f + 0 ≡ f = omega arith in let e' : zero + n ≡ n = omega arith in rw (e, e')
write_frames_add samples ch w (suc m) n f ring =
    let e : f + suc m ≡ f + 1 + m = omega arith in
    let e' : suc m + n ≡ suc (m + n) = omega arith in
    rw (e, e') (write_frames_add samples ch w m n (f + 1) _)

-- The first part reads the first samples only.
write_frames_left :
    (xs ys : List ℕ) (ch w n f : ℕ) (ring : List ℕ)
    → (f + n) * ch ≤ length xs
    → (f + n) * ch ≤ 2 ^ 32
    → write_frames (xs ++ ys) ch w n f ring ≡ write_frames xs ch w n f ring
unfolding write_frames
write_frames_left xs ys ch w zero f ring l b = refl
write_frames_left xs ys ch w (suc n) f ring l b =
    rw (write_channels_cong (xs ++ ys) xs ch (frame_slot w f) f f ch 0 ring same)
      (write_frames_left xs ys ch w n (f + 1) _ (omega arith) (omega arith))
  where
    same :
        (i : ℕ)
        → i < 0 + ch
        → get_or (xs ++ ys) ((f * ch + i) % 2 ^ 32) 0 ≡ get_or xs ((f * ch + i) % 2 ^ 32) 0
    same i h =
        get_or-append_left xs ys _ 0
          (omega (arith, mul-le-mul_right {m = suc f} {n = f + suc n} ch (omega arith)))

-- The second part is a write of its own, from the index that the first leaves.
write_frames_right :
    (xs ys : List ℕ) (ch w m n f : ℕ) (ring : List ℕ)
    → m * ch ≡ length xs
    → (m + (f + n)) * ch ≤ 2 ^ 32
    → write_frames (xs ++ ys) ch w n (m + f) ring ≡ write_frames ys ch ((w + m) % 2 ^ 32) n f ring
unfolding write_frames
write_frames_right xs ys ch w m zero f ring l b = refl
write_frames_right xs ys ch w m (suc n) f ring l b =
    rw (slot, next, write_channels_cong (xs ++ ys) ys ch _ (m + f) f ch 0 ring same)
      (write_frames_right xs ys ch w m n (f + 1) _ l (rw round b))
  where
    slot : frame_slot w (m + f) ≡ frame_slot ((w + m) % 2 ^ 32) f
    slot = omega arith

    next : m + f + 1 ≡ m + (f + 1)
    next = omega arith

    round : m + (f + 1 + n) ≡ m + (f + suc n)
    round = omega arith

    same :
        (i : ℕ)
        → i < 0 + ch
        → get_or (xs ++ ys) (((m + f) * ch + i) % 2 ^ 32) 0 ≡ get_or ys ((f * ch + i) % 2 ^ 32) 0
    same i h = get_or-append_right xs ys ((f * ch + i) % 2 ^ 32) (((m + f) * ch + i) % 2 ^ 32) 0 (
        omega (
          arith,
          mul-le-mul_right {m = m + suc f} {n = m + (f + suc n)} ch (omega arith),
          mul-le-mul_right {m = suc f} {n = m + (f + suc n)} ch (omega arith),
        ))

write_frames_append :
    (xs ys : List ℕ) (ch w m n : ℕ) (ring : List ℕ)
    → length xs ≡ m * ch
    → (m + n) * ch ≤ 2 ^ 32
    → write_frames ys ch ((w + m) % 2 ^ 32) n 0 (write_frames xs ch w m 0 ring)
      ≡ write_frames (xs ++ ys) ch w (m + n) 0 ring
write_frames_append xs ys ch w m n ring l b =
    write_frames ys ch ((w + m) % 2 ^ 32) n 0 (write_frames xs ch w m 0 ring)
    ≡⟨ sym (write_frames_right xs ys ch w m n 0 _ (sym l) (rw (zero-add n) b)) ⟩
      write_frames (xs ++ ys) ch w n (m + 0) (write_frames xs ch w m 0 ring)
    ≡⟨ (rw (write_frames_left xs ys ch w m 0 ring (omega arith) (omega arith), add_comm m 0)) ⟩
      write_frames (xs ++ ys) ch w n (0 + m) (write_frames (xs ++ ys) ch w m 0 ring)
    ≡⟨ sym (write_frames_add (xs ++ ys) ch w m n 0 ring) ⟩
      write_frames (xs ++ ys) ch w (m + n) 0 ring ∎

module _ (xs ys : List ℕ) (m n ch : ℕ) (l : length xs ≡ m * ch) (b : (m + n) * ch ≤ 2 ^ 32) where
  write_view_append :
      (v : View) → write_view ys n ch (write_view xs m ch v) ≡ write_view (xs ++ ys) (m + n) ch v
  unfolding write_view
  write_view_append v = λ i. record v {
    ring = write_frames_append xs ys ch v.write_index m n v.ring l b i;
    write_index = index i;
  }
    where
      index : ((v.write_index + m) % 2 ^ 32 + n) % 2 ^ 32 ≡ (v.write_index + (m + n)) % 2 ^ 32
      index = omega arith

  write_base_append :
      (o : Option View)
      → write_base ys n ch (write_base xs m ch o) ≡ write_base (xs ++ ys) (m + n) ch o
  unfolding write_base
  write_base_append none = refl
  write_base_append (some v) = ap some (write_view_append v)

  -- Two calls, the first with its samples complete, write what one call with the samples of both
  -- writes, the index included.
  pub write_append : (s : Shm) → write ys n ch (write xs m ch s) ≡ write (xs ++ ys) (m + n) ch s
  unfolding write
  write_append s = λ i. record s { base = write_base_append s.base i }
