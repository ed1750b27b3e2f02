-- ===== src/Headset/Gate.antt =====
-- What the counts of streams have in common: the first user opens, the last one closes.
use inferno_windows.Prelude.{
  ℕ, zero, suc, ◌+◌, ◌<◌, ◌^◌, ◌≡◌, ◌⊎◌, inl, inr, ap, ◌∙◌, subst, arith, Bool, true, false, Option,
  none, some, List, [], ◌∷◌, ◌++◌, length, append_assoc, if◌then◌else◌,
}
use inferno_windows.Status.{NtStatus}
use inferno_windows.Alternation.{pairs, told}

-- What the first user finds after its turn: the count and what the device was told. A user that
-- fails leaves no count, and has the device closed again where it was opened.
abbrev pub IsFirst : Bool → List Bool → ℕ → List Bool → Type 0
IsFirst true old count log = (count ≡ 1) × (log ≡ old ++ (true ∷ []))
IsFirst false old count log = (count ≡ 0) × ((log ≡ old) ⊎ (log ≡ old ++ (true ∷ false ∷ [])))

-- A count with its log, for states `S` and what a user meets `A`.
pub record Gate (S A : Type 0) : Type 0 where
  pub count : S → ℕ
  pub log : S → List Bool
  pub took : A → Bool
  pub begin : A → S → S
  pub finish : NtStatus → S → S
  pub begin_first :
      (a : A) (s : S) → count s ≡ 0 → IsFirst (took a) (log s) (count (begin a s)) (log (begin a s))
  pub begin_more :
      (a : A) (s : S) (n : ℕ)
      → count s ≡ suc n
      → suc (suc n) < 2 ^ 32
      → (count (begin a s) ≡ suc (suc n)) × (log (begin a s) ≡ log s)
  pub finish_last :
      (c : NtStatus) (s : S)
      → count s ≡ 1
      → (count (finish c s) ≡ 0) × (log (finish c s) ≡ log s ++ (false ∷ []))
  pub finish_more :
      (c : NtStatus) (s : S) (n : ℕ)
      → count s ≡ suc (suc n)
      → suc (suc n) < 2 ^ 32
      → (count (finish c s) ≡ suc n) × (log (finish c s) ≡ log s)

-- What the users do.
pub data Use (A : Type 0) : Type 0 where
  begin : A → Use A
  finish : NtStatus → Use A

module _ {S A : Type 0} (g : Gate S A) where
  abbrev pub run_uses : List (Use A) → S → S
  run_uses [] s = s
  run_uses (Use.begin a ∷ us) s = run_uses us (g.begin a s)
  run_uses (Use.finish closed ∷ us) s = run_uses us (g.finish closed s)

  -- How many users there are behind a list of uses, if none finishes that did not begin.
  abbrev pub users : List (Use A) → ℕ → Option ℕ
  users [] n = some n
  users (Use.begin a ∷ us) zero = users us (if g.took a then 1 else 0)
  users (Use.begin a ∷ us) (suc n) = users us (suc (suc n))
  users (Use.finish closed ∷ us) zero = none
  users (Use.finish closed ∷ us) (suc n) = users us n

  -- The count is the number of users, and the device was told to open and to close in turn, last to
  -- open where there are users.
  abbrev pub IsCounted : ℕ → S → Type 0
  IsCounted n s = (g.count s ≡ n) × ((j : ℕ) × (g.log s ≡ told true j n))

  begin_first-IsCounted :
      (b : Bool) (s s' : S)
      → IsFirst b (g.log s) (g.count s') (g.log s')
      → IsCounted 0 s
      → IsCounted (if b then 1 else 0) s'
  begin_first-IsCounted true s s' (c, l) (_, (j, h)) =
      (c, (j, l ∙ ap (λ (bs : List Bool). bs ++ (true ∷ [])) h))
  begin_first-IsCounted false s s' (c, inl l) (_, (j, h)) = (c, (j, l ∙ h))
  begin_first-IsCounted false s s' (c, inr l) (_, (j, h)) =
      (c, (suc j, l ∙ ap (λ (bs : List Bool). bs ++ (true ∷ false ∷ [])) h))

  pub run_uses-IsCounted :
      (us : List (Use A)) (s : S) (n left : ℕ)
      → n + length us < 2 ^ 32
      → users us n ≡ some left
      → IsCounted n s
      → IsCounted left (run_uses us s)
  run_uses-IsCounted [] s n left bound h p = subst (λ (x : ℕ). IsCounted x s) (ground (arith, h)) p
  run_uses-IsCounted (Use.begin a ∷ us) s zero left bound h p =
      run_uses-IsCounted us (g.begin a s) (if g.took a then 1 else 0) left (ground (arith, bound)) h
        (begin_first-IsCounted (g.took a) s (g.begin a s) (g.begin_first a s p.0) p)
  run_uses-IsCounted (Use.begin a ∷ us) s (suc n) left bound h (c, (j, l)) =
      let (c', l') = g.begin_more a s n c (omega (arith, bound)) in
      run_uses-IsCounted us (g.begin a s) (suc (suc n)) left (omega (arith, bound)) h
        (c', (j, l' ∙ l))
  run_uses-IsCounted (Use.finish closed ∷ us) s zero left bound h p = absurd (ground (arith, h))
  run_uses-IsCounted (Use.finish closed ∷ us) s (suc zero) left bound h (c, (j, l)) =
      let (c', l') = g.finish_last closed s c in
      run_uses-IsCounted us (g.finish closed s) 0 left (omega (arith, bound)) h (
        c',
        (
          suc j,
          l'
              ∙ ap (λ (bs : List Bool). bs ++ (false ∷ [])) l
              ∙ append_assoc (pairs true j) (true ∷ []) (false ∷ []),
        ),
      )
  run_uses-IsCounted (Use.finish closed ∷ us) s (suc (suc n)) left bound h (c, (j, l)) =
      let (c', l') = g.finish_more closed s n c (omega (arith, bound)) in
      run_uses-IsCounted us (g.finish closed s) (suc n) left (omega (arith, bound)) h
        (c', (j, l' ∙ l))
