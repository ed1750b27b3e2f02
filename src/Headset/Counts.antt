-- ===== src/Headset/Counts.antt =====
-- One call on the count of open or of started streams.
use inferno_windows.Prelude.{
  ℕ, suc, ◌<◌, ◌^◌, ◌≡◌, inl, inr, refl, sym, subst, arith, Bool, true, false, List, [], ◌∷◌, ◌++◌,
  append_assoc, ◌==◌, if◌then◌else◌, if_true, if_false, if_both2,
}
use inferno_windows.Status.{NtStatus, nt_success}
use inferno_windows.Headset.{
  Direction, Opening, Starting, increment, decrement, open_first, stream_open, stream_close,
  start_first, stream_start, stream_suspend,
}
use inferno_windows.Headset.Gate.{IsFirst}

-- Both requests of an opening succeed; all three steps of a start do.
abbrev pub opening_took : Opening → Bool
opening_took a =
    if nt_success a.open_stream then (if nt_success a.enable then true else false) else false

abbrev pub starting_took : Starting → Bool
starting_took a =
    if nt_success a.prepare
    then (if nt_success a.start then (if nt_success a.get then true else false) else false)
    else false

-- What a first user leaves of the count and the log.
abbrev pub Opened : Direction → Bool → NtStatus × Direction → Type 0
Opened d b r = IsFirst b d.opened r.1.opens r.1.opened

abbrev pub Started : Direction → Bool → NtStatus × Direction → Type 0
Started d b r = IsFirst b d.started r.1.starts r.1.started

-- What other users leave of them.
abbrev pub IsAt : ℕ → List Bool → ℕ → List Bool → Type 0
IsAt n old count log = (count ≡ n) × (log ≡ old)

open_first-IsFirst :
    (a : Opening) (d : Direction) → d.opens ≡ 1 → Opened d (opening_took a) (open_first a d)
unfolding open_first
open_first-IsFirst a d h =
    if_both2 (Opened d) (nt_success a.open_stream)
      (if_both2 (Opened d) (nt_success a.enable) (h, refl)
        (omega (arith, h), inr (append_assoc d.opened (true ∷ []) (false ∷ []))))
      (omega (arith, h), inl refl)

start_first-IsFirst :
    (a : Starting) (d : Direction) → d.starts ≡ 1 → Started d (starting_took a) (start_first a d)
unfolding start_first
start_first-IsFirst a d h =
    if_both2 (Started d) (nt_success a.prepare)
      (if_both2 (Started d) (nt_success a.start)
        (if_both2 (Started d) (nt_success a.get) (h, refl)
          (omega (arith, h), inr (append_assoc d.started (true ∷ []) (false ∷ []))))
        (omega (arith, h), inl refl))
      (omega (arith, h), inl refl)

pub stream_open-IsFirst :
    (a : Opening) (d : Direction) → d.opens ≡ 0 → Opened d (opening_took a) (stream_open a d)
unfolding stream_open
stream_open-IsFirst a d h =
    subst (Opened d (opening_took a))
      (sym (if_true (increment d.opens == 1) _ _ (ground (arith, h))))
      (open_first-IsFirst a (record d { opens = increment d.opens }) (omega (arith, h)))

pub stream_start-IsFirst :
    (a : Starting) (d : Direction) → d.starts ≡ 0 → Started d (starting_took a) (stream_start a d)
unfolding stream_start
stream_start-IsFirst a d h =
    subst (Started d (starting_took a))
      (sym (if_true (increment d.starts == 1) _ _ (ground (arith, h))))
      (start_first-IsFirst a (record d { starts = increment d.starts }) (omega (arith, h)))

pub stream_open_more :
    (a : Opening) (d : Direction) (n : ℕ)
    → d.opens ≡ suc n
    → suc (suc n) < 2 ^ 32
    → IsAt (suc (suc n)) d.opened (stream_open a d).1.opens (stream_open a d).1.opened
unfolding stream_open
stream_open_more a d n h bound =
    subst (λ (r : NtStatus × Direction). IsAt (suc (suc n)) d.opened r.1.opens r.1.opened)
      (sym (if_false (increment d.opens == 1) _ _ (ground (arith, h, bound))))
      (omega (arith, h, bound), refl)

pub stream_start_more :
    (a : Starting) (d : Direction) (n : ℕ)
    → d.starts ≡ suc n
    → suc (suc n) < 2 ^ 32
    → IsAt (suc (suc n)) d.started (stream_start a d).1.starts (stream_start a d).1.started
unfolding stream_start
stream_start_more a d n h bound =
    subst (λ (r : NtStatus × Direction). IsAt (suc (suc n)) d.started r.1.starts r.1.started)
      (sym (if_false (increment d.starts == 1) _ _ (ground (arith, h, bound))))
      (omega (arith, h, bound), refl)

pub stream_close_last :
    (c : NtStatus) (d : Direction)
    → d.opens ≡ 1
    → IsAt 0 (d.opened ++ (false ∷ [])) (stream_close c d).1.opens (stream_close c d).1.opened
unfolding stream_close
stream_close_last c d h =
    subst (λ (r : NtStatus × Direction). IsAt 0 (d.opened ++ (false ∷ [])) r.1.opens r.1.opened)
      (sym (if_true (decrement d.opens == 0) _ _ (ground (arith, h)))) (omega (arith, h), refl)

pub stream_suspend_last :
    (c : NtStatus) (d : Direction)
    → d.starts ≡ 1
    → IsAt 0
        (d.started ++ (false ∷ []))
        (stream_suspend c d).1.starts
        (stream_suspend c d).1.started
unfolding stream_suspend
stream_suspend_last c d h =
    subst (λ (r : NtStatus × Direction). IsAt 0 (d.started ++ (false ∷ [])) r.1.starts r.1.started)
      (sym (if_true (decrement d.starts == 0) _ _ (ground (arith, h)))) (omega (arith, h), refl)

pub stream_close_more :
    (c : NtStatus) (d : Direction) (n : ℕ)
    → d.opens ≡ suc (suc n)
    → suc (suc n) < 2 ^ 32
    → IsAt (suc n) d.opened (stream_close c d).1.opens (stream_close c d).1.opened
unfolding stream_close
stream_close_more c d n h bound =
    subst (λ (r : NtStatus × Direction). IsAt (suc n) d.opened r.1.opens r.1.opened)
      (sym (if_false (decrement d.opens == 0) _ _ (ground (arith, h, bound))))
      (omega (arith, h, bound), refl)

pub stream_suspend_more :
    (c : NtStatus) (d : Direction) (n : ℕ)
    → d.starts ≡ suc (suc n)
    → suc (suc n) < 2 ^ 32
    → IsAt (suc n) d.started (stream_suspend c d).1.starts (stream_suspend c d).1.started
unfolding stream_suspend
stream_suspend_more c d n h bound =
    subst (λ (r : NtStatus × Direction). IsAt (suc n) d.started r.1.starts r.1.started)
      (sym (if_false (decrement d.starts == 0) _ _ (ground (arith, h, bound))))
      (omega (arith, h, bound), refl)
