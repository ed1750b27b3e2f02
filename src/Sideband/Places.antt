-- ===== src/Sideband/Places.antt =====
-- The place of a sideband device between its Start and its Stop.
use inferno_windows.Prelude.{
  ℕ, ◌+◌, ◌≤◌, ◌<◌, ◌≡◌, ◌⊎◌, inl, inr, refl, ap, sym, ◌∙◌, arith, true, false, Bool-cases, List,
  [], ◌∷◌, ◌++◌, ◌==◌, ==_iff, if◌then◌else◌, if_true, if_false, append-nil, append_assoc,
}
use inferno_windows.Objects.{one}
use inferno_windows.Sideband.{Task, Action, start, stop, Manager}
use inferno_windows.Sideband.References.{listed}

-- The actions of tasks on one device.
abbrev pub act_of : ℕ → Task → List Action
act_of x t = if t.device == x then t.action ∷ [] else []

abbrev pub acts : ℕ → List Task → List Action
acts x [] = []
acts x (t ∷ ts) = act_of x t ++ acts x ts

-- The calls so far on one device, and behind them those that are queued.
abbrev pub history : ℕ → Manager → List Action
history x m = acts x m.calls ++ acts x m.tasks

-- The place of a device object, by the number of objects made, the number of its entries in the
-- list, and its history: it is not there yet, or never got into the list; it is listed, and to be
-- started once; or it has left the list, and is to be started and then stopped.
abbrev pub IsPlaced : ℕ → ℕ → ℕ → List Action → Type 0
IsPlaced x objects l h =
    ((l ≡ 0) × (h ≡ []))
    ⊎ ((x < objects) × (l ≡ 1) × (h ≡ start ∷ []))
    ⊎ ((x < objects) × (l ≡ 0) × (h ≡ start ∷ stop ∷ []))

abbrev pub IsInOrder : ℕ → Manager → Type 0
IsInOrder x m = IsPlaced x m.objects (listed x m.devices) (history x m)

pub acts-append : (x : ℕ) (ts us : List Task) → acts x (ts ++ us) ≡ acts x ts ++ acts x us
acts-append x [] us = refl
acts-append x (t ∷ ts) us =
    ap (λ (bs : List Action). act_of x t ++ bs) (acts-append x ts us)
    ∙ sym (append_assoc (act_of x t) (acts x ts) (acts x us))

pub history-queue :
    (x : ℕ) (calls ts : List Task) (t : Task)
    → acts x calls ++ acts x (ts ++ (t ∷ [])) ≡ (acts x calls ++ acts x ts) ++ act_of x t
history-queue x calls ts t =
    ap (λ (bs : List Action). acts x calls ++ bs) (acts-append x ts (t ∷ []))
    ∙ ap (λ (bs : List Action). acts x calls ++ (acts x ts ++ bs)) (append-nil (act_of x t))
    ∙ sym (append_assoc (acts x calls) (acts x ts) (act_of x t))

pub act_of_hit : (x : ℕ) (t : Task) → (t.device == x) ≡ true → act_of x t ≡ t.action ∷ []
act_of_hit x t h = if_true (t.device == x) _ _ h

pub act_of_miss : (x : ℕ) (t : Task) → (t.device == x) ≡ false → act_of x t ≡ []
act_of_miss x t h = if_false (t.device == x) _ _ h

-- A step that does not touch a device keeps its place.
pub place_same :
    {x o o' l l' : ℕ} {h h' : List Action}
    → o ≤ o'
    → l' ≡ l
    → h' ≡ h
    → IsPlaced x o l h
    → IsPlaced x o' l' h'
place_same q r s (inl (a, b)) = inl (r ∙ a, s ∙ b)
place_same q r s (inr (inl (a, b, c))) = inr (inl (omega (arith, a, q), r ∙ b, s ∙ c))
place_same q r s (inr (inr (a, b, c))) = inr (inr (omega (arith, a, q), r ∙ b, s ∙ c))

-- The device that is made gets its Start when it gets into the list.
pub place_add :
    {x o l l' : ℕ} {h h' : List Action}
    → l' ≡ l + one o x
    → h' ≡ h ++ act_of x (record { action = start; device = o })
    → IsPlaced x o l h
    → IsPlaced x (o + 1) l' h'
place_add {x} {o} {l} {l'} {h} {h'} r s p = elim (Bool-cases (o == x)) [
  | inl new ↦ elim p [
    | inl (a, b) ↦ inr (
        inl (
          ground (arith, ==_iff o x, new),
          ground (arith, r, a, new),
          s
              ∙ ap (λ (bs : List Action). bs ++ act_of x (record { action = start; device = o })) b
              ∙ act_of_hit x (record { action = start; device = o }) new,
        ))
    | inr (inl (a, b, c)) ↦ absurd (ground (arith, ==_iff o x, new, a))
    | inr (inr (a, b, c)) ↦ absurd (ground (arith, ==_iff o x, new, a))
  ]
  | inr old ↦
      place_same (omega arith) (ground (arith, r, old))
        (s
          ∙ ap (λ (bs : List Action). h ++ bs)
              (act_of_miss x (record { action = start; device = o }) old)
          ∙ append-nil h)
        p
]

-- A device gets its Stop when it leaves the list.
pub place_remove :
    {x o l l' : ℕ} {h h' : List Action} (y : ℕ)
    → l ≡ l' + one y x
    → h' ≡ h ++ act_of x (record { action = stop; device = y })
    → IsPlaced x o l h
    → IsPlaced x o l' h'
place_remove {x} {o} {l} {l'} {h} {h'} y r s p = elim (Bool-cases (y == x)) [
  | inl hit ↦ elim p [
    | inl (a, b) ↦ absurd (ground (arith, r, a, hit))
    | inr (inl (a, b, c)) ↦ inr (
        inr (
          a,
          ground (arith, r, b, hit),
          s
              ∙ ap (λ (bs : List Action). bs ++ act_of x (record { action = stop; device = y })) c
              ∙ ap (λ (bs : List Action). start ∷ bs)
                  (act_of_hit x (record { action = stop; device = y }) hit),
        ))
    | inr (inr (a, b, c)) ↦ absurd (ground (arith, r, b, hit))
  ]
  | inr miss ↦
      place_same (omega arith) (ground (arith, r, miss))
        (s
          ∙ ap (λ (bs : List Action). h ++ bs)
              (act_of_miss x (record { action = stop; device = y }) miss)
          ∙ append-nil h)
        p
]
