-- ===== src/Power/States.antt =====
-- The states of power, and what the subdevices are told and asked.
use inferno_windows.Prelude.{
  ℕ, ◌≡◌, refl, ap, sym, ◌∙◌, Bool, true, false, Bool-cases, ◌&&◌, Option, none, some, inl, inr,
  List, [], ◌∷◌, ◌++◌, append-nil, append_assoc, if_true, if_false, if◌then◌else◌,
}
use inferno_windows.Status.{NtStatus, success, nt_success}
use inferno_windows.Subdevices.{Subdevice}
use inferno_windows.Power.{
  PowerState, Power, Notice, power_notice, entered, ask, notify_power, power_change_state,
  query_all, query_power_change_state,
}

-- One call for each subdevice that has the interface, in their order.
abbrev pub told_all : PowerState → List Subdevice → List Notice
told_all new [] = []
told_all new (e ∷ es) = power_notice new e.power ++ told_all new es

notify_power_lem :
    (new : PowerState) (es : List Subdevice) (notices : List Notice)
    → notify_power new es notices ≡ notices ++ told_all new es
unfolding notify_power
notify_power_lem new [] notices = sym (append-nil notices)
notify_power_lem new (e ∷ es) notices =
    notify_power_lem new es (notices ++ power_notice new e.power)
    ∙ append_assoc notices (power_notice new e.power) (told_all new es)

-- The states that the adapter can be in.
abbrev pub is_working : PowerState → Bool
is_working PowerState.unspecified = false
is_working PowerState.maximum = false
is_working new = true

entered_lem : (old new : PowerState) → entered old new ≡ (if is_working new then new else old)
entered_lem old PowerState.unspecified = refl
entered_lem old PowerState.d0 = refl
entered_lem old PowerState.d1 = refl
entered_lem old PowerState.d2 = refl
entered_lem old PowerState.d3 = refl
entered_lem old PowerState.maximum = refl

-- PowerChangeState tells each subdevice that has the interface once, in the order of the cache, and
-- enters the state asked for if it is D0 to D3, and stays where it was if not.
pub power_change_state_lem :
    (new : PowerState) (es : List Subdevice) (s : Power)
    → ((power_change_state new es s).notices ≡ s.notices ++ told_all new es)
      × ((power_change_state new es s).state ≡ (if is_working new then new else s.state))
unfolding power_change_state
power_change_state_lem new es s = (notify_power_lem new es s.notices, entered_lem s.state new)

abbrev agrees : (ℕ → PowerState → NtStatus) → PowerState → Option ℕ → Bool
agrees answer new none = true
agrees answer new (some x) = nt_success (answer x new)

-- Every subdevice that has the interface says that it can go there.
abbrev pub all_agree : (ℕ → PowerState → NtStatus) → PowerState → List Subdevice → Bool
all_agree answer new [] = true
all_agree answer new (e ∷ es) = agrees answer new e.power && all_agree answer new es

query_all_failed :
    (answer : ℕ → PowerState → NtStatus) (new : PowerState) (status : NtStatus)
    (es : List Subdevice)
    → nt_success status ≡ false
    → query_all answer new status es ≡ status
unfolding query_all
query_all_failed answer new status [] h = refl
query_all_failed answer new status (e ∷ es) h = if_false (nt_success status) _ _ h

ask_lem :
    (answer : ℕ → PowerState → NtStatus) (new : PowerState) (status : NtStatus) (o : Option ℕ)
    (es : List Subdevice)
    → nt_success status ≡ true
    → ((x : NtStatus)
        → nt_success x ≡ true
        → nt_success (query_all answer new x es) ≡ all_agree answer new es)
    → nt_success (query_all answer new (ask answer new o status) es)
      ≡ (agrees answer new o && all_agree answer new es)
ask_lem answer new status none es h rest = rest status h
ask_lem answer new status (some x) es h rest = elim (Bool-cases (nt_success (answer x new))) [
  | inl good ↦ rest (answer x new) good ∙ ap (λ (b : Bool). b && all_agree answer new es) (sym good)
  | inr bad ↦
      ap nt_success (query_all_failed answer new (answer x new) es bad)
      ∙ bad
      ∙ ap (λ (b : Bool). b && all_agree answer new es) (sym bad)
]

query_all_lem :
    (answer : ℕ → PowerState → NtStatus) (new : PowerState) (status : NtStatus)
    (es : List Subdevice)
    → nt_success status ≡ true
    → nt_success (query_all answer new status es) ≡ all_agree answer new es
unfolding query_all
query_all_lem answer new status [] h = h
query_all_lem answer new status (e ∷ es) h =
    ap nt_success (if_true (nt_success status) _ _ h)
    ∙ ask_lem answer new status e.power es h (λ x q. query_all_lem answer new x es q)

-- QueryPowerChangeState allows a state if and only if every subdevice that has the interface does.
pub query_power_change_state-all :
    (answer : ℕ → PowerState → NtStatus) (new : PowerState) (es : List Subdevice)
    → nt_success (query_power_change_state answer new es) ≡ all_agree answer new es
unfolding query_power_change_state
query_power_change_state-all answer new es = query_all_lem answer new success es refl
