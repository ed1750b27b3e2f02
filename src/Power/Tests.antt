-- ===== src/Power/Tests.antt =====
-- Runs of the power functions.
use inferno_windows.Prelude.{
  ℕ, ◌≡◌, refl, true, false, none, some, List, [], ◌∷◌, arith, if◌then◌else◌, ◌==◌,
}
use inferno_windows.Status.{NtStatus, success, unsuccessful}
use inferno_windows.Subdevices.{Subdevice}
use inferno_windows.Power.{PowerState, Power, d0, d3, power_change_state}
use inferno_windows.Power.Relations.{
  Relations, Call, add, remove, update, run_relations, IsBalanced, run_relations-IsBalanced,
}

abbrev subdevices : List Subdevice
subdevices =
    record { name = 84 ∷ []; port = 1; miniport = 2; power = some 2; change = none }
    ∷ record { name = 87 ∷ []; port = 3; miniport = 4; power = none; change = none }
    ∷ record { name = 88 ∷ []; port = 5; miniport = 6; power = some 6; change = none }
    ∷ []

abbrev awake : Power
awake = record { state = d0; notices = [] }

power_change_state_test : (power_change_state d3 subdevices awake).state ≡ d3
unfolding power_change_state
power_change_state_test = refl

-- The last subdevice refuses.
abbrev answer : ℕ → PowerState → NtStatus
answer x new = if x == 6 then unsuccessful else success

abbrev request : Relations
request = record {
  devices = [];
  counts = λ y. if y == 4 then 1 else 0;
  information = some (4 ∷ []);
}

abbrev calls : List Call
calls = add true 7 ∷ add true 7 ∷ update true ∷ remove 7 ∷ add false 8 ∷ []

run_relations-IsBalanced_example : IsBalanced (λ y. 0) (run_relations calls request)
run_relations-IsBalanced_example =
    run_relations-IsBalanced calls (λ y. 0) request (λ y. ground arith)
