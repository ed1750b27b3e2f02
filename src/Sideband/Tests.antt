-- ===== src/Sideband/Tests.antt =====
-- Runs of one kind of sideband device.
use inferno_windows.Prelude.{ℕ, ◌≡◌, ◌⊎◌, inl, refl, true, false, List, [], ◌∷◌, ◌++◌, arith}
use inferno_windows.Status.{success}
use inferno_windows.Sideband.{
  Manager, Answers, arrival, removal, start, stop, run_work_item, cleanup_sideband,
}
use inferno_windows.Sideband.Calls.{Call, change, round, run_calls}
use inferno_windows.Sideband.References.{IsBalanced, run_calls-IsBalanced}
use inferno_windows.Sideband.Drain.{run_work_item_ends, cleanup_sideband_ends, stops}
use inferno_windows.Sideband.Places.{acts}
use inferno_windows.Sideband.Endings.{cleanup-run_calls}
use inferno_windows.Sideband.{
  interface_change, interface_removal, depart, device_find, interface_arrival, arrive, run_first,
  add_device,
}
use inferno_windows.Sideband.Calls.{step}

-- An environment that is set up, with no device; object 9 has a reference from elsewhere.
abbrev ready : Manager
ready = record {
  enable_cleanup = true;
  work_item = true;
  registered = true;
  devices = [];
  tasks = [];
  counts = λ y. 0;
  objects = 0;
  calls = [];
}

abbrev good : Answers
good = record { room = true; init = success; task_room = true }

abbrev busy : Answers
busy = record { room = true; init = success; task_room = false }

-- Two devices arrive, one of them with a second notification; the first is started and removed.
abbrev calls : List Call
calls =
    change true arrival good (65 ∷ [])
    ∷ change true arrival good (65 ∷ [])
    ∷ round
    ∷ change true arrival busy (66 ∷ [])
    ∷ change true arrival good (66 ∷ [])
    ∷ change true removal good (65 ∷ [])
    ∷ []

run_calls-IsBalanced_example : IsBalanced (λ y. 0) (run_calls calls ready)
run_calls-IsBalanced_example = run_calls-IsBalanced calls (λ y. 0) ready (λ y. omega arith)

run_work_item_ends_example :
    let m = run_calls calls ready in
    ((run_work_item m).tasks ≡ [])
    × ((run_work_item m).calls ≡ m.calls ++ m.tasks)
    × ((run_work_item m).devices ≡ m.devices)
run_work_item_ends_example = run_work_item_ends (run_calls calls ready)

cleanup_sideband_ends_example :
    let m = run_calls calls ready in
    let e = cleanup_sideband m in
    (e.devices ≡ [])
    × (e.tasks ≡ [])
    × (e.calls ≡ (m.calls ++ m.tasks) ++ stops m.devices)
    × ((y : ℕ) → e.counts y ≡ 0)
unfolding run_calls step interface_change interface_removal depart device_find interface_arrival
    arrive run_first add_device
cleanup_sideband_ends_example =
    cleanup_sideband_ends (λ y. 0) (run_calls calls ready)
      (run_calls-IsBalanced calls (λ y. 0) ready (λ y. omega arith)) refl refl

cleanup-run_calls_example :
    (acts 0 (cleanup_sideband (run_calls calls ready)).calls ≡ [])
    ⊎ (acts 0 (cleanup_sideband (run_calls calls ready)).calls ≡ start ∷ stop ∷ [])
cleanup-run_calls_example = cleanup-run_calls calls ready 0 refl refl (inl (refl, refl))
