-- ===== src/Sideband/Endings.antt =====
-- The end of an environment for sideband devices, from its set-up on.
use inferno_windows.Prelude.{
  ℕ, ◌≡◌, ◌⊎◌, Bool, true, false, Option, none, some, List, [], ◌∷◌, if_both,
}
use inferno_windows.Status.{NtStatus, nt_success}
use inferno_windows.Sideband.{
  Device, Task, start, stop, Manager, Answers, arrival, removal, other, find_named, device_find,
  add_device, arrive, interface_arrival, depart, interface_removal, interface_change, run_first,
  cleanup_sideband,
}
use inferno_windows.Sideband.Calls.{Call, change, round, step, run_calls}
use inferno_windows.Sideband.Places.{acts, IsInOrder}
use inferno_windows.Sideband.Order.{run_calls-IsInOrder, cleanup_sideband-stops}

-- What notifications leave as it was set up.
abbrev IsSetUp : Manager → Type 0
IsSetUp m = (m.enable_cleanup ≡ true) × (m.work_item ≡ true)

add_device-IsSetUp :
    (a : Answers) (name : List ℕ) (m : Manager) → IsSetUp m → IsSetUp (add_device a name m).1
unfolding add_device
add_device-IsSetUp a name m p =
    if_both (λ (r : NtStatus × Manager). IsSetUp r.1) a.room
      (if_both (λ (r : NtStatus × Manager). IsSetUp r.1) (nt_success a.init)
        (if_both (λ (r : NtStatus × Manager). IsSetUp r.1) a.task_room p p) p)
      p

arrive-IsSetUp :
    (a : Answers) (name : List ℕ) (o : Option Device) (m : Manager)
    → IsSetUp m
    → IsSetUp (arrive a name (o, m)).1
unfolding arrive
arrive-IsSetUp a name none m p = add_device-IsSetUp a name m p
arrive-IsSetUp a name (some d) m p = p

depart-IsSetUp :
    (task_room : Bool) (o : Option Device) (m : Manager)
    → IsSetUp m
    → IsSetUp (depart task_room (o, m)).1
unfolding depart
depart-IsSetUp task_room none m p = p
depart-IsSetUp task_room (some d) m p =
    if_both (λ (r : NtStatus × Manager). IsSetUp r.1) task_room p p

run_first-IsSetUp : (ts : List Task) (m : Manager) → IsSetUp m → IsSetUp (run_first ts m)
unfolding run_first
run_first-IsSetUp [] m p = p
run_first-IsSetUp (t ∷ ts) m p = p

step-IsSetUp : (c : Call) (m : Manager) → IsSetUp m → IsSetUp (step c m)
unfolding step interface_change interface_arrival interface_removal device_find
step-IsSetUp (change false e a name) m p = p
step-IsSetUp (change true arrival a name) m p =
    arrive-IsSetUp a name (find_named name m.devices) _ p
step-IsSetUp (change true removal a name) m p =
    depart-IsSetUp a.task_room (find_named name m.devices) _ p
step-IsSetUp (change true other a name) m p = p
step-IsSetUp round m p = run_first-IsSetUp m.tasks m p

run_calls-IsSetUp : (cs : List Call) (m : Manager) → IsSetUp m → IsSetUp (run_calls cs m)
unfolding run_calls
run_calls-IsSetUp [] m p = p
run_calls-IsSetUp (c ∷ cs) m p = run_calls-IsSetUp cs (step c m) (step-IsSetUp c m p)

-- After any notifications and rounds of the work item, failed ones included, the clean-up of an
-- environment that was set up with its work item leaves each device object either with no call at
-- all, or with one Start and one Stop behind it.
pub cleanup-run_calls :
    (cs : List Call) (m : Manager) (x : ℕ)
    → m.enable_cleanup ≡ true
    → m.work_item ≡ true
    → IsInOrder x m
    → (acts x (cleanup_sideband (run_calls cs m)).calls ≡ [])
      ⊎ (acts x (cleanup_sideband (run_calls cs m)).calls ≡ start ∷ stop ∷ [])
cleanup-run_calls cs m x enabled item p =
    let up = run_calls-IsSetUp cs m (enabled, item) in
    cleanup_sideband-stops (run_calls cs m) x up.0 up.1 (run_calls-IsInOrder cs m x p)
