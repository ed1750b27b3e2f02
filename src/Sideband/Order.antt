-- ===== src/Sideband/Order.antt =====
-- The order of the calls of Start and Stop on each sideband device.
use inferno_windows.Prelude.{
  ℕ, zero, suc, ◌+◌, ◌≡◌, ◌⊎◌, inl, inr, refl, ap, sym, ◌∙◌, subst, arith, Bool, true, false,
  Option, none, some, List, [], ◌∷◌, ◌++◌, length, if_true, if_both, append-nil, append_assoc,
}
use inferno_windows.Status.{NtStatus, nt_success}
use inferno_windows.Sideband.{
  Device, Task, Action, start, stop, Manager, Answers, Event, arrival, removal, other, find_named,
  device_find, add_device, arrive, interface_arrival, depart, interface_removal, interface_change,
  run_first, run_tasks, run_work_item, stop_devices, flush_work_item, cleanup_sideband, take_ref,
}
use inferno_windows.Sideband.Calls.{Call, change, round, step, run_calls}
use inferno_windows.Sideband.Drain.{run_work_item_ends, stop_devices_lem, stops}
use inferno_windows.Sideband.Places.{
  act_of, acts, acts-append, history, history-queue, IsInOrder, IsPlaced, place_same, place_add,
  place_remove,
}
use inferno_windows.Sideband.References.{listed, listed-append, listed-remove_device}

add_device-IsInOrder :
    (a : Answers) (name : List ℕ) (m : Manager) (x : ℕ)
    → IsInOrder x m
    → IsInOrder x (add_device a name m).1
unfolding add_device
add_device-IsInOrder a name m x p =
    if_both (λ (r : NtStatus × Manager). IsInOrder x r.1) a.room
      (if_both (λ (r : NtStatus × Manager). IsInOrder x r.1) (nt_success a.init)
        (if_both (λ (r : NtStatus × Manager). IsInOrder x r.1) a.task_room
          (place_add (listed-append x m.devices (record { object = m.objects; name = name }))
            (history-queue x m.calls m.tasks (record { action = start; device = m.objects })) p)
          dropped)
        dropped)
      p
  where
    dropped : IsPlaced x (m.objects + 1) (listed x m.devices) (history x m)
    dropped = place_same (omega arith) refl refl p

arrive-IsInOrder :
    (a : Answers) (name : List ℕ) (o : Option Device) (m : Manager) (x : ℕ)
    → IsInOrder x m
    → IsInOrder x (arrive a name (o, record m { counts = take_ref o m.counts })).1
unfolding arrive
arrive-IsInOrder a name none m x p = add_device-IsInOrder a name m x p
arrive-IsInOrder a name (some d) m x p = p

depart-IsInOrder :
    (task_room : Bool) (name : List ℕ) (o : Option Device) (m : Manager) (x : ℕ)
    → find_named name m.devices ≡ o
    → IsInOrder x m
    → IsInOrder x (depart task_room (o, record m { counts = take_ref o m.counts })).1
unfolding depart
depart-IsInOrder task_room name none m x h p = p
depart-IsInOrder true name (some d) m x h p =
    place_remove d.object (listed-remove_device x name m.devices d h)
      (history-queue x m.calls m.tasks (record { action = stop; device = d.object })) p
depart-IsInOrder false name (some d) m x h p = p

interface_change-IsInOrder :
    (same_class : Bool) (e : Event) (a : Answers) (name : List ℕ) (m : Manager) (x : ℕ)
    → IsInOrder x m
    → IsInOrder x (interface_change same_class e a name m).1
unfolding interface_change interface_arrival interface_removal device_find
interface_change-IsInOrder false e a name m x p = p
interface_change-IsInOrder true arrival a name m x p =
    arrive-IsInOrder a name (find_named name m.devices) m x p
interface_change-IsInOrder true removal a name m x p =
    depart-IsInOrder a.task_room name (find_named name m.devices) m x refl p
interface_change-IsInOrder true other a name m x p = p

-- A round of the loop moves a task to the calls.
run_first-IsInOrder :
    (ts : List Task) (m : Manager) (x : ℕ)
    → m.tasks ≡ ts
    → IsInOrder x m
    → IsInOrder x (run_first ts m)
unfolding run_first
run_first-IsInOrder [] m x e p = p
run_first-IsInOrder (t ∷ ts) m x e p =
    place_same (omega arith) refl
      (ap (λ (bs : List Action). bs ++ acts x ts) (acts-append x m.calls (t ∷ []))
        ∙ ap (λ (bs : List Action). (acts x m.calls ++ bs) ++ acts x ts) (append-nil (act_of x t))
        ∙ append_assoc (acts x m.calls) (act_of x t) (acts x ts)
        ∙ ap (λ (us : List Task). acts x m.calls ++ acts x us) (sym e))
      p

run_tasks-IsInOrder : (n : ℕ) (m : Manager) (x : ℕ) → IsInOrder x m → IsInOrder x (run_tasks n m)
unfolding run_tasks
run_tasks-IsInOrder zero m x p = p
run_tasks-IsInOrder (suc n) m x p =
    run_tasks-IsInOrder n _ x (run_first-IsInOrder m.tasks m x refl p)

-- With no task left, each device that a clean-up stops has been started.
stop_devices-IsInOrder :
    (ds : List Device) (m : Manager) (x : ℕ)
    → m.devices ≡ ds
    → m.tasks ≡ []
    → IsInOrder x m
    → IsInOrder x (stop_devices ds m)
unfolding stop_devices
stop_devices-IsInOrder [] m x e idle p = p
stop_devices-IsInOrder (d ∷ ds) m x e idle p = stop_devices-IsInOrder ds _ x refl idle (
    place_remove d.object (ap (listed x) e ∙ omega arith)
      (ap
          (λ (us : List Task).
            acts x (m.calls ++ (record { action = stop; device = d.object } ∷ [])) ++ acts x us)
          idle
        ∙ append-nil _
        ∙ acts-append x m.calls (record { action = stop; device = d.object } ∷ [])
        ∙ ap (λ (bs : List Action). acts x m.calls ++ bs) (append-nil _)
        ∙ ap (λ (bs : List Action). bs ++ act_of x (record { action = stop; device = d.object }))
            (sym (append-nil _) ∙ ap (λ (us : List Task). acts x m.calls ++ acts x us) (sym idle)))
      p)

pub run_calls-IsInOrder :
    (cs : List Call) (m : Manager) (x : ℕ) → IsInOrder x m → IsInOrder x (run_calls cs m)
unfolding run_calls step
run_calls-IsInOrder [] m x p = p
run_calls-IsInOrder (change same_class e a name ∷ cs) m x p =
    run_calls-IsInOrder cs _ x (interface_change-IsInOrder same_class e a name m x p)
run_calls-IsInOrder (round ∷ cs) m x p =
    run_calls-IsInOrder cs _ x (run_first-IsInOrder m.tasks m x refl p)

-- With no device and no task left, what is to come is over.
ended :
    (x : ℕ) (m : Manager)
    → m.devices ≡ []
    → m.tasks ≡ []
    → IsInOrder x m
    → (acts x m.calls ≡ []) ⊎ (acts x m.calls ≡ start ∷ stop ∷ [])
ended x m e idle p = elim p [
  | inl (a, b) ↦ inl (made ∙ b)
  | inr (inl (a, b, c)) ↦ absurd (omega (arith, b, ap (listed x) e))
  | inr (inr (a, b, c)) ↦ inr (made ∙ c)
]
  where
    made : acts x m.calls ≡ history x m
    made = sym (append-nil _) ∙ ap (λ (us : List Task). acts x m.calls ++ acts x us) (sym idle)

pub cleanup_sideband-stops :
    (m : Manager) (x : ℕ)
    → m.enable_cleanup ≡ true
    → m.work_item ≡ true
    → IsInOrder x m
    → (acts x (cleanup_sideband m).calls ≡ [])
      ⊎ (acts x (cleanup_sideband m).calls ≡ start ∷ stop ∷ [])
unfolding cleanup_sideband flush_work_item run_work_item
cleanup_sideband-stops m x enabled item p =
    subst (λ (e : Manager). (acts x e.calls ≡ []) ⊎ (acts x e.calls ≡ start ∷ stop ∷ [])) (sym out)
      (ended x (stop_devices f.devices f) s.0 (s.1 ∙ idle) (
        stop_devices-IsInOrder f.devices f x refl idle
          (run_tasks-IsInOrder (length m.tasks) (record m { registered = false }) x p)))
  where
    f : Manager
    f = record (run_work_item (record m { registered = false })) { work_item = false }

    out : cleanup_sideband m ≡ stop_devices f.devices f
    out =
        if_true m.enable_cleanup _ _ enabled
        ∙ ap (λ (x : Manager). stop_devices x.devices x) (if_true m.work_item _ _ item)

    idle : f.tasks ≡ []
    idle = (run_work_item_ends (record m { registered = false })).0

    s :
        ((stop_devices f.devices f).devices ≡ [])
        × ((stop_devices f.devices f).tasks ≡ f.tasks)
        × ((stop_devices f.devices f).calls ≡ f.calls ++ stops f.devices)
    s = stop_devices_lem f.devices f refl
