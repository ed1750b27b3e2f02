-- ===== src/Sideband/Drain.antt =====
-- The end of the work item and of the clean-up.
use inferno_windows.Prelude.{
  ℕ, ◌≡◌, refl, ap, sym, ◌∙◌, subst, arith, true, false, List, [], ◌∷◌, ◌++◌, length, if_true,
  append-nil, append_assoc,
}
use inferno_windows.Objects.{release}
use inferno_windows.Sideband.{
  Device, Task, Action, Manager, run_first, run_tasks, run_work_item, stop_devices, flush_work_item,
  cleanup_sideband,
}
use inferno_windows.Sideband.References.{IsBalanced, listed, queued, cleanup_sideband-IsBalanced}

-- The tasks are gone, and their calls made.
abbrev Drained : List Task → Manager → Manager → Type 0
Drained ts m n = (n.tasks ≡ []) × (n.calls ≡ m.calls ++ ts) × (n.devices ≡ m.devices)

run_tasks_lem :
    (ts : List Task) (m : Manager) → m.tasks ≡ ts → Drained ts m (run_tasks (length ts) m)
unfolding run_tasks run_first
run_tasks_lem [] m h = (h, sym (append-nil _), refl)
run_tasks_lem (t ∷ ts) m h =
    let rest = run_tasks_lem ts (run_first (t ∷ ts) m) refl in
    subst (λ (us : List Task). Drained (t ∷ ts) m (run_tasks (length ts) (run_first us m))) (sym h)
      (rest.0, rest.1 ∙ append_assoc m.calls (t ∷ []) ts, rest.2)

-- The work item ends with no task left, whatever was queued, and has made the calls of the tasks in
-- the order in which they were queued.
pub run_work_item_ends :
    (m : Manager)
    → ((run_work_item m).tasks ≡ [])
      × ((run_work_item m).calls ≡ m.calls ++ m.tasks)
      × ((run_work_item m).devices ≡ m.devices)
unfolding run_work_item
run_work_item_ends m = run_tasks_lem m.tasks m refl

-- The calls of Stop that a clean-up makes.
abbrev pub stops : List Device → List Task
stops [] = []
stops (d ∷ ds) = record { action = Action.stop; device = d.object } ∷ stops ds

pub stop_devices_lem :
    (ds : List Device) (m : Manager)
    → m.devices ≡ ds
    → ((stop_devices ds m).devices ≡ [])
      × ((stop_devices ds m).tasks ≡ m.tasks)
      × ((stop_devices ds m).calls ≡ m.calls ++ stops ds)
unfolding stop_devices
stop_devices_lem [] m h = (h, refl, sym (append-nil _))
stop_devices_lem (d ∷ ds) m h =
    let next : Manager = record m {
      devices = ds;
      calls = m.calls ++ (record { action = Action.stop; device = d.object } ∷ []);
      counts = release d.object m.counts;
    } in
    let (none_left, same, made) = stop_devices_lem ds next refl in
    (
      none_left,
      same,
      made
          ∙ append_assoc m.calls (record { action = Action.stop; device = d.object } ∷ [])
              (stops ds),
    )

-- A clean-up of an environment that was set up with its work item runs the tasks that were queued,
-- stops the devices that are still listed, and gives back every reference that the adapter held.
pub cleanup_sideband_ends :
    (others : ℕ → ℕ) (m : Manager)
    → IsBalanced others m
    → m.enable_cleanup ≡ true
    → m.work_item ≡ true
    → let e = cleanup_sideband m in
      (e.devices ≡ [])
      × (e.tasks ≡ [])
      × (e.calls ≡ (m.calls ++ m.tasks) ++ stops m.devices)
      × ((y : ℕ) → e.counts y ≡ others y)
unfolding cleanup_sideband flush_work_item
cleanup_sideband_ends others m b enabled item =
    (empty, idle, calls, λ y. omega (arith, balanced y, ap (listed y) empty, ap (queued y) idle))
  where
    u : Manager
    u = record m { registered = false }

    f : Manager
    f = record (run_work_item u) { work_item = false }

    flush : flush_work_item u ≡ f
    flush = if_true m.work_item _ _ item

    out : cleanup_sideband m ≡ stop_devices f.devices f
    out =
        if_true m.enable_cleanup _ _ enabled ∙ ap (λ (x : Manager). stop_devices x.devices x) flush

    d : Drained m.tasks m f
    d = run_work_item_ends u

    s :
        ((stop_devices f.devices f).devices ≡ [])
        × ((stop_devices f.devices f).tasks ≡ f.tasks)
        × ((stop_devices f.devices f).calls ≡ f.calls ++ stops f.devices)
    s = stop_devices_lem f.devices f refl

    balanced : IsBalanced others (cleanup_sideband m)
    balanced = cleanup_sideband-IsBalanced others m b

    empty : (cleanup_sideband m).devices ≡ []
    empty = ap (λ (x : Manager). x.devices) out ∙ s.0

    idle : (cleanup_sideband m).tasks ≡ []
    idle = ap (λ (x : Manager). x.tasks) out ∙ s.1 ∙ d.0

    calls : (cleanup_sideband m).calls ≡ (m.calls ++ m.tasks) ++ stops m.devices
    calls =
        ap (λ (x : Manager). x.calls) out
        ∙ s.2
        ∙ ap (λ (c : List Task). c ++ stops f.devices) d.1
        ∙ ap (λ (ds : List Device). (m.calls ++ m.tasks) ++ stops ds) d.2
