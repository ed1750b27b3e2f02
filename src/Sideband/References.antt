-- ===== src/Sideband/References.antt =====
-- The references that the adapter holds to the sideband devices.
use inferno_windows.Prelude.{
  ℕ, zero, suc, ◌+◌, ◌≡◌, refl, ap, sym, ◌∙◌, subst, arith, Bool, true, false, Bool-cases, Option,
  none, some, List, [], ◌∷◌, ◌++◌, length, if_true, if_false, ==_iff, inl, inr,
}
use inferno_windows.Objects.{same_name, one}
use inferno_windows.Sideband.{
  Device, Task, Action, Manager, Answers, Event, arrival, removal, other, find_named, device_find,
  add_device, arrive, interface_arrival, remove_device, depart, interface_removal, interface_change,
  run_first, run_tasks, run_work_item, take_ref, stop_devices, flush_work_item, cleanup_sideband,
}
use inferno_windows.Sideband.Calls.{Call, change, round, step, run_calls}

-- How many references to `y` the list of devices and the queue of tasks hold.
abbrev pub listed : ℕ → List Device → ℕ
listed y [] = 0
listed y (d ∷ ds) = one d.object y + listed y ds

abbrev pub queued : ℕ → List Task → ℕ
queued y [] = 0
queued y (t ∷ ts) = one t.device y + queued y ts

pub listed-append :
    (y : ℕ) (ds : List Device) (d : Device)
    → listed y (ds ++ (d ∷ [])) ≡ listed y ds + one d.object y
listed-append y [] d = omega arith
listed-append y (e ∷ ds) d = omega (arith, listed-append y ds d)

queued-append :
    (y : ℕ) (ts : List Task) (t : Task) → queued y (ts ++ (t ∷ [])) ≡ queued y ts + one t.device y
queued-append y [] t = omega arith
queued-append y (u ∷ ts) t = omega (arith, queued-append y ts t)

-- Each device object has the references of others, one while it is listed, and one for each task.
abbrev pub IsBalanced : (ℕ → ℕ) → Manager → Type 0
IsBalanced others m = (y : ℕ) → m.counts y ≡ others y + listed y m.devices + queued y m.tasks

some-eq : (d e : Device) → ◌≡◌ {A = Option Device} (some d) (some e) → d ≡ e
some-eq d e h = cc

-- The entry of a device that a search finds holds one reference.
pub listed-remove_device :
    (y : ℕ) (name : List ℕ) (ds : List Device) (d : Device)
    → find_named name ds ≡ some d
    → listed y ds ≡ listed y (remove_device d.object ds) + one d.object y
listed-remove_device y name [] d h = absurd (ground (arith, h))
listed-remove_device y name (e ∷ ds) d h = elim (Bool-cases (same_name e.name name)) [
  | inl hit ↦
      subst
        (λ (d : Device).
          listed y (e ∷ ds) ≡ listed y (remove_device d.object (e ∷ ds)) + one d.object y)
        (some-eq e d (sym (if_true (same_name e.name name) _ _ hit) ∙ h))
        (ground (arith, ==_iff e.object e.object))
  | inr miss ↦ ground (
    arith,
    ==_iff e.object d.object,
    listed-remove_device y name ds d (sym (if_false (same_name e.name name) _ _ miss) ∙ h),
  )
]

add_device-IsBalanced :
    (others : ℕ → ℕ) (a : Answers) (name : List ℕ) (m : Manager)
    → IsBalanced others m
    → IsBalanced others (add_device a name m).1
unfolding add_device
add_device-IsBalanced others a name m b y = ground (
  arith,
  b y,
  listed-append y m.devices (record { object = m.objects; name = name }),
  queued-append y m.tasks (record { action = Action.start; device = m.objects }),
)

arrive-IsBalanced :
    (others : ℕ → ℕ) (a : Answers) (name : List ℕ) (o : Option Device) (m : Manager)
    → IsBalanced others m
    → IsBalanced others (arrive a name (o, record m { counts = take_ref o m.counts })).1
unfolding arrive
arrive-IsBalanced others a name none m b = add_device-IsBalanced others a name m b
arrive-IsBalanced others a name (some d) m b = λ y. omega (arith, b y)

depart-IsBalanced :
    (others : ℕ → ℕ) (task_room : Bool) (name : List ℕ) (o : Option Device) (m : Manager)
    → find_named name m.devices ≡ o
    → IsBalanced others m
    → IsBalanced others (depart task_room (o, record m { counts = take_ref o m.counts })).1
unfolding depart
depart-IsBalanced others task_room name none m h b = b
depart-IsBalanced others true name (some d) m h b = λ y. omega (
  arith,
  b y,
  listed-remove_device y name m.devices d h,
  queued-append y m.tasks (record { action = Action.stop; device = d.object }),
)
depart-IsBalanced others false name (some d) m h b = λ y. omega (arith, b y)

interface_change-IsBalanced :
    (others : ℕ → ℕ) (same_class : Bool) (e : Event) (a : Answers) (name : List ℕ) (m : Manager)
    → IsBalanced others m
    → IsBalanced others (interface_change same_class e a name m).1
unfolding interface_change interface_arrival interface_removal device_find
interface_change-IsBalanced others false e a name m b = b
interface_change-IsBalanced others true arrival a name m b =
    arrive-IsBalanced others a name (find_named name m.devices) m b
interface_change-IsBalanced others true removal a name m b =
    depart-IsBalanced others a.task_room name (find_named name m.devices) m refl b
interface_change-IsBalanced others true other a name m b = b

run_first-IsBalanced :
    (others : ℕ → ℕ) (ts : List Task) (m : Manager)
    → m.tasks ≡ ts
    → IsBalanced others m
    → IsBalanced others (run_first ts m)
unfolding run_first
run_first-IsBalanced others [] m h b = b
run_first-IsBalanced others (t ∷ ts) m h b = λ y. omega (arith, b y, ap (queued y) h)

run_tasks-IsBalanced :
    (others : ℕ → ℕ) (n : ℕ) (m : Manager) → IsBalanced others m → IsBalanced others (run_tasks n m)
unfolding run_tasks
run_tasks-IsBalanced others zero m b = b
run_tasks-IsBalanced others (suc n) m b =
    run_tasks-IsBalanced others n _ (run_first-IsBalanced others m.tasks m refl b)

stop_devices-IsBalanced :
    (others : ℕ → ℕ) (ds : List Device) (m : Manager)
    → m.devices ≡ ds
    → IsBalanced others m
    → IsBalanced others (stop_devices ds m)
unfolding stop_devices
stop_devices-IsBalanced others [] m h b = b
stop_devices-IsBalanced others (d ∷ ds) m h b =
    stop_devices-IsBalanced others ds _ refl (λ y. omega (arith, b y, ap (listed y) h))

flush_work_item-IsBalanced :
    (others : ℕ → ℕ) (m : Manager) → IsBalanced others m → IsBalanced others (flush_work_item m)
unfolding flush_work_item run_work_item
flush_work_item-IsBalanced others m b = elim (Bool-cases m.work_item) [
  | inl item ↦
      subst (IsBalanced others) (sym (if_true m.work_item _ _ item))
        (run_tasks-IsBalanced others (length m.tasks) m b)
  | inr none_left ↦ subst (IsBalanced others) (sym (if_false m.work_item _ _ none_left)) b
]

pub cleanup_sideband-IsBalanced :
    (others : ℕ → ℕ) (m : Manager) → IsBalanced others m → IsBalanced others (cleanup_sideband m)
unfolding cleanup_sideband
cleanup_sideband-IsBalanced others m b = elim (Bool-cases m.enable_cleanup) [
  | inl enabled ↦ subst (IsBalanced others) (sym (if_true m.enable_cleanup _ _ enabled)) (
      stop_devices-IsBalanced others flushed.devices flushed refl
        (flush_work_item-IsBalanced others unregistered b))
  | inr disabled ↦ subst (IsBalanced others) (sym (if_false m.enable_cleanup _ _ disabled)) b
]
  where
    unregistered : Manager
    unregistered = record m { registered = false }

    flushed : Manager
    flushed = flush_work_item unregistered

-- After any notifications and rounds of the work item, failed ones included, each device object
-- has the references of others, one while it is in the list, and one for each task.
pub run_calls-IsBalanced :
    (cs : List Call) (others : ℕ → ℕ) (m : Manager)
    → IsBalanced others m
    → IsBalanced others (run_calls cs m)
unfolding run_calls step
run_calls-IsBalanced [] others m b = b
run_calls-IsBalanced (change same_class e a name ∷ cs) others m b =
    run_calls-IsBalanced cs others _ (interface_change-IsBalanced others same_class e a name m b)
run_calls-IsBalanced (round ∷ cs) others m b =
    run_calls-IsBalanced cs others _ (run_first-IsBalanced others m.tasks m refl b)
