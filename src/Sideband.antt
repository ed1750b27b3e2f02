-- ===== src/Sideband.antt =====
-- inferno_driver/common.cpp, the sideband devices of CAdapterCommon. The functions for Bluetooth
-- HFP, USB headsets and A2DP headsets are one text with other names, so the model has them once:
-- the list of devices, the queue of tasks, and the work item that runs the tasks.
pub mod Calls
pub mod References
pub mod Drain
pub mod Places
pub mod Order
pub mod Endings
pub mod Kinds
mod Tests
use inferno_windows.Prelude.{
  ℕ, zero, suc, ◌+◌, Bool, true, false, Option, none, some, List, [], ◌∷◌, ◌++◌, length, ◌==◌,
  if◌then◌else◌,
}
use inferno_windows.Status.{NtStatus, success, insufficient_resources, nt_success}
use inferno_windows.Objects.{same_name, add_ref, release}

-- A device object, with its symbolic link name.
pub record Device : Type 0 where
  pub object : ℕ
  pub name : List ℕ

-- BthHfpWorkTask, UsbHsWorkTask, A2dpHpWorkTask
pub data Action : Type 0 where
  start stop : Action

pub record Task : Type 0 where
  pub action : Action
  pub device : ℕ

-- The members for one kind of device. `objects` counts the device objects made so far, which are
-- numbered in that order; `counts` are their reference counts; `calls` are the calls of Start and
-- Stop so far.
pub record Manager : Type 0 where
  pub enable_cleanup : Bool
  pub work_item : Bool
  pub registered : Bool
  pub devices : List Device
  pub tasks : List Task
  pub counts : ℕ → ℕ
  pub objects : ℕ
  pub calls : List Task

-- What an arrival meets: memory for the device, the status of its Init, and memory for the task.
pub record Answers : Type 0 where
  pub room : Bool
  pub init : NtStatus
  pub task_room : Bool

abbrev pub find_named : List ℕ → List Device → Option Device
find_named name [] = none
find_named name (d ∷ ds) = if same_name d.name name then some d else find_named name ds

abbrev pub take_ref : Option Device → (ℕ → ℕ) → ℕ → ℕ
take_ref none counts = counts
take_ref (some d) counts = add_ref d.object counts

-- BthHfpDeviceFind, UsbSidebandDeviceFind, A2dpSidebandDeviceFind: the device comes with a
-- reference.
unfoldable pub device_find : List ℕ → Manager → Option Device × Manager
device_find name m =
    let found = find_named name m.devices in (found, record m { counts = take_ref found m.counts })

-- A new device: Init takes its first reference, which stays with the list of devices; the task has
-- another.
unfoldable pub add_device : Answers → List ℕ → Manager → NtStatus × Manager
add_device a name m =
    let x = m.objects in
    let made = record m { objects = x + 1; counts = add_ref x m.counts } in
    let dropped = record made { counts = release x made.counts } in
    if a.room
    then (if nt_success a.init
        then (if a.task_room
            then (
              success,
              record made {
                devices = m.devices ++ (record { object = x; name = name } ∷ []);
                tasks = m.tasks ++ (record { action = start; device = x } ∷ []);
                counts = add_ref x made.counts;
              },
            )
            else (insufficient_resources, dropped))
        else (a.init, dropped))
    else (insufficient_resources, m)

unfoldable pub arrive : Answers → List ℕ → Option Device × Manager → NtStatus × Manager
arrive a name (some d, m) = (success, record m { counts = release d.object m.counts })
arrive a name (none, m) = add_device a name m

-- BthHfpScoInterfaceArrival, UsbSidebandInterfaceArrival, A2dpSidebandInterfaceArrival
unfoldable pub interface_arrival : Answers → List ℕ → Manager → NtStatus × Manager
interface_arrival a name m = arrive a name (device_find name m)

-- RemoveEntryList on the entry of a device.
abbrev pub remove_device : ℕ → List Device → List Device
remove_device x [] = []
remove_device x (d ∷ ds) = if d.object == x then ds else d ∷ remove_device x ds

-- The reference of the search goes to the task.
unfoldable pub depart : Bool → Option Device × Manager → NtStatus × Manager
depart task_room (none, m) = (success, m)
depart task_room (some d, m) =
    if task_room
    then (
      success,
      record m {
        devices = remove_device d.object m.devices;
        tasks = m.tasks ++ (record { action = stop; device = d.object } ∷ []);
        counts = release d.object m.counts;
      },
    )
    else (insufficient_resources, record m { counts = release d.object m.counts })

-- BthHfpScoInterfaceRemoval, UsbSidebandInterfaceRemoval, A2dpSidebandInterfaceRemoval
unfoldable pub interface_removal : Bool → List ℕ → Manager → NtStatus × Manager
interface_removal task_room name m = depart task_room (device_find name m)

pub data Event : Type 0 where
  arrival removal other : Event

-- EvtBthHfpScoBypassInterfaceChange, EvtUsbSidebandInterfaceChange,
-- EvtA2dpSidebandInterfaceChange: `same_class` says that the notification is of the class that the
-- adapter asked for.
unfoldable pub interface_change : Bool → Event → Answers → List ℕ → Manager → NtStatus × Manager
interface_change false e a name m = (success, m)
interface_change true arrival a name m = interface_arrival a name m
interface_change true removal a name m = interface_removal a.task_room name m
interface_change true other a name m = (success, m)

-- A task is taken off the queue, its call is made, and its reference is released.
unfoldable pub run_first : List Task → Manager → Manager
run_first [] m = m
run_first (t ∷ ts) m = record m {
  tasks = ts;
  calls = m.calls ++ (t ∷ []);
  counts = release t.device m.counts;
}

-- The loop, with `n` rounds left.
unfoldable pub run_tasks : ℕ → Manager → Manager
run_tasks zero m = m
run_tasks (suc n) m = run_tasks n (run_first m.tasks m)

-- EvtBthHfpScoBypassInterfaceWorkItem, EvtUsbSidebandInterfaceWorkItem,
-- EvtA2dpSidebandInterfaceWorkItem: until the queue is empty.
unfoldable pub run_work_item : Manager → Manager
run_work_item m = run_tasks (length m.tasks) m

-- InitBthScoBypass, InitUsbSideband: the statuses of WdfWorkItemCreate and of
-- IoRegisterPlugPlayNotification.
unfoldable pub init_sideband : NtStatus → NtStatus → Manager → NtStatus × Manager
init_sideband created registered m =
    let ready = record m {
      enable_cleanup = true;
      work_item = nt_success created;
      registered = false;
      devices = [];
      tasks = [];
    } in
    if nt_success created
    then (if nt_success registered
        then (success, record ready { registered = true })
        else (registered, ready))
    else (created, ready)

-- The loop over the devices that are left: each is stopped, and the reference of the list released.
unfoldable pub stop_devices : List Device → Manager → Manager
stop_devices [] m = m
stop_devices (d ∷ ds) m = stop_devices ds (record m {
  devices = ds;
  calls = m.calls ++ (record { action = stop; device = d.object } ∷ []);
  counts = release d.object m.counts;
})

-- The wait for the work item, which is then deleted.
unfoldable pub flush_work_item : Manager → Manager
flush_work_item m = if m.work_item then record (run_work_item m) { work_item = false } else m

-- CleanupBthScoBypass, CleanupUsbSideband, CleanupA2dpSideband
unfoldable pub cleanup_sideband : Manager → Manager
cleanup_sideband m =
    let flushed = flush_work_item (record m { registered = false }) in
    if m.enable_cleanup then stop_devices flushed.devices flushed else m
