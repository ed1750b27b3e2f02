-- ===== src/Sideband/Kinds.antt =====
-- inferno_driver/common.cpp, the three kinds of sideband devices of CAdapterCommon: Bluetooth HFP,
-- USB and A2DP headsets, each with its own list, queue, work item and notification.
use inferno_windows.Prelude.{ℕ, Bool, Option, List, if◌then◌else◌}
use inferno_windows.Status.{NtStatus, nt_success}
use inferno_windows.Sideband.{
  Device, Manager, Answers, Event, device_find, interface_arrival, interface_removal,
  interface_change, run_work_item, init_sideband, cleanup_sideband,
}

-- The members m_BthHfp..., m_UsbSideband... and m_A2dpSideband...
pub record Sidebands : Type 0 where
  pub bth : Manager
  pub usb : Manager
  pub a2dp : Manager

-- An operation of one kind is the operation on its members.
abbrev with_bth {ℓ} : {R : Type ℓ} → (Manager → R × Manager) → Sidebands → R × Sidebands
with_bth f s = let r = f s.bth in (r.0, record s { bth = r.1 })

abbrev with_usb {ℓ} : {R : Type ℓ} → (Manager → R × Manager) → Sidebands → R × Sidebands
with_usb f s = let r = f s.usb in (r.0, record s { usb = r.1 })

abbrev with_a2dp {ℓ} : {R : Type ℓ} → (Manager → R × Manager) → Sidebands → R × Sidebands
with_a2dp f s = let r = f s.a2dp in (r.0, record s { a2dp = r.1 })

unfoldable pub bth_hfp_sco_bypass_interface_work_item : Sidebands → Sidebands
bth_hfp_sco_bypass_interface_work_item s = record s { bth = run_work_item s.bth }

unfoldable pub bth_hfp_device_find : List ℕ → Sidebands → Option Device × Sidebands
bth_hfp_device_find name s = with_bth (device_find name) s

unfoldable pub bth_hfp_sco_interface_arrival : Answers → List ℕ → Sidebands → NtStatus × Sidebands
bth_hfp_sco_interface_arrival a name s = with_bth (interface_arrival a name) s

unfoldable pub bth_hfp_sco_interface_removal : Bool → List ℕ → Sidebands → NtStatus × Sidebands
bth_hfp_sco_interface_removal task_room name s = with_bth (interface_removal task_room name) s

unfoldable pub bth_hfp_sco_bypass_interface_change :
    Bool → Event → Answers → List ℕ → Sidebands → NtStatus × Sidebands
bth_hfp_sco_bypass_interface_change same_class e a name s =
    with_bth (interface_change same_class e a name) s

unfoldable pub init_bth_sco_bypass : NtStatus → NtStatus → Sidebands → NtStatus × Sidebands
init_bth_sco_bypass created registered s = with_bth (init_sideband created registered) s

unfoldable pub cleanup_bth_sco_bypass : Sidebands → Sidebands
cleanup_bth_sco_bypass s = record s { bth = cleanup_sideband s.bth }

unfoldable pub usb_sideband_interface_work_item : Sidebands → Sidebands
usb_sideband_interface_work_item s = record s { usb = run_work_item s.usb }

unfoldable pub usb_sideband_device_find : List ℕ → Sidebands → Option Device × Sidebands
usb_sideband_device_find name s = with_usb (device_find name) s

unfoldable pub usb_sideband_interface_arrival : Answers → List ℕ → Sidebands → NtStatus × Sidebands
usb_sideband_interface_arrival a name s = with_usb (interface_arrival a name) s

unfoldable pub usb_sideband_interface_removal : Bool → List ℕ → Sidebands → NtStatus × Sidebands
usb_sideband_interface_removal task_room name s = with_usb (interface_removal task_room name) s

unfoldable pub usb_sideband_interface_change :
    Bool → Event → Answers → List ℕ → Sidebands → NtStatus × Sidebands
usb_sideband_interface_change same_class e a name s =
    with_usb (interface_change same_class e a name) s

unfoldable pub init_usb_sideband : NtStatus → NtStatus → Sidebands → NtStatus × Sidebands
init_usb_sideband created registered s = with_usb (init_sideband created registered) s

unfoldable pub cleanup_usb_sideband : Sidebands → Sidebands
cleanup_usb_sideband s = record s { usb = cleanup_sideband s.usb }

unfoldable pub a2dp_sideband_interface_work_item : Sidebands → Sidebands
a2dp_sideband_interface_work_item s = record s { a2dp = run_work_item s.a2dp }

unfoldable pub a2dp_sideband_device_find : List ℕ → Sidebands → Option Device × Sidebands
a2dp_sideband_device_find name s = with_a2dp (device_find name) s

unfoldable pub a2dp_sideband_interface_arrival : Answers → List ℕ → Sidebands → NtStatus × Sidebands
a2dp_sideband_interface_arrival a name s = with_a2dp (interface_arrival a name) s

unfoldable pub a2dp_sideband_interface_removal : Bool → List ℕ → Sidebands → NtStatus × Sidebands
a2dp_sideband_interface_removal task_room name s = with_a2dp (interface_removal task_room name) s

unfoldable pub a2dp_sideband_interface_change :
    Bool → Event → Answers → List ℕ → Sidebands → NtStatus × Sidebands
a2dp_sideband_interface_change same_class e a name s =
    with_a2dp (interface_change same_class e a name) s

-- The statuses are those of WdfWorkItemCreate, IoRegisterDeviceInterface, IoSetDeviceInterfaceState
-- and IoRegisterPlugPlayNotification: the first failure ends the function.
unfoldable pub init_a2dp_sideband :
    NtStatus → NtStatus → NtStatus → NtStatus → Sidebands → NtStatus × Sidebands
init_a2dp_sideband created supported enabled registered s =
    let announced =
      if nt_success supported
      then (if nt_success enabled then registered else enabled)
      else supported in
    with_a2dp (init_sideband created announced) s

unfoldable pub cleanup_a2dp_sideband : Sidebands → Sidebands
cleanup_a2dp_sideband s = record s { a2dp = cleanup_sideband s.a2dp }
