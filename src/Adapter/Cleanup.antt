-- ===== src/Adapter/Cleanup.antt =====
-- What Cleanup leaves of the adapter.
use inferno_windows.Prelude.{ℕ, ◌+◌, ◌≡◌, refl, true, none, []}
use inferno_windows.Shm.{Shm}
use inferno_windows.Shm
use inferno_windows.Subdevices.{empty_subdevice_cache}
use inferno_windows.Subdevices.References.{held, empty_entries-held}
use inferno_windows.Sideband.{Manager, cleanup_sideband}
use inferno_windows.Sideband.References.{IsBalanced}
use inferno_windows.Sideband.Drain.{cleanup_sideband_ends}
use inferno_windows.Sideband.Kinds.{
  cleanup_bth_sco_bypass, cleanup_usb_sideband, cleanup_a2dp_sideband,
}
use inferno_windows.Adapter.{Adapter, cleanup_adapter}

-- One kind of devices is set up, and its references add up.
abbrev pub IsUp : (ℕ → ℕ) → Manager → Type 0
IsUp others m = IsBalanced others m × (m.enable_cleanup ≡ true) × (m.work_item ≡ true)

-- Nothing is left of one kind, and its references are given back.
abbrev pub IsDown : (ℕ → ℕ) → Manager → Type 0
IsDown others m = (m.devices ≡ []) × (m.tasks ≡ []) × ((y : ℕ) → m.counts y ≡ others y)

cleanup_sideband-IsDown :
    (others : ℕ → ℕ) (m : Manager) → IsUp others m → IsDown others (cleanup_sideband m)
cleanup_sideband-IsDown others m (balanced, enabled, item) =
    let (devices, tasks, calls, counts) = cleanup_sideband_ends others m balanced enabled item in
    (devices, tasks, counts)

-- After the adapter's Cleanup, with all three kinds of sideband devices set up, no sideband device
-- and no task is left, nothing is shared, the cache is empty, and every reference that the adapter
-- took to a sideband device or to a subdevice is given back.
pub cleanup_adapter_ends :
    (others : ℕ → ℕ) (a : Adapter)
    → IsUp others a.sidebands.bth
    → IsUp others a.sidebands.usb
    → IsUp others a.sidebands.a2dp
    → ((y : ℕ) → a.cache.counts y ≡ others y + held y a.cache.entries)
    → IsDown others (cleanup_adapter a).sidebands.bth
      × IsDown others (cleanup_adapter a).sidebands.usb
      × IsDown others (cleanup_adapter a).sidebands.a2dp
      × ((cleanup_adapter a).shm.base ≡ none)
      × ((cleanup_adapter a).cache.entries ≡ [])
      × ((y : ℕ) → (cleanup_adapter a).cache.counts y ≡ others y)
unfolding cleanup_adapter cleanup_bth_sco_bypass cleanup_usb_sideband cleanup_a2dp_sideband
    empty_subdevice_cache Shm.cleanup
cleanup_adapter_ends others a bth usb a2dp cache = (
  cleanup_sideband-IsDown others a.sidebands.bth bth,
  cleanup_sideband-IsDown others a.sidebands.usb usb,
  cleanup_sideband-IsDown others a.sidebands.a2dp a2dp,
  refl,
  refl,
  λ y. empty_entries-held others a.cache.entries a.cache.counts y (cache y),
)
