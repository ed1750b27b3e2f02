-- ===== src/Adapter.antt =====
-- inferno_driver/common.cpp, Cleanup of CAdapterCommon, which takes down the sideband devices, the
-- shared memory and the cache of subdevices.
pub mod Cleanup
pub mod Helpers
mod Tests
use inferno_windows.Shm.{Shm}
use inferno_windows.Shm
use inferno_windows.Subdevices.{Cache, empty_subdevice_cache}
use inferno_windows.Sideband.Kinds.{
  Sidebands, cleanup_bth_sco_bypass, cleanup_usb_sideband, cleanup_a2dp_sideband,
}

pub record Adapter : Type 0 where
  pub sidebands : Sidebands
  pub shm : Shm
  pub cache : Cache

-- Cleanup, with all three kinds of sideband devices.
unfoldable pub cleanup_adapter : Adapter → Adapter
cleanup_adapter a = record {
  sidebands = cleanup_a2dp_sideband (cleanup_usb_sideband (cleanup_bth_sco_bypass a.sidebands));
  shm = Shm.cleanup a.shm;
  cache = empty_subdevice_cache a.cache;
}
