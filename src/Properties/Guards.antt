-- ===== src/Properties/Guards.antt =====
-- inferno_driver/kshelper.cpp: the sizes that SysvadPropertyDispatch checks before it calls a handler.
use inferno_windows.Prelude.{◌≤◌, ◌<◌, ◌≡◌, ◌⊎◌, arith, true, false}
use inferno_windows.Status.{nt_success}
use inferno_windows.Properties.{Sizes, Request}
use inferno_windows.Properties.Requests.{Item, handled_by, sysvad_property_dispatch}

-- Where SysvadPropertyDispatch succeeds for a request that is not one for basic support, the instance
-- and the value have at least the sizes of the item, the value is not empty, and the result is that
-- of the handler to get for a request to get, and else that of the handler to set for one to set.
pub sysvad_property_dispatch-calls :
    (z : Sizes) (item : Item) (r : Request)
    → r.basic_support ≡ false
    → nt_success (sysvad_property_dispatch z item r).0 ≡ true
    → (item.min_property ≤ r.instance_size)
      × (item.min_data ≤ r.value_size)
      × (0 < r.value_size)
      × (((r.get ≡ true) × (sysvad_property_dispatch z item r ≡ handled_by item.get_handler r))
          ⊎ ((r.get ≡ false)
              × (r.set ≡ true)
              × (sysvad_property_dispatch z item r ≡ handled_by item.set_handler r)))
unfolding sysvad_property_dispatch
sysvad_property_dispatch-calls z item r b s =
    (ground arith, ground arith, ground arith, ground arith)
