-- ===== src/Properties/Tests.antt =====
-- Requests for levels, for basic support and for an item, at concrete values.
use inferno_windows.Prelude.{
  ◌-◌, ◌^◌, ◌≤◌, ◌<◌, ◌≡◌, ◌⊎◌, refl, arith, true, false, none, some, replicate,
}
use inferno_windows.Status.{success, nt_success}
use inferno_windows.Hw.{Hw}
use inferno_windows.Properties.{
  Sizes, Constants, Request, empty, volume_normalize, basic_support_volume, basic_support_mute,
  basic_support_peak_meter2,
}
use inferno_windows.Properties.Requests.{
  Item, property_handler_volume, sysvad_property_dispatch, handled_by,
}
use inferno_windows.Properties.Levels.{
  IsLevelRequest, adapter_after, property_handler_volume-recall,
}
use inferno_windows.Properties.Support.{IsContained, basic_support-IsContained}
use inferno_windows.Properties.Guards.{sysvad_property_dispatch-calls}

abbrev sizes : Sizes
sizes = record { description = 40; header = 16; stepping = 16; bounds = 8 }

abbrev constants : Constants
constants = record {
  type_all = 515;
  type_get_support = 513;
  vt_i4 = 3;
  vt_bool = 11;
  vt_ui4 = 19;
  not_host_cpu = 1;
}

abbrev request : Request
request = record {
  basic_support = false;
  get = false;
  set = true;
  node = 3;
  instance_size = 4;
  channel = 1;
  value_size = 4;
  has_value = true;
  value = 2 ^ 32 - 0x12345;
  reply = empty;
}

abbrev registers : Hw
registers = record {
  mute = replicate 20 0;
  volume = replicate 20 0;
  peak_meter = replicate 20 0;
  mux = 2;
  dev_bool = 0;
  dev_int = 0;
  dev_uint = 0;
}

request-IsLevelRequest : IsLevelRequest request
request-IsLevelRequest = record {
  inside = omega arith;
  level = refl;
  instance = omega arith;
  room = omega arith;
  buffer = refl;
}

property_handler_volume-recall_example :
    ((property_handler_volume sizes constants 2
        (record request { get = false; set = true })
        (some registers)).0
      ≡ success)
    × (property_handler_volume sizes constants 2
          (record request { get = true; channel = 0 })
          (adapter_after (
            property_handler_volume sizes constants 2
              (record request { get = false; set = true })
              (some registers)))
        ≡ (
          success,
          record request {
            get = true;
            channel = 0;
            value = volume_normalize (2 ^ 32 - 0x12345);
            value_size = 4;
          },
          adapter_after (
              property_handler_volume sizes constants 2
                (record request { get = false; set = true })
                (some registers)),
        ))
property_handler_volume-recall_example =
    property_handler_volume-recall sizes constants 2 0 request registers request-IsLevelRequest refl
      refl refl

volume_normalize_test : volume_normalize (2 ^ 32 - 0x12345) ≡ 2 ^ 32 - 0x10000
unfolding volume_normalize
volume_normalize_test = refl

basic_support-IsContained_example :
    IsContained sizes request (basic_support_volume sizes constants 2 request)
    × IsContained sizes request (basic_support_mute sizes constants 2 request)
    × IsContained sizes request (basic_support_peak_meter2 sizes constants 2 request)
basic_support-IsContained_example =
    basic_support-IsContained sizes constants 2 request refl (omega arith)

abbrev item : Item
item = record {
  flags = 3;
  support_handler = none;
  get_handler = none;
  set_handler = some (λ r. (success, r));
  min_property = 4;
  min_data = 4;
}

sysvad_property_dispatch_test : nt_success (sysvad_property_dispatch sizes item request).0 ≡ true
unfolding sysvad_property_dispatch
sysvad_property_dispatch_test = refl

sysvad_property_dispatch-calls_example :
    (4 ≤ 4)
    × (4 ≤ 4)
    × (0 < 4)
    × (((false ≡ true)
          × (sysvad_property_dispatch sizes item request ≡ handled_by item.get_handler request))
        ⊎ ((false ≡ false)
            × (true ≡ true)
            × (sysvad_property_dispatch sizes item request ≡ handled_by item.set_handler request)))
sysvad_property_dispatch-calls_example =
    sysvad_property_dispatch-calls sizes item request refl sysvad_property_dispatch_test
