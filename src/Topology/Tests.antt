-- ===== src/Topology/Tests.antt =====
-- Requests to a topology miniport, at concrete values.
use inferno_windows.Prelude.{◌≡◌, inl, refl, true, false, some, replicate}
use inferno_windows.Hw.{Hw, set_dev_int, dev_int_write, mixer_mux_read}
use inferno_windows.Properties.{
  Sizes, Constants, Request, empty, invalid_parameter, validate_property_params,
}
use inferno_windows.Topology.{
  mux_source, dev_specific, property_handler_generic, property_handler_dev_specific,
  property_handler_mux_source, access_dev_specific,
}
use inferno_windows.Topology.ReadOnly.{property_handler_generic-reads}

abbrev sizes : Sizes
sizes = record { description = 40; header = 16; stepping = 16; bounds = 8 }

abbrev constants : Constants
constants = record {
  type_all = 515;
  type_get_support = 513;
  vt_i4 = 3;
  vt_bool = 11;
  vt_ui4 = 19;
  not_host_cpu = 1;
}

abbrev request : Request
request = record {
  basic_support = false;
  get = false;
  set = true;
  node = 10;
  instance_size = 0;
  channel = 0;
  value_size = 4;
  has_value = true;
  value = 77;
  reply = empty;
}

abbrev registers : Hw
registers = record {
  mute = replicate 20 0;
  volume = replicate 20 0;
  peak_meter = replicate 20 0;
  mux = 2;
  dev_bool = 0;
  dev_int = 0;
  dev_uint = 0;
}

property_handler_generic-reads_example :
    (property_handler_generic sizes constants 2 dev_specific
      (record request { get = true })
      (some registers)).2
    ≡ some registers
property_handler_generic-reads_example =
    property_handler_generic-reads sizes constants 2 dev_specific (record request { get = true })
      (some registers) (inl refl)

set_dev_specific_test :
    (property_handler_generic sizes constants 2 dev_specific request (some registers)).2
    ≡ some (set_dev_int 77 registers)
unfolding property_handler_generic property_handler_dev_specific access_dev_specific
    validate_property_params dev_int_write
set_dev_specific_test = refl

get_mux_source_test :
    (property_handler_generic sizes constants 2 mux_source
      (record request { get = true })
      (some registers)).1.value
    ≡ 2
unfolding property_handler_generic property_handler_mux_source mixer_mux_read
get_mux_source_test = refl

other_node_test :
    (property_handler_dev_specific sizes constants
      (record request { node = 12 })
      (some registers)).0
    ≡ invalid_parameter
unfolding property_handler_dev_specific
other_node_test = refl
