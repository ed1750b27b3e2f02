-- ===== src/Topology.antt =====
-- inferno_driver/basetopo.cpp: the property requests of a topology miniport, by the handlers of
-- Properties and by its own for the source of the mux and for the device's specific values.
mod ReadOnly
mod Tests
use inferno_windows.Prelude.{
  ℕ, ◌+◌, ◌-◌, ◌%◌, ◌^◌, Bool, true, false, Option, none, some, ltb, leb, ◌==◌, if◌then◌else◌,
}
use inferno_windows.Status.{NtStatus, success, nt_success}
use inferno_windows.Hw.{
  Hw, mixer_mux_read, mixer_mux_write, dev_bool_read, dev_bool_write, dev_int_read, dev_int_write,
  dev_uint_read, dev_uint_write,
}
use inferno_windows.Properties.{
  Sizes, Constants, Members, Request, flags, description, invalid_parameter, invalid_device_request,
  buffer_overflow, buffer_too_small, refused, validate_property_params,
  property_handler_basic_support, property_handler_cpu_resources,
}
use inferno_windows.Properties.Requests.{
  property_handler_volume, property_handler_mute, property_handler_peak_meter2, supported,
}

abbrev pub Result : Type 0
Result = NtStatus × Request × Option Hw

-- CMiniportTopologySYSVAD::PropertyHandlerMuxSource
unfoldable pub property_handler_mux_source : Sizes → Constants → Request → Option Hw → Result
property_handler_mux_source z k r a =
    if ltb r.value_size 4
    then (invalid_parameter, r, a)
    else (if r.get
        then (success, record r { value = mixer_mux_read a; value_size = 4 }, a)
        else (if r.set
            then (success, r, mixer_mux_write r.value a)
            else (if r.basic_support
                then supported (property_handler_basic_support z k.type_all (some k.vt_i4) r) a
                else (invalid_device_request, r, a))))

-- DEV_SPECIFIC_VT_BOOL, DEV_SPECIFIC_VT_I4 and DEV_SPECIFIC_VT_UI4
abbrev pub dev_specific_vt_bool : ℕ
dev_specific_vt_bool = 9

abbrev pub dev_specific_vt_i4 : ℕ
dev_specific_vt_i4 = 10

abbrev pub dev_specific_vt_ui4 : ℕ
dev_specific_vt_ui4 = 11

-- ExpectedSize, a ULONG.
abbrev pub expected_size : Sizes → ℕ
expected_size z = (z.description + z.header + z.bounds) % 2 ^ 32

-- The description of a value of 32 bits from 0 to a maximum.
unfoldable pub describe_dev_specific : Sizes → Constants → ℕ → ℕ → Request → NtStatus × Request
describe_dev_specific z k kind maximum r =
    if r.value_size == 0
    then (buffer_overflow, record r { value_size = expected_size z })
    else (if leb z.description r.value_size
        then (if leb (expected_size z) r.value_size
            then (
              success,
              record r {
                reply =
                    description k.type_all (expected_size z) (some kind)
                      (some (record { count = 1; maximum = maximum; minimum = 0; delta = 0 }));
                value_size = expected_size z;
              },
            )
            else (
              success,
              record r {
                reply = description k.type_all (expected_size z) (some kind) none;
                value_size = z.description;
              },
            ))
        else (if leb 4 r.value_size
            then (success, record r { reply = flags k.type_all; value_size = 4 })
            else refused buffer_too_small r))

-- One of the three values, with its accessors of the adapter.
unfoldable pub access_dev_specific :
    (Option Hw → ℕ) → (ℕ → Option Hw → Option Hw) → NtStatus × Request → Option Hw → Result
access_dev_specific read write (status, r) a =
    if nt_success status
    then (if r.get
        then (status, record r { value = read a; value_size = 4 }, a)
        else (if r.set then (status, r, write r.value a) else (invalid_parameter, r, a)))
    else (status, r, a)

-- CMiniportTopologySYSVAD::PropertyHandlerDevSpecific
unfoldable pub property_handler_dev_specific : Sizes → Constants → Request → Option Hw → Result
property_handler_dev_specific z k r a =
    if r.node == dev_specific_vt_bool
    then (if r.basic_support
        then supported (property_handler_basic_support z k.type_all (some k.vt_bool) r) a
        else access_dev_specific dev_bool_read dev_bool_write (validate_property_params 4 0 r) a)
    else (if r.node == dev_specific_vt_i4
        then (if r.basic_support
            then supported (describe_dev_specific z k k.vt_i4 (2 ^ 31 - 1) r) a
            else access_dev_specific dev_int_read dev_int_write (validate_property_params 4 0 r) a)
        else (if r.node == dev_specific_vt_ui4
            then (if r.basic_support
                then supported (describe_dev_specific z k k.vt_ui4 (2 ^ 32 - 1) r) a
                else access_dev_specific dev_uint_read dev_uint_write
                    (validate_property_params 4 0 r) a)
            else (invalid_parameter, r, a)))

-- The properties of PropertyHandlerGeneric.
pub data Property : Type 0 where
  volume_level mute peak_meter2 cpu_resources mux_source dev_specific other : Property

-- CMiniportTopologySYSVAD::PropertyHandlerGeneric
unfoldable pub property_handler_generic :
    Sizes → Constants → ℕ → Property → Request → Option Hw → Result
property_handler_generic z k max_channels volume_level r a =
    property_handler_volume z k max_channels r a
property_handler_generic z k max_channels mute r a = property_handler_mute z k max_channels r a
property_handler_generic z k max_channels peak_meter2 r a =
    property_handler_peak_meter2 z k max_channels r a
property_handler_generic z k max_channels cpu_resources r a =
    supported (property_handler_cpu_resources z k r) a
property_handler_generic z k max_channels mux_source r a = property_handler_mux_source z k r a
property_handler_generic z k max_channels dev_specific r a = property_handler_dev_specific z k r a
property_handler_generic z k max_channels other r a = (invalid_device_request, r, a)
