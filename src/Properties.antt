-- ===== src/Properties.antt =====
-- inferno_driver/kshelper.cpp: the handlers of property requests for volume, mute, peak meter and
-- CPU resources, with the checks of their sizes and the macros of inferno_driver/sysvad.h that round
-- a level.
pub mod Requests
pub mod Levels
pub mod Support
pub mod Guards
mod Tests
use inferno_windows.Prelude.{
  ℕ, ◌+◌, ◌-◌, ◌*◌, ◌/◌, ◌%◌, ◌^◌, Bool, true, false, not, ◌&&◌, Option, none, some, ltb, leb, ◌==◌,
  if◌then◌else◌,
}
use inferno_windows.Status.{NtStatus, success, unsuccessful, not_supported, failure, nt_success}

abbrev pub invalid_parameter : NtStatus
invalid_parameter = failure 0xC000000D

abbrev pub buffer_overflow : NtStatus
buffer_overflow = failure 0x80000005

abbrev pub buffer_too_small : NtStatus
buffer_too_small = failure 0xC0000023

abbrev pub invalid_device_request : NtStatus
invalid_device_request = failure 0xC0000010

-- sizeof(KSPROPERTY_DESCRIPTION), sizeof(KSPROPERTY_MEMBERSHEADER), sizeof(KSPROPERTY_STEPPING_LONG)
-- and sizeof(KSPROPERTY_BOUNDS_LONG)
pub record Sizes : Type 0 where
  pub description : ℕ
  pub header : ℕ
  pub stepping : ℕ
  pub bounds : ℕ

-- The ranges of the members behind a description, one for each of `count` channels.
pub record Members : Type 0 where
  pub count : ℕ
  pub maximum : ℕ
  pub minimum : ℕ
  pub delta : ℕ

-- What a handler of basic support puts into the buffer: the access flags alone, or a description
-- with its flags, size and type, with or without its members.
pub data Reply : Type 0 where
  empty : Reply
  flags : ℕ → Reply
  description : ℕ → ℕ → Option ℕ → Option Members → Reply

-- PCPROPERTY_REQUEST: the bits of the verb, the node, the size of the instance and the channel in it,
-- the size of the value, whether there is a buffer for it, and the word in it.
pub record Request : Type 0 where
  pub basic_support : Bool
  pub get : Bool
  pub set : Bool
  pub node : ℕ
  pub instance_size : ℕ
  pub channel : ℕ
  pub value_size : ℕ
  pub has_value : Bool
  pub value : ℕ
  pub reply : Reply

abbrev pub refused : NtStatus → Request → NtStatus × Request
refused status r = (status, record r { value_size = 0 })

-- ValidatePropertyParams
unfoldable pub validate_property_params : ℕ → ℕ → Request → NtStatus × Request
validate_property_params cb_value cb_instance r =
    if cb_value == 0
    then refused invalid_parameter r
    else (if r.value_size == 0
        then (buffer_overflow, record r { value_size = cb_value })
        else (if ltb r.value_size cb_value
            then refused buffer_too_small r
            else (if ltb r.instance_size cb_instance
                then refused buffer_too_small r
                else (if r.has_value then (success, r) else refused unsuccessful r))))

-- PropertyHandler_BasicSupport: with no type where the type is VT_ILLEGAL.
unfoldable pub property_handler_basic_support : Sizes → ℕ → Option ℕ → Request → NtStatus × Request
property_handler_basic_support z access kind r =
    if leb z.description r.value_size
    then (
      success,
      record r { reply = description access z.description kind none; value_size = z.description },
    )
    else (if leb 4 r.value_size
        then (success, record r { reply = flags access; value_size = 4 })
        else refused buffer_too_small r)

-- cbFullProperty, a ULONG.
abbrev pub full_property : Sizes → ℕ → ℕ
full_property z max_channels = (z.description + z.header + z.stepping * max_channels) % 2 ^ 32

-- KSPROPERTY_TYPE_ALL, KSPROPERTY_TYPE_GET | KSPROPERTY_TYPE_BASICSUPPORT, VT_I4, VT_BOOL, VT_UI4
-- and KSAUDIO_CPU_RESOURCES_NOT_HOST_CPU
pub record Constants : Type 0 where
  pub type_all : ℕ
  pub type_get_support : ℕ
  pub vt_i4 : ℕ
  pub vt_bool : ℕ
  pub vt_ui4 : ℕ
  pub not_host_cpu : ℕ

-- What the three functions for basic support of a node have in common: `whole` are the flags of a
-- description, and `short` those that stand alone.
unfoldable pub basic_support_node : Sizes → ℕ → ℕ → ℕ → Members → Request → NtStatus × Request
basic_support_node z whole short kind members r =
    let full = full_property z members.count in
    if leb z.description r.value_size
    then (if leb full r.value_size
        then (
          success,
          record r { reply = description whole full (some kind) (some members); value_size = full },
        )
        else (
          success,
          record r { reply = description whole full (some kind) none; value_size = z.description },
        ))
    else (if leb 4 r.value_size
        then (success, record r { reply = flags short; value_size = 4 })
        else refused buffer_too_small r)

-- VOLUME_SIGNED_MINIMUM as a word, VOLUME_STEPPING_DELTA, and the limits of the peak meter.
abbrev pub volume_minimum : ℕ
volume_minimum = 2 ^ 32 - 96 * 0x10000

abbrev pub volume_step : ℕ
volume_step = 0x8000

unfoldable pub basic_support_volume : Sizes → Constants → ℕ → Request → NtStatus × Request
basic_support_volume z k max_channels r =
    basic_support_node z k.type_all k.type_all k.vt_i4
      (record { count = max_channels; maximum = 0; minimum = volume_minimum; delta = volume_step })
      r

unfoldable pub basic_support_mute : Sizes → Constants → ℕ → Request → NtStatus × Request
basic_support_mute z k max_channels r =
    basic_support_node z k.type_all k.type_all k.vt_bool
      (record { count = max_channels; maximum = 1; minimum = 0; delta = 1 }) r

unfoldable pub basic_support_peak_meter2 : Sizes → Constants → ℕ → Request → NtStatus × Request
basic_support_peak_meter2 z k max_channels r =
    basic_support_node z k.type_get_support k.type_all k.vt_i4
      (record { count = max_channels; maximum = 2 ^ 31 - 1; minimum = 2 ^ 31; delta = 0x1000 }) r

-- PropertyHandler_CpuResources
unfoldable pub cpu_resources_get : Constants → NtStatus × Request → NtStatus × Request
cpu_resources_get k (status, r) =
    if nt_success status
    then (status, record r { value = k.not_host_cpu; value_size = 4 })
    else (status, r)

unfoldable pub property_handler_cpu_resources : Sizes → Constants → Request → NtStatus × Request
property_handler_cpu_resources z k r =
    if r.get
    then cpu_resources_get k (validate_property_params 4 0 r)
    else (if r.basic_support
        then property_handler_basic_support z k.type_get_support (some k.vt_ui4) r
        else (invalid_device_request, r))

-- VALUE_NORMALIZE_P
abbrev pub normalize_up : ℕ → ℕ → ℕ
normalize_up x step = (x + step / 2) / step * step

-- The minus of a LONG.
abbrev pub negate : ℕ → ℕ
negate x = (2 ^ 32 - x) % 2 ^ 32

-- VOLUME_NORMALIZE_IN_RANGE on the word of a LONG: above 0 dB it is 0 dB, and below -96 dB it is
-- -96 dB.
unfoldable pub volume_normalize : ℕ → ℕ
volume_normalize v =
    if ltb v (2 ^ 31)
    then 0
    else (if ltb v volume_minimum
        then volume_minimum
        else negate (normalize_up (negate v) volume_step))

-- PEAKMETER_NORMALIZE_IN_RANGE, where the sum does not overflow.
unfoldable pub peak_meter_normalize : ℕ → ℕ
peak_meter_normalize v =
    if ltb v (2 ^ 31) then normalize_up v 0x1000 else negate (normalize_up (negate v) 0x1000)
