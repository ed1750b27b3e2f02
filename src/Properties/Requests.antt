-- ===== src/Properties/Requests.antt =====
-- inferno_driver/kshelper.cpp: PropertyHandler_Volume, PropertyHandler_Mute and
-- PropertyHandler_PeakMeter2, through the adapter to the registers, and SysvadPropertyDispatch.
use inferno_windows.Prelude.{
  ℕ, zero, suc, ◌+◌, ◌-◌, ◌^◌, Bool, not, ◌&&◌, Option, none, some, ltb, leb, ◌==◌, if◌then◌else◌,
}
use inferno_windows.Status.{NtStatus, not_supported, nt_success}
use inferno_windows.Hw.{
  Hw, mixer_volume_read, mixer_volume_write, mixer_mute_read, mixer_mute_write,
  mixer_peak_meter_read,
}
use inferno_windows.Properties.{
  Sizes, Constants, Request, validate_property_params, property_handler_basic_support,
  basic_support_volume, basic_support_mute, basic_support_peak_meter2, volume_normalize,
  peak_meter_normalize, invalid_parameter, invalid_device_request, buffer_overflow, refused,
  buffer_too_small,
}

abbrev pub all_channels_id : ℕ
all_channels_id = 2 ^ 32 - 1

-- The adapter's accessors of a node, a channel and a value.
abbrev pub Write : Type 0
Write = ℕ → ℕ → ℕ → Option Hw → Option Hw

-- The loop over the channels, with `n` rounds left.
unfoldable pub write_channels_from : Write → ℕ → ℕ → ℕ → ℕ → Option Hw → Option Hw
write_channels_from write node x zero i a = a
write_channels_from write node x (suc n) i a =
    write_channels_from write node x n (i + 1) (write node i x a)

-- For all channels the loop runs to the number that stands for them.
unfoldable pub set_level : Write → ℕ → ℕ → ℕ → Option Hw → Option Hw
set_level write node channel x a =
    let all = write_channels_from write node x channel 0 a in
    if channel == all_channels_id then all else write node channel x a

abbrev pub first_channel : ℕ → ℕ
first_channel channel = if channel == all_channels_id then 0 else channel

abbrev pub is_unknown : ℕ → ℕ → Bool
is_unknown max_channels channel = leb max_channels channel && not (channel == all_channels_id)

-- With the parameters validated: `level` is what a read gives, and `write` what a write does with
-- the value.
unfoldable pub access_level :
    ℕ → ℕ → Write → (ℕ → ℕ) → NtStatus × Request → Option Hw → NtStatus × Request × Option Hw
access_level max_channels level write round (status, r) a =
    if nt_success status
    then (if is_unknown max_channels r.channel
        then (invalid_parameter, r, a)
        else (if r.get
            then (status, record r { value = level; value_size = 4 }, a)
            else (if r.set
                then (status, r, set_level write r.node r.channel (round r.value) a)
                else (status, r, a))))
    else (status, r, a)

abbrev pub truth : ℕ → ℕ
truth x = if x == 0 then 0 else 1

unfoldable pub supported : NtStatus × Request → Option Hw → NtStatus × Request × Option Hw
supported (status, r) a = (status, r, a)

-- PropertyHandler_Volume
unfoldable pub property_handler_volume :
    Sizes → Constants → ℕ → Request → Option Hw → NtStatus × Request × Option Hw
property_handler_volume z k max_channels r a =
    if r.basic_support
    then supported (basic_support_volume z k max_channels r) a
    else access_level max_channels (mixer_volume_read r.node (first_channel r.channel) a)
        mixer_volume_write volume_normalize (validate_property_params 4 4 r) a

-- PropertyHandler_Mute
unfoldable pub property_handler_mute :
    Sizes → Constants → ℕ → Request → Option Hw → NtStatus × Request × Option Hw
property_handler_mute z k max_channels r a =
    if r.basic_support
    then supported (basic_support_mute z k max_channels r) a
    else access_level max_channels (mixer_mute_read r.node (first_channel r.channel) a)
        mixer_mute_write truth (validate_property_params 4 4 r) a

abbrev no_write : Write
no_write node channel x a = a

-- PropertyHandler_PeakMeter2: a request to set does nothing.
unfoldable pub property_handler_peak_meter2 :
    Sizes → Constants → ℕ → Request → Option Hw → NtStatus × Request × Option Hw
property_handler_peak_meter2 z k max_channels r a =
    if r.basic_support
    then supported (basic_support_peak_meter2 z k max_channels r) a
    else access_level max_channels
        (peak_meter_normalize (mixer_peak_meter_read r.node (first_channel r.channel) a)) no_write
        volume_normalize (validate_property_params 4 4 r) a

-- SYSVADPROPERTY_ITEM, with its handlers.
pub record Item : Type 0 where
  pub flags : ℕ
  pub support_handler : Option (Request → NtStatus × Request)
  pub get_handler : Option (Request → NtStatus × Request)
  pub set_handler : Option (Request → NtStatus × Request)
  pub min_property : ℕ
  pub min_data : ℕ

abbrev pub handled_by : Option (Request → NtStatus × Request) → Request → NtStatus × Request
handled_by none r = (not_supported, r)
handled_by (some f) r = f r

abbrev pub supported_by :
    Sizes → ℕ → Option (Request → NtStatus × Request) → Request → NtStatus × Request
supported_by z flags none r = property_handler_basic_support z flags none r
supported_by z flags (some f) r = f r

-- SysvadPropertyDispatch
unfoldable pub sysvad_property_dispatch : Sizes → Item → Request → NtStatus × Request
sysvad_property_dispatch z item r =
    if r.basic_support
    then supported_by z item.flags item.support_handler r
    else (if ltb r.instance_size item.min_property
        then (invalid_parameter, r)
        else (if r.value_size == 0
            then (buffer_overflow, record r { value_size = item.min_data })
            else (if ltb r.value_size item.min_data
                then refused buffer_too_small r
                else (if r.get
                    then handled_by item.get_handler r
                    else (if r.set
                        then handled_by item.set_handler r
                        else (invalid_device_request, r))))))
