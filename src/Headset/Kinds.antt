-- ===== src/Headset/Kinds.antt =====
-- inferno_driver/UsbHsDevice.cpp, A2dpHpDevice.cpp and BthhfpDevice.cpp: the streams of the three
-- classes of sideband devices, by direction.
use inferno_windows.Prelude.{Bool}
use inferno_windows.Status.{NtStatus, success, failure, nt_success}
use inferno_windows.Headset.{
  Direction, Opening, Starting, stream_open, stream_close, stream_start, stream_suspend,
  a2dp_stream_open, a2dp_stream_close, a2dp_stream_start, a2dp_stream_suspend,
}

-- eDeviceType, as far as a device asks for it.
pub data DeviceType : Type 0 where
  speaker mic other : DeviceType

-- STATUS_INVALID_PARAMETER
abbrev pub invalid_parameter : NtStatus
invalid_parameter = failure 0xC000000D

-- The members of UsbHsDevice for its two directions.
pub record UsbHs : Type 0 where
  pub speaker : Direction
  pub mic : Direction

abbrev with_direction : DeviceType → (Direction → NtStatus × Direction) → UsbHs → NtStatus × UsbHs
with_direction speaker f s = let r = f s.speaker in (r.0, record s { speaker = r.1 })
with_direction mic f s = let r = f s.mic in (r.0, record s { mic = r.1 })
with_direction other f s = (invalid_parameter, s)

unfoldable pub usb_hs_stream_open : Opening → DeviceType → UsbHs → NtStatus × UsbHs
usb_hs_stream_open a t s = with_direction t (stream_open a) s

unfoldable pub usb_hs_stream_start : Starting → DeviceType → UsbHs → NtStatus × UsbHs
usb_hs_stream_start a t s = with_direction t (stream_start a) s

unfoldable pub usb_hs_stream_suspend : NtStatus → DeviceType → UsbHs → NtStatus × UsbHs
usb_hs_stream_suspend suspended t s = with_direction t (stream_suspend suspended) s

unfoldable pub usb_hs_stream_close : NtStatus → DeviceType → UsbHs → NtStatus × UsbHs
usb_hs_stream_close closed t s = with_direction t (stream_close closed) s

unfoldable pub usb_hs_get_stream_status : DeviceType → UsbHs → Bool
usb_hs_get_stream_status speaker s = nt_success s.speaker.status
usb_hs_get_stream_status mic s = nt_success s.mic.status
usb_hs_get_stream_status other s = nt_success success

-- A2dpHpDevice has a speaker only.
abbrev with_speaker :
    DeviceType → (Direction → NtStatus × Direction) → Direction → NtStatus × Direction
with_speaker speaker f d = f d
with_speaker mic f d = (invalid_parameter, d)
with_speaker other f d = (invalid_parameter, d)

unfoldable pub a2dp_hp_stream_open : Opening → DeviceType → Direction → NtStatus × Direction
a2dp_hp_stream_open a t d = with_speaker t (a2dp_stream_open a) d

unfoldable pub a2dp_hp_stream_start : NtStatus → DeviceType → Direction → NtStatus × Direction
a2dp_hp_stream_start start t d = with_speaker t (a2dp_stream_start start) d

unfoldable pub a2dp_hp_stream_suspend : NtStatus → DeviceType → Direction → NtStatus × Direction
a2dp_hp_stream_suspend suspended t d = with_speaker t (a2dp_stream_suspend suspended) d

unfoldable pub a2dp_hp_stream_close : NtStatus → DeviceType → Direction → NtStatus × Direction
a2dp_hp_stream_close closed t d = with_speaker t (a2dp_stream_close closed) d

-- BthHfpDevice has one stream for both directions: it is opened when it is started.
unfoldable pub bth_hfp_stream_open : DeviceType → Direction → NtStatus × Direction
bth_hfp_stream_open t d = (success, d)

unfoldable pub bth_hfp_stream_start : Opening → DeviceType → Direction → NtStatus × Direction
bth_hfp_stream_start a t d = stream_open a d

unfoldable pub bth_hfp_stream_suspend : NtStatus → DeviceType → Direction → NtStatus × Direction
bth_hfp_stream_suspend closed t d = stream_close closed d

unfoldable pub bth_hfp_stream_close : DeviceType → Direction → NtStatus × Direction
bth_hfp_stream_close t d = (success, d)

unfoldable pub bth_hfp_get_stream_status : DeviceType → Direction → Bool
bth_hfp_get_stream_status t d = nt_success d.status
