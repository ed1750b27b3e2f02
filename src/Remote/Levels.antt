-- ===== src/Remote/Levels.antt =====
-- inferno_driver/UsbHsDevice.cpp and A2dpHpDevice.cpp, the memory that the requests for the
-- level and the mute of an endpoint touch, and SetSidebandClaimed.
use inferno_windows.Prelude.{ℕ, if◌then◌else◌}
use inferno_windows.Status.{NtStatus, success, nt_success}
use inferno_windows.Remote.{Io, Code, claim, send_io_ctrl_synchronously}

-- The sizes of SIDEBANDAUDIO_VOLUME_PARAMS, of SIDEBANDAUDIO_MUTE_PARAMS, of the union for the
-- buffers of notifications, of SIDEBANDAUDIO_SIOP_REQUEST_PARAM, of SIDEBANDAUDIO_SUPPORTED_FORMATS
-- and of BOOL.
pub record Sizes : Type 0 where
  pub volume : ℕ
  pub mute : ℕ
  pub buffer : ℕ
  pub siop : ℕ
  pub formats : ℕ
  pub bool : ℕ

-- What the driver below answers: a status, and the value it puts into the buffer.
pub record Answer : Type 0 where
  pub status : NtStatus
  pub value : ℕ

-- GetUsbHsSpeakerVolume, GetUsbHsMicVolume, GetUsbHsSpeakerMute and GetUsbHsMicMute, and those of
-- A2dpHpDevice: the value is 0 where the request fails.
unfoldable pub get_level : Code → ℕ → ℕ → Answer → Io → NtStatus × ℕ × Io
get_level code size room a io =
    let sent = send_io_ctrl_synchronously a.status code size room size room io in
    if nt_success a.status then (success, a.value, sent.1) else (a.status, 0, sent.1)

-- SetSidebandClaimed
unfoldable pub set_sideband_claimed : Sizes → NtStatus → Io → NtStatus × Io
set_sideband_claimed z status io = send_io_ctrl_synchronously status claim z.bool z.bool 0 0 io
