-- ===== src/A2dp.antt =====
-- inferno_driver/A2dpHpDevice.cpp, A2dpHpDevice::Start. Where its text is that of UsbHsDevice with
-- other names, the steps are those of Usb.
pub mod Ends
pub mod Owned
pub mod OwnedStart
pub mod OwnedAll
pub mod OwnedInit
pub mod OwnedEnds
pub mod Unused
pub mod Life
mod Tests
use inferno_windows.Prelude.{
  ℕ, ◌+◌, ◌%◌, ◌^◌, Bool, true, false, Option, none, some, List, [], ◌∷◌, ltb, if◌then◌else◌,
}
use inferno_windows.Status.{NtStatus, success, nt_success}
use inferno_windows.Remote.{
  Io, Fetch, Code, store, set_siop, access, acquire, get_descriptor, get_endpoint,
  send_io_ctrl_synchronously,
}
use inferno_windows.Remote.Levels.{Sizes, set_sideband_claimed}
use inferno_windows.Remote.Pairs.{a2dp_create_custom_endpoint_minipair}
use inferno_windows.Usb.{
  Flow, flow_out, flow_in, flow_other, Descriptor, Side, Notice, Answers, State, next, or_kept,
  start_volume, start_mute, start_verify, start_filters, start_notice,
  enable_volume_status_notification,
}
use inferno_windows.Usb.Start.{
  Phase, failed, Objects, Endpoint, described, device_feature_not_supported,
}

-- The members that hold memory or objects; `caps` is m_ConnectedCodecCaps.
pub record A2dp : Type 0 where
  pub phase : Phase
  pub objects : Objects
  pub descriptor : Option ℕ
  pub caps : Option ℕ
  pub speaker : Side

-- What Start meets for the speaker: beside what a USB headset meets, the memory for the formats and
-- the bytes of their list, the number of properties that the device gives for the pair, and two more
-- requests for notifications.
pub record A2dpAnswers : Type 0 where
  pub common : Answers
  pub memory : Option ℕ
  pub cb_size : ℕ
  pub custom : ℕ
  pub connection : Notice
  pub siop : Notice

-- The formats of the driver's table, copied into memory that is not tested for NULL.
abbrev pub copied : Option ℕ → ℕ → Io → Io
copied none size io = access (store size 0) io
copied (some b) size io = access (store size size) (acquire b io)

unfoldable pub copy_formats : A2dpAnswers → State → NtStatus × State
copy_formats a (s, io) = (success, (record s { formats = a.memory }, copied a.memory a.cb_size io))

unfoldable pub a2dp_start_miniports : A2dpAnswers → State → NtStatus × State
a2dp_start_miniports a (s, io) =
    let r = a2dp_create_custom_endpoint_minipair a.common.base a.custom a.common.blocks io in
    (r.0, (record s { miniports = or_kept r.1 s.miniports }, r.2))

-- EnableA2dpHpConnectionStatusNotification, EnableA2dpHpSpeakerSiopNotification and, for a speaker
-- with a volume, EnableA2dpHpSpeakerVolumeStatusNotification.
unfoldable pub a2dp_start_notices : A2dpAnswers → Descriptor → State → NtStatus × State
a2dp_start_notices a d t =
    next (enable_volume_status_notification a.connection, t)
      (λ t. next (enable_volume_status_notification a.siop, t) (start_notice a.common d))

unfoldable pub a2dp_start_described : Sizes → A2dpAnswers → Descriptor → State → NtStatus × State
a2dp_start_described z a d t = next (start_volume z a.common d t) (λ t.
    next (start_mute z a.common d t) (λ t. next (copy_formats a t) (λ t.
      next (a2dp_start_miniports a t) (λ t.
        next (start_verify a.common t)
          (λ t. next (start_filters a.common t) (a2dp_start_notices a d))))))

abbrev pub a2dp_start_side_of : Sizes → A2dpAnswers → Option Descriptor → State → NtStatus × State
a2dp_start_side_of z a none t = (success, t)
a2dp_start_side_of z a (some d) t = a2dp_start_described z a d t

-- The count of endpoints for output, and the speaker.
pub record Speakers : Type 0 where
  pub count : ℕ
  pub side : Side

abbrev pub place_speaker : Flow → ℕ → Descriptor → Speakers → Speakers
place_speaker flow_out i d f = record f {
  count = (f.count + 1) % 2 ^ 32;
  side = record f.side { endpoint = i; descriptor = some d };
}
place_speaker flow_in i d f = f
place_speaker flow_other i d f = f

abbrev pub place_found : Endpoint → ℕ → Option ℕ → Speakers → Speakers
place_found e i none f = f
place_found e i (some b) f = place_speaker e.flow i (described e b) f

abbrev pub get_a2dp_hp_descriptor : Fetch → Io → NtStatus × Option ℕ × Io
get_a2dp_hp_descriptor = get_descriptor

abbrev pub get_a2dp_hp_endpoint_descriptor : Fetch → Io → NtStatus × Option ℕ × Io
get_a2dp_hp_endpoint_descriptor = get_endpoint

-- The loop over the endpoints.
unfoldable pub find_speakers : List Endpoint → ℕ → Speakers → Io → NtStatus × (Speakers × Io)
find_speakers [] i f io = (success, (f, io))
find_speakers (e ∷ es) i f io =
    let r = get_a2dp_hp_endpoint_descriptor e.fetch io in
    let rest = find_speakers es (i + 1) (place_found e i r.1 f) r.2 in
    if nt_success r.0 then rest else (r.0, (f, r.2))

unfoldable pub check_speakers : Speakers → NtStatus × Side
check_speakers f =
    if ltb 1 f.count
    then (device_feature_not_supported, record f.side { endpoint = 0 })
    else (success, f.side)

-- What Start meets: for the capabilities that it tells, with their size, for the descriptor of the
-- device, for each endpoint that the descriptor counts, for the speaker, and for the two requests to
-- claim it.
pub record A2dpStart : Type 0 where
  pub capabilities : NtStatus
  pub capabilities_size : ℕ
  pub descriptor : Fetch
  pub endpoints : List Endpoint
  pub speaker : A2dpAnswers
  pub claim : NtStatus
  pub unclaim : NtStatus

-- SetA2dpHpDeviceCapabilities
unfoldable pub set_device_capabilities : ℕ → NtStatus → Io → NtStatus × Io
set_device_capabilities size status io =
    let r = send_io_ctrl_synchronously status set_siop size size 0 0 io in
    if nt_success status then (success, r.1) else (status, r.1)

unfoldable pub a2dp_start_capabilities : A2dpStart → A2dp × Io → NtStatus × (A2dp × Io)
a2dp_start_capabilities a (u, io) =
    let r = set_device_capabilities a.capabilities_size a.capabilities io in (r.0, (u, r.1))

unfoldable pub a2dp_start_descriptor : A2dpStart → A2dp × Io → NtStatus × (A2dp × Io)
a2dp_start_descriptor a (u, io) =
    let r = get_a2dp_hp_descriptor a.descriptor io in (r.0, (record u { descriptor = r.1 }, r.2))

unfoldable pub a2dp_start_endpoints : A2dpStart → A2dp × Io → NtStatus × (A2dp × Io)
a2dp_start_endpoints a (u, io) =
    let r = find_speakers a.endpoints 0 (record { count = 0; side = u.speaker }) io in
    let c = check_speakers r.1.0 in
    if nt_success r.0
    then (c.0, (record u { speaker = c.1 }, r.1.1))
    else (r.0, (record u { speaker = r.1.0.side }, r.1.1))

unfoldable pub a2dp_start_speaker : Sizes → A2dpStart → A2dp × Io → NtStatus × (A2dp × Io)
a2dp_start_speaker z a (u, io) =
    let r = a2dp_start_side_of z a.speaker u.speaker.descriptor (u.speaker, io) in
    (r.0, (record u { speaker = r.1.0 }, r.1.1))

unfoldable pub a2dp_start_claim : Sizes → A2dpStart → A2dp × Io → NtStatus × (A2dp × Io)
a2dp_start_claim z a (u, io) = let r = set_sideband_claimed z a.claim io in (r.0, (u, r.1))

unfoldable pub a2dp_start_all : Sizes → A2dpStart → A2dp × Io → NtStatus × (A2dp × Io)
a2dp_start_all z a t = next (a2dp_start_capabilities a t) (λ t.
    next (a2dp_start_descriptor a t) (λ t.
      next (a2dp_start_endpoints a t)
        (λ t. next (a2dp_start_speaker z a t) (a2dp_start_claim z a))))

-- What a failure leaves.
unfoldable pub a2dp_start_failed : Sizes → A2dpStart → A2dp × Io → A2dp × Io
a2dp_start_failed z a (u, io) =
    (record u { phase = failed }, (set_sideband_claimed z a.unclaim io).1)

-- Start
unfoldable pub a2dp_start : Sizes → A2dpStart → A2dp × Io → A2dp × Io
a2dp_start z a t =
    let r = a2dp_start_all z a t in if nt_success r.0 then r.1 else a2dp_start_failed z a r.1
