-- ===== src/Bth.antt =====
-- inferno_driver/BthhfpDevice.cpp, BthHfpDevice::Start.
pub mod Ends
pub mod Owned
pub mod OwnedStart
pub mod Life
mod Tests
use inferno_windows.Prelude.{
  ℕ, Bool, true, false, Option, none, some, List, [], ◌∷◌, ltb, ◌==◌, if◌then◌else◌,
}
use inferno_windows.Status.{NtStatus, success, insufficient_resources, failure, nt_success}
use inferno_windows.Endpoints.{Build, Services, Minipair}
use inferno_windows.Endpoints.Install.{install_endpoint_filters}
use inferno_windows.Remote.{
  Io, Fetch, Code, get_volume_values, get_volume, get_connection_status, get_codec_id,
  set_capabilities, acquire, free, get_descriptor, send_io_ctrl_synchronously,
}
use inferno_windows.Remote.Levels.{Answer}
use inferno_windows.Remote.Pairs.{Base, Blocks, Pair, create_custom_endpoint_minipair}
use inferno_windows.Usb.{Notice, next, or_kept, both_ports, enable_volume_status_notification}
use inferno_windows.Usb.Start.{Phase, failed, Objects}

-- The members for the filters of one direction.
pub record Filters : Type 0 where
  pub miniports : Option Pair
  pub topology : Option ℕ
  pub wave : Option ℕ

pub record Bth : Type 0 where
  pub phase : Phase
  pub objects : Objects
  pub descriptor : Option ℕ
  pub volume_values : Option ℕ
  pub speaker_level : ℕ
  pub mic_level : ℕ
  pub connected : Bool
  pub codec : ℕ
  pub speaker : Filters
  pub mic : Filters

-- Sizes in bytes of what is sent and of what comes back, with those of the buffers.
pub record BthSizes : Type 0 where
  pub capabilities : ℕ
  pub immediate : ℕ
  pub volume : ℕ
  pub buffer : ℕ
  pub bool : ℕ
  pub version : ℕ
  pub codec : ℕ
  pub codec_buffer : ℕ

-- What the filters of one direction meet; the pair that they are made from depends on whether the
-- codec is one for wideband speech.
pub record FilterAnswers : Type 0 where
  pub base : Bool → Base
  pub blocks : Blocks
  pub services : Services
  pub pair : Minipair
  pub topo_build : Build
  pub wave_build : Build

-- What Start meets, with what the driver below puts into the descriptor.
pub record BthStart : Type 0 where
  pub capabilities : NtStatus
  pub descriptor : Fetch
  pub has_volume : Bool
  pub values_size : ℕ
  pub memory : Option ℕ
  pub values : NtStatus
  pub speaker_volume : Answer
  pub mic_volume : Answer
  pub connection : NtStatus
  pub connected : Bool
  pub codec : Answer
  pub speaker : FilterAnswers
  pub mic : FilterAnswers
  pub pair : NtStatus
  pub notices : List Notice

abbrev pub State : Type 0
State = Bth × Io

-- A request for a value, which is 0 where it fails.
unfoldable pub get_value : Code → ℕ → ℕ → ℕ → Answer → Io → NtStatus × ℕ × Io
get_value code input output room a io =
    let sent = send_io_ctrl_synchronously a.status code input room output room io in
    if nt_success a.status then (success, a.value, sent.1) else (a.status, 0, sent.1)

-- GetBthHfpVolumePropertyValues
unfoldable pub get_bth_volume_values : ℕ → NtStatus → Option ℕ → Io → NtStatus × Option ℕ × Io
get_bth_volume_values length status none io = (insufficient_resources, none, io)
get_bth_volume_values length status (some b) io =
    let got =
      send_io_ctrl_synchronously status get_volume_values 0 length length length (acquire b io) in
    if nt_success status then (success, some b, got.1) else (status, none, free b got.1)

-- SetBthHfpDeviceCapabilities
unfoldable pub bth_start_capabilities : BthSizes → BthStart → State → NtStatus × State
bth_start_capabilities z a (u, io) =
    let r =
      send_io_ctrl_synchronously a.capabilities set_capabilities z.capabilities z.capabilities 0 0
        io in
    (r.0, (u, r.1))

unfoldable pub bth_start_descriptor : BthStart → State → NtStatus × State
bth_start_descriptor a (u, io) =
    let r = get_descriptor a.descriptor io in (r.0, (record u { descriptor = r.1 }, r.2))

unfoldable pub bth_start_values : BthStart → State → NtStatus × State
bth_start_values a (u, io) =
    let r = get_bth_volume_values a.values_size a.values a.memory io in
    (r.0, (record u { volume_values = or_kept r.1 u.volume_values }, r.2))

unfoldable pub bth_start_speaker_level : BthSizes → BthStart → State → NtStatus × State
bth_start_speaker_level z a (u, io) =
    let r = get_value get_volume z.immediate z.volume z.buffer a.speaker_volume io in
    let level = if nt_success r.0 then r.1 else u.speaker_level in
    (r.0, (record u { speaker_level = level }, r.2))

unfoldable pub bth_start_mic_level : BthSizes → BthStart → State → NtStatus × State
bth_start_mic_level z a (u, io) =
    let r = get_value get_volume z.immediate z.volume z.buffer a.mic_volume io in
    let level = if nt_success r.0 then r.1 else u.mic_level in
    (r.0, (record u { mic_level = level }, r.2))

unfoldable pub bth_start_volume : BthSizes → BthStart → State → NtStatus × State
bth_start_volume z a t =
    if a.has_volume
    then next (bth_start_values a t)
        (λ t. next (bth_start_speaker_level z a t) (bth_start_mic_level z a))
    else (success, t)

-- GetBthHfpConnectionStatus
unfoldable pub bth_start_connection : BthSizes → BthStart → State → NtStatus × State
bth_start_connection z a (u, io) =
    let r =
      send_io_ctrl_synchronously a.connection get_connection_status z.bool z.bool z.bool z.bool
        io in
    let connected = if nt_success r.0 then a.connected else u.connected in
    (r.0, (record u { connected = connected }, r.1))

-- STATUS_INVALID_DEVICE_REQUEST == status
abbrev pub is_invalid_request : NtStatus → Bool
is_invalid_request (failure n) = n == 0xC0000010
is_invalid_request _ = false

-- GetBthHfpCodecId, where there is a connection.
unfoldable pub bth_start_codec : BthSizes → BthStart → State → NtStatus × State
bth_start_codec z a (u, io) =
    let r = get_value get_codec_id z.version z.codec z.codec_buffer a.codec io in
    let status = if is_invalid_request r.0 then success else r.0 in
    let codec = if nt_success status then r.1 else u.codec in
    if u.connected
    then (status, (record u { codec = codec }, r.2))
    else (success, (record u { codec = 0 }, io))

-- CreateCustomEndpointMinipair for one direction.
unfoldable pub make_miniports : FilterAnswers → ℕ → Filters × Io → NtStatus × (Filters × Io)
make_miniports a codec (p, io) =
    let r = create_custom_endpoint_minipair (a.base (ltb 0 codec)) a.blocks io in
    (r.0, (record p { miniports = or_kept r.1 p.miniports }, r.2))

-- InstallEndpointFilters for one direction.
unfoldable pub install_filters : FilterAnswers → Filters × Io → NtStatus × (Filters × Io)
install_filters a (p, io) =
    let r =
      install_endpoint_filters a.services a.pair a.topo_build a.wave_build both_ports io.adapter in
    (
      r.0,
      (
        record p { topology = or_kept r.1.topology p.topology; wave = or_kept r.1.wave p.wave },
        record io { adapter = r.2 },
      ),
    )

abbrev pub on_speaker : (Filters × Io → NtStatus × (Filters × Io)) → State → NtStatus × State
on_speaker f (u, io) = let r = f (u.speaker, io) in (r.0, (record u { speaker = r.1.0 }, r.1.1))

abbrev pub on_mic : (Filters × Io → NtStatus × (Filters × Io)) → State → NtStatus × State
on_mic f (u, io) = let r = f (u.mic, io) in (r.0, (record u { mic = r.1.0 }, r.1.1))

-- The four notifications, in their order.
unfoldable pub enable_notices : List Notice → NtStatus
enable_notices [] = success
enable_notices (n ∷ ns) =
    let status = enable_volume_status_notification n in
    let rest = enable_notices ns in if nt_success status then rest else status

unfoldable pub bth_start_all : BthSizes → BthStart → State → NtStatus × State
bth_start_all z a t = next (bth_start_capabilities z a t) (λ t.
    next (bth_start_descriptor a t) (λ t. next (bth_start_volume z a t) (λ t.
      next (bth_start_connection z a t) (λ t. next (bth_start_codec z a t) (λ t.
        next (on_speaker (make_miniports a.speaker t.0.codec) t) (λ t.
          next (on_mic (make_miniports a.mic t.0.codec) t) (λ t.
            next (on_speaker (install_filters a.speaker) t) (λ t.
              next (on_mic (install_filters a.mic) t)
                (λ t. next (a.pair, t) (λ t. (enable_notices a.notices, t)))))))))))

-- Start
unfoldable pub bth_start : BthSizes → BthStart → State → State
bth_start z a t =
    let r = bth_start_all z a t in
    if nt_success r.0 then r.1 else (record r.1.0 { phase = failed }, r.1.1)
