-- ===== src/Usb.antt =====
-- inferno_driver/UsbHsDevice.cpp, the life of a device: the members that hold memory or objects, and
-- Start for one direction. The text for the speaker and the one for the microphone are here once.
pub mod Start
pub mod Ends
pub mod Destroy
pub mod Owned
pub mod OwnedSide
pub mod OwnedStart
pub mod OwnedAll
pub mod OwnedInit
pub mod OwnedEnds
pub mod Life
pub mod Leaks
pub mod Resources
pub mod Samples
pub mod Controls
pub mod Calls
pub mod Recall
mod Tests
use inferno_windows.Prelude.{ℕ, Bool, true, false, Option, none, some, List, if◌then◌else◌}
use inferno_windows.Status.{NtStatus, success, nt_success}
use inferno_windows.Endpoints.{Build, Services, Minipair, Endpoints, Wants}
use inferno_windows.Endpoints.Install.{install_endpoint_filters}
use inferno_windows.Headset.Formats.{Format, verify_endpoint_format_compatibility}
use inferno_windows.Remote.{
  Io, Code, Fetch, get_volume_values, get_mute_values, get_volume, get_mute, get_property_values,
  get_formats_intersection, send_io_ctrl_asynchronously,
}
use inferno_windows.Remote.Levels.{Sizes, Answer, get_level}
use inferno_windows.Remote.Pairs.{Base, Blocks, Pair, create_custom_endpoint_minipair}

-- KSPIN_DATAFLOW
pub data Flow : Type 0 where
  flow_out flow_in flow_other : Flow

-- SIDEBANDAUDIO_ENDPOINT_DESCRIPTOR2, with the block that it is in.
pub record Descriptor : Type 0 where
  pub block : ℕ
  pub flow : Flow
  pub has_volume : Bool
  pub has_mute : Bool
  pub feedback : Bool
  pub volume_size : ℕ
  pub mute_size : ℕ

-- The members for one direction.
pub record Side : Type 0 where
  pub endpoint : ℕ
  pub descriptor : Option Descriptor
  pub volume_values : Option ℕ
  pub volume_level : ℕ
  pub mute_values : Option ℕ
  pub mute_level : ℕ
  pub formats : Option ℕ
  pub miniports : Option Pair
  pub selected : ℕ
  pub resources : List (Option ℕ)
  pub topology : Option ℕ
  pub wave : Option ℕ

-- What the property values of a direction and its level meet.
pub record Values : Type 0 where
  pub memory : Option ℕ
  pub get : NtStatus
  pub level : Answer

-- A request that is sent asynchronously.
pub record Notice : Type 0 where
  pub format : NtStatus
  pub sent : Bool
  pub status : NtStatus

-- What Start meets for one direction; `hardware` and `offered` are the formats of the driver's table
-- and of the intersection, and `base_size` and `wave_size` the sizes of their structures.
pub record Answers : Type 0 where
  pub volume : Values
  pub mute : Values
  pub formats : Fetch
  pub base : Base
  pub blocks : Blocks
  pub base_size : ℕ
  pub wave_size : ℕ
  pub hardware : List Format
  pub offered : List Format
  pub services : Services
  pub pair : Minipair
  pub topo_build : Build
  pub wave_build : Build
  pub notice : Notice

abbrev pub State : Type 0
State = Side × Io

-- IF_FAILED_ACTION_JUMP: what follows runs where the status is a success.
abbrev pub next {ℓ} : {S : Type ℓ} → NtStatus × S → (S → NtStatus × S) → NtStatus × S
next r k = if nt_success r.0 then k r.1 else r

-- A member that is set where there is a value for it.
abbrev pub or_else {ℓ} : {A : Type ℓ} → Option A → A → A
or_else none y = y
or_else (some x) y = x

abbrev pub or_kept {ℓ} : {A : Type ℓ} → Option A → Option A → Option A
or_kept none y = y
or_kept (some x) y = some x

-- The property values, and then the level.
unfoldable pub values_and_level :
    Code → Code → ℕ → ℕ → ℕ → Values → Io → NtStatus × Option ℕ × Option ℕ × Io
values_and_level values level length size room a io =
    let v = get_property_values values length a.get a.memory io in
    let l = get_level level size room a.level v.2 in
    if nt_success v.0
    then (l.0, v.1, (if nt_success l.0 then some l.1 else none), l.2)
    else (v.0, none, none, v.2)

unfoldable pub start_volume : Sizes → Answers → Descriptor → State → NtStatus × State
start_volume z a d (s, io) =
    let r =
      values_and_level get_volume_values get_volume d.volume_size z.volume z.buffer a.volume io in
    let set = record s {
      volume_values = or_kept r.1 s.volume_values;
      volume_level = or_else r.2 s.volume_level;
    } in
    if d.has_volume then (r.0, (set, r.3)) else (success, (s, io))

unfoldable pub start_mute : Sizes → Answers → Descriptor → State → NtStatus × State
start_mute z a d (s, io) =
    let r = values_and_level get_mute_values get_mute d.mute_size z.mute z.buffer a.mute io in
    let set = record s {
      mute_values = or_kept r.1 s.mute_values;
      mute_level = or_else r.2 s.mute_level;
    } in
    if d.has_mute then (r.0, (set, r.3)) else (success, (s, io))

unfoldable pub start_formats : Sizes → Answers → State → NtStatus × State
start_formats z a (s, io) =
    let r = get_formats_intersection z.formats a.formats io in
    (r.0, (record s { formats = r.1 }, r.2))

unfoldable pub start_miniports : Answers → State → NtStatus × State
start_miniports a (s, io) =
    let r = create_custom_endpoint_minipair a.base a.blocks io in
    (r.0, (record s { miniports = or_kept r.1 s.miniports }, r.2))

unfoldable pub start_verify : Answers → State → NtStatus × State
start_verify a (s, io) =
    let r = verify_endpoint_format_compatibility a.base_size a.wave_size a.offered a.hardware in
    (r.0, (record s { selected = or_else r.1 s.selected }, io))

abbrev pub both_ports : Wants
both_ports = record { topology = true; wave = true; mini_topology = false; mini_wave = false }

unfoldable pub start_filters : Answers → State → NtStatus × State
start_filters a (s, io) =
    let r =
      install_endpoint_filters a.services a.pair a.topo_build a.wave_build both_ports io.adapter in
    (
      r.0,
      (
        record s { topology = or_kept r.1.topology s.topology; wave = or_kept r.1.wave s.wave },
        record io { adapter = r.2 },
      ),
    )

-- EnableUsbHsSpeakerVolumeStatusNotification and EnableUsbHsMicVolumeStatusNotification
unfoldable pub enable_volume_status_notification : Notice → NtStatus
enable_volume_status_notification n =
    let status = send_io_ctrl_asynchronously n.format n.sent n.status in
    if nt_success status then success else status

unfoldable pub start_notice : Answers → Descriptor → State → NtStatus × State
start_notice a d (s, io) =
    if d.has_volume
    then (enable_volume_status_notification a.notice, (s, io))
    else (success, (s, io))

-- Start from the descriptor of a direction on.
unfoldable pub start_described : Sizes → Answers → Descriptor → State → NtStatus × State
start_described z a d t = next (start_volume z a d t) (λ t. next (start_mute z a d t) (λ t.
    next (start_formats z a t) (λ t.
      next (start_miniports a t)
        (λ t. next (start_verify a t) (λ t. next (start_filters a t) (start_notice a d))))))

abbrev pub start_side_of : Sizes → Answers → Option Descriptor → State → NtStatus × State
start_side_of z a none t = (success, t)
start_side_of z a (some d) t = start_described z a d t

unfoldable pub start_side : Sizes → Answers → State → NtStatus × State
start_side z a (s, io) = start_side_of z a s.descriptor (s, io)
