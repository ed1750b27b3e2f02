-- ===== src/Usb/Start.antt =====
-- inferno_driver/UsbHsDevice.cpp, UsbHsDevice::Init and UsbHsDevice::Start as wholes.
use inferno_windows.Prelude.{
  ℕ, ◌+◌, ◌%◌, ◌^◌, Bool, ◌||◌, ◌&&◌, Option, none, some, List, [], ◌∷◌, ltb, if◌then◌else◌,
}
use inferno_windows.Status.{NtStatus, success, failure, nt_success}
use inferno_windows.Remote.{Io, Fetch, free_of, get_descriptor, get_endpoint, get_siop_of}
use inferno_windows.Remote.Levels.{Sizes, set_sideband_claimed}
use inferno_windows.Usb.{
  Flow, flow_out, flow_in, flow_other, Descriptor, Side, Answers, State, next, start_side,
}

pub data Phase : Type 0 where
  initializing running stopping stopped failed : Phase

-- A request for notifications, with its two memory objects.
pub record Request : Type 0 where
  pub request : Option ℕ
  pub mem_in : Option ℕ
  pub mem_out : Option ℕ

abbrev pub no_request : Request
no_request = record { request = none; mem_in = none; mem_out = none }

-- m_WorkItem, m_ReqCollection, m_WdfIoTarget, the buffer of m_SymbolicLinkName and the six requests.
pub record Objects : Type 0 where
  pub work_item : Option ℕ
  pub collection : Option ℕ
  pub target : Option ℕ
  pub link : Option ℕ
  pub requests : List Request

pub record Usb : Type 0 where
  pub phase : Phase
  pub objects : Objects
  pub descriptor : Option ℕ
  pub speaker : Side
  pub mic : Side

abbrev pub device_feature_not_supported : NtStatus
device_feature_not_supported = failure 0xC0000463

abbrev pub on_speaker : (State → NtStatus × State) → Usb × Io → NtStatus × (Usb × Io)
on_speaker f (u, io) = let r = f (u.speaker, io) in (r.0, (record u { speaker = r.1.0 }, r.1.1))

abbrev pub on_mic : (State → NtStatus × State) → Usb × Io → NtStatus × (Usb × Io)
on_mic f (u, io) = let r = f (u.mic, io) in (r.0, (record u { mic = r.1.0 }, r.1.1))

-- What GetUsbHsEndpointDescriptor meets for an endpoint, and what the driver below puts into the
-- block.
pub record Endpoint : Type 0 where
  pub fetch : Fetch
  pub flow : Flow
  pub has_volume : Bool
  pub has_mute : Bool
  pub feedback : Bool
  pub volume_size : ℕ
  pub mute_size : ℕ

abbrev pub described : Endpoint → ℕ → Descriptor
described e b = record {
  block = b;
  flow = e.flow;
  has_volume = e.has_volume;
  has_mute = e.has_mute;
  feedback = e.feedback;
  volume_size = e.volume_size;
  mute_size = e.mute_size;
}

-- The counts of endpoints, and the device.
pub record Found : Type 0 where
  pub speakers : ℕ
  pub mics : ℕ
  pub usb : Usb

-- An endpoint goes to its direction, in place of the one before; one of no direction goes nowhere.
abbrev pub place : Flow → ℕ → Descriptor → Found → Found
place flow_out i d f = record f {
  speakers = (f.speakers + 1) % 2 ^ 32;
  usb = record f.usb { speaker = record f.usb.speaker { endpoint = i; descriptor = some d } };
}
place flow_in i d f = record f {
  mics = (f.mics + 1) % 2 ^ 32;
  usb = record f.usb { mic = record f.usb.mic { endpoint = i; descriptor = some d } };
}
place flow_other i d f = f

abbrev pub place_block : Endpoint → ℕ → Option ℕ → Found → Found
place_block e i none f = f
place_block e i (some b) f = place e.flow i (described e b) f

-- The loop over the endpoints.
unfoldable pub find_endpoints : List Endpoint → ℕ → Found → Io → NtStatus × (Found × Io)
find_endpoints [] i f io = (success, (f, io))
find_endpoints (e ∷ es) i f io =
    let r = get_endpoint e.fetch io in
    let rest = find_endpoints es (i + 1) (place_block e i r.1 f) r.2 in
    if nt_success r.0 then rest else (r.0, (f, r.2))

unfoldable pub check_endpoints : Found → NtStatus × Usb
check_endpoints f =
    if ltb 1 f.speakers || ltb 1 f.mics
    then (
      device_feature_not_supported,
      record f.usb {
        speaker = record f.usb.speaker { endpoint = 0 };
        mic = record f.usb.mic { endpoint = 0 };
      },
    )
    else (success, f.usb)

-- What Start meets: for the descriptor of the device, for the question whether it is behind a hub,
-- for each endpoint that the descriptor counts, for the two directions, for the pair, and for the two
-- requests to claim it.
pub record StartAnswers : Type 0 where
  pub descriptor : Fetch
  pub behind_hub : Fetch
  pub endpoints : List Endpoint
  pub speaker : Answers
  pub mic : Answers
  pub pair : NtStatus
  pub claim : NtStatus
  pub unclaim : NtStatus

unfoldable pub start_descriptor : StartAnswers → Usb × Io → NtStatus × (Usb × Io)
start_descriptor a (u, io) =
    let r = get_descriptor a.descriptor io in (r.0, (record u { descriptor = r.1 }, r.2))

-- The block is freed at once.
unfoldable pub start_hub : Sizes → StartAnswers → Usb × Io → NtStatus × (Usb × Io)
start_hub z a (u, io) = let r = get_siop_of z.siop a.behind_hub io in (r.0, (u, free_of r.1 r.2))

unfoldable pub start_endpoints : StartAnswers → Usb × Io → NtStatus × (ℕ × ℕ × Usb) × Io
start_endpoints a (u, io) =
    let r = find_endpoints a.endpoints 0 (record { speakers = 0; mics = 0; usb = u }) io in
    let c = check_endpoints r.1.0 in
    let f = r.1.0 in
    if nt_success r.0
    then (c.0, (f.speakers, f.mics, c.1), r.1.1)
    else (r.0, (f.speakers, f.mics, f.usb), r.1.1)

-- NotifyEndpointPair, where there are both.
unfoldable pub start_pair : StartAnswers → ℕ → ℕ → Usb × Io → NtStatus × (Usb × Io)
start_pair a speakers mics t = if ltb 0 speakers && ltb 0 mics then (a.pair, t) else (success, t)

unfoldable pub start_claim : Sizes → StartAnswers → Usb × Io → NtStatus × (Usb × Io)
start_claim z a (u, io) = let r = set_sideband_claimed z a.claim io in (r.0, (u, r.1))

unfoldable pub start_sides :
    Sizes → StartAnswers → NtStatus × (ℕ × ℕ × Usb) × Io → NtStatus × (Usb × Io)
start_sides z a (status, (speakers, mics, u), io) =
    next (status, (u, io))
      (λ t. next (on_speaker (start_side z a.speaker) t) (λ t.
        next (on_mic (start_side z a.mic) t)
          (λ t. next (start_pair a speakers mics t) (start_claim z a))))

unfoldable pub start_all : Sizes → StartAnswers → Usb × Io → NtStatus × (Usb × Io)
start_all z a t =
    next (start_descriptor a t)
      (λ t. next (start_hub z a t) (λ t. start_sides z a (start_endpoints a t)))

-- What a failure leaves.
unfoldable pub start_failed : Sizes → StartAnswers → Usb × Io → Usb × Io
start_failed z a (u, io) = (record u { phase = failed }, (set_sideband_claimed z a.unclaim io).1)

-- Start
unfoldable pub start : Sizes → StartAnswers → Usb × Io → Usb × Io
start z a t = let r = start_all z a t in if nt_success r.0 then r.1 else start_failed z a r.1
