-- ===== src/Usb/Ends.antt =====
-- inferno_driver/UsbHsDevice.cpp, UsbHsDevice::Init, UsbHsDevice::Stop and the destructor.
use inferno_windows.Prelude.{
  ℕ, Bool, true, false, ◌||◌, Option, none, some, List, [], ◌∷◌, if◌then◌else◌,
}
use inferno_windows.Status.{NtStatus, success, insufficient_resources, nt_success}
use inferno_windows.Power.Relations.{add_device_as_power_dependency}
use inferno_windows.Endpoints.{Services, Minipair}
use inferno_windows.Endpoints.Install.{remove_endpoint_filters}
use inferno_windows.Remote.{Io, acquire, free_list}
use inferno_windows.Remote.Pairs.{acquire_of}
use inferno_windows.Usb.{Side, next}
use inferno_windows.Usb.Start.{initializing, running, stopped, Request, no_request, Objects, Usb}

-- The making of an object of the framework.
pub record Made : Type 0 where
  pub status : NtStatus
  pub object : ℕ

abbrev pub make : Made → Io → NtStatus × Option ℕ × Io
make m io =
    if nt_success m.status
    then (m.status, some m.object, acquire m.object io)
    else (m.status, none, io)

pub record RequestMade : Type 0 where
  pub request : Made
  pub mem_in : Made
  pub mem_out : Made

-- A request with its two memory objects; the first step that fails ends it.
unfoldable pub make_request : RequestMade → Io → NtStatus × Request × Io
make_request m io =
    let q = make m.request io in
    let i = make m.mem_in q.2 in
    let o = make m.mem_out i.2 in
    if nt_success q.0
    then (if nt_success i.0
        then (o.0, record { request = q.1; mem_in = i.1; mem_out = o.1 }, o.2)
        else (i.0, record { request = q.1; mem_in = none; mem_out = none }, i.2))
    else (q.0, no_request, q.2)

-- The requests in their order.
unfoldable pub make_requests : List RequestMade → Io → NtStatus × List Request × Io
make_requests [] io = (success, [], io)
make_requests (m ∷ ms) io =
    let r = make_request m io in
    let rest = make_requests ms r.2 in
    if nt_success r.0 then (rest.0, r.1 ∷ rest.1, rest.2) else (r.0, r.1 ∷ [], r.2)

-- What Init meets: the making of the work item, of the collection and of the target, the opening of
-- the target, the memory for the dependency and the device below, the memory for the link, the six
-- requests, and the names of the filters.
pub record InitAnswers : Type 0 where
  pub work_item : Made
  pub collection : Made
  pub target : Made
  pub target_opened : NtStatus
  pub room : Bool
  pub pdo : ℕ
  pub link : Option ℕ
  pub requests : List RequestMade
  pub names : NtStatus

abbrev pub no_objects : Objects
no_objects = record {
  work_item = none;
  collection = none;
  target = none;
  link = none;
  requests = [];
}

abbrev pub no_side : Side
no_side = record {
  endpoint = 0;
  descriptor = none;
  volume_values = none;
  volume_level = 0;
  mute_values = none;
  mute_level = 0;
  formats = none;
  miniports = none;
  selected = 0;
  resources = [];
  topology = none;
  wave = none;
}

abbrev pub new_usb : Usb
new_usb = record {
  phase = initializing;
  objects = no_objects;
  descriptor = none;
  speaker = no_side;
  mic = no_side;
}

abbrev pub State : Type 0
State = Objects × Io

unfoldable pub init_work_item : InitAnswers → State → NtStatus × State
init_work_item a (o, io) = let r = make a.work_item io in (r.0, (record o { work_item = r.1 }, r.2))

unfoldable pub init_collection : InitAnswers → State → NtStatus × State
init_collection a (o, io) =
    let r = make a.collection io in (r.0, (record o { collection = r.1 }, r.2))

unfoldable pub init_target : InitAnswers → State → NtStatus × State
init_target a (o, io) = let r = make a.target io in (r.0, (record o { target = r.1 }, r.2))

-- The opening of the target, the dependency, whose status is ignored, and the link.
abbrev pub link_status : Option ℕ → NtStatus
link_status none = insufficient_resources
link_status (some b) = success

unfoldable pub init_link : InitAnswers → State → NtStatus × State
init_link a (o, io) =
    let depending = record io {
      power = (add_device_as_power_dependency a.room a.pdo io.power).1;
    } in
    if nt_success a.target_opened
    then (link_status a.link, (record o { link = a.link }, acquire_of a.link depending))
    else (a.target_opened, (o, io))

unfoldable pub init_requests : InitAnswers → State → NtStatus × State
init_requests a (o, io) =
    let r = make_requests a.requests io in (r.0, (record o { requests = r.1 }, r.2))

unfoldable pub init_objects : InitAnswers → State → NtStatus × State
init_objects a t = next (init_work_item a t) (λ t. next (init_collection a t) (λ t.
    next (init_target a t)
      (λ t. next (init_link a t) (λ t. next (init_requests a t) (λ t. (a.names, t))))))

-- Init, of a device whose members are all NULL.
unfoldable pub init : InitAnswers → Io → NtStatus × (Usb × Io)
init a io =
    let r = init_objects a (no_objects, io) in
    let u = record new_usb { objects = r.1.0 } in
    if nt_success r.0 then (success, (record u { phase = running }, r.1.1)) else (r.0, (u, r.1.1))

abbrev pub is_some : Option ℕ → Bool
is_some none = false
is_some (some x) = true

-- RemoveEndpointFilters, where a direction has a filter.
unfoldable pub remove_filters : Services → Minipair → Side → Io → Io
remove_filters k p s io =
    let r = remove_endpoint_filters k p s.topology s.wave io.adapter in
    if is_some s.topology || is_some s.wave then record io { adapter = r.1 } else io

abbrev pub without_filters : Side → Side
without_filters s = record s { topology = none; wave = none }

-- Stop, with the pairs of the two directions.
unfoldable pub stop : Services → Minipair → Minipair → Usb × Io → Usb × Io
stop k speaker mic (u, io) =
    let i1 = remove_filters k speaker u.speaker io in
    let i2 = remove_filters k mic u.mic i1 in
    let i3 =
      free_list (u.speaker.topology ∷ u.speaker.wave ∷ u.mic.topology ∷ u.mic.wave ∷ []) i2 in
    (
      record u {
        phase = stopped;
        speaker = without_filters u.speaker;
        mic = without_filters u.mic;
      },
      i3,
    )
