-- ===== src/A2dp/Ends.antt =====
-- inferno_driver/A2dpHpDevice.cpp, A2dpHpDevice::Init, the codec's capabilities, A2dpHpDevice::Stop
-- and the destructor.
use inferno_windows.Prelude.{
  ℕ, Option, none, some, List, [], ◌∷◌, ◌==◌, ◌||◌, ◌-◌, ◌^◌, ltb, if◌then◌else◌,
}
use inferno_windows.Status.{NtStatus, success, insufficient_resources, nt_success}
use inferno_windows.Endpoints.{Services, Minipair}
use inferno_windows.Remote.{
  Io, Fetch, get_siop, acquire, free, free_of, free_list, send_io_ctrl_synchronously,
  is_buffer_too_small, invalid_device_state,
}
use inferno_windows.Remote.Pairs.{acquire_of, delete_custom_endpoint_minipair}
use inferno_windows.Usb.{next}
use inferno_windows.Usb.Start.{initializing, running, stopped}
use inferno_windows.Usb.Ends.{
  InitAnswers, State, no_objects, no_side, init_work_item, init_collection, init_target,
  init_requests, link_status, remove_filters, without_filters,
}
use inferno_windows.Usb.Destroy.{descriptor_block, free_requests}
use inferno_windows.A2dp.{A2dp}

abbrev pub new_a2dp : A2dp
new_a2dp = record {
  phase = initializing;
  objects = no_objects;
  descriptor = none;
  caps = none;
  speaker = no_side;
}

-- The opening of the target and the link; there is no dependency.
unfoldable pub a2dp_init_link : InitAnswers → State → NtStatus × State
a2dp_init_link a (o, io) =
    if nt_success a.target_opened
    then (link_status a.link, (record o { link = a.link }, acquire_of a.link io))
    else (a.target_opened, (o, io))

unfoldable pub a2dp_init_objects : InitAnswers → State → NtStatus × State
a2dp_init_objects a t = next (init_work_item a t) (λ t. next (init_collection a t) (λ t.
    next (init_target a t)
      (λ t. next (a2dp_init_link a t) (λ t. next (init_requests a t) (λ t. (a.names, t))))))

-- Init, of a device whose members are all NULL.
unfoldable pub a2dp_init : InitAnswers → Io → NtStatus × (A2dp × Io)
a2dp_init a io =
    let r = a2dp_init_objects a (no_objects, io) in
    let u = record new_a2dp { objects = r.1.0 } in
    if nt_success r.0 then (success, (record u { phase = running }, r.1.1)) else (r.0, (u, r.1.1))

-- GetA2dpHpCodecCaps, from the memory on: `length` is the size that the first step gave, or 0.
unfoldable pub get_caps_into : ℕ → Fetch → ℕ → Option ℕ → Io → NtStatus × Option ℕ × Io
get_caps_into size f length none io = (insufficient_resources, none, io)
get_caps_into size f length (some b) io =
    let got = send_io_ctrl_synchronously f.get get_siop size size length length (acquire b io) in
    if nt_success f.reuse
    then (if nt_success f.get then (f.get, some b, got.1) else (f.get, none, free b got.1))
    else (f.reuse, none, free b (acquire b io))

-- After the first step, which may also succeed.
unfoldable pub get_caps_probed : ℕ → Fetch → Io → NtStatus × Option ℕ × Io
get_caps_probed size f io =
    let probed = send_io_ctrl_synchronously f.probe get_siop size size 0 0 io in
    if is_buffer_too_small f.probe
    then (if (f.information == 0) || ltb (2 ^ 32 - 1) f.information
        then (invalid_device_state, none, probed.1)
        else get_caps_into size f f.information f.memory probed.1)
    else (if nt_success f.probe
        then get_caps_into size f 0 f.memory probed.1
        else (f.probe, none, probed.1))

unfoldable pub get_codec_caps : ℕ → Fetch → Io → NtStatus × Option ℕ × Io
get_codec_caps size f io =
    let r = get_caps_probed size f (acquire f.object io) in
    if nt_success f.create then (r.0, r.1, free f.object r.2) else (f.create, none, io)

-- UpdateA2dpHpCodecCaps
unfoldable pub update_codec_caps : Option ℕ → A2dp × Io → A2dp × Io
update_codec_caps caps (u, io) = (record u { caps = caps }, free_of u.caps io)

-- A notification that the codec was configured, in EvtA2dpHpDeviceNotificationStatusWorkItem.
unfoldable pub configure_codec : ℕ → Fetch → A2dp × Io → A2dp × Io
configure_codec size f (u, io) =
    let r = get_codec_caps size f io in
    if nt_success r.0 then update_codec_caps r.1 (u, r.2) else (u, r.2)

unfoldable pub configure_codecs : ℕ → List Fetch → A2dp × Io → A2dp × Io
configure_codecs size [] t = t
configure_codecs size (f ∷ fs) t = configure_codecs size fs (configure_codec size f t)

-- Stop
unfoldable pub a2dp_stop : Services → Minipair → A2dp × Io → A2dp × Io
a2dp_stop k pair (u, io) =
    let i1 = remove_filters k pair u.speaker io in
    let i2 = free_list (u.speaker.topology ∷ u.speaker.wave ∷ []) i1 in
    (record u { phase = stopped; speaker = without_filters u.speaker }, i2)

-- The destructor.
unfoldable pub a2dp_destroy : A2dp → Io → Io
a2dp_destroy u io =
    let s = u.speaker in
    let i1 = free_list (u.objects.target ∷ u.objects.link ∷ []) io in
    let i2 = delete_custom_endpoint_minipair s.miniports i1 in
    let i3 =
      free_list
        (u.descriptor
          ∷ descriptor_block s.descriptor
          ∷ s.formats
          ∷ s.volume_values
          ∷ s.mute_values
          ∷ u.caps
          ∷ [])
        i2 in
    let i4 = free_requests u.objects.requests i3 in
    free_list (u.objects.work_item ∷ u.objects.collection ∷ s.topology ∷ s.wave ∷ []) i4
