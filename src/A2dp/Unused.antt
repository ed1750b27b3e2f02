-- ===== src/A2dp/Unused.antt =====
-- inferno_driver/A2dpHpDevice.cpp: m_SpeakerTransportResources, which no step of Start sets.
use inferno_windows.Prelude.{
  ℕ, ◌+◌, ◌≡◌, refl, ◌∙◌, Option, none, some, List, [], ◌∷◌, ltb, if_both,
}
use inferno_windows.Status.{NtStatus, nt_success}
use inferno_windows.Remote.{Io, Fetch, get_endpoint}
use inferno_windows.Remote.Levels.{Sizes}
use inferno_windows.Usb.{
  Flow, flow_out, flow_in, flow_other, Descriptor, Side, State, next, start_volume, start_mute,
  start_verify, start_filters, start_notice, enable_volume_status_notification,
}
use inferno_windows.Usb.Start.{Endpoint, described}
use inferno_windows.Usb.Ends.{InitAnswers, no_objects}
use inferno_windows.Usb.Owned.{next-keeps}
use inferno_windows.A2dp.{
  A2dp, A2dpAnswers, A2dpStart, Speakers, place_speaker, place_found, find_speakers, check_speakers,
  copy_formats, a2dp_start_miniports, a2dp_start_notices, a2dp_start_described, a2dp_start_side_of,
  a2dp_start_capabilities, a2dp_start_descriptor, a2dp_start_endpoints, a2dp_start_speaker,
  a2dp_start_claim, a2dp_start_all, a2dp_start_failed, a2dp_start,
}
use inferno_windows.A2dp.Ends.{
  a2dp_init, a2dp_init_objects, configure_codec, configure_codecs, update_codec_caps,
  get_codec_caps,
}

abbrev Lacks : State → Type 0
Lacks t = t.0.resources ≡ []

abbrev pub LacksA2dp : A2dp × Io → Type 0
LacksA2dp t = t.0.speaker.resources ≡ []

keeps_Lacks :
    (r : NtStatus × State) (k : State → NtStatus × State)
    → Lacks r.1
    → ((t : State) → Lacks t → Lacks (k t).1)
    → Lacks (next r k).1
keeps_Lacks r k p f = next-keeps Lacks Lacks r k p (λ s q. q) f

start_volume-Lacks :
    (z : Sizes) (a : A2dpAnswers) (d : Descriptor) (t : State)
    → Lacks t
    → Lacks (start_volume z a.common d t).1
unfolding start_volume
start_volume-Lacks z a d (s, io) h = if_both (λ (r : NtStatus × State). Lacks r.1) d.has_volume h h

start_mute-Lacks :
    (z : Sizes) (a : A2dpAnswers) (d : Descriptor) (t : State)
    → Lacks t
    → Lacks (start_mute z a.common d t).1
unfolding start_mute
start_mute-Lacks z a d (s, io) h = if_both (λ (r : NtStatus × State). Lacks r.1) d.has_mute h h

start_notice-Lacks :
    (a : A2dpAnswers) (d : Descriptor) (t : State) → Lacks t → Lacks (start_notice a.common d t).1
unfolding start_notice
start_notice-Lacks a d (s, io) h = if_both (λ (r : NtStatus × State). Lacks r.1) d.has_volume h h

copy_formats-Lacks : (a : A2dpAnswers) (t : State) → Lacks t → Lacks (copy_formats a t).1
unfolding copy_formats
copy_formats-Lacks a (s, io) h = h

start_pair-Lacks : (a : A2dpAnswers) (t : State) → Lacks t → Lacks (a2dp_start_miniports a t).1
unfolding a2dp_start_miniports
start_pair-Lacks a (s, io) h = h

start_verify-Lacks : (a : A2dpAnswers) (t : State) → Lacks t → Lacks (start_verify a.common t).1
unfolding start_verify
start_verify-Lacks a (s, io) h = h

start_filters-Lacks : (a : A2dpAnswers) (t : State) → Lacks t → Lacks (start_filters a.common t).1
unfolding start_filters
start_filters-Lacks a (s, io) h = h

start_notices-Lacks :
    (a : A2dpAnswers) (d : Descriptor) (t : State) → Lacks t → Lacks (a2dp_start_notices a d t).1
unfolding a2dp_start_notices
start_notices-Lacks a d t h =
    let k =
      λ (t : State). next (enable_volume_status_notification a.siop, t) (start_notice a.common d) in
    keeps_Lacks (enable_volume_status_notification a.connection, t) k h
      (λ t h.
        keeps_Lacks (enable_volume_status_notification a.siop, t) (start_notice a.common d) h
          (start_notice-Lacks a d))

start_described-Lacks :
    (z : Sizes) (a : A2dpAnswers) (d : Descriptor) (t : State)
    → Lacks t
    → Lacks (a2dp_start_described z a d t).1
unfolding a2dp_start_described
start_described-Lacks z a d t h =
    let k5 = λ (t : State). next (start_filters a.common t) (a2dp_start_notices a d) in
    let k4 = λ (t : State). next (start_verify a.common t) k5 in
    let k3 = λ (t : State). next (a2dp_start_miniports a t) k4 in
    let k2 = λ (t : State). next (copy_formats a t) k3 in
    let k1 = λ (t : State). next (start_mute z a.common d t) k2 in
    keeps_Lacks (start_volume z a.common d t) k1 (start_volume-Lacks z a d t h) (λ t h.
      keeps_Lacks (start_mute z a.common d t) k2 (start_mute-Lacks z a d t h) (λ t h.
        keeps_Lacks (copy_formats a t) k3 (copy_formats-Lacks a t h) (λ t h.
          keeps_Lacks (a2dp_start_miniports a t) k4 (start_pair-Lacks a t h) (λ t h.
            keeps_Lacks (start_verify a.common t) k5 (start_verify-Lacks a t h) (λ t h.
              keeps_Lacks (start_filters a.common t) (a2dp_start_notices a d)
                (start_filters-Lacks a t h) (start_notices-Lacks a d))))))

start_side_of-Lacks :
    (z : Sizes) (a : A2dpAnswers) (d : Option Descriptor) (t : State)
    → Lacks t
    → Lacks (a2dp_start_side_of z a d t).1
start_side_of-Lacks z a none t h = h
start_side_of-Lacks z a (some d) t h = start_described-Lacks z a d t h

place_speaker_same :
    (flow : Flow) (i : ℕ) (d : Descriptor) (f : Speakers)
    → (place_speaker flow i d f).side.resources ≡ f.side.resources
place_speaker_same flow_out i d f = refl
place_speaker_same flow_in i d f = refl
place_speaker_same flow_other i d f = refl

place_found_same :
    (e : Endpoint) (i : ℕ) (b : Option ℕ) (f : Speakers)
    → (place_found e i b f).side.resources ≡ f.side.resources
place_found_same e i none f = refl
place_found_same e i (some b) f = place_speaker_same e.flow i (described e b) f

find_speakers_same :
    (es : List Endpoint) (i : ℕ) (f : Speakers) (io : Io)
    → (find_speakers es i f io).1.0.side.resources ≡ f.side.resources
unfolding find_speakers
find_speakers_same [] i f io = refl
find_speakers_same (e ∷ es) i f io =
    let r = get_endpoint e.fetch io in
    if_both (λ (x : NtStatus × (Speakers × Io)). x.1.0.side.resources ≡ f.side.resources)
      (nt_success r.0)
      (find_speakers_same es (i + 1) (place_found e i r.1 f) r.2 ∙ place_found_same e i r.1 f) refl

keeps_LacksA2dp :
    (r : NtStatus × (A2dp × Io)) (k : A2dp × Io → NtStatus × (A2dp × Io))
    → LacksA2dp r.1
    → ((t : A2dp × Io) → LacksA2dp t → LacksA2dp (k t).1)
    → LacksA2dp (next r k).1
keeps_LacksA2dp r k p f = next-keeps LacksA2dp LacksA2dp r k p (λ s q. q) f

start_capabilities-LacksA2dp :
    (a : A2dpStart) (t : A2dp × Io) → LacksA2dp t → LacksA2dp (a2dp_start_capabilities a t).1
unfolding a2dp_start_capabilities
start_capabilities-LacksA2dp a (u, io) h = h

start_descriptor-LacksA2dp :
    (a : A2dpStart) (t : A2dp × Io) → LacksA2dp t → LacksA2dp (a2dp_start_descriptor a t).1
unfolding a2dp_start_descriptor
start_descriptor-LacksA2dp a (u, io) h = h

start_endpoints-LacksA2dp :
    (a : A2dpStart) (t : A2dp × Io) → LacksA2dp t → LacksA2dp (a2dp_start_endpoints a t).1
unfolding a2dp_start_endpoints check_speakers
start_endpoints-LacksA2dp a (u, io) h =
    let r = find_speakers a.endpoints 0 (record { count = 0; side = u.speaker }) io in
    let same = find_speakers_same a.endpoints 0 (record { count = 0; side = u.speaker }) io ∙ h in
    if_both (λ (t : NtStatus × (A2dp × Io)). LacksA2dp t.1) (nt_success r.0)
      (if_both (λ (c : NtStatus × Side). c.1.resources ≡ []) (ltb 1 r.1.0.count) same same) same

start_speaker-LacksA2dp :
    (z : Sizes) (a : A2dpStart) (t : A2dp × Io)
    → LacksA2dp t
    → LacksA2dp (a2dp_start_speaker z a t).1
unfolding a2dp_start_speaker
start_speaker-LacksA2dp z a (u, io) h =
    start_side_of-Lacks z a.speaker u.speaker.descriptor (u.speaker, io) h

start_claim-LacksA2dp :
    (z : Sizes) (a : A2dpStart) (t : A2dp × Io) → LacksA2dp t → LacksA2dp (a2dp_start_claim z a t).1
unfolding a2dp_start_claim
start_claim-LacksA2dp z a (u, io) h = h

pub a2dp_start-LacksA2dp :
    (z : Sizes) (a : A2dpStart) (t : A2dp × Io) → LacksA2dp t → LacksA2dp (a2dp_start z a t)
unfolding a2dp_start a2dp_start_all a2dp_start_failed
a2dp_start-LacksA2dp z a t h =
    let k3 = λ (t : A2dp × Io). next (a2dp_start_speaker z a t) (a2dp_start_claim z a) in
    let k2 = λ (t : A2dp × Io). next (a2dp_start_endpoints a t) k3 in
    let k1 = λ (t : A2dp × Io). next (a2dp_start_descriptor a t) k2 in
    let all =
      keeps_LacksA2dp (a2dp_start_capabilities a t) k1 (start_capabilities-LacksA2dp a t h) (λ t h.
        keeps_LacksA2dp (a2dp_start_descriptor a t) k2 (start_descriptor-LacksA2dp a t h) (λ t h.
          keeps_LacksA2dp (a2dp_start_endpoints a t) k3 (start_endpoints-LacksA2dp a t h) (λ t h.
            keeps_LacksA2dp (a2dp_start_speaker z a t) (a2dp_start_claim z a)
              (start_speaker-LacksA2dp z a t h) (start_claim-LacksA2dp z a)))) in
    if_both LacksA2dp (nt_success (a2dp_start_all z a t).0) all all

pub a2dp_init-LacksA2dp : (a : InitAnswers) (io : Io) → LacksA2dp (a2dp_init a io).1
unfolding a2dp_init
a2dp_init-LacksA2dp a io =
    if_both (λ (r : NtStatus × (A2dp × Io)). LacksA2dp r.1)
      (nt_success (a2dp_init_objects a (no_objects, io)).0) refl refl

configure_codec-LacksA2dp :
    (size : ℕ) (f : Fetch) (t : A2dp × Io) → LacksA2dp t → LacksA2dp (configure_codec size f t)
unfolding configure_codec update_codec_caps
configure_codec-LacksA2dp size f (u, io) h =
    if_both LacksA2dp (nt_success (get_codec_caps size f io).0) h h

pub configure_codecs-LacksA2dp :
    (size : ℕ) (fs : List Fetch) (t : A2dp × Io)
    → LacksA2dp t
    → LacksA2dp (configure_codecs size fs t)
unfolding configure_codecs
configure_codecs-LacksA2dp size [] t h = h
configure_codecs-LacksA2dp size (f ∷ fs) t h =
    configure_codecs-LacksA2dp size fs (configure_codec size f t)
      (configure_codec-LacksA2dp size f t h)
