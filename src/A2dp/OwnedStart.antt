-- ===== src/A2dp/OwnedStart.antt =====
-- inferno_driver/A2dpHpDevice.cpp, A2dpHpDevice::Start from its first step to its last: what the
-- device holds then, and what the loop over its endpoints drops.
use inferno_windows.Prelude.{
  ℕ, ◌+◌, ◌≡◌, ap, arith, Bool-cases, inl, inr, Option, none, some, List, [], ◌∷◌, if_both,
  if◌then◌else◌,
}
use inferno_windows.Status.{NtStatus, nt_success}
use inferno_windows.Objects.{one, one_of}
use inferno_windows.Remote.{
  Io, endpoint_ask, descriptor_ask, get_endpoint, send_io_ctrl_synchronously,
}
use inferno_windows.Remote.Levels.{Sizes, set_sideband_claimed}
use inferno_windows.Remote.Owned.{Owes, fetch-Owes, fetch_none}
use inferno_windows.Remote.OwnedPairs.{kept_block}
use inferno_windows.Usb.{Flow, flow_out, flow_in, flow_other, Descriptor, next}
use inferno_windows.Usb.Start.{Endpoint, described}
use inferno_windows.Usb.Destroy.{descriptor_block}
use inferno_windows.Usb.Owned.{side_blocks, BeforeVolume, Stage, none-one_of, next-keeps}
use inferno_windows.Usb.OwnedStart.{objects_blocks}
use inferno_windows.A2dp.{
  A2dp, A2dpStart, Speakers, place_speaker, place_found, find_speakers, set_device_capabilities,
  a2dp_start_capabilities, a2dp_start_descriptor, a2dp_start_speaker, a2dp_start_claim,
}
use inferno_windows.A2dp.Owned.{a2dp_start_side_of-KeepsSide, no_pair-KeepsSide}

abbrev pub rest_blocks : A2dp → ℕ → ℕ
rest_blocks u y = objects_blocks u.objects y + one_of u.descriptor y + one_of u.caps y

abbrev pub a2dp_blocks : A2dp → ℕ → ℕ
a2dp_blocks u y = rest_blocks u y + side_blocks u.speaker y

-- Beside what the members hold, there is the block that is kept of the pair.
abbrev pub KeepsA2dp : (ℕ → ℕ) → A2dp × Io → Type 0
KeepsA2dp others t = Owes (λ y. others y + kept_block t.0.speaker.miniports y) (a2dp_blocks t.0) t.1

-- What is dropped where an endpoint is placed: the one before it, or itself where it is not for
-- output.
abbrev pub dropped_speaker : Flow → ℕ → Speakers → ℕ → ℕ
dropped_speaker flow_out b f y = one_of (descriptor_block f.side.descriptor) y
dropped_speaker flow_in b f y = one b y
dropped_speaker flow_other b f y = one b y

abbrev pub dropped_found : Flow → Option ℕ → Speakers → ℕ → ℕ
dropped_found flow none f y = 0
dropped_found flow (some b) f y = dropped_speaker flow b f y

-- What the loop over the endpoints drops.
unfoldable pub lost_speakers : List Endpoint → ℕ → Speakers → Io → ℕ → ℕ
lost_speakers [] i f io y = 0
lost_speakers (e ∷ es) i f io y =
    let r = get_endpoint e.fetch io in
    let rest = lost_speakers es (i + 1) (place_found e i r.1 f) r.2 y in
    if nt_success r.0 then dropped_found e.flow r.1 f y + rest else 0

place_speaker-blocks :
    (flow : Flow) (i : ℕ) (d : Descriptor) (f : Speakers) (y : ℕ)
    → side_blocks (place_speaker flow i d f).side y + dropped_speaker flow d.block f y
      ≡ side_blocks f.side y + one d.block y
place_speaker-blocks flow_out i d f y = omega arith
place_speaker-blocks flow_in i d f y = omega arith
place_speaker-blocks flow_other i d f y = omega arith

place_speaker-BeforeVolume :
    (flow : Flow) (i : ℕ) (d : Descriptor) (f : Speakers)
    → BeforeVolume f.side
    → BeforeVolume (place_speaker flow i d f).side
place_speaker-BeforeVolume flow_out i d f h = h
place_speaker-BeforeVolume flow_in i d f h = h
place_speaker-BeforeVolume flow_other i d f h = h

place_found-Stage :
    (others : ℕ → ℕ) (e : Endpoint) (i : ℕ) (b : Option ℕ) (f : Speakers) (io : Io)
    → Owes (λ y. others y + side_blocks f.side y) (one_of b) io
    → BeforeVolume f.side
    → Stage
        (λ y. others y + dropped_found e.flow b f y)
        BeforeVolume
        ((place_found e i b f).side, io)
place_found-Stage others e i none f io h u = ((λ y. omega (arith, h y)), u)
place_found-Stage others e i (some b) f io h u = (
  (λ y. omega (arith, h y, place_speaker-blocks e.flow i (described e b) f y)),
  place_speaker-BeforeVolume e.flow i (described e b) f u,
)

pub find_speakers-Stage :
    (others : ℕ → ℕ) (es : List Endpoint) (i : ℕ) (f : Speakers) (io : Io)
    → Stage others BeforeVolume (f.side, io)
    → Stage
        (λ y. others y + lost_speakers es i f io y)
        BeforeVolume
        ((find_speakers es i f io).1.0.side, (find_speakers es i f io).1.1)
unfolding find_speakers lost_speakers
find_speakers-Stage others [] i f io (h, u) = ((λ y. omega (arith, h y)), u)
find_speakers-Stage others (e ∷ es) i f io (h, u) =
    let r = get_endpoint e.fetch io in
    let owed = fetch-Owes (λ y. others y + side_blocks f.side y) endpoint_ask e.fetch io h in
    let rest =
      find_speakers-Stage (λ y. others y + dropped_found e.flow r.1 f y) es (i + 1)
        (place_found e i r.1 f) r.2 (place_found-Stage others e i r.1 f r.2 owed u) in
    elim (Bool-cases (nt_success r.0)) [
      | inl s ↦ rw s ((λ y. omega (arith, rest.0 y)), rest.1)
      | inr s ↦ rw s (
        (λ y. omega (
          arith,
          owed y,
          ap (λ (o : Option ℕ). one_of o y) (fetch_none endpoint_ask e.fetch io s),
        )),
        u,
      )
    ]

-- The device owes what it holds, and the members that Start is still to set are NULL.
abbrev pub Fresh : (ℕ → ℕ) → A2dp × Io → Type 0
Fresh others t = Owes others (a2dp_blocks t.0) t.1 × BeforeVolume t.0.speaker

abbrev pub New : (ℕ → ℕ) → A2dp × Io → Type 0
New others t = Fresh others t × (t.0.descriptor ≡ none)

pub Fresh-KeepsA2dp : (others : ℕ → ℕ) (t : A2dp × Io) → Fresh others t → KeepsA2dp others t
Fresh-KeepsA2dp others (u, io) (h, b) =
    let kept =
      no_pair-KeepsSide (λ y. others y + rest_blocks u y) (u.speaker, io) (λ y. omega (arith, h y))
        b.1.1.1.0 in
    λ y. omega (arith, kept y)

module _ (others : ℕ → ℕ) (z : Sizes) (a : A2dpStart) where
  pub a2dp_start_capabilities-New :
      (t : A2dp × Io) → New others t → New others (a2dp_start_capabilities a t).1
  unfolding a2dp_start_capabilities set_device_capabilities send_io_ctrl_synchronously
  a2dp_start_capabilities-New (u, io) h =
      if_both (λ (r : NtStatus × Io). New others (u, r.1)) (nt_success a.capabilities) h h

  pub a2dp_start_descriptor-Fresh :
      (t : A2dp × Io) → New others t → Fresh others (a2dp_start_descriptor a t).1
  unfolding a2dp_start_descriptor
  a2dp_start_descriptor-Fresh (u, io) ((h, b), e) = (
    (λ y. omega (
      arith,
      fetch-Owes (λ y. others y + a2dp_blocks u y) descriptor_ask a.descriptor io
          (λ y. omega (arith, h y)) y,
      none-one_of u.descriptor y e,
    )),
    b,
  )

  a2dp_start_speaker-KeepsA2dp :
      (t : A2dp × Io) → Fresh others t → KeepsA2dp others (a2dp_start_speaker z a t).1
  unfolding a2dp_start_speaker
  a2dp_start_speaker-KeepsA2dp (u, io) (h, b) =
      let kept =
        a2dp_start_side_of-KeepsSide (λ y. others y + rest_blocks u y) z a.speaker
          u.speaker.descriptor (u.speaker, io) ((λ y. omega (arith, h y)), b) in
      λ y. omega (arith, kept y)

  a2dp_start_claim-KeepsA2dp :
      (t : A2dp × Io) → KeepsA2dp others t → KeepsA2dp others (a2dp_start_claim z a t).1
  unfolding a2dp_start_claim set_sideband_claimed send_io_ctrl_synchronously
  a2dp_start_claim-KeepsA2dp (u, io) h = h

  unfoldable pub from_speaker : A2dp × Io → NtStatus × (A2dp × Io)
  from_speaker t = next (a2dp_start_speaker z a t) (a2dp_start_claim z a)

  pub from_speaker-KeepsA2dp :
      (t : A2dp × Io) → Fresh others t → KeepsA2dp others (from_speaker t).1
  unfolding from_speaker
  from_speaker-KeepsA2dp t h =
      next-keeps (KeepsA2dp others) (KeepsA2dp others) (a2dp_start_speaker z a t)
        (a2dp_start_claim z a) (a2dp_start_speaker-KeepsA2dp t h) (λ s q. q)
        a2dp_start_claim-KeepsA2dp
