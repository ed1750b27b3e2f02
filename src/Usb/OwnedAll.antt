-- ===== src/Usb/OwnedAll.antt =====
-- inferno_driver/UsbHsDevice.cpp, UsbHsDevice::Start from its first step to its last, failures
-- included: what the device holds then, and what is lost.
use inferno_windows.Prelude.{
  ℕ, ◌+◌, ◌≡◌, arith, ◌||◌, ◌&&◌, Bool-cases, inl, inr, Option, none, some, List, [], ◌∷◌, ltb,
  if_both, if◌then◌else◌,
}
use inferno_windows.Status.{NtStatus, nt_success}
use inferno_windows.Objects.{one_of}
use inferno_windows.Remote.{
  Io, descriptor_ask, siop_ask, get_endpoint, get_siop_of, send_io_ctrl_synchronously,
}
use inferno_windows.Remote.Owned.{fetch-Owes, free_of-Owes}
use inferno_windows.Remote.Levels.{Sizes, set_sideband_claimed}
use inferno_windows.Usb.{Flow, flow_out, flow_in, flow_other, Descriptor, next, start_side}
use inferno_windows.Usb.Start.{
  Usb, Endpoint, Found, place, place_block, described, find_endpoints, check_endpoints,
  StartAnswers, start_descriptor, start_hub, start_endpoints, start_pair, start_claim, start_sides,
  start_all, start_failed, start, on_speaker, on_mic,
}
use inferno_windows.Usb.Owned.{side_blocks, BeforeVolume, none-one_of, next-keeps}
use inferno_windows.Usb.OwnedSide.{start_side-OwesSide}
use inferno_windows.Usb.OwnedStart.{objects_blocks, usb_blocks, OwesUsb, lost, find_endpoints-Owes}

-- The members that Start sets are NULL, but for the descriptors of the endpoints.
abbrev pub IsFresh : Usb → Type 0
IsFresh u = BeforeVolume u.speaker × BeforeVolume u.mic

place-IsFresh :
    (flow : Flow) (i : ℕ) (d : Descriptor) (f : Found)
    → IsFresh f.usb
    → IsFresh (place flow i d f).usb
place-IsFresh flow_out i d f h = h
place-IsFresh flow_in i d f h = h
place-IsFresh flow_other i d f h = h

place_block-IsFresh :
    (e : Endpoint) (i : ℕ) (b : Option ℕ) (f : Found)
    → IsFresh f.usb
    → IsFresh (place_block e i b f).usb
place_block-IsFresh e i none f h = h
place_block-IsFresh e i (some b) f h = place-IsFresh e.flow i (described e b) f h

find_endpoints-IsFresh :
    (es : List Endpoint) (i : ℕ) (f : Found) (io : Io)
    → IsFresh f.usb
    → IsFresh (find_endpoints es i f io).1.0.usb
unfolding find_endpoints
find_endpoints-IsFresh [] i f io h = h
find_endpoints-IsFresh (e ∷ es) i f io h =
    let r = get_endpoint e.fetch io in
    if_both (λ (r : NtStatus × (Found × Io)). IsFresh r.1.0.usb) (nt_success r.0)
      (find_endpoints-IsFresh es (i + 1) (place_block e i r.1 f) r.2
        (place_block-IsFresh e i r.1 f h))
      h

module _ (others : ℕ → ℕ) (z : Sizes) (a : StartAnswers) where
  abbrev Ready : Usb × Io → Type 0
  Ready t = OwesUsb others t × IsFresh t.0

  abbrev MicReady : Usb × Io → Type 0
  MicReady t = OwesUsb others t × BeforeVolume t.0.mic

  on_speaker-MicReady :
      (t : Usb × Io) → Ready t → MicReady (on_speaker (start_side z a.speaker) t).1
  on_speaker-MicReady (u, io) (h, fresh) = (
    (λ y. omega (
      arith,
      start_side-OwesSide
          (λ y. others y + objects_blocks u.objects y + one_of u.descriptor y + side_blocks u.mic y)
          z a.speaker u.speaker io (λ y. omega (arith, h y)) fresh.0 y,
    )),
    fresh.1,
  )

  on_mic-OwesUsb : (t : Usb × Io) → MicReady t → OwesUsb others (on_mic (start_side z a.mic) t).1
  on_mic-OwesUsb (u, io) (h, fresh) = λ y. omega (
    arith,
    start_side-OwesSide
        (λ y.
          others y + objects_blocks u.objects y + one_of u.descriptor y + side_blocks u.speaker y)
        z a.mic u.mic io (λ y. omega (arith, h y)) fresh y,
  )

  start_claim-OwesUsb : (t : Usb × Io) → OwesUsb others t → OwesUsb others (start_claim z a t).1
  unfolding start_claim set_sideband_claimed send_io_ctrl_synchronously
  start_claim-OwesUsb (u, io) h = h

  module _ (speakers mics : ℕ) where
    from_pair : Usb × Io → NtStatus × (Usb × Io)
    from_pair t = next (start_pair a speakers mics t) (start_claim z a)

    from_mic : Usb × Io → NtStatus × (Usb × Io)
    from_mic t = next (on_mic (start_side z a.mic) t) from_pair

    from_speaker : Usb × Io → NtStatus × (Usb × Io)
    from_speaker t = next (on_speaker (start_side z a.speaker) t) from_mic

    start_pair-OwesUsb :
        (t : Usb × Io) → OwesUsb others t → OwesUsb others (start_pair a speakers mics t).1
    unfolding start_pair
    start_pair-OwesUsb t h =
        if_both (λ (r : NtStatus × (Usb × Io)). OwesUsb others r.1) (ltb 0 speakers && ltb 0 mics) h
          h

    from_pair-OwesUsb : (t : Usb × Io) → OwesUsb others t → OwesUsb others (from_pair t).1
    unfolding from_pair
    from_pair-OwesUsb t h =
        next-keeps (OwesUsb others) (OwesUsb others) (start_pair a speakers mics t)
          (start_claim z a) (start_pair-OwesUsb t h) (λ s q. q) start_claim-OwesUsb

    from_mic-OwesUsb : (t : Usb × Io) → MicReady t → OwesUsb others (from_mic t).1
    unfolding from_mic
    from_mic-OwesUsb t h =
        next-keeps (OwesUsb others) (OwesUsb others) (on_mic (start_side z a.mic) t) from_pair
          (on_mic-OwesUsb t h) (λ s q. q) from_pair-OwesUsb

    from_speaker-OwesUsb : (t : Usb × Io) → Ready t → OwesUsb others (from_speaker t).1
    unfolding from_speaker
    from_speaker-OwesUsb t h =
        next-keeps MicReady (OwesUsb others) (on_speaker (start_side z a.speaker) t) from_mic
          (on_speaker-MicReady t h) (λ s q. q.0) from_mic-OwesUsb

    start_sides-OwesUsb :
        (status : NtStatus) (u : Usb) (io : Io)
        → Ready (u, io)
        → OwesUsb others (start_sides z a (status, (speakers, mics, u), io)).1
    unfolding start_sides from_speaker from_mic from_pair
    start_sides-OwesUsb status u io h =
        next-keeps Ready (OwesUsb others) (status, (u, io)) from_speaker h (λ s q. q.0)
          from_speaker-OwesUsb

check_endpoints-keeps :
    (others : ℕ → ℕ) (f : Found) (io : Io)
    → OwesUsb others (f.usb, io) × IsFresh f.usb
    → OwesUsb others ((check_endpoints f).1, io) × IsFresh (check_endpoints f).1
unfolding check_endpoints
check_endpoints-keeps others f io h =
    if_both (λ (r : NtStatus × Usb). OwesUsb others (r.1, io) × IsFresh r.1)
      (ltb 1 f.speakers || ltb 1 f.mics) h h

abbrev pub none_found : Usb → Found
none_found u = record { speakers = 0; mics = 0; usb = u }

start_endpoints-keeps :
    (others : ℕ → ℕ) (a : StartAnswers) (u : Usb) (io : Io)
    → OwesUsb others (u, io)
    → IsFresh u
    → OwesUsb
        (λ y. others y + lost a.endpoints 0 (none_found u) io y)
        ((start_endpoints a (u, io)).1.2, (start_endpoints a (u, io)).2)
      × IsFresh (start_endpoints a (u, io)).1.2
unfolding start_endpoints
start_endpoints-keeps others a u io h fresh =
    let r = find_endpoints a.endpoints 0 (none_found u) io in
    let after = λ (y : ℕ). others y + lost a.endpoints 0 (none_found u) io y in
    let found = find_endpoints-Owes others a.endpoints 0 (none_found u) io h in
    let still = find_endpoints-IsFresh a.endpoints 0 (none_found u) io fresh in
    if_both (λ (o : NtStatus × (ℕ × ℕ × Usb) × Io). OwesUsb after (o.1.2, o.2) × IsFresh o.1.2)
      (nt_success r.0) (check_endpoints-keeps after r.1.0 r.1.1 (found, still)) (found, still)

-- What Start loses: where it gets to the loop over the endpoints, what that drops.
unfoldable pub lost_in_start : Sizes → StartAnswers → Usb × Io → ℕ → ℕ
lost_in_start z a t y =
    let d = start_descriptor a t in
    let h = start_hub z a d.1 in
    let dropped = lost a.endpoints 0 (none_found h.1.0) h.1.1 y in
    if nt_success d.0 then (if nt_success h.0 then dropped else 0) else 0

start_descriptor-keeps :
    (others : ℕ → ℕ) (a : StartAnswers) (u : Usb) (io : Io)
    → OwesUsb others (u, io)
    → u.descriptor ≡ none
    → OwesUsb others (start_descriptor a (u, io)).1
unfolding start_descriptor
start_descriptor-keeps others a u io h e = λ y. omega (
  arith,
  fetch-Owes (λ y. others y + usb_blocks u y) descriptor_ask a.descriptor io
      (λ y. omega (arith, h y)) y,
  none-one_of u.descriptor y e,
)

start_hub-keeps :
    (others : ℕ → ℕ) (z : Sizes) (a : StartAnswers) (t : Usb × Io)
    → OwesUsb others t
    → OwesUsb others (start_hub z a t).1
unfolding start_hub
start_hub-keeps others z a (u, io) h =
    let r = get_siop_of z.siop a.behind_hub io in
    free_of-Owes others (usb_blocks u) r.1 r.2 (λ y. omega (
      arith,
      fetch-Owes (λ y. others y + usb_blocks u y) (siop_ask z.siop) a.behind_hub io
          (λ y. omega (arith, h y)) y,
    ))

start_hub-IsFresh :
    (z : Sizes) (a : StartAnswers) (u : Usb) (io : Io)
    → IsFresh u
    → IsFresh (start_hub z a (start_descriptor a (u, io)).1).1.0
unfolding start_hub start_descriptor
start_hub-IsFresh z a u io h = h

start_all-OwesUsb :
    (others : ℕ → ℕ) (z : Sizes) (a : StartAnswers) (u : Usb) (io : Io)
    → OwesUsb others (u, io)
    → u.descriptor ≡ none
    → IsFresh u
    → OwesUsb (λ y. others y + lost_in_start z a (u, io) y) (start_all z a (u, io)).1
unfolding start_all lost_in_start
start_all-OwesUsb others z a u io h e fresh =
    let d = start_descriptor a (u, io) in
    let b = start_hub z a d.1 in
    let owed = start_descriptor-keeps others a u io h e in
    let owed' = start_hub-keeps others z a d.1 owed in
    let es = start_endpoints a b.1 in
    let after = λ (y : ℕ). others y + lost a.endpoints 0 (none_found b.1.0) b.1.1 y in
    let sides =
      start_sides-OwesUsb after z a es.1.0 es.1.1 es.0 es.1.2 es.2
        (start_endpoints-keeps others a b.1.0 b.1.1 owed' (start_hub-IsFresh z a u io fresh)) in
    elim (Bool-cases (nt_success d.0)) [
      | inr s ↦ rw s (λ y. omega (arith, owed y))
      | inl s ↦ rw s (elim (Bool-cases (nt_success b.0)) [
        | inr p ↦ rw p (λ y. omega (arith, owed' y))
        | inl p ↦ rw p sides
      ])
    ]

-- Whatever Start meets, failures included, each block, object and interface has in the end the uses
-- of others, one for each member of the device that holds it, and one for each time that the loop
-- over the endpoints drops it.
pub start-OwesUsb :
    (others : ℕ → ℕ) (z : Sizes) (a : StartAnswers) (u : Usb) (io : Io)
    → OwesUsb others (u, io)
    → u.descriptor ≡ none
    → IsFresh u
    → OwesUsb (λ y. others y + lost_in_start z a (u, io) y) (start z a (u, io))
unfolding start start_failed set_sideband_claimed send_io_ctrl_synchronously
start-OwesUsb others z a u io h e fresh =
    let owed = start_all-OwesUsb others z a u io h e fresh in
    if_both (OwesUsb (λ y. others y + lost_in_start z a (u, io) y))
      (nt_success (start_all z a (u, io)).0) owed owed
