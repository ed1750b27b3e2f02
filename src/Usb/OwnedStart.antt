-- ===== src/Usb/OwnedStart.antt =====
-- inferno_driver/UsbHsDevice.cpp, UsbHsDevice::Start: what a device holds of the memory, the objects
-- and the interfaces that were taken, and what the loop over its endpoints drops.
use inferno_windows.Prelude.{
  ℕ, ◌+◌, ◌≡◌, ap, arith, Bool-cases, inl, inr, Option, none, some, List, [], ◌∷◌, if◌then◌else◌,
}
use inferno_windows.Status.{nt_success}
use inferno_windows.Objects.{one, one_of}
use inferno_windows.Remote.{Io, endpoint_ask, get_endpoint}
use inferno_windows.Remote.Owned.{Owes, fetch-Owes, fetch_none}
use inferno_windows.Usb.{Flow, flow_out, flow_in, flow_other, Descriptor}
use inferno_windows.Usb.Start.{
  Request, Objects, Usb, Endpoint, Found, place, place_block, described, find_endpoints,
}
use inferno_windows.Usb.Destroy.{descriptor_block}
use inferno_windows.Usb.Owned.{side_blocks}

-- A request holds its memory objects where it was made.
abbrev pub parts_blocks : Option ℕ → Option ℕ → Option ℕ → ℕ → ℕ
parts_blocks none i o y = 0
parts_blocks (some q) i o y = one q y + one_of i y + one_of o y

abbrev pub requests_blocks : List Request → ℕ → ℕ
requests_blocks [] y = 0
requests_blocks (q ∷ qs) y = parts_blocks q.request q.mem_in q.mem_out y + requests_blocks qs y

abbrev pub objects_blocks : Objects → ℕ → ℕ
objects_blocks o y =
    one_of o.work_item y
    + one_of o.collection y
    + one_of o.target y
    + one_of o.link y
    + requests_blocks o.requests y

abbrev pub usb_blocks : Usb → ℕ → ℕ
usb_blocks u y =
    objects_blocks u.objects y
    + one_of u.descriptor y
    + side_blocks u.speaker y
    + side_blocks u.mic y

abbrev pub OwesUsb : (ℕ → ℕ) → Usb × Io → Type 0
OwesUsb others t = Owes others (usb_blocks t.0) t.1

-- The block that is dropped where an endpoint is placed: that of the endpoint before it in the same
-- direction, or its own where it has no direction.
abbrev pub dropped : Flow → Option ℕ → Found → ℕ → ℕ
dropped flow_out b f y = one_of (descriptor_block f.usb.speaker.descriptor) y
dropped flow_in b f y = one_of (descriptor_block f.usb.mic.descriptor) y
dropped flow_other b f y = one_of b y

abbrev pub dropped_block : Flow → Option ℕ → Found → ℕ → ℕ
dropped_block flow none f y = 0
dropped_block flow (some b) f y = dropped flow (some b) f y

-- What the loop over the endpoints drops.
unfoldable pub lost : List Endpoint → ℕ → Found → Io → ℕ → ℕ
lost [] i f io y = 0
lost (e ∷ es) i f io y =
    let r = get_endpoint e.fetch io in
    let rest = lost es (i + 1) (place_block e i r.1 f) r.2 y in
    if nt_success r.0 then dropped_block e.flow r.1 f y + rest else 0

place-blocks :
    (flow : Flow) (i : ℕ) (d : Descriptor) (f : Found) (y : ℕ)
    → usb_blocks (place flow i d f).usb y + dropped flow (some d.block) f y
      ≡ usb_blocks f.usb y + one d.block y
place-blocks flow_out i d f y = omega arith
place-blocks flow_in i d f y = omega arith
place-blocks flow_other i d f y = omega arith

place_block-blocks :
    (e : Endpoint) (i : ℕ) (b : Option ℕ) (f : Found) (y : ℕ)
    → usb_blocks (place_block e i b f).usb y + dropped_block e.flow b f y
      ≡ usb_blocks f.usb y + one_of b y
place_block-blocks e i none f y = omega arith
place_block-blocks e i (some b) f y = place-blocks e.flow i (described e b) f y

pub find_endpoints-Owes :
    (others : ℕ → ℕ) (es : List Endpoint) (i : ℕ) (f : Found) (io : Io)
    → Owes others (usb_blocks f.usb) io
    → Owes
        (λ y. others y + lost es i f io y)
        (usb_blocks (find_endpoints es i f io).1.0.usb)
        (find_endpoints es i f io).1.1
unfolding find_endpoints lost
find_endpoints-Owes others [] i f io h = λ y. omega (arith, h y)
find_endpoints-Owes others (e ∷ es) i f io h =
    let r = get_endpoint e.fetch io in
    let owed = fetch-Owes (λ y. others y + usb_blocks f.usb y) endpoint_ask e.fetch io h in
    elim (Bool-cases (nt_success r.0)) [
      | inl s ↦ rw s (λ y. omega (
        arith,
        find_endpoints-Owes (λ y. others y + dropped_block e.flow r.1 f y) es (i + 1)
            (place_block e i r.1 f) r.2 (λ y. omega (arith, owed y, place_block-blocks e i r.1 f y))
            y,
      ))
      | inr s ↦ rw s (λ y.
          omega (
            arith,
            owed y,
            ap (λ (o : Option ℕ). one_of o y) (fetch_none endpoint_ask e.fetch io s),
          ))
    ]
