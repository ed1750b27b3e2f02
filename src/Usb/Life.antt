-- ===== src/Usb/Life.antt =====
-- inferno_driver/UsbHsDevice.cpp, a device from UsbHsDevice::Init by Start and Stop to the destructor.
use inferno_windows.Prelude.{
  ℕ, ◌+◌, ◌≤◌, ◌≡◌, refl, ap, arith, Bool-cases, inl, inr, Option, none, some, List, [], ◌∷◌,
  if_both, if◌then◌else◌,
}
use inferno_windows.Status.{NtStatus, nt_success}
use inferno_windows.Objects.{one_of}
use inferno_windows.Subdevices.References.{IsBalanced}
use inferno_windows.Remote.{Io, free_of, get_descriptor, get_siop_of, get_endpoint}
use inferno_windows.Remote.Levels.{Sizes}
use inferno_windows.Usb.{Flow, flow_out, flow_in, flow_other, Descriptor}
use inferno_windows.Usb.Start.{
  Usb, Endpoint, Found, place, place_block, described, StartAnswers, start_descriptor, start_hub,
  start,
}
use inferno_windows.Usb.Ends.{InitAnswers, init, init_objects, no_objects, new_usb, stop}
use inferno_windows.Usb.Destroy.{destroy, descriptor_block}
use inferno_windows.Usb.OwnedStart.{lost, dropped, dropped_block}
use inferno_windows.Usb.OwnedAll.{IsFresh, lost_in_start, none_found, start-OwesUsb}
use inferno_windows.Usb.OwnedInit.{init-OwesUsb}
use inferno_windows.Usb.OwnedEnds.{stop-OwesUsb, destroy-IsBalanced}

-- Init, and where it succeeds Start and Stop, and then the destructor.
unfoldable pub life : Sizes → InitAnswers → StartAnswers → Io → Io
life z i a io =
    let made = init i io in
    let started = start z a made.1 in
    let stopped = stop a.speaker.services a.speaker.pair a.mic.pair started in
    if nt_success made.0 then destroy i.pdo stopped.0 stopped.1 else destroy i.pdo made.1.0 made.1.1

-- A device whose members are NULL but for those that Init makes.
abbrev IsNew : Usb → Type 0
IsNew u =
    IsFresh u × (u.descriptor ≡ none) × (u.speaker.descriptor ≡ none) × (u.mic.descriptor ≡ none)

new_usb-IsNew : IsNew new_usb
new_usb-IsNew = (
  ((refl, (refl, (refl, (refl, (refl, refl))))), (refl, (refl, (refl, (refl, (refl, refl)))))),
  refl,
  refl,
  refl,
)

init-IsNew : (i : InitAnswers) (io : Io) → IsNew (init i io).1.0
unfolding init
init-IsNew i io =
    if_both (λ (r : NtStatus × (Usb × Io)). IsNew r.1.0)
      (nt_success (init_objects i (no_objects, io)).0) new_usb-IsNew new_usb-IsNew

-- What is lost in a life.
unfoldable pub lost_in_life : Sizes → InitAnswers → StartAnswers → Io → ℕ → ℕ
lost_in_life z i a io y =
    let made = init i io in if nt_success made.0 then lost_in_start z a made.1 y else 0

pub life-lost :
    (others : ℕ → ℕ) (z : Sizes) (i : InitAnswers) (a : StartAnswers) (io : Io)
    → IsBalanced others io.adapter.cache
    → IsBalanced (λ y. others y + lost_in_life z i a io y) (life z i a io).adapter.cache
unfolding life lost_in_life
life-lost others z i a io h =
    let made = init i io in
    let owed = init-OwesUsb others i io h in
    let fresh = init-IsNew i io in
    let after = λ (y : ℕ). others y + lost_in_start z a made.1 y in
    let started = start-OwesUsb others z a made.1.0 made.1.1 owed fresh.1 fresh.0 in
    let t = start z a made.1 in
    let u = stop a.speaker.services a.speaker.pair a.mic.pair t in
    let stopped = stop-OwesUsb after a.speaker.services a.speaker.pair a.mic.pair t.0 t.1 started in
    elim (Bool-cases (nt_success made.0)) [
      | inl s ↦ rw s (destroy-IsBalanced after i.pdo u.0 u.1 stopped)
      | inr s ↦ rw s (λ y. omega (arith, destroy-IsBalanced others i.pdo made.1.0 made.1.1 owed y))
    ]

abbrev pub is_out : Flow → ℕ
is_out flow_out = 1
is_out flow_in = 0
is_out flow_other = 0

abbrev pub is_in : Flow → ℕ
is_in flow_out = 0
is_in flow_in = 1
is_in flow_other = 0

abbrev pub is_stray : Flow → ℕ
is_stray flow_out = 0
is_stray flow_in = 0
is_stray flow_other = 1

-- How many endpoints of a device are for output, for input, and for neither.
abbrev pub outs : List Endpoint → ℕ
outs [] = 0
outs (e ∷ es) = is_out e.flow + outs es

abbrev pub ins : List Endpoint → ℕ
ins [] = 0
ins (e ∷ es) = is_in e.flow + ins es

abbrev pub strays : List Endpoint → ℕ
strays [] = 0
strays (e ∷ es) = is_stray e.flow + strays es

abbrev pub num : Option Descriptor → ℕ
num none = 0
num (some d) = 1

pub num-block : (o : Option Descriptor) (y : ℕ) → num o ≤ 0 → one_of (descriptor_block o) y ≡ 0
num-block none y h = refl
num-block (some d) y h = ground arith

place-quiet :
    (flow : Flow) (i : ℕ) (d : Descriptor) (f : Found) (y : ℕ)
    → is_out flow + num f.usb.speaker.descriptor ≤ 1
    → is_in flow + num f.usb.mic.descriptor ≤ 1
    → is_stray flow ≡ 0
    → (dropped flow (some d.block) f y ≡ 0)
      × (num (place flow i d f).usb.speaker.descriptor ≤ is_out flow + num f.usb.speaker.descriptor)
      × (num (place flow i d f).usb.mic.descriptor ≤ is_in flow + num f.usb.mic.descriptor)
place-quiet flow_out i d f y p q s =
    (num-block f.usb.speaker.descriptor y (omega arith), omega arith, omega arith)
place-quiet flow_in i d f y p q s =
    (num-block f.usb.mic.descriptor y (omega arith), omega arith, omega arith)
place-quiet flow_other i d f y p q s = absurd (omega arith)

place_block-quiet :
    (e : Endpoint) (i : ℕ) (b : Option ℕ) (f : Found) (y : ℕ)
    → is_out e.flow + num f.usb.speaker.descriptor ≤ 1
    → is_in e.flow + num f.usb.mic.descriptor ≤ 1
    → is_stray e.flow ≡ 0
    → (dropped_block e.flow b f y ≡ 0)
      × (num (place_block e i b f).usb.speaker.descriptor
          ≤ is_out e.flow + num f.usb.speaker.descriptor)
      × (num (place_block e i b f).usb.mic.descriptor ≤ is_in e.flow + num f.usb.mic.descriptor)
place_block-quiet e i none f y p q s = (refl, omega arith, omega arith)
place_block-quiet e i (some b) f y p q s = place-quiet e.flow i (described e b) f y p q s

lost-none :
    (es : List Endpoint) (i : ℕ) (f : Found) (io : Io) (y : ℕ)
    → outs es + num f.usb.speaker.descriptor ≤ 1
    → ins es + num f.usb.mic.descriptor ≤ 1
    → strays es ≡ 0
    → lost es i f io y ≡ 0
unfolding lost
lost-none [] i f io y p q s = refl
lost-none (e ∷ es) i f io y p q s =
    let r = get_endpoint e.fetch io in
    let c = place_block-quiet e i r.1 f y (omega arith) (omega arith) (omega arith) in
    let rest =
      lost-none es (i + 1) (place_block e i r.1 f) r.2 y (omega (arith, c.1)) (omega (arith, c.2))
        (omega arith) in
    if_both (λ (n : ℕ). n ≡ 0) (nt_success r.0) (omega (arith, c.0, rest)) refl

lost_in_start-none :
    (z : Sizes) (a : StartAnswers) (u : Usb) (io : Io) (y : ℕ)
    → IsNew u
    → outs a.endpoints ≤ 1
    → ins a.endpoints ≤ 1
    → strays a.endpoints ≡ 0
    → lost_in_start z a (u, io) y ≡ 0
unfolding lost_in_start start_hub start_descriptor
lost_in_start-none z a u io y new p q s =
    let d = get_descriptor a.descriptor io in
    let h = get_siop_of z.siop a.behind_hub d.2 in
    let u1 = record u { descriptor = d.1 } in
    if_both (λ (n : ℕ). n ≡ 0) (nt_success d.0)
      (if_both (λ (n : ℕ). n ≡ 0) (nt_success h.0)
        (lost-none a.endpoints 0 (none_found u1) (free_of h.1 h.2) y (omega (arith, ap num new.2))
          (omega (arith, ap num new.3)) s)
        refl)
      refl

lost_in_life-none :
    (z : Sizes) (i : InitAnswers) (a : StartAnswers) (io : Io) (y : ℕ)
    → outs a.endpoints ≤ 1
    → ins a.endpoints ≤ 1
    → strays a.endpoints ≡ 0
    → lost_in_life z i a io y ≡ 0
unfolding lost_in_life
lost_in_life-none z i a io y p q s =
    let made = init i io in
    if_both (λ (n : ℕ). n ≡ 0) (nt_success made.0)
      (lost_in_start-none z a made.1.0 made.1.1 y (init-IsNew i io) p q s) refl

-- Whatever Init and Start meet, failures of any step included: where a device reports at most one
-- endpoint for output, at most one for input and none of another direction, in the end of its life
-- each block of memory, each object of the framework and each interface has the uses that it had
-- before, by others and by the cache.
pub life-IsBalanced :
    (others : ℕ → ℕ) (z : Sizes) (i : InitAnswers) (a : StartAnswers) (io : Io)
    → IsBalanced others io.adapter.cache
    → outs a.endpoints ≤ 1
    → ins a.endpoints ≤ 1
    → strays a.endpoints ≡ 0
    → IsBalanced others (life z i a io).adapter.cache
life-IsBalanced others z i a io h p q s =
    λ y. omega (arith, life-lost others z i a io h y, lost_in_life-none z i a io y p q s)
