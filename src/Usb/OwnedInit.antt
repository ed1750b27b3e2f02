-- ===== src/Usb/OwnedInit.antt =====
-- inferno_driver/UsbHsDevice.cpp, UsbHsDevice::Init: what the device holds of the objects and the
-- memory that were taken.
use inferno_windows.Prelude.{ℕ, ◌+◌, ◌≡◌, refl, ap, arith, Option, none, List, [], ◌∷◌, if_both}
use inferno_windows.Status.{NtStatus, nt_success}
use inferno_windows.Objects.{one_of}
use inferno_windows.Subdevices.References.{IsBalanced}
use inferno_windows.Power.Relations.{add_device_as_power_dependency}
use inferno_windows.Remote.{Io}
use inferno_windows.Remote.Owned.{Owes}
use inferno_windows.Remote.OwnedPairs.{acquire_of-Owes}
use inferno_windows.Usb.{next}
use inferno_windows.Usb.Start.{Request, Objects, Usb}
use inferno_windows.Usb.Ends.{
  Made, make, RequestMade, make_request, make_requests, InitAnswers, State, init_work_item,
  init_collection, init_target, init_link, init_requests, init_objects, init, no_objects,
}
use inferno_windows.Usb.Owned.{none-one_of, next-keeps}
use inferno_windows.Usb.OwnedStart.{parts_blocks, requests_blocks, objects_blocks, OwesUsb}

make-Owes :
    (others held : ℕ → ℕ) (m : Made) (io : Io)
    → Owes others held io
    → Owes others (λ y. held y + one_of (make m io).1 y) (make m io).2
make-Owes others held m io h =
    if_both (λ (r : NtStatus × Option ℕ × Io). Owes others (λ y. held y + one_of r.1 y) r.2)
      (nt_success m.status) (λ y. omega (arith, h y)) (λ y. omega (arith, h y))

abbrev request_blocks : Request → ℕ → ℕ
request_blocks q y = parts_blocks q.request q.mem_in q.mem_out y

-- A request that is made has an object.
make_request-Owes :
    (others : ℕ → ℕ) (m : RequestMade) (io : Io)
    → IsBalanced others io.adapter.cache
    → Owes others (request_blocks (make_request m io).1) (make_request m io).2
unfolding make_request
make_request-Owes others m io h = λ y. ground (arith, h y)

make_requests-Owes :
    (others : ℕ → ℕ) (ms : List RequestMade) (io : Io)
    → IsBalanced others io.adapter.cache
    → Owes others (requests_blocks (make_requests ms io).1) (make_requests ms io).2
unfolding make_requests
make_requests-Owes others [] io h = λ y. omega (arith, h y)
make_requests-Owes others (m ∷ ms) io h =
    let r = make_request m io in
    let q = r.1 in
    let first = make_request-Owes others m io h in
    let rest =
      make_requests-Owes (λ y. others y + parts_blocks q.request q.mem_in q.mem_out y) ms r.2
        first in
    if_both (λ (o : NtStatus × List Request × Io). Owes others (requests_blocks o.1) o.2)
      (nt_success r.0) (λ y. omega (arith, rest y)) (λ y. omega (arith, first y))

-- The members that a step of Init is to set are still NULL.
abbrev pub BeforeRequests : Objects → Type 0
BeforeRequests o = o.requests ≡ []

abbrev pub BeforeLink : Objects → Type 0
BeforeLink o = (o.link ≡ none) × BeforeRequests o

abbrev pub BeforeTarget : Objects → Type 0
BeforeTarget o = (o.target ≡ none) × BeforeLink o

abbrev pub BeforeCollection : Objects → Type 0
BeforeCollection o = (o.collection ≡ none) × BeforeTarget o

abbrev pub OwesObjects : (ℕ → ℕ) → State → Type 0
OwesObjects others t = Owes others (objects_blocks t.0) t.1

abbrev pub Stage : (ℕ → ℕ) → (Objects → Type 0) → State → Type 0
Stage others before t = OwesObjects others t × before t.0

module _ (others : ℕ → ℕ) (a : InitAnswers) where
  pub init_work_item-Stage :
      (o : Objects) (io : Io)
      → OwesObjects others (o, io)
      → o.work_item ≡ none
      → BeforeCollection o
      → Stage others BeforeCollection (init_work_item a (o, io)).1
  unfolding init_work_item
  init_work_item-Stage o io h e b = (
    (λ y. omega (
      arith,
      make-Owes others (objects_blocks o) a.work_item io h y,
      none-one_of o.work_item y e,
    )),
    b,
  )

  pub init_collection-Stage :
      (t : State)
      → Stage others BeforeCollection t
      → Stage others BeforeTarget (init_collection a t).1
  unfolding init_collection
  init_collection-Stage (o, io) (h, b) = (
    (λ y. omega (
      arith,
      make-Owes others (objects_blocks o) a.collection io h y,
      none-one_of o.collection y b.0,
    )),
    b.1,
  )

  pub init_target-Stage :
      (t : State) → Stage others BeforeTarget t → Stage others BeforeLink (init_target a t).1
  unfolding init_target
  init_target-Stage (o, io) (h, b) = (
    (λ y.
        omega
          (arith, make-Owes others (objects_blocks o) a.target io h y, none-one_of o.target y b.0)),
    b.1,
  )

  init_link-Stage :
      (t : State) → Stage others BeforeLink t → Stage others BeforeRequests (init_link a t).1
  unfolding init_link
  init_link-Stage (o, io) (h, b) =
      let depending = record io {
        power = (add_device_as_power_dependency a.room a.pdo io.power).1;
      } in
      let got = acquire_of-Owes others (objects_blocks o) a.link depending h in
      if_both (λ (r : NtStatus × State). Stage others BeforeRequests r.1)
        (nt_success a.target_opened) ((λ y. omega (arith, got y, none-one_of o.link y b.0)), b.1)
        (h, b.1)

  init_requests-OwesObjects :
      (t : State) → Stage others BeforeRequests t → OwesObjects others (init_requests a t).1
  unfolding init_requests
  init_requests-OwesObjects (o, io) (h, b) = λ y. omega (
    arith,
    make_requests-Owes (λ y. others y + objects_blocks o y) a.requests io h y,
    ap (λ (qs : List Request). requests_blocks qs y) b,
  )

  unfoldable pub from_requests : State → NtStatus × State
  from_requests t = next (init_requests a t) (λ t. (a.names, t))

  from_link : State → NtStatus × State
  from_link t = next (init_link a t) from_requests

  from_target : State → NtStatus × State
  from_target t = next (init_target a t) from_link

  from_collection : State → NtStatus × State
  from_collection t = next (init_collection a t) from_target

  pub from_requests-OwesObjects :
      (t : State) → Stage others BeforeRequests t → OwesObjects others (from_requests t).1
  unfolding from_requests
  from_requests-OwesObjects t p =
      next-keeps (OwesObjects others) (OwesObjects others) (init_requests a t) (λ t. (a.names, t))
        (init_requests-OwesObjects t p) (λ s q. q) (λ s q. q)

  from_link-OwesObjects :
      (t : State) → Stage others BeforeLink t → OwesObjects others (from_link t).1
  unfolding from_link
  from_link-OwesObjects t p =
      next-keeps (Stage others BeforeRequests) (OwesObjects others) (init_link a t) from_requests
        (init_link-Stage t p) (λ s q. q.0) from_requests-OwesObjects

  from_target-OwesObjects :
      (t : State) → Stage others BeforeTarget t → OwesObjects others (from_target t).1
  unfolding from_target
  from_target-OwesObjects t p =
      next-keeps (Stage others BeforeLink) (OwesObjects others) (init_target a t) from_link
        (init_target-Stage t p) (λ s q. q.0) from_link-OwesObjects

  from_collection-OwesObjects :
      (t : State) → Stage others BeforeCollection t → OwesObjects others (from_collection t).1
  unfolding from_collection
  from_collection-OwesObjects t p =
      next-keeps (Stage others BeforeTarget) (OwesObjects others) (init_collection a t) from_target
        (init_collection-Stage t p) (λ s q. q.0) from_target-OwesObjects

  init_objects-OwesObjects :
      (io : Io)
      → IsBalanced others io.adapter.cache
      → OwesObjects others (init_objects a (no_objects, io)).1
  unfolding init_objects from_collection from_target from_link from_requests
  init_objects-OwesObjects io h =
      next-keeps (Stage others BeforeCollection) (OwesObjects others)
        (init_work_item a (no_objects, io)) from_collection
        (init_work_item-Stage no_objects io (λ y. omega (arith, h y)) refl
          (refl, (refl, (refl, refl))))
        (λ s q. q.0) from_collection-OwesObjects

-- Whatever Init meets, each object and block has in the end the uses of others and one for each
-- member of the device that holds it.
pub init-OwesUsb :
    (others : ℕ → ℕ) (a : InitAnswers) (io : Io)
    → IsBalanced others io.adapter.cache
    → OwesUsb others (init a io).1
unfolding init
init-OwesUsb others a io h =
    let owed = init_objects-OwesObjects others a io h in
    if_both (λ (r : NtStatus × (Usb × Io)). OwesUsb others r.1)
      (nt_success (init_objects a (no_objects, io)).0) (λ y. omega (arith, owed y))
      (λ y. omega (arith, owed y))
