-- ===== src/A2dp/OwnedInit.antt =====
-- inferno_driver/A2dpHpDevice.cpp, A2dpHpDevice::Init: what the device holds of the objects and the
-- memory that were taken.
use inferno_windows.Prelude.{ℕ, refl, arith, if_both}
use inferno_windows.Status.{NtStatus, nt_success}
use inferno_windows.Subdevices.References.{IsBalanced}
use inferno_windows.Remote.{Io}
use inferno_windows.Remote.OwnedPairs.{acquire_of-Owes}
use inferno_windows.Usb.{next}
use inferno_windows.Usb.Ends.{
  InitAnswers, State, init_work_item, init_collection, init_target, no_objects,
}
use inferno_windows.Usb.Owned.{none-one_of, next-keeps}
use inferno_windows.Usb.OwnedStart.{objects_blocks}
use inferno_windows.Usb.OwnedInit.{
  BeforeRequests, BeforeLink, BeforeTarget, BeforeCollection, OwesObjects, Stage,
  init_work_item-Stage, init_collection-Stage, init_target-Stage, from_requests,
  from_requests-OwesObjects,
}
use inferno_windows.A2dp.{A2dp}
use inferno_windows.A2dp.Ends.{a2dp_init_link, a2dp_init_objects, a2dp_init}
use inferno_windows.A2dp.OwnedStart.{New}

module _ (others : ℕ → ℕ) (a : InitAnswers) where
  a2dp_init_link-Stage :
      (t : State) → Stage others BeforeLink t → Stage others BeforeRequests (a2dp_init_link a t).1
  unfolding a2dp_init_link
  a2dp_init_link-Stage (o, io) (h, b) =
      let got = acquire_of-Owes others (objects_blocks o) a.link io h in
      if_both (λ (r : NtStatus × State). Stage others BeforeRequests r.1)
        (nt_success a.target_opened) ((λ y. omega (arith, got y, none-one_of o.link y b.0)), b.1)
        (h, b.1)

  from_link : State → NtStatus × State
  from_link t = next (a2dp_init_link a t) (from_requests others a)

  from_target : State → NtStatus × State
  from_target t = next (init_target a t) from_link

  from_collection : State → NtStatus × State
  from_collection t = next (init_collection a t) from_target

  from_link-OwesObjects :
      (t : State) → Stage others BeforeLink t → OwesObjects others (from_link t).1
  unfolding from_link
  from_link-OwesObjects t p =
      next-keeps (Stage others BeforeRequests) (OwesObjects others) (a2dp_init_link a t)
        (from_requests others a) (a2dp_init_link-Stage t p) (λ s q. q.0)
        (from_requests-OwesObjects others a)

  from_target-OwesObjects :
      (t : State) → Stage others BeforeTarget t → OwesObjects others (from_target t).1
  unfolding from_target
  from_target-OwesObjects t p =
      next-keeps (Stage others BeforeLink) (OwesObjects others) (init_target a t) from_link
        (init_target-Stage others a t p) (λ s q. q.0) from_link-OwesObjects

  from_collection-OwesObjects :
      (t : State) → Stage others BeforeCollection t → OwesObjects others (from_collection t).1
  unfolding from_collection
  from_collection-OwesObjects t p =
      next-keeps (Stage others BeforeTarget) (OwesObjects others) (init_collection a t) from_target
        (init_collection-Stage others a t p) (λ s q. q.0) from_target-OwesObjects

  pub a2dp_init_objects-OwesObjects :
      (io : Io)
      → IsBalanced others io.adapter.cache
      → OwesObjects others (a2dp_init_objects a (no_objects, io)).1
  unfolding a2dp_init_objects from_collection from_target from_link from_requests
  a2dp_init_objects-OwesObjects io h =
      next-keeps (Stage others BeforeCollection) (OwesObjects others)
        (init_work_item a (no_objects, io)) from_collection
        (init_work_item-Stage others a no_objects io (λ y. omega (arith, h y)) refl
          (refl, (refl, (refl, refl))))
        (λ s q. q.0) from_collection-OwesObjects

-- Whatever Init meets, each object and block has in the end the uses of others and one for each
-- member of the device that holds it, and the members that Start is to set are NULL.
pub a2dp_init-New :
    (others : ℕ → ℕ) (a : InitAnswers) (io : Io)
    → IsBalanced others io.adapter.cache
    → New others (a2dp_init a io).1
unfolding a2dp_init
a2dp_init-New others a io h =
    let owed = a2dp_init_objects-OwesObjects others a io h in
    if_both (λ (r : NtStatus × (A2dp × Io)). New others r.1)
      (nt_success (a2dp_init_objects a (no_objects, io)).0)
      (((λ y. omega (arith, owed y)), (refl, (refl, (refl, (refl, (refl, refl)))))), refl)
      (((λ y. omega (arith, owed y)), (refl, (refl, (refl, (refl, (refl, refl)))))), refl)
