-- ===== src/A2dp/OwnedAll.antt =====
-- inferno_driver/A2dpHpDevice.cpp, A2dpHpDevice::Start as a whole: what the device holds in the end,
-- and what is lost.
use inferno_windows.Prelude.{ℕ, ◌+◌, arith, Bool-cases, inl, inr, ltb, if_both, if◌then◌else◌}
use inferno_windows.Status.{NtStatus, nt_success}
use inferno_windows.Remote.{Io, send_io_ctrl_synchronously}
use inferno_windows.Remote.Levels.{Sizes, set_sideband_claimed}
use inferno_windows.Usb.{Side, next}
use inferno_windows.Usb.Owned.{next-keeps}
use inferno_windows.A2dp.{
  A2dp, A2dpStart, Speakers, find_speakers, check_speakers, a2dp_start_capabilities,
  a2dp_start_descriptor, a2dp_start_endpoints, a2dp_start_speaker, a2dp_start_claim, a2dp_start_all,
  a2dp_start_failed, a2dp_start,
}
use inferno_windows.A2dp.OwnedStart.{
  rest_blocks, KeepsA2dp, lost_speakers, find_speakers-Stage, Fresh, New, Fresh-KeepsA2dp,
  a2dp_start_capabilities-New, a2dp_start_descriptor-Fresh, from_speaker, from_speaker-KeepsA2dp,
}

abbrev pub none_of : Side → Speakers
none_of s = record { count = 0; side = s }

a2dp_start_endpoints-Fresh :
    (others : ℕ → ℕ) (a : A2dpStart) (u : A2dp) (io : Io)
    → Fresh others (u, io)
    → Fresh
        (λ y. others y + lost_speakers a.endpoints 0 (none_of u.speaker) io y)
        (a2dp_start_endpoints a (u, io)).1
unfolding a2dp_start_endpoints check_speakers
a2dp_start_endpoints-Fresh others a u io (h, b) =
    let lost = λ (y : ℕ). others y + lost_speakers a.endpoints 0 (none_of u.speaker) io y in
    let r = find_speakers a.endpoints 0 (none_of u.speaker) io in
    let found =
      find_speakers-Stage (λ y. others y + rest_blocks u y) a.endpoints 0 (none_of u.speaker) io
        ((λ y. omega (arith, h y)), b) in
    if_both (λ (t : NtStatus × (A2dp × Io)). Fresh lost t.1) (nt_success r.0)
      (if_both (λ (c : NtStatus × Side). Fresh lost (record u { speaker = c.1 }, r.1.1))
        (ltb 1 r.1.0.count) ((λ y. omega (arith, found.0 y)), found.1)
        ((λ y. omega (arith, found.0 y)), found.1))
      ((λ y. omega (arith, found.0 y)), found.1)

-- What is lost in Start.
unfoldable pub a2dp_lost : A2dpStart → A2dp × Io → ℕ → ℕ
a2dp_lost a t y =
    let c = a2dp_start_capabilities a t in
    let d = a2dp_start_descriptor a c.1 in
    if nt_success c.0
    then (if nt_success d.0 then lost_speakers a.endpoints 0 (none_of d.1.0.speaker) d.1.1 y else 0)
    else 0

module _ (others : ℕ → ℕ) (z : Sizes) (a : A2dpStart) where
  -- The end of Start, from the endpoints on and from the descriptor on, with what is lost.
  from_endpoints : A2dp × Io → NtStatus × (A2dp × Io)
  from_endpoints t =
      next (a2dp_start_endpoints a t) (λ t. next (a2dp_start_speaker z a t) (a2dp_start_claim z a))

  from_endpoints-KeepsA2dp :
      (u : A2dp) (io : Io)
      → Fresh others (u, io)
      → KeepsA2dp
          (λ y. others y + lost_speakers a.endpoints 0 (none_of u.speaker) io y)
          (from_endpoints (u, io)).1
  unfolding from_endpoints from_speaker
  from_endpoints-KeepsA2dp u io h =
      let lost = λ (y : ℕ). others y + lost_speakers a.endpoints 0 (none_of u.speaker) io y in
      next-keeps (Fresh lost) (KeepsA2dp lost) (a2dp_start_endpoints a (u, io))
        (from_speaker lost z a) (a2dp_start_endpoints-Fresh others a u io h) (Fresh-KeepsA2dp lost)
        (from_speaker-KeepsA2dp lost z a)

  a2dp_start_all-KeepsA2dp :
      (u : A2dp) (io : Io)
      → New others (u, io)
      → KeepsA2dp (λ y. others y + a2dp_lost a (u, io) y) (a2dp_start_all z a (u, io)).1
  unfolding a2dp_start_all a2dp_lost from_endpoints
  a2dp_start_all-KeepsA2dp u io h =
      let c = a2dp_start_capabilities a (u, io) in
      let d = a2dp_start_descriptor a c.1 in
      let new = a2dp_start_capabilities-New others z a (u, io) h in
      let fresh = a2dp_start_descriptor-Fresh others z a c.1 new in
      let failed_new = Fresh-KeepsA2dp others c.1 new.0 in
      let failed_fresh = Fresh-KeepsA2dp others d.1 fresh in
      elim (Bool-cases (nt_success c.0)) [
        | inr s ↦ rw s (λ y. omega (arith, failed_new y))
        | inl s ↦ rw s (elim (Bool-cases (nt_success d.0)) [
          | inr p ↦ rw p (λ y. omega (arith, failed_fresh y))
          | inl p ↦ rw p (from_endpoints-KeepsA2dp d.1.0 d.1.1 fresh)
        ])
      ]

-- Whatever Start meets, failures included, each block, object and interface has in the end the uses
-- of others, one for each member of the device that holds it, one for each time that the loop over
-- the endpoints drops it, and one for the block of the pair that is not freed with the pair.
pub a2dp_start-KeepsA2dp :
    (others : ℕ → ℕ) (z : Sizes) (a : A2dpStart) (u : A2dp) (io : Io)
    → New others (u, io)
    → KeepsA2dp (λ y. others y + a2dp_lost a (u, io) y) (a2dp_start z a (u, io))
unfolding a2dp_start a2dp_start_failed set_sideband_claimed send_io_ctrl_synchronously
a2dp_start-KeepsA2dp others z a u io h =
    let owed = a2dp_start_all-KeepsA2dp others z a u io h in
    if_both (KeepsA2dp (λ y. others y + a2dp_lost a (u, io) y))
      (nt_success (a2dp_start_all z a (u, io)).0) owed owed
