-- ===== src/Bth/Life.antt =====
-- inferno_driver/BthhfpDevice.cpp: the memory, the objects and the interfaces in the life of a
-- hands-free Bluetooth headset, from Init to the destructor.
use inferno_windows.Prelude.{ℕ, ◌+◌, ◌≡◌, refl, arith, ◌||◌, List, [], ◌∷◌, if_both, if◌then◌else◌}
use inferno_windows.Status.{NtStatus, nt_success}
use inferno_windows.Subdevices.References.{IsBalanced}
use inferno_windows.Endpoints.{Services, Minipair}
use inferno_windows.Remote.{Io, free_list}
use inferno_windows.Remote.Owned.{Owes, all_of, free_list-Owes}
use inferno_windows.Remote.Pairs.{delete_custom_endpoint_minipair}
use inferno_windows.Remote.OwnedPairs.{own_blocks, delete_custom_endpoint_minipair-Owes}
use inferno_windows.Usb.Start.{Request}
use inferno_windows.Usb.Ends.{InitAnswers, no_objects, is_some}
use inferno_windows.Usb.Destroy.{free_requests}
use inferno_windows.Usb.OwnedStart.{parts_blocks, requests_blocks}
use inferno_windows.Usb.OwnedEnds.{free_requests-Owes, remove_endpoint_filters-IsBalanced}
use inferno_windows.A2dp.Ends.{a2dp_init_objects}
use inferno_windows.A2dp.OwnedInit.{a2dp_init_objects-OwesObjects}
use inferno_windows.Bth.{Bth, Filters, BthSizes, BthStart, State, bth_start}
use inferno_windows.Bth.Ends.{bth_init, bth_remove_filters, bth_stop, without_first, bth_destroy}
use inferno_windows.Bth.Owned.{bth_blocks, OwesBth, BeforeStart, Stage}
use inferno_windows.Bth.OwnedStart.{bth_start-OwesBth}

-- What the life of a device meets.
pub record BthLife : Type 0 where
  pub sizes : BthSizes
  pub init : InitAnswers
  pub start : BthStart

-- A device after Init and, where that succeeds, Start and Stop.
abbrev pub bth_used : BthLife → State → State
bth_used l t =
    bth_stop l.start.speaker.services l.start.speaker.pair l.start.mic.pair
      (bth_start l.sizes l.start t)

abbrev pub bth_ended : BthLife → Io → State
bth_ended l io =
    let made = bth_init l.init io in if nt_success made.0 then bth_used l made.1 else made.1

unfoldable pub bth_life : BthLife → Io → Io
bth_life l io = let u = bth_ended l io in bth_destroy u.0 u.1

-- The objects of the first request of a device, where it was made.
abbrev pub first_blocks : List Request → ℕ → ℕ
first_blocks [] y = 0
first_blocks (q ∷ qs) y = parts_blocks q.request q.mem_in q.mem_out y

abbrev pub bth_kept : BthLife → Io → ℕ → ℕ
bth_kept l io = first_blocks (bth_ended l io).0.objects.requests

split_first :
    (qs : List Request) (y : ℕ)
    → requests_blocks qs y ≡ first_blocks qs y + requests_blocks (without_first qs) y
split_first [] y = refl
split_first (q ∷ qs) y = refl

bth_init-Stage :
    (others : ℕ → ℕ) (a : InitAnswers) (io : Io)
    → IsBalanced others io.adapter.cache
    → Stage others BeforeStart (bth_init a io).1
unfolding bth_init
bth_init-Stage others a io h =
    let owed = a2dp_init_objects-OwesObjects others a io h in
    if_both (λ (r : NtStatus × State). Stage others BeforeStart r.1)
      (nt_success (a2dp_init_objects a (no_objects, io)).0)
      ((λ y. omega (arith, owed y)), (refl, (refl, (refl, (refl, ((refl, refl), (refl, refl)))))))
      ((λ y. omega (arith, owed y)), (refl, (refl, (refl, (refl, ((refl, refl), (refl, refl)))))))

bth_remove_filters-Owes :
    (others held : ℕ → ℕ) (k : Services) (pair : Minipair) (p : Filters) (io : Io)
    → Owes others held io
    → Owes others held (bth_remove_filters k pair p io)
unfolding bth_remove_filters
bth_remove_filters-Owes others held k pair p io h =
    if_both (Owes others held) (is_some p.topology || is_some p.wave)
      (remove_endpoint_filters-IsBalanced (λ y. others y + held y) k pair p.topology p.wave
        io.adapter h)
      h

bth_stop-OwesBth :
    (others : ℕ → ℕ) (k : Services) (speaker_pair mic_pair : Minipair) (t : State)
    → OwesBth others t
    → OwesBth others (bth_stop k speaker_pair mic_pair t)
unfolding bth_stop
bth_stop-OwesBth others k speaker_pair mic_pair (u, io) h =
    let held = bth_blocks (bth_stop k speaker_pair mic_pair (u, io)).0 in
    let i1 = bth_remove_filters k speaker_pair u.speaker io in
    let i2 = bth_remove_filters k mic_pair u.mic i1 in
    let h1 = bth_remove_filters-Owes others (bth_blocks u) k speaker_pair u.speaker io h in
    let h2 = bth_remove_filters-Owes others (bth_blocks u) k mic_pair u.mic i1 h1 in
    free_list-Owes others held
      (u.speaker.topology ∷ u.speaker.wave ∷ u.mic.topology ∷ u.mic.wave ∷ []) i2
      (λ y. omega (arith, h2 y))

bth_destroy-IsBalanced :
    (others : ℕ → ℕ) (u : Bth) (io : Io)
    → OwesBth others (u, io)
    → IsBalanced
        (λ y. others y + first_blocks u.objects.requests y)
        (bth_destroy u io).adapter.cache
unfolding bth_destroy
bth_destroy-IsBalanced others u io h =
    let qs = without_first u.objects.requests in
    let kept = λ (y : ℕ). others y + first_blocks u.objects.requests y in
    let first = u.objects.target ∷ u.objects.link ∷ [] in
    let blocks = u.descriptor ∷ u.volume_values ∷ [] in
    let last =
      u.objects.work_item ∷ u.objects.collection ∷ u.speaker.topology ∷ u.speaker.wave
      ∷ u.mic.topology ∷ u.mic.wave ∷ [] in
    let o5 = λ (y : ℕ). all_of last y in
    let o4 = λ (y : ℕ). o5 y + requests_blocks qs y in
    let o3 = λ (y : ℕ). o4 y + all_of blocks y in
    let o2 = λ (y : ℕ). o3 y + own_blocks u.mic.miniports y in
    let o1 = λ (y : ℕ). o2 y + own_blocks u.speaker.miniports y in
    let i1 = free_list first io in
    let i2 = delete_custom_endpoint_minipair u.speaker.miniports i1 in
    let i3 = delete_custom_endpoint_minipair u.mic.miniports i2 in
    let i4 = free_list blocks i3 in
    let i5 = free_requests qs i4 in
    let h1 =
      free_list-Owes kept o1 first io (λ y. omega (arith, h y, split_first u.objects.requests y)) in
    let h2 = delete_custom_endpoint_minipair-Owes kept o2 u.speaker.miniports i1 h1 in
    let h3 = delete_custom_endpoint_minipair-Owes kept o3 u.mic.miniports i2 h2 in
    let h4 = free_list-Owes kept o4 blocks i3 h3 in
    let h5 = free_requests-Owes kept o5 qs i4 h4 in
    let h6 = free_list-Owes kept (λ y. 0) last i5 (λ y. omega (arith, h5 y)) in
    λ y. omega (arith, h6 y)

bth_ended-OwesBth :
    (others : ℕ → ℕ) (l : BthLife) (io : Io)
    → IsBalanced others io.adapter.cache
    → OwesBth others (bth_ended l io)
bth_ended-OwesBth others l io h =
    let made = bth_init l.init io in
    let new = bth_init-Stage others l.init io h in
    if_both (OwesBth others) (nt_success made.0)
      (bth_stop-OwesBth others l.start.speaker.services l.start.speaker.pair l.start.mic.pair
        (bth_start l.sizes l.start made.1) (bth_start-OwesBth others l.sizes l.start made.1 new))
      new.0

-- Whatever Init and Start meet, failures of any step included: in the end of a device's life each
-- block of memory, each object of the framework and each interface has the uses that it had before,
-- by others and by the cache, but for the objects of the first of its requests, where that was made:
-- those have one use more.
pub bth_life-IsBalanced :
    (others : ℕ → ℕ) (l : BthLife) (io : Io)
    → IsBalanced others io.adapter.cache
    → IsBalanced (λ y. others y + bth_kept l io y) (bth_life l io).adapter.cache
unfolding bth_life
bth_life-IsBalanced others l io h =
    bth_destroy-IsBalanced others (bth_ended l io).0 (bth_ended l io).1
      (bth_ended-OwesBth others l io h)
