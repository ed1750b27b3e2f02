-- ===== src/A2dp/Life.antt =====
-- inferno_driver/A2dpHpDevice.cpp: the memory, the objects and the interfaces in the life of a
-- Bluetooth headphone, from Init to the destructor.
use inferno_windows.Prelude.{
  ℕ, ◌+◌, ◌≤◌, ◌≡◌, refl, ap, arith, Bool-cases, inl, inr, Option, none, some, List, [], ◌∷◌,
  if_both, if◌then◌else◌,
}
use inferno_windows.Status.{nt_success}
use inferno_windows.Subdevices.References.{IsBalanced}
use inferno_windows.Remote.{Io, Fetch, get_endpoint}
use inferno_windows.Remote.Levels.{Sizes}
use inferno_windows.Remote.Owned.{all_of}
use inferno_windows.Remote.OwnedPairs.{kept_block}
use inferno_windows.Usb.{Flow, flow_out, flow_in, flow_other, Descriptor}
use inferno_windows.Usb.Start.{Endpoint, described}
use inferno_windows.Usb.Ends.{InitAnswers}
use inferno_windows.Usb.Life.{outs, ins, strays, is_out, is_in, is_stray, num, num-block}
use inferno_windows.A2dp.{
  A2dp, A2dpStart, Speakers, place_speaker, place_found, a2dp_start_capabilities,
  a2dp_start_descriptor, a2dp_start,
}
use inferno_windows.A2dp.Ends.{a2dp_init, configure_codecs, a2dp_stop, a2dp_destroy}
use inferno_windows.A2dp.OwnedStart.{lost_speakers, dropped_speaker, dropped_found, New}
use inferno_windows.A2dp.OwnedAll.{a2dp_lost, none_of, a2dp_start-KeepsA2dp}
use inferno_windows.A2dp.OwnedInit.{a2dp_init-New}
use inferno_windows.A2dp.OwnedEnds.{
  configure_codecs-KeepsA2dp, a2dp_stop-KeepsA2dp, a2dp_destroy-IsBalanced,
}
use inferno_windows.A2dp.Unused.{
  LacksA2dp, a2dp_start-LacksA2dp, a2dp_init-LacksA2dp, configure_codecs-LacksA2dp,
}

-- What the life of a device meets: Init, Start, and each time that the codec is configured.
pub record A2dpLife : Type 0 where
  pub sizes : Sizes
  pub caps_size : ℕ
  pub init : InitAnswers
  pub start : A2dpStart
  pub codecs : List Fetch

-- A device after Init and, where that succeeds, Start, the configurations of its codec, and Stop.
abbrev pub used : A2dpLife → A2dp × Io → A2dp × Io
used l t =
    a2dp_stop l.start.speaker.common.services l.start.speaker.common.pair
      (configure_codecs l.caps_size l.codecs (a2dp_start l.sizes l.start t))

unfoldable pub a2dp_life : A2dpLife → Io → Io
a2dp_life l io =
    let made = a2dp_init l.init io in
    let u = used l made.1 in
    if nt_success made.0 then a2dp_destroy u.0 u.1 else a2dp_destroy made.1.0 made.1.1

-- The block that is not freed with the pair, where there is one.
unfoldable pub a2dp_kept : A2dpLife → Io → ℕ → ℕ
a2dp_kept l io y =
    let made = a2dp_init l.init io in
    let u = used l made.1 in if nt_success made.0 then kept_block u.0.speaker.miniports y else 0

unfoldable pub a2dp_lost_in_life : A2dpLife → Io → ℕ → ℕ
a2dp_lost_in_life l io y =
    let made = a2dp_init l.init io in if nt_success made.0 then a2dp_lost l.start made.1 y else 0

no_resources : (xs : List (Option ℕ)) (y : ℕ) → xs ≡ [] → all_of xs y ≡ 0
no_resources xs y e = ap (λ (xs : List (Option ℕ)). all_of xs y) e

used-IsBalanced :
    (others : ℕ → ℕ) (l : A2dpLife) (t : A2dp × Io)
    → New others t
    → LacksA2dp t
    → IsBalanced
        (λ y. others y + a2dp_lost l.start t y + kept_block (used l t).0.speaker.miniports y)
        (a2dp_destroy (used l t).0 (used l t).1).adapter.cache
unfolding a2dp_stop
used-IsBalanced others l (u, io) new lacks =
    let lost = λ (y : ℕ). others y + a2dp_lost l.start (u, io) y in
    let s = a2dp_start l.sizes l.start (u, io) in
    let c = configure_codecs l.caps_size l.codecs s in
    let v = used l (u, io) in
    let started = a2dp_start-KeepsA2dp others l.sizes l.start u io new in
    let configured = configure_codecs-KeepsA2dp lost l.caps_size l.codecs s started in
    let stopped =
      a2dp_stop-KeepsA2dp lost l.start.speaker.common.services l.start.speaker.common.pair c
        configured in
    let none_there =
      configure_codecs-LacksA2dp l.caps_size l.codecs s
        (a2dp_start-LacksA2dp l.sizes l.start (u, io) lacks) in
    a2dp_destroy-IsBalanced (λ y. lost y + kept_block v.0.speaker.miniports y) v.0 v.1 stopped
      (λ y. no_resources v.0.speaker.resources y none_there)

a2dp_life-lost :
    (others : ℕ → ℕ) (l : A2dpLife) (io : Io)
    → IsBalanced others io.adapter.cache
    → IsBalanced
        (λ y. others y + a2dp_lost_in_life l io y + a2dp_kept l io y)
        (a2dp_life l io).adapter.cache
unfolding a2dp_life a2dp_kept a2dp_lost_in_life
a2dp_life-lost others l io h =
    let made = a2dp_init l.init io in
    let new = a2dp_init-New others l.init io h in
    let lacks = a2dp_init-LacksA2dp l.init io in
    let whole = used-IsBalanced others l made.1 new lacks in
    let short =
      a2dp_destroy-IsBalanced others made.1.0 made.1.1 new.0.0
        (λ y. no_resources made.1.0.speaker.resources y lacks) in
    elim (Bool-cases (nt_success made.0)) [
      | inl s ↦ rw s whole
      | inr s ↦ rw s (λ y. omega (arith, short y))
    ]

place_speaker-quiet :
    (flow : Flow) (i : ℕ) (d : Descriptor) (f : Speakers) (y : ℕ)
    → is_out flow + num f.side.descriptor ≤ 1
    → is_in flow ≡ 0
    → is_stray flow ≡ 0
    → (dropped_speaker flow d.block f y ≡ 0)
      × (num (place_speaker flow i d f).side.descriptor ≤ is_out flow + num f.side.descriptor)
place_speaker-quiet flow_out i d f y p q s =
    (num-block f.side.descriptor y (omega arith), omega arith)
place_speaker-quiet flow_in i d f y p q s = absurd (omega arith)
place_speaker-quiet flow_other i d f y p q s = absurd (omega arith)

place_found-quiet :
    (e : Endpoint) (i : ℕ) (b : Option ℕ) (f : Speakers) (y : ℕ)
    → is_out e.flow + num f.side.descriptor ≤ 1
    → is_in e.flow ≡ 0
    → is_stray e.flow ≡ 0
    → (dropped_found e.flow b f y ≡ 0)
      × (num (place_found e i b f).side.descriptor ≤ is_out e.flow + num f.side.descriptor)
place_found-quiet e i none f y p q s = (refl, omega arith)
place_found-quiet e i (some b) f y p q s = place_speaker-quiet e.flow i (described e b) f y p q s

lost_speakers-none :
    (es : List Endpoint) (i : ℕ) (f : Speakers) (io : Io) (y : ℕ)
    → outs es + num f.side.descriptor ≤ 1
    → ins es ≡ 0
    → strays es ≡ 0
    → lost_speakers es i f io y ≡ 0
unfolding lost_speakers
lost_speakers-none [] i f io y p q s = refl
lost_speakers-none (e ∷ es) i f io y p q s =
    let r = get_endpoint e.fetch io in
    let c = place_found-quiet e i r.1 f y (omega arith) (omega arith) (omega arith) in
    let rest =
      lost_speakers-none es (i + 1) (place_found e i r.1 f) r.2 y (omega (arith, c.1)) (omega arith)
        (omega arith) in
    if_both (λ (n : ℕ). n ≡ 0) (nt_success r.0) (omega (arith, c.0, rest)) refl

a2dp_lost-none :
    (a : A2dpStart) (u : A2dp) (io : Io) (y : ℕ)
    → u.speaker.descriptor ≡ none
    → outs a.endpoints ≤ 1
    → ins a.endpoints ≡ 0
    → strays a.endpoints ≡ 0
    → a2dp_lost a (u, io) y ≡ 0
unfolding a2dp_lost a2dp_start_capabilities a2dp_start_descriptor
a2dp_lost-none a u io y e p q s =
    let c = a2dp_start_capabilities a (u, io) in
    let d = a2dp_start_descriptor a c.1 in
    if_both (λ (n : ℕ). n ≡ 0) (nt_success c.0)
      (if_both (λ (n : ℕ). n ≡ 0) (nt_success d.0)
        (lost_speakers-none a.endpoints 0 (none_of u.speaker) d.1.1 y (omega (arith, ap num e)) q s)
        refl)
      refl

a2dp_init-no_descriptor :
    (a : InitAnswers) (io : Io) → (a2dp_init a io).1.0.speaker.descriptor ≡ none
unfolding a2dp_init
a2dp_init-no_descriptor a io = ground arith

a2dp_lost_in_life-none :
    (l : A2dpLife) (io : Io) (y : ℕ)
    → outs l.start.endpoints ≤ 1
    → ins l.start.endpoints ≡ 0
    → strays l.start.endpoints ≡ 0
    → a2dp_lost_in_life l io y ≡ 0
unfolding a2dp_lost_in_life
a2dp_lost_in_life-none l io y p q s =
    let made = a2dp_init l.init io in
    if_both (λ (n : ℕ). n ≡ 0) (nt_success made.0)
      (a2dp_lost-none l.start made.1.0 made.1.1 y (a2dp_init-no_descriptor l.init io) p q s) refl

-- Whatever Init, Start and the configurations of the codec meet, failures of any step included:
-- where a device reports at most one endpoint for output and no other, in the end of its life each
-- block of memory, each object of the framework and each interface has the uses that it had before,
-- by others and by the cache, but for the block of the properties of the wave filter's interface of
-- its pair, where there is a pair.
pub a2dp_life-IsBalanced :
    (others : ℕ → ℕ) (l : A2dpLife) (io : Io)
    → IsBalanced others io.adapter.cache
    → outs l.start.endpoints ≤ 1
    → ins l.start.endpoints ≡ 0
    → strays l.start.endpoints ≡ 0
    → IsBalanced (λ y. others y + a2dp_kept l io y) (a2dp_life l io).adapter.cache
a2dp_life-IsBalanced others l io h p q s =
    λ y. omega (arith, a2dp_life-lost others l io h y, a2dp_lost_in_life-none l io y p q s)
