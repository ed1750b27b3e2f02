-- ===== src/A2dp/Owned.antt =====
-- inferno_driver/A2dpHpDevice.cpp, A2dpHpDevice::Start for the speaker: what its members hold, with
-- the block of its pair that is not freed with the pair.
use inferno_windows.Prelude.{ℕ, ◌+◌, ◌≡◌, refl, arith, Option, none, some, if_both}
use inferno_windows.Status.{NtStatus}
use inferno_windows.Objects.{one_of}
use inferno_windows.Remote.{Io}
use inferno_windows.Remote.Levels.{Sizes}
use inferno_windows.Remote.Owned.{Owes}
use inferno_windows.Remote.Pairs.{Pair, a2dp_create_custom_endpoint_minipair}
use inferno_windows.Remote.OwnedPairs.{
  own_blocks, kept_block, a2dp_create_custom_endpoint_minipair-Owes,
}
use inferno_windows.Usb.{
  Descriptor, State, next, or_kept, start_volume, start_mute, start_verify, start_filters,
  start_notice, enable_volume_status_notification,
}
use inferno_windows.Usb.Owned.{
  side_blocks, OwesSide, BeforeFilters, BeforeMiniports, BeforeFormats, BeforeMute, BeforeVolume,
  Stage, none-one_of, or_kept-pair, start_volume-Stage, start_mute-Stage, start_verify-Stage,
  start_filters-OwesSide, next-keeps,
}
use inferno_windows.A2dp.{
  A2dpAnswers, copied, copy_formats, a2dp_start_miniports, a2dp_start_notices, a2dp_start_described,
  a2dp_start_side_of,
}

-- Beside what the members hold, there is the block that is kept of the pair.
abbrev pub KeepsSide : (ℕ → ℕ) → State → Type 0
KeepsSide others t = OwesSide (λ y. others y + kept_block t.0.miniports y) t

abbrev Kept : (ℕ → ℕ) → State → Type 0
Kept others t = KeepsSide others t × BeforeFilters t.0

no_pair-kept : (p : Option Pair) (y : ℕ) → p ≡ none → kept_block p y ≡ 0
no_pair-kept none y e = refl
no_pair-kept (some p) y e = absurd (ground (arith, e))

no_pair-own : (p : Option Pair) (y : ℕ) → p ≡ none → own_blocks p y ≡ 0
no_pair-own none y e = refl
no_pair-own (some p) y e = absurd (ground (arith, e))

pub no_pair-KeepsSide :
    (others : ℕ → ℕ) (t : State) → OwesSide others t → t.0.miniports ≡ none → KeepsSide others t
no_pair-KeepsSide others t h e = λ y. omega (arith, h y, no_pair-kept t.0.miniports y e)

copied-Owes :
    (others held : ℕ → ℕ) (o : Option ℕ) (size : ℕ) (io : Io)
    → Owes others held io
    → Owes others (λ y. held y + one_of o y) (copied o size io)
copied-Owes others held none size io h = λ y. omega (arith, h y)
copied-Owes others held (some b) size io h = λ y. omega (arith, h y)

or_kept-kept : (o p : Option Pair) (y : ℕ) → p ≡ none → kept_block (or_kept o p) y ≡ kept_block o y
or_kept-kept none p y e = no_pair-kept p y e
or_kept-kept (some x) p y e = refl

module _ (others : ℕ → ℕ) (z : Sizes) (a : A2dpAnswers) (d : Descriptor) where
  copy_formats-Stage :
      (t : State) → Stage others BeforeFormats t → Stage others BeforeMiniports (copy_formats a t).1
  unfolding copy_formats
  copy_formats-Stage (s, io) (owed, unset) = (
    (λ y. omega (
      arith,
      copied-Owes others (side_blocks s) a.memory a.cb_size io owed y,
      none-one_of s.formats y unset.0,
    )),
    unset.1,
  )

  a2dp_start_miniports-Kept :
      (t : State) → Stage others BeforeMiniports t → Kept others (a2dp_start_miniports a t).1
  unfolding a2dp_start_miniports
  a2dp_start_miniports-Kept (s, io) (owed, unset) =
      let base = a.common.base in
      let blocks = a.common.blocks in
      let made = (a2dp_create_custom_endpoint_minipair base a.custom blocks io).1 in
      (
        (λ y. omega (
          arith,
          a2dp_create_custom_endpoint_minipair-Owes (λ y. others y + side_blocks s y) base a.custom
              blocks io (λ y. omega (arith, owed y)) y,
          or_kept-kept made s.miniports y unset.0,
          or_kept-pair made s.miniports y unset.0,
          no_pair-own s.miniports y unset.0,
        )),
        unset.1,
      )

  start_verify-Kept : (t : State) → Kept others t → Kept others (start_verify a.common t).1
  unfolding start_verify
  start_verify-Kept (s, io) p =
      start_verify-Stage (λ y. others y + kept_block s.miniports y) a.common (s, io) p

  start_filters-KeepsSide :
      (t : State) → Kept others t → KeepsSide others (start_filters a.common t).1
  unfolding start_filters
  start_filters-KeepsSide (s, io) p =
      start_filters-OwesSide (λ y. others y + kept_block s.miniports y) a.common (s, io) p

  start_notice-KeepsSide :
      (t : State) → KeepsSide others t → KeepsSide others (start_notice a.common d t).1
  unfolding start_notice
  start_notice-KeepsSide (s, io) h =
      if_both (λ (r : NtStatus × State). KeepsSide others r.1) d.has_volume h h

  from_siop : State → NtStatus × State
  from_siop t = next (enable_volume_status_notification a.siop, t) (start_notice a.common d)

  from_filters : State → NtStatus × State
  from_filters t = next (start_filters a.common t) (a2dp_start_notices a d)

  from_verify : State → NtStatus × State
  from_verify t = next (start_verify a.common t) from_filters

  from_miniports : State → NtStatus × State
  from_miniports t = next (a2dp_start_miniports a t) from_verify

  from_formats : State → NtStatus × State
  from_formats t = next (copy_formats a t) from_miniports

  from_mute : State → NtStatus × State
  from_mute t = next (start_mute z a.common d t) from_formats

  from_siop-KeepsSide : (t : State) → KeepsSide others t → KeepsSide others (from_siop t).1
  unfolding from_siop
  from_siop-KeepsSide t h =
      next-keeps (KeepsSide others) (KeepsSide others) (enable_volume_status_notification a.siop, t)
        (start_notice a.common d) h (λ s q. q) start_notice-KeepsSide

  a2dp_start_notices-KeepsSide :
      (t : State) → KeepsSide others t → KeepsSide others (a2dp_start_notices a d t).1
  unfolding a2dp_start_notices from_siop
  a2dp_start_notices-KeepsSide t h =
      next-keeps (KeepsSide others) (KeepsSide others)
        (enable_volume_status_notification a.connection, t) from_siop h (λ s q. q)
        from_siop-KeepsSide

  from_filters-KeepsSide : (t : State) → Kept others t → KeepsSide others (from_filters t).1
  unfolding from_filters
  from_filters-KeepsSide t p =
      next-keeps (KeepsSide others) (KeepsSide others) (start_filters a.common t)
        (a2dp_start_notices a d) (start_filters-KeepsSide t p) (λ s q. q)
        a2dp_start_notices-KeepsSide

  from_verify-KeepsSide : (t : State) → Kept others t → KeepsSide others (from_verify t).1
  unfolding from_verify
  from_verify-KeepsSide t p =
      next-keeps (Kept others) (KeepsSide others) (start_verify a.common t) from_filters
        (start_verify-Kept t p) (λ s q. q.0) from_filters-KeepsSide

  from_miniports-KeepsSide :
      (t : State) → Stage others BeforeMiniports t → KeepsSide others (from_miniports t).1
  unfolding from_miniports
  from_miniports-KeepsSide t p =
      next-keeps (Kept others) (KeepsSide others) (a2dp_start_miniports a t) from_verify
        (a2dp_start_miniports-Kept t p) (λ s q. q.0) from_verify-KeepsSide

  from_formats-KeepsSide :
      (t : State) → Stage others BeforeFormats t → KeepsSide others (from_formats t).1
  unfolding from_formats
  from_formats-KeepsSide t p =
      next-keeps (Stage others BeforeMiniports) (KeepsSide others) (copy_formats a t) from_miniports
        (copy_formats-Stage t p) (λ s q. no_pair-KeepsSide others s q.0 q.1.0)
        from_miniports-KeepsSide

  from_mute-KeepsSide : (t : State) → Stage others BeforeMute t → KeepsSide others (from_mute t).1
  unfolding from_mute
  from_mute-KeepsSide t p =
      next-keeps (Stage others BeforeFormats) (KeepsSide others) (start_mute z a.common d t)
        from_formats (start_mute-Stage others z a.common d t p)
        (λ s q. no_pair-KeepsSide others s q.0 q.1.1.0) from_formats-KeepsSide

  a2dp_start_described-KeepsSide :
      (t : State) → Stage others BeforeVolume t → KeepsSide others (a2dp_start_described z a d t).1
  unfolding a2dp_start_described from_mute from_formats from_miniports from_verify from_filters
  a2dp_start_described-KeepsSide t p =
      next-keeps (Stage others BeforeMute) (KeepsSide others) (start_volume z a.common d t)
        from_mute (start_volume-Stage others z a.common d t p)
        (λ s q. no_pair-KeepsSide others s q.0 q.1.1.1.0) from_mute-KeepsSide

-- Whatever Start meets for a speaker whose members are NULL, each block, object and interface has in
-- the end the uses of others, one for each member that holds it, and one for the block that is kept.
pub a2dp_start_side_of-KeepsSide :
    (others : ℕ → ℕ) (z : Sizes) (a : A2dpAnswers) (d : Option Descriptor) (t : State)
    → Stage others BeforeVolume t
    → KeepsSide others (a2dp_start_side_of z a d t).1
a2dp_start_side_of-KeepsSide others z a none t p = no_pair-KeepsSide others t p.0 p.1.1.1.1.0
a2dp_start_side_of-KeepsSide others z a (some d) t p =
    a2dp_start_described-KeepsSide others z a d t p
