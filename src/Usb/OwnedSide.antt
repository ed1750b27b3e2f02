-- ===== src/Usb/OwnedSide.antt =====
-- inferno_driver/UsbHsDevice.cpp, UsbHsDevice::Start for one direction from its first step to its
-- last.
use inferno_windows.Prelude.{ℕ, Option, none, some}
use inferno_windows.Status.{NtStatus}
use inferno_windows.Remote.{Io}
use inferno_windows.Remote.Levels.{Sizes}
use inferno_windows.Usb.{
  Descriptor, Side, Answers, State, next, start_volume, start_mute, start_formats, start_miniports,
  start_verify, start_filters, start_notice, start_described, start_side_of, start_side,
}
use inferno_windows.Usb.Owned.{
  OwesSide, Stage, BeforeVolume, BeforeMute, BeforeFormats, BeforeMiniports, BeforeFilters,
  start_volume-Stage, start_mute-Stage, start_formats-Stage, start_miniports-Stage,
  start_verify-Stage, start_filters-OwesSide, start_notice-OwesSide, next-keeps,
}

module _ (others : ℕ → ℕ) (z : Sizes) (a : Answers) (d : Descriptor) where
  from_filters : State → NtStatus × State
  from_filters t = next (start_filters a t) (start_notice a d)

  from_verify : State → NtStatus × State
  from_verify t = next (start_verify a t) from_filters

  from_miniports : State → NtStatus × State
  from_miniports t = next (start_miniports a t) from_verify

  from_formats : State → NtStatus × State
  from_formats t = next (start_formats z a t) from_miniports

  from_mute : State → NtStatus × State
  from_mute t = next (start_mute z a d t) from_formats

  from_filters-OwesSide :
      (t : State) → Stage others BeforeFilters t → OwesSide others (from_filters t).1
  unfolding from_filters
  from_filters-OwesSide t p =
      next-keeps (OwesSide others) (OwesSide others) (start_filters a t) (start_notice a d)
        (start_filters-OwesSide others a t p) (λ s q. q) (start_notice-OwesSide others a d)

  from_verify-OwesSide :
      (t : State) → Stage others BeforeFilters t → OwesSide others (from_verify t).1
  unfolding from_verify
  from_verify-OwesSide t p =
      next-keeps (Stage others BeforeFilters) (OwesSide others) (start_verify a t) from_filters
        (start_verify-Stage others a t p) (λ s q. q.0) from_filters-OwesSide

  from_miniports-OwesSide :
      (t : State) → Stage others BeforeMiniports t → OwesSide others (from_miniports t).1
  unfolding from_miniports
  from_miniports-OwesSide t p =
      next-keeps (Stage others BeforeFilters) (OwesSide others) (start_miniports a t) from_verify
        (start_miniports-Stage others a t p) (λ s q. q.0) from_verify-OwesSide

  from_formats-OwesSide :
      (t : State) → Stage others BeforeFormats t → OwesSide others (from_formats t).1
  unfolding from_formats
  from_formats-OwesSide t p =
      next-keeps (Stage others BeforeMiniports) (OwesSide others) (start_formats z a t)
        from_miniports (start_formats-Stage others z a t p) (λ s q. q.0) from_miniports-OwesSide

  from_mute-OwesSide : (t : State) → Stage others BeforeMute t → OwesSide others (from_mute t).1
  unfolding from_mute
  from_mute-OwesSide t p =
      next-keeps (Stage others BeforeFormats) (OwesSide others) (start_mute z a d t) from_formats
        (start_mute-Stage others z a d t p) (λ s q. q.0) from_formats-OwesSide

  start_described-OwesSide :
      (t : State) → Stage others BeforeVolume t → OwesSide others (start_described z a d t).1
  unfolding start_described from_mute from_formats from_miniports from_verify from_filters
  start_described-OwesSide t p =
      next-keeps (Stage others BeforeMute) (OwesSide others) (start_volume z a d t) from_mute
        (start_volume-Stage others z a d t p) (λ s q. q.0) from_mute-OwesSide

start_side_of-OwesSide :
    (others : ℕ → ℕ) (z : Sizes) (a : Answers) (d : Option Descriptor) (t : State)
    → Stage others BeforeVolume t
    → OwesSide others (start_side_of z a d t).1
start_side_of-OwesSide others z a none t p = p.0
start_side_of-OwesSide others z a (some d) t p = start_described-OwesSide others z a d t p

-- Whatever Start meets for a direction whose members are NULL, each block, object and interface has
-- in the end the uses of others and one for each member that holds it.
pub start_side-OwesSide :
    (others : ℕ → ℕ) (z : Sizes) (a : Answers) (s : Side) (io : Io)
    → OwesSide others (s, io)
    → BeforeVolume s
    → OwesSide others (start_side z a (s, io)).1
unfolding start_side
start_side-OwesSide others z a s io owed unset =
    start_side_of-OwesSide others z a s.descriptor (s, io) (owed, unset)
