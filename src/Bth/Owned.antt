-- ===== src/Bth/Owned.antt =====
-- inferno_driver/BthhfpDevice.cpp, BthHfpDevice::Start: what the device holds of the memory, the
-- objects and the interfaces that were taken.
use inferno_windows.Prelude.{ℕ, ◌+◌, ◌≡◌, arith, Option, none, some, if_both}
use inferno_windows.Status.{NtStatus, nt_success}
use inferno_windows.Objects.{one_of}
use inferno_windows.Subdevices.References.{IsBalanced}
use inferno_windows.Endpoints.References.{install_endpoint_filters-IsBalanced}
use inferno_windows.Endpoints.Install.{install_endpoint_filters}
use inferno_windows.Remote.Levels.{Answer}
use inferno_windows.Remote.{Io, Code, send_io_ctrl_synchronously}
use inferno_windows.Remote.Owned.{Owes, OwesBlock}
use inferno_windows.Remote.Pairs.{create_custom_endpoint_minipair}
use inferno_windows.Remote.OwnedPairs.{
  own_blocks, create_custom_endpoint_minipair-kept, create_custom_endpoint_minipair-Owes,
}
use inferno_windows.Usb.{both_ports}
use inferno_windows.Usb.Owned.{none-one_of, or_kept-one_of, or_kept-pair, asks_ports_only}
use inferno_windows.Usb.OwnedStart.{objects_blocks}
use inferno_windows.Bth.{
  Bth, Filters, FilterAnswers, State, get_value, get_bth_volume_values, make_miniports,
  install_filters,
}

abbrev pub filters_blocks : Filters → ℕ → ℕ
filters_blocks p y = own_blocks p.miniports y + one_of p.topology y + one_of p.wave y

abbrev pub bth_blocks : Bth → ℕ → ℕ
bth_blocks u y =
    objects_blocks u.objects y
    + one_of u.descriptor y
    + one_of u.volume_values y
    + filters_blocks u.speaker y
    + filters_blocks u.mic y

abbrev pub OwesBth : (ℕ → ℕ) → State → Type 0
OwesBth others t = Owes others (bth_blocks t.0) t.1

abbrev pub OwesFilters : (ℕ → ℕ) → Filters × Io → Type 0
OwesFilters others t = Owes others (filters_blocks t.0) t.1

-- The members that a step of Start is to set are still NULL.
abbrev pub NoPorts : Filters → Type 0
NoPorts p = (p.topology ≡ none) × (p.wave ≡ none)

abbrev pub BeforeMic : Bth → Type 0
BeforeMic u = NoPorts u.mic

abbrev pub BeforePorts : Bth → Type 0
BeforePorts u = NoPorts u.speaker × BeforeMic u

abbrev pub BeforeMicPair : Bth → Type 0
BeforeMicPair u = (u.mic.miniports ≡ none) × BeforePorts u

abbrev pub BeforePairs : Bth → Type 0
BeforePairs u = (u.speaker.miniports ≡ none) × BeforeMicPair u

abbrev pub BeforeVolume : Bth → Type 0
BeforeVolume u = (u.volume_values ≡ none) × BeforePairs u

abbrev pub BeforeStart : Bth → Type 0
BeforeStart u = (u.descriptor ≡ none) × BeforeVolume u

abbrev pub Stage : (ℕ → ℕ) → (Bth → Type 0) → State → Type 0
Stage others before t = OwesBth others t × before t.0

pub get_bth_volume_values-OwesBlock :
    (others : ℕ → ℕ) (length : ℕ) (status : NtStatus) (memory : Option ℕ) (io : Io)
    → IsBalanced others io.adapter.cache
    → OwesBlock others (get_bth_volume_values length status memory io)
unfolding get_bth_volume_values send_io_ctrl_synchronously
get_bth_volume_values-OwesBlock others length status none io h = λ y. omega (arith, h y)
get_bth_volume_values-OwesBlock others length status (some b) io h =
    if_both (OwesBlock others) (nt_success status) (λ y. omega (arith, h y))
      (λ y. omega (arith, h y))

pub make_miniports-OwesFilters :
    (others : ℕ → ℕ) (a : FilterAnswers) (codec : ℕ) (t : Filters × Io)
    → OwesFilters others t
    → t.0.miniports ≡ none
    → OwesFilters others (make_miniports a codec t).1
unfolding make_miniports
make_miniports-OwesFilters others a codec (p, io) owed e = λ y. omega (
  arith,
  create_custom_endpoint_minipair-Owes (λ y. others y + filters_blocks p y) _ a.blocks io
      (λ y. omega (arith, owed y)) y,
  create_custom_endpoint_minipair-kept _ a.blocks io y,
  or_kept-pair (create_custom_endpoint_minipair _ a.blocks io).1 p.miniports y e,
)

pub install_filters-OwesFilters :
    (others : ℕ → ℕ) (a : FilterAnswers) (t : Filters × Io)
    → OwesFilters others t
    → NoPorts t.0
    → OwesFilters others (install_filters a t).1
unfolding install_filters
install_filters-OwesFilters others a (p, io) owed unset =
    let outs =
      (install_endpoint_filters a.services a.pair a.topo_build a.wave_build both_ports
        io.adapter).1 in
    let ports = asks_ports_only a.services a.pair a.topo_build a.wave_build io.adapter in
    λ y. omega (
      arith,
      install_endpoint_filters-IsBalanced (λ y. others y + filters_blocks p y) a.services a.pair
          a.topo_build a.wave_build both_ports io.adapter (λ y. omega (arith, owed y)) y,
      or_kept-one_of outs.topology p.topology y unset.0,
      or_kept-one_of outs.wave p.wave y unset.1,
      none-one_of outs.mini_topology y ports.0,
      none-one_of outs.mini_wave y ports.1,
    )

pub get_value-Owes :
    (others held : ℕ → ℕ) (code : Code) (input output room : ℕ) (a : Answer) (io : Io)
    → Owes others held io
    → Owes others held (get_value code input output room a io).2
unfolding get_value send_io_ctrl_synchronously
get_value-Owes others held code input output room a io h =
    if_both (λ (r : NtStatus × ℕ × Io). Owes others held r.2) (nt_success a.status) h h
