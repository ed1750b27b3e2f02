-- ===== src/Usb/Owned.antt =====
-- inferno_driver/UsbHsDevice.cpp, UsbHsDevice::Start for one direction: what its members hold of the
-- memory, the objects and the interfaces that were taken.
use inferno_windows.Prelude.{
  ℕ, ◌+◌, ◌≡◌, refl, arith, false, Option, none, some, if_both, Bool-cases, inl, inr, subst,
}
use inferno_windows.Status.{NtStatus, nt_success}
use inferno_windows.Objects.{one_of}
use inferno_windows.Subdevices.References.{IsBalanced}
use inferno_windows.Endpoints.{Build, Services, Minipair, Endpoints, Outs}
use inferno_windows.Endpoints.Install.{finish_filters, install_endpoint_filters}
use inferno_windows.Remote.Pairs.{Pair, create_custom_endpoint_minipair}
use inferno_windows.Endpoints.References.{install_endpoint_filters-IsBalanced}
use inferno_windows.Remote.{
  Io, Code, get_values_into, get_volume_values, get_mute_values, get_volume, get_mute,
  send_io_ctrl_synchronously,
}
use inferno_windows.Remote.Levels.{Sizes, Answer, get_level}
use inferno_windows.Remote.Owned.{Owes, all_of, fetch-Owes, get_values_into-Owes}
use inferno_windows.Remote.OwnedPairs.{
  own_blocks, create_custom_endpoint_minipair-kept, create_custom_endpoint_minipair-Owes,
}
use inferno_windows.Usb.{
  Descriptor, Side, Values, Answers, State, next, or_kept, values_and_level, start_volume,
  start_mute, start_formats, start_miniports, start_verify, start_filters, start_notice, both_ports,
}
use inferno_windows.Usb.Destroy.{descriptor_block}

-- What the members of a direction hold.
abbrev pub side_blocks : Side → ℕ → ℕ
side_blocks s y =
    one_of (descriptor_block s.descriptor) y
    + one_of s.volume_values y
    + one_of s.mute_values y
    + one_of s.formats y
    + own_blocks s.miniports y
    + all_of s.resources y
    + one_of s.topology y
    + one_of s.wave y

abbrev pub OwesSide : (ℕ → ℕ) → State → Type 0
OwesSide others t = Owes others (side_blocks t.0) t.1

-- The members that a step of Start is to set are still NULL.
abbrev pub BeforeFilters : Side → Type 0
BeforeFilters s = (s.topology ≡ none) × (s.wave ≡ none)

abbrev pub BeforeMiniports : Side → Type 0
BeforeMiniports s = (s.miniports ≡ none) × BeforeFilters s

abbrev pub BeforeFormats : Side → Type 0
BeforeFormats s = (s.formats ≡ none) × BeforeMiniports s

abbrev pub BeforeMute : Side → Type 0
BeforeMute s = (s.mute_values ≡ none) × BeforeFormats s

abbrev pub BeforeVolume : Side → Type 0
BeforeVolume s = (s.volume_values ≡ none) × BeforeMute s

abbrev pub Stage : (ℕ → ℕ) → (Side → Type 0) → State → Type 0
Stage others before t = OwesSide others t × before t.0

-- A value for a member that is NULL is all that the member holds then.
pub or_kept-one_of :
    (o v : Option ℕ) (y : ℕ) → v ≡ none → one_of (or_kept o v) y ≡ one_of o y + one_of v y
or_kept-one_of none v y e = omega arith
or_kept-one_of (some x) v y e = ground (arith, e)

get_values_into-none :
    (code : Code) (length : ℕ) (get : NtStatus) (memory : Option ℕ) (io : Io)
    → nt_success (get_values_into code length get memory io).0 ≡ false
    → (get_values_into code length get memory io).1 ≡ none
unfolding get_values_into
get_values_into-none code length get none io e = refl
get_values_into-none code length get (some b) io e = ground arith

get_level-Owes :
    (others held : ℕ → ℕ) (level : Code) (size room : ℕ) (a : Answer) (io : Io)
    → Owes others held io
    → Owes others held (get_level level size room a io).2
unfolding get_level send_io_ctrl_synchronously
get_level-Owes others held level size room a io h =
    if_both (λ (r : NtStatus × ℕ × Io). Owes others held r.2) (nt_success a.status) h h

values_and_level-Owes :
    (others : ℕ → ℕ) (values level : Code) (length size room : ℕ) (a : Values) (io : Io)
    → IsBalanced others io.adapter.cache
    → Owes others
        (one_of (values_and_level values level length size room a io).1)
        (values_and_level values level length size room a io).3
unfolding values_and_level
values_and_level-Owes others values level length size room a io h =
    let v = get_values_into values length a.get a.memory io in
    let owed = get_values_into-Owes others values length a.get a.memory io h in
    elim (Bool-cases (nt_success v.0)) [
      | inl e ↦ rw e (get_level-Owes others (one_of v.1) level size room a.level v.2 owed)
      | inr e ↦ rw e (
          subst (λ (o : Option ℕ). Owes others (one_of o) v.2)
            (get_values_into-none values length a.get a.memory io e) owed)
    ]

pub start_volume-Stage :
    (others : ℕ → ℕ) (z : Sizes) (a : Answers) (d : Descriptor) (t : State)
    → Stage others BeforeVolume t
    → Stage others BeforeMute (start_volume z a d t).1
unfolding start_volume
start_volume-Stage others z a d (s, io) (owed, unset) =
    if_both (λ (r : NtStatus × State). Stage others BeforeMute r.1) d.has_volume
      (
        (λ y. omega (
          arith,
          values_and_level-Owes (λ y. others y + side_blocks s y) get_volume_values get_volume
              d.volume_size z.volume z.buffer a.volume io (λ y. omega (arith, owed y)) y,
          or_kept-one_of
              (values_and_level get_volume_values get_volume d.volume_size z.volume z.buffer
                a.volume io).1
              s.volume_values y unset.0,
        )),
        unset.1,
      )
      ((λ y. omega (arith, owed y)), unset.1)

pub start_mute-Stage :
    (others : ℕ → ℕ) (z : Sizes) (a : Answers) (d : Descriptor) (t : State)
    → Stage others BeforeMute t
    → Stage others BeforeFormats (start_mute z a d t).1
unfolding start_mute
start_mute-Stage others z a d (s, io) (owed, unset) =
    if_both (λ (r : NtStatus × State). Stage others BeforeFormats r.1) d.has_mute
      (
        (λ y. omega (
          arith,
          values_and_level-Owes (λ y. others y + side_blocks s y) get_mute_values get_mute
              d.mute_size z.mute z.buffer a.mute io (λ y. omega (arith, owed y)) y,
          or_kept-one_of
              (values_and_level get_mute_values get_mute d.mute_size z.mute z.buffer a.mute io).1
              s.mute_values y unset.0,
        )),
        unset.1,
      )
      ((λ y. omega (arith, owed y)), unset.1)

pub none-one_of : (o : Option ℕ) (y : ℕ) → o ≡ none → one_of o y ≡ 0
none-one_of none y e = refl
none-one_of (some x) y e = absurd (ground (arith, e))

pub start_formats-Stage :
    (others : ℕ → ℕ) (z : Sizes) (a : Answers) (t : State)
    → Stage others BeforeFormats t
    → Stage others BeforeMiniports (start_formats z a t).1
unfolding start_formats
start_formats-Stage others z a (s, io) (owed, unset) = (
  (λ y. omega (
    arith,
    fetch-Owes (λ y. others y + side_blocks s y) _ a.formats io (λ y. omega (arith, owed y)) y,
    none-one_of s.formats y unset.0,
  )),
  unset.1,
)

pub or_kept-pair :
    (o p : Option Pair) (y : ℕ)
    → p ≡ none
    → own_blocks (or_kept o p) y ≡ own_blocks o y + own_blocks p y
or_kept-pair none p y e = omega arith
or_kept-pair (some x) none y e = omega arith
or_kept-pair (some x) (some p) y e = absurd (ground (arith, e))

pub start_miniports-Stage :
    (others : ℕ → ℕ) (a : Answers) (t : State)
    → Stage others BeforeMiniports t
    → Stage others BeforeFilters (start_miniports a t).1
unfolding start_miniports
start_miniports-Stage others a (s, io) (owed, unset) = (
  (λ y. omega (
    arith,
    create_custom_endpoint_minipair-Owes (λ y. others y + side_blocks s y) a.base a.blocks io
        (λ y. omega (arith, owed y)) y,
    create_custom_endpoint_minipair-kept a.base a.blocks io y,
    or_kept-pair (create_custom_endpoint_minipair a.base a.blocks io).1 s.miniports y unset.0,
  )),
  unset.1,
)

pub start_verify-Stage :
    (others : ℕ → ℕ) (a : Answers) (t : State)
    → Stage others BeforeFilters t
    → Stage others BeforeFilters (start_verify a t).1
unfolding start_verify
start_verify-Stage others a (s, io) (owed, unset) = ((λ y. omega (arith, owed y)), unset)

-- Start asks for the interfaces of the two ports only.
pub asks_ports_only :
    (k : Services) (p : Minipair) (topo wave : Build) (e : Endpoints)
    → ((install_endpoint_filters k p topo wave both_ports e).1.mini_topology ≡ none)
      × ((install_endpoint_filters k p topo wave both_ports e).1.mini_wave ≡ none)
unfolding install_endpoint_filters finish_filters
asks_ports_only k p topo wave e =
    if_both
      (λ (r : NtStatus × Outs × Endpoints). (r.1.mini_topology ≡ none) × (r.1.mini_wave ≡ none)) _
      (refl, refl) (refl, refl)

pub start_filters-OwesSide :
    (others : ℕ → ℕ) (a : Answers) (t : State)
    → Stage others BeforeFilters t
    → OwesSide others (start_filters a t).1
unfolding start_filters
start_filters-OwesSide others a (s, io) (owed, unset) =
    let outs =
      (install_endpoint_filters a.services a.pair a.topo_build a.wave_build both_ports
        io.adapter).1 in
    let ports = asks_ports_only a.services a.pair a.topo_build a.wave_build io.adapter in
    λ y. omega (
      arith,
      install_endpoint_filters-IsBalanced (λ y. others y + side_blocks s y) a.services a.pair
          a.topo_build a.wave_build both_ports io.adapter (λ y. omega (arith, owed y)) y,
      or_kept-one_of outs.topology s.topology y unset.0,
      or_kept-one_of outs.wave s.wave y unset.1,
      none-one_of outs.mini_topology y ports.0,
      none-one_of outs.mini_wave y ports.1,
    )

pub start_notice-OwesSide :
    (others : ℕ → ℕ) (a : Answers) (d : Descriptor) (t : State)
    → OwesSide others t
    → OwesSide others (start_notice a d t).1
unfolding start_notice
start_notice-OwesSide others a d (s, io) owed =
    if_both (λ (r : NtStatus × State). OwesSide others r.1) d.has_volume owed owed

-- What holds before each step, and after the last one, holds after all.
pub next-keeps {ℓ κ μ} :
    {S : Type ℓ} (P : S → Type κ) (Q : S → Type μ) (r : NtStatus × S) (k : S → NtStatus × S)
    → P r.1
    → ((s : S) → P s → Q s)
    → ((s : S) → P s → Q (k s).1)
    → Q (next r k).1
next-keeps {S} P Q r k p weaken f =
    if_both (λ (r : NtStatus × S). Q r.1) (nt_success r.0) {x = k r.1} {y = r} (f r.1 p)
      (weaken r.1 p)
