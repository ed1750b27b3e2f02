-- ===== src/Remote/OwnedPairs.antt =====
-- inferno_driver/UsbHsDevice.cpp, A2dpHpDevice.cpp and BthhfpDevice.cpp: the memory of the pair of
-- miniports that is made for a device.
use Prim.{Unit, tt}
use inferno_windows.Prelude.{ℕ, ◌+◌, ◌≡◌, refl, arith, Option, none, some, List, if_both}
use inferno_windows.Status.{NtStatus, nt_success}
use inferno_windows.Objects.{one, one_of}
use inferno_windows.Subdevices.References.{IsBalanced}
use inferno_windows.Remote.{Io, free_of}
use inferno_windows.Remote.Pairs.{
  Base, Blocks, Pair, acquire_blocks, free_blocks, complete, finish_pair,
  create_custom_endpoint_minipair, a2dp_create_custom_endpoint_minipair,
  delete_custom_endpoint_minipair, acquire_of, with_wave,
}
use inferno_windows.Remote.Owned.{Owes, free_of-Owes}

-- The blocks of a pair that go with it, and the one that stays where it is deleted.
abbrev pub own_blocks : Option Pair → ℕ → ℕ
own_blocks none y = 0
own_blocks (some p) y = one p.properties y + one p.pair y + one p.filter y + one p.pins y

abbrev pub kept_block : Option Pair → ℕ → ℕ
kept_block none y = 0
kept_block (some p) y = one_of p.wave y

abbrev pub pair_blocks : Option Pair → ℕ → ℕ
pair_blocks o y = own_blocks o y + kept_block o y

abbrev pub asked : Blocks → ℕ → ℕ
asked b y =
    one_of b.properties y + one_of b.pair y + one_of b.filter y + one_of b.pins y + one_of b.wave y

pub acquire_of-Owes :
    (others held : ℕ → ℕ) (o : Option ℕ) (io : Io)
    → Owes others held io
    → Owes others (λ y. held y + one_of o y) (acquire_of o io)
acquire_of-Owes others held none io h y = omega (arith, h y)
acquire_of-Owes others held (some x) io h y = omega (arith, h y)

acquire_blocks-Owes :
    (others : ℕ → ℕ) (b : Blocks) (io : Io)
    → IsBalanced others io.adapter.cache
    → Owes others (asked b) (acquire_blocks b io)
unfolding acquire_blocks
acquire_blocks-Owes others b io h =
    let i1 = acquire_of b.properties io in
    let i2 = acquire_of b.pair i1 in
    let i3 = acquire_of b.filter i2 in
    let i4 = acquire_of b.pins i3 in
    let h1 = acquire_of-Owes others (λ y. 0) b.properties io (λ y. omega (arith, h y)) in
    let o1 = λ (y : ℕ). 0 + one_of b.properties y in
    let o2 = λ (y : ℕ). o1 y + one_of b.pair y in
    let o3 = λ (y : ℕ). o2 y + one_of b.filter y in
    let o4 = λ (y : ℕ). o3 y + one_of b.pins y in
    let h2 = acquire_of-Owes others o1 b.pair i1 h1 in
    let h3 = acquire_of-Owes others o2 b.filter i2 h2 in
    let h4 = acquire_of-Owes others o3 b.pins i3 h3 in
    let h5 = acquire_of-Owes others o4 b.wave i4 h4 in λ y. omega (arith, h5 y)

free_blocks-Owes :
    (others : ℕ → ℕ) (b : Blocks) (io : Io)
    → Owes others (asked b) io
    → IsBalanced others (free_blocks b io).adapter.cache
unfolding free_blocks
free_blocks-Owes others b io h =
    let o4 = λ (y : ℕ). 0 + one_of b.pins y in
    let o3 = λ (y : ℕ). o4 y + one_of b.filter y in
    let o2 = λ (y : ℕ). o3 y + one_of b.pair y in
    let o1 = λ (y : ℕ). o2 y + one_of b.wave y in
    let i1 = free_of b.properties io in
    let i2 = free_of b.wave i1 in
    let i3 = free_of b.pair i2 in
    let i4 = free_of b.filter i3 in
    let h1 = free_of-Owes others o1 b.properties io (λ y. omega (arith, h y)) in
    let h2 = free_of-Owes others o2 b.wave i1 h1 in
    let h3 = free_of-Owes others o3 b.pair i2 h2 in
    let h4 = free_of-Owes others o4 b.filter i3 h3 in
    let h5 = free_of-Owes others (λ y. 0) b.pins i4 h4 in λ y. omega (arith, h5 y)

-- A pair is made of the blocks asked for.
abbrev Made : Blocks → Option Pair → Type 0
Made b none = Unit
Made b (some p) = (y : ℕ) → pair_blocks (some p) y ≡ asked b y

complete-Made :
    (a b c d w : Option ℕ) (n : ℕ) (cs : List ℕ)
    → Made
        (record { properties = a; pair = b; filter = c; pins = d; wave = w })
        (complete a b c d w n cs)
complete-Made (some a) (some b) (some c) (some d) w n cs = λ y. refl
complete-Made none b c d w n cs = tt
complete-Made (some a) none c d w n cs = tt
complete-Made (some a) (some b) none d w n cs = tt
complete-Made (some a) (some b) (some c) none w n cs = tt

with_wave-Made : (b : Blocks) (w : Option ℕ) (o : Option Pair) → Made b o → Made b (with_wave w o)
with_wave-Made b none o m = tt
with_wave-Made b (some w) o m = m

abbrev pub OwesPair : (ℕ → ℕ) → NtStatus × Option Pair × Io → Type 0
OwesPair others r = Owes others (pair_blocks r.1) r.2

finish_pair-Owes :
    (others : ℕ → ℕ) (b : Blocks) (o : Option Pair) (status : NtStatus) (io : Io)
    → Made b o
    → Owes others (asked b) io
    → OwesPair others (finish_pair b o status io)
unfolding finish_pair
finish_pair-Owes others b none status io m h = λ y. omega (arith, free_blocks-Owes others b io h y)
finish_pair-Owes others b (some p) status io m h =
    if_both (OwesPair others) (nt_success status) (λ y. omega (arith, h y, m y))
      (λ y. omega (arith, free_blocks-Owes others b io h y))

pub create_custom_endpoint_minipair-Owes :
    (others : ℕ → ℕ) (base : Base) (b : Blocks) (io : Io)
    → IsBalanced others io.adapter.cache
    → OwesPair others (create_custom_endpoint_minipair base b io)
unfolding create_custom_endpoint_minipair
create_custom_endpoint_minipair-Owes others base b io h =
    finish_pair-Owes others (record b { wave = none }) _ _ _
      (complete-Made b.properties b.pair b.filter b.pins none _ _)
      (acquire_blocks-Owes others (record b { wave = none }) io h)

pub a2dp_create_custom_endpoint_minipair-Owes :
    (others : ℕ → ℕ) (base : Base) (custom : ℕ) (b : Blocks) (io : Io)
    → IsBalanced others io.adapter.cache
    → OwesPair others (a2dp_create_custom_endpoint_minipair base custom b io)
unfolding a2dp_create_custom_endpoint_minipair
a2dp_create_custom_endpoint_minipair-Owes others base custom b io h =
    finish_pair-Owes others b _ _ _
      (with_wave-Made b b.wave _ (complete-Made b.properties b.pair b.filter b.pins b.wave _ _))
      (acquire_blocks-Owes others b io h)

no_wave-kept :
    (b : Blocks) (n : ℕ) (cs : List ℕ) (status : NtStatus) (io : Io) (y : ℕ)
    → kept_block
        (finish_pair b (complete b.properties b.pair b.filter b.pins none n cs) status io).1
        y
      ≡ 0
unfolding finish_pair
no_wave-kept b n cs status io y = ground arith

-- A pair of a device that has no properties of the wave filter's interface.
pub create_custom_endpoint_minipair-kept :
    (base : Base) (b : Blocks) (io : Io) (y : ℕ)
    → kept_block (create_custom_endpoint_minipair base b io).1 y ≡ 0
unfolding create_custom_endpoint_minipair
create_custom_endpoint_minipair-kept base b io y = no_wave-kept (record b { wave = none }) _ _ _ _ y

pub delete_custom_endpoint_minipair-Owes :
    (others held : ℕ → ℕ) (p : Option Pair) (io : Io)
    → Owes others (λ y. held y + own_blocks p y) io
    → Owes others held (delete_custom_endpoint_minipair p io)
unfolding delete_custom_endpoint_minipair
delete_custom_endpoint_minipair-Owes others held none io h = λ y. omega (arith, h y)
delete_custom_endpoint_minipair-Owes others held (some p) io h = λ y. omega (arith, h y)

-- A pair that A2dpHpDevice makes, whatever that meets, and then deletes leaves the block of the
-- properties of the wave filter's interface, where there is a pair, and nothing else.
pub a2dp_create-delete_leaks :
    (others : ℕ → ℕ) (base : Base) (custom : ℕ) (b : Blocks) (io : Io)
    → IsBalanced others io.adapter.cache
    → Owes others (kept_block (a2dp_create_custom_endpoint_minipair base custom b io).1) (
        delete_custom_endpoint_minipair
          (a2dp_create_custom_endpoint_minipair base custom b io).1
          (a2dp_create_custom_endpoint_minipair base custom b io).2)
a2dp_create-delete_leaks others base custom b io h =
    let r = a2dp_create_custom_endpoint_minipair base custom b io in
    let made = a2dp_create_custom_endpoint_minipair-Owes others base custom b io h in
    delete_custom_endpoint_minipair-Owes others (kept_block r.1) r.1 r.2
      (λ y. omega (arith, made y))
