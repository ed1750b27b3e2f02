-- ===== src/Remote/Owned.antt =====
-- inferno_driver/UsbHsDevice.cpp, A2dpHpDevice.cpp and BthhfpDevice.cpp: what a request in two steps
-- and the making of a pair leave of the memory and the objects that they take.
use inferno_windows.Prelude.{
  ℕ, ◌+◌, ◌≡◌, refl, arith, Bool, false, ◌||◌, Option, none, some, List, [], ◌∷◌, ltb, ◌==◌, ◌^◌,
  ◌-◌, if_both, if◌then◌else◌,
}
use inferno_windows.Status.{NtStatus, nt_success}
use inferno_windows.Objects.{one, one_of}
use inferno_windows.Subdevices.References.{IsBalanced}
use inferno_windows.Remote.{
  Access, store, request, free_of, free_list, Io, Code, Ask, Fetch, acquire, access, fetch_into,
  fetch_block, fetch_sized, fetch_probed, fetch, is_buffer_too_small, send_io_ctrl_synchronously,
  get_values_into,
}

-- Beside the uses of others and of the cache, there are those that `held` counts.
abbrev pub Owes : (ℕ → ℕ) → (ℕ → ℕ) → Io → Type 0
Owes others held io = IsBalanced (λ y. others y + held y) io.adapter.cache

abbrev pub OwesBlock : (ℕ → ℕ) → NtStatus × Option ℕ × Io → Type 0
OwesBlock others r = Owes others (one_of r.1) r.2

store-Owes :
    (others held : ℕ → ℕ) (b : Bool) (a : Access) (io : Io)
    → Owes others held io
    → Owes others held (if b then access a io else io)
store-Owes others held b a io h = if_both (Owes others held) b {x = access a io} {y = io} h h

fetch_into-Owes :
    (others : ℕ → ℕ) (ask : Ask) (f : Fetch) (b : ℕ) (io : Io)
    → Owes others (one b) io
    → OwesBlock others (fetch_into ask f b io)
unfolding fetch_into send_io_ctrl_synchronously
fetch_into-Owes others ask f b io h =
    let stored = store-Owes others (one b) ask.in_place (store 4 f.information) io h in
    if_both (OwesBlock others) (nt_success f.reuse)
      (if_both (OwesBlock others) (nt_success f.get) stored (λ y. omega (arith, stored y)))
      (λ y. omega (arith, h y))

fetch_block-Owes :
    (others : ℕ → ℕ) (ask : Ask) (f : Fetch) (memory : Option ℕ) (io : Io)
    → IsBalanced others io.adapter.cache
    → OwesBlock others (fetch_block ask f memory io)
fetch_block-Owes others ask f none io h = λ y. omega (arith, h y)
fetch_block-Owes others ask f (some b) io h =
    fetch_into-Owes others ask f b (acquire b io) (λ y. omega (arith, h y))

fetch_probed-Owes :
    (others : ℕ → ℕ) (ask : Ask) (f : Fetch) (io : Io)
    → IsBalanced others io.adapter.cache
    → OwesBlock others (fetch_probed ask f io)
unfolding fetch_probed fetch_sized send_io_ctrl_synchronously
fetch_probed-Owes others ask f io h =
    let probed = access (request ask.code ask.input ask.input 0 0) io in
    if_both (OwesBlock others) (is_buffer_too_small f.probe)
      (if_both (OwesBlock others) ((f.information == 0) || ltb (2 ^ 32 - 1) f.information)
        (λ y. omega (arith, h y)) (fetch_block-Owes others ask f f.memory probed h))
      (λ y. omega (arith, h y))

-- On every path of a request in two steps, its object is deleted, and of the memory that it took just
-- the block is left that the caller is given, if it is given one.
pub fetch-Owes :
    (others : ℕ → ℕ) (ask : Ask) (f : Fetch) (io : Io)
    → IsBalanced others io.adapter.cache
    → OwesBlock others (fetch ask f io)
unfolding fetch
fetch-Owes others ask f io h =
    if_both (OwesBlock others) (nt_success f.create)
      (λ y. omega (
        arith,
        fetch_probed-Owes (λ y. others y + one f.object y) ask f (acquire f.object io)
            (λ y. omega (arith, h y)) y,
      ))
      (λ y. omega (arith, h y))

pub get_values_into-Owes :
    (others : ℕ → ℕ) (code : Code) (length : ℕ) (get : NtStatus) (memory : Option ℕ) (io : Io)
    → IsBalanced others io.adapter.cache
    → OwesBlock others (get_values_into code length get memory io)
unfolding get_values_into send_io_ctrl_synchronously
get_values_into-Owes others code length get none io h = λ y. omega (arith, h y)
get_values_into-Owes others code length get (some b) io h =
    if_both (OwesBlock others) (nt_success get) (λ y. omega (arith, h y)) (λ y. omega (arith, h y))

abbrev pub all_of : List (Option ℕ) → ℕ → ℕ
all_of [] y = 0
all_of (o ∷ os) y = one_of o y + all_of os y

pub free_of-Owes :
    (others held : ℕ → ℕ) (o : Option ℕ) (io : Io)
    → Owes others (λ y. held y + one_of o y) io
    → Owes others held (free_of o io)
free_of-Owes others held none io h y = omega (arith, h y)
free_of-Owes others held (some x) io h y = omega (arith, h y)

pub free_list-Owes :
    (others held : ℕ → ℕ) (os : List (Option ℕ)) (io : Io)
    → Owes others (λ y. held y + all_of os y) io
    → Owes others held (free_list os io)
unfolding free_list
free_list-Owes others held [] io h = λ y. omega (arith, h y)
free_list-Owes others held (o ∷ os) io h =
    free_list-Owes others held os (free_of o io)
      (free_of-Owes others (λ y. held y + all_of os y) o io (λ y. omega (arith, h y)))

abbrev NoBlock : NtStatus × Option ℕ × Io → Type 0
NoBlock r = nt_success r.0 ≡ false → r.1 ≡ none

fetch_block-NoBlock :
    (ask : Ask) (f : Fetch) (memory : Option ℕ) (io : Io) → NoBlock (fetch_block ask f memory io)
unfolding fetch_into
fetch_block-NoBlock ask f none io e = refl
fetch_block-NoBlock ask f (some b) io e = ground arith

-- A request that fails gives no block.
pub fetch_none : (ask : Ask) (f : Fetch) (io : Io) → NoBlock (fetch ask f io)
unfolding fetch fetch_probed fetch_sized
fetch_none ask f io =
    let probed =
      (send_io_ctrl_synchronously f.probe ask.code ask.input ask.input 0 0
        (acquire f.object io)).1 in
    if_both NoBlock (nt_success f.create)
      (if_both NoBlock (is_buffer_too_small f.probe)
        (if_both NoBlock ((f.information == 0) || ltb (2 ^ 32 - 1) f.information) (λ e. refl)
          (fetch_block-NoBlock ask f f.memory probed))
        (λ e. refl))
      (λ e. refl)
