-- ===== src/Remote/Inside.antt =====
-- inferno_driver/UsbHsDevice.cpp and A2dpHpDevice.cpp: whether what is stored and asked for stays
-- inside the memory that there is for it.
use inferno_windows.Prelude.{
  ℕ, ◌-◌, ◌^◌, ◌≡◌, arith, Bool, true, false, not, ◌&&◌, ◌||◌, Option, none, some, List, [], ◌∷◌,
  ◌++◌, leb, ltb, ◌==◌,
}
use inferno_windows.Status.{NtStatus, nt_success}
use inferno_windows.Remote.{
  Access, Code, request, store, Io, Fetch, fetch, fetch_probed, fetch_sized, fetch_block,
  fetch_into, get_values_into, get_property_values, get_endpoint, send_io_ctrl_synchronously,
  is_buffer_too_small, acquire, access, endpoint_ask, get_endpoint_descriptor,
}

abbrev pub is_inside : Access → Bool
is_inside (request code input input_room output output_room) =
    leb input input_room && leb output output_room
is_inside (store bytes room) = leb bytes room

abbrev pub all_inside : List Access → Bool
all_inside [] = true
all_inside (a ∷ as') = is_inside a && all_inside as'

all_inside-append :
    (xs : List Access) (a : Access) → all_inside (xs ++ (a ∷ [])) ≡ (all_inside xs && is_inside a)
all_inside-append [] a = ground arith
all_inside-append (x ∷ xs) a = ground (arith, all_inside-append xs a)

abbrev pub is_had : Option ℕ → Bool
is_had none = false
is_had (some b) = true

-- The second step of a request for an endpoint's descriptor is reached.
abbrev pub is_reached : Fetch → Bool
is_reached f =
    nt_success f.create
    && (is_buffer_too_small f.probe
        && (not ((f.information == 0) || ltb (2 ^ 32 - 1) f.information)
            && (is_had f.memory && nt_success f.reuse)))

-- Where the property values of an endpoint have their memory, all accesses are inside if and only if
-- those before were and the endpoint's descriptor gives the values at least 4 bytes.
pub get_property_values-all_inside :
    (code : Code) (length : ℕ) (get : NtStatus) (b : ℕ) (io : Io)
    → all_inside (get_property_values code length get (some b) io).2.accesses
      ≡ (all_inside io.accesses && leb 4 length)
unfolding get_values_into send_io_ctrl_synchronously
get_property_values-all_inside code length get b io =
    let stored = io.accesses ++ (store 4 length ∷ []) in
    ground (
      arith,
      all_inside-append io.accesses (store 4 length),
      all_inside-append stored (request code 4 length length length),
    )

fetch_block-all_inside :
    (f : Fetch) (m : Option ℕ) (io : Io)
    → all_inside (fetch_block endpoint_ask f m io).2.accesses
      ≡ (all_inside io.accesses && (not (is_had m && nt_success f.reuse) || leb 4 f.information))
unfolding fetch_into send_io_ctrl_synchronously
fetch_block-all_inside f none io = ground arith
fetch_block-all_inside f (some b) io =
    let n = f.information in
    let stored = io.accesses ++ (store 4 n ∷ []) in
    ground (
      arith,
      all_inside-append io.accesses (store 4 n),
      all_inside-append stored (request get_endpoint_descriptor 4 n n n),
    )

-- A request for the descriptor of an endpoint keeps all accesses inside if and only if those before
-- were and, where its second step is reached, the driver below gave a size of at least 4 bytes.
pub get_endpoint-all_inside :
    (f : Fetch) (io : Io)
    → all_inside (get_endpoint f io).2.accesses
      ≡ (all_inside io.accesses && (not (is_reached f) || leb 4 f.information))
unfolding fetch fetch_probed fetch_sized send_io_ctrl_synchronously
get_endpoint-all_inside f io =
    let first = request get_endpoint_descriptor 4 4 0 0 in
    ground (
      arith,
      all_inside-append io.accesses first,
      fetch_block-all_inside f f.memory (access first (acquire f.object io)),
    )
