-- ===== src/Usb/Resources.antt =====
-- inferno_driver/UsbHsDevice.cpp, the transport resources of an endpoint: GetTransportResources,
-- FreeTransportResources and SetTransportResources.
use inferno_windows.Prelude.{
  ℕ, ◌+◌, ◌≡◌, refl, arith, Bool, false, Bool-cases, inl, inr, Option, List, [], ◌∷◌, ◌++◌, if_both,
  if◌then◌else◌,
}
use inferno_windows.Status.{NtStatus, success, nt_success}
use inferno_windows.Objects.{one_of}
use inferno_windows.Subdevices.References.{IsBalanced}
use inferno_windows.Remote.{
  Io, Fetch, set_siop, siop_ask, free_list, get_siop_of, send_io_ctrl_synchronously,
}
use inferno_windows.Remote.Owned.{Owes, all_of, fetch-Owes, free_list-Owes}
use inferno_windows.Remote.Levels.{Sizes}

-- The requests in their order: what each brought stands in its place.
unfoldable pub get_siops : ℕ → List Fetch → Io → NtStatus × List (Option ℕ) × Io
get_siops size [] io = (success, [], io)
get_siops size (f ∷ fs) io =
    let r = get_siop_of size f io in
    let rest = get_siops size fs r.2 in
    if nt_success r.0 then (rest.0, r.1 ∷ rest.1, rest.2) else (r.0, r.1 ∷ [], r.2)

-- FreeTransportResources: all members are NULL then.
unfoldable pub free_transport_resources : List (Option ℕ) → Io → List (Option ℕ) × Io
free_transport_resources os io = ([], free_list os io)

-- The requests for the endpoint, with those for the feedback endpoint where there is one.
abbrev pub asked_siops : Bool → List Fetch → List Fetch → List Fetch
asked_siops feedback main sync = main ++ (if feedback then sync else [])

-- GetTransportResources: a failure frees what was had.
unfoldable pub get_transport_resources :
    Sizes → Bool → List Fetch → List Fetch → Io → NtStatus × List (Option ℕ) × Io
get_transport_resources z feedback main sync io =
    let r = get_siops z.siop (asked_siops feedback main sync) io in
    let freed = free_transport_resources r.1 r.2 in
    if nt_success r.0 then r else (r.0, freed.0, freed.1)

-- SetTransportResources: `size` is that of SYSVAD_USBSBAUD_SIOP_RESOURCE_ID.
unfoldable pub set_transport_resources : ℕ → Bool → NtStatus → NtStatus → Io → NtStatus × Io
set_transport_resources size feedback main sync io =
    let first = send_io_ctrl_synchronously main set_siop size size 0 0 io in
    let second = send_io_ctrl_synchronously sync set_siop size size 0 0 first.1 in
    if nt_success main
    then (if feedback
        then (if nt_success sync then (success, second.1) else second)
        else (success, first.1))
    else first

get_siops-Owes :
    (others : ℕ → ℕ) (size : ℕ) (fs : List Fetch) (io : Io)
    → IsBalanced others io.adapter.cache
    → Owes others (all_of (get_siops size fs io).1) (get_siops size fs io).2
unfolding get_siops
get_siops-Owes others size [] io h = λ y. omega (arith, h y)
get_siops-Owes others size (f ∷ fs) io h =
    let r = get_siop_of size f io in
    let owed = fetch-Owes others (siop_ask size) f io h in
    let rest = get_siops-Owes (λ y. others y + one_of r.1 y) size fs r.2 owed in
    if_both (λ (o : NtStatus × List (Option ℕ) × Io). Owes others (all_of o.1) o.2) (nt_success r.0)
      (λ y. omega (arith, rest y)) (λ y. omega (arith, owed y))

-- Whatever GetTransportResources meets, each block and each request has in the end the uses that it
-- had before and one for each resource that is given; where it fails, none is given.
pub get_transport_resources-Owes :
    (others : ℕ → ℕ) (z : Sizes) (feedback : Bool) (main sync : List Fetch) (io : Io)
    → IsBalanced others io.adapter.cache
    → Owes others
        (all_of (get_transport_resources z feedback main sync io).1)
        (get_transport_resources z feedback main sync io).2
      × (nt_success (get_transport_resources z feedback main sync io).0 ≡ false
          → (get_transport_resources z feedback main sync io).1 ≡ [])
unfolding get_transport_resources free_transport_resources
get_transport_resources-Owes others z feedback main sync io h =
    let r = get_siops z.siop (asked_siops feedback main sync) io in
    let owed = get_siops-Owes others z.siop (asked_siops feedback main sync) io h in
    elim (Bool-cases (nt_success r.0)) [
      | inl s ↦ rw s (owed, λ e. absurd (ground (arith, s, e)))
      | inr s ↦ rw s (
        (λ y. omega (arith, free_list-Owes others (λ y. 0) r.1 r.2 (λ y. omega (arith, owed y)) y)),
        λ e. refl,
      )
    ]

-- Where resources are had and then freed, each block and each request has in the end the uses that
-- it had before.
pub get-free-IsBalanced :
    (others : ℕ → ℕ) (z : Sizes) (feedback : Bool) (main sync : List Fetch) (io : Io)
    → IsBalanced others io.adapter.cache
    → IsBalanced others
        (free_transport_resources
          (get_transport_resources z feedback main sync io).1
          (get_transport_resources z feedback main sync io).2).1.adapter.cache
unfolding free_transport_resources
get-free-IsBalanced others z feedback main sync io h =
    let r = get_transport_resources z feedback main sync io in
    let owed = (get_transport_resources-Owes others z feedback main sync io h).0 in
    λ y. omega (arith, free_list-Owes others (λ y. 0) r.1 r.2 (λ y. omega (arith, owed y)) y)
