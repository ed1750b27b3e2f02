-- ===== src/Remote.antt =====
-- inferno_driver/UsbHsDevice.cpp, A2dpHpDevice.cpp and BthhfpDevice.cpp, the requests that a device
-- class makes to the driver below it, and the memory for what they bring. Where the classes have one
-- text with other names, it is here once.
pub mod Pairs
pub mod Categories
pub mod Levels
pub mod Owned
pub mod OwnedPairs
pub mod Inside
mod Tests
use inferno_windows.Prelude.{
  ℕ, ◌+◌, ◌-◌, ◌^◌, Bool, true, false, ◌||◌, Option, none, some, List, [], ◌∷◌, ◌++◌, ltb, ◌==◌,
  if◌then◌else◌,
}
use inferno_windows.Status.{NtStatus, success, insufficient_resources, failure, nt_success}
use inferno_windows.Objects.{add_ref, release}
use inferno_windows.Endpoints.{Endpoints, with_counts}
use inferno_windows.Power.Relations.{Relations}

abbrev pub invalid_device_state : NtStatus
invalid_device_state = failure 0xC0000184

-- STATUS_BUFFER_TOO_SMALL == status
abbrev pub is_buffer_too_small : NtStatus → Bool
is_buffer_too_small (failure n) = n == 0xC0000023
is_buffer_too_small _ = false

-- The control codes of the requests.
pub data Code : Type 0 where
  get_device_descriptor get_endpoint_descriptor get_supported_formats get_siop set_siop : Code
  get_volume_values get_mute_values set_volume get_volume set_mute get_mute claim : Code
  get_connection_status get_codec_id set_capabilities : Code

-- A request, with the bytes of its input and of its output and the bytes that there are for each; or
-- a store of some bytes into memory that has a size.
pub data Access : Type 0 where
  request : Code → ℕ → ℕ → ℕ → ℕ → Access
  store : ℕ → ℕ → Access

-- The adapter, whose counts are also 1 for a block of memory or an object of the framework while it
-- is there; the devices that its power depends on; and the accesses so far.
pub record Io : Type 0 where
  pub adapter : Endpoints
  pub power : Relations
  pub accesses : List Access

-- ExAllocatePool2 or the making of an object, and ExFreePoolWithTag or WdfObjectDelete.
abbrev pub acquire : ℕ → Io → Io
acquire x io = record io { adapter = with_counts (add_ref x io.adapter.cache.counts) io.adapter }

abbrev pub free : ℕ → Io → Io
free x io = record io { adapter = with_counts (release x io.adapter.cache.counts) io.adapter }

abbrev pub free_of : Option ℕ → Io → Io
free_of none io = io
free_of (some x) io = free x io

-- SAFE_DELETE_PTR_WITH_TAG, or SAFE_RELEASE, on one pointer after another.
unfoldable pub free_list : List (Option ℕ) → Io → Io
free_list [] io = io
free_list (o ∷ os) io = free_list os (free_of o io)

abbrev pub access : Access → Io → Io
access a io = record io { accesses = io.accesses ++ (a ∷ []) }

-- SendIoCtrlSynchronously, with its two buffers: `status` is what the driver below answers.
unfoldable pub send_io_ctrl_synchronously : NtStatus → Code → ℕ → ℕ → ℕ → ℕ → Io → NtStatus × Io
send_io_ctrl_synchronously status code input input_room output output_room io =
    (status, access (request code input input_room output output_room) io)

-- SendIoCtrlAsynchronously: the statuses of formatting the request and of the request itself, and
-- whether it was sent.
unfoldable pub send_io_ctrl_asynchronously : NtStatus → Bool → NtStatus → NtStatus
send_io_ctrl_asynchronously format sent status =
    if nt_success format
    then (if sent then success else (if nt_success status then invalid_device_state else status))
    else format

-- What a request in two steps asks: the size of its input, and whether the second step takes its
-- input, the number of an endpoint, from the buffer that it fills.
pub record Ask : Type 0 where
  pub code : Code
  pub input : ℕ
  pub in_place : Bool

-- What it meets: the making of a request object, the first step's status and the size that it gives,
-- the memory, the reuse of the object, and the second step's status.
pub record Fetch : Type 0 where
  pub create : NtStatus
  pub object : ℕ
  pub probe : NtStatus
  pub information : ℕ
  pub memory : Option ℕ
  pub reuse : NtStatus
  pub get : NtStatus

-- The second step, into the block `b`.
unfoldable pub fetch_into : Ask → Fetch → ℕ → Io → NtStatus × Option ℕ × Io
fetch_into ask f b io =
    let length = f.information in
    let stored = if ask.in_place then access (store 4 length) io else io in
    let room = if ask.in_place then length else ask.input in
    let got = send_io_ctrl_synchronously f.get ask.code ask.input room length length stored in
    if nt_success f.reuse
    then (if nt_success got.0 then (success, some b, got.1) else (got.0, none, free b got.1))
    else (f.reuse, none, free b io)

abbrev pub fetch_block : Ask → Fetch → Option ℕ → Io → NtStatus × Option ℕ × Io
fetch_block ask f none io = (insufficient_resources, none, io)
fetch_block ask f (some b) io = fetch_into ask f b (acquire b io)

unfoldable pub fetch_sized : Ask → Fetch → Io → NtStatus × Option ℕ × Io
fetch_sized ask f io =
    if (f.information == 0) || ltb (2 ^ 32 - 1) f.information
    then (invalid_device_state, none, io)
    else fetch_block ask f f.memory io

-- The first step is to fail for want of a buffer.
unfoldable pub fetch_probed : Ask → Fetch → Io → NtStatus × Option ℕ × Io
fetch_probed ask f io =
    let probed = send_io_ctrl_synchronously f.probe ask.code ask.input ask.input 0 0 io in
    if is_buffer_too_small f.probe
    then fetch_sized ask f probed.1
    else ((if nt_success f.probe then invalid_device_state else f.probe), none, probed.1)

-- A request in two steps, with its object deleted in the end.
unfoldable pub fetch : Ask → Fetch → Io → NtStatus × Option ℕ × Io
fetch ask f io =
    let r = fetch_probed ask f (acquire f.object io) in
    if nt_success f.create then (r.0, r.1, free f.object r.2) else (f.create, none, io)

abbrev pub descriptor_ask : Ask
descriptor_ask = record { code = get_device_descriptor; input = 0; in_place = false }

abbrev pub endpoint_ask : Ask
endpoint_ask = record { code = get_endpoint_descriptor; input = 4; in_place = true }

abbrev pub siop_ask : ℕ → Ask
siop_ask size = record { code = get_siop; input = size; in_place = false }

abbrev pub formats_ask : ℕ → Ask
formats_ask size = record { code = get_supported_formats; input = size; in_place = false }

-- GetUsbHsDescriptor, GetA2dpHpDescriptor and GetBthHfpDescriptor
abbrev pub get_descriptor : Fetch → Io → NtStatus × Option ℕ × Io
get_descriptor = fetch descriptor_ask

-- GetUsbHsEndpointDescriptor and GetA2dpHpEndpointDescriptor
abbrev pub get_endpoint : Fetch → Io → NtStatus × Option ℕ × Io
get_endpoint = fetch endpoint_ask

-- GetSiop: `size` is that of SIDEBANDAUDIO_SIOP_REQUEST_PARAM.
abbrev pub get_siop_of : ℕ → Fetch → Io → NtStatus × Option ℕ × Io
get_siop_of size = fetch (siop_ask size)

-- GetUsbHsEndpointFormatsIntersection, where CbSize is `size`, that of
-- SIDEBANDAUDIO_SUPPORTED_FORMATS.
abbrev pub get_formats_intersection : ℕ → Fetch → Io → NtStatus × Option ℕ × Io
get_formats_intersection size = fetch (formats_ask size)

-- With the block of `length` bytes there.
unfoldable pub get_values_into : Code → ℕ → NtStatus → Option ℕ → Io → NtStatus × Option ℕ × Io
get_values_into code length get none io = (insufficient_resources, none, io)
get_values_into code length get (some b) io =
    let got =
      send_io_ctrl_synchronously get code 4 length length length
        (access (store 4 length) (acquire b io)) in
    if nt_success get then (success, some b, got.1) else (get, none, free b got.1)

-- GetUsbHsVolumePropertyValues and GetUsbHsMutePropertyValues, and those of A2dpHpDevice.
abbrev pub get_property_values : Code → ℕ → NtStatus → Option ℕ → Io → NtStatus × Option ℕ × Io
get_property_values = get_values_into
