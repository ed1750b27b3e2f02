-- ===== src/Remote/Pairs.antt =====
-- inferno_driver/UsbHsDevice.cpp, A2dpHpDevice.cpp and BthhfpDevice.cpp, the pair of miniports that a
-- device class makes for a device: CreateCustomEndpointMinipair, UpdateCustomEndpointCategory and
-- DeleteCustomEndpointMinipair.
use inferno_windows.Prelude.{
  ℕ, Bool, true, false, Option, none, some, List, [], ◌∷◌, ◌==◌, if◌then◌else◌, add32,
}
use inferno_windows.Status.{NtStatus, success, insufficient_resources, failure, nt_success}
use inferno_windows.Remote.{Io, acquire, free, free_of, invalid_device_state}

abbrev pub not_found : NtStatus
not_found = failure 0xC0000225

-- The loop over the categories of the pins, with its flags: `audio` is KSCATEGORY_AUDIO. The status
-- is the one so far, at the end or where the loop is left.
unfoldable pub update_pins : ℕ → ℕ → Bool → Bool → NtStatus → List ℕ → NtStatus × List ℕ
update_pins audio category found_audio found_node status [] = (status, [])
update_pins audio category found_audio found_node status (p ∷ ps) =
    let kept = update_pins audio category true found_node status ps in
    let changed = update_pins audio category found_audio true success ps in
    if p == audio
    then (if found_audio then (invalid_device_state, p ∷ ps) else (kept.0, p ∷ kept.1))
    else (if found_node then (invalid_device_state, p ∷ ps) else (changed.0, category ∷ changed.1))

-- UpdateCustomEndpointCategory
unfoldable pub update_custom_endpoint_category : ℕ → ℕ → List ℕ → NtStatus × List ℕ
update_custom_endpoint_category audio category ps =
    update_pins audio category false false not_found ps

-- The blocks of a pair, as they were had: the properties of the topology's interface, the pair, the
-- descriptor of the filter, its pins, and the properties of the wave filter's interface.
pub record Blocks : Type 0 where
  pub properties : Option ℕ
  pub pair : Option ℕ
  pub filter : Option ℕ
  pub pins : Option ℕ
  pub wave : Option ℕ

-- A pair of a device, with its blocks, the number of its properties, and its pins' categories.
pub record Pair : Type 0 where
  pub properties : ℕ
  pub pair : ℕ
  pub filter : ℕ
  pub pins : ℕ
  pub wave : Option ℕ
  pub property_count : ℕ
  pub categories : List ℕ

abbrev pub acquire_of : Option ℕ → Io → Io
acquire_of none io = io
acquire_of (some x) io = acquire x io

unfoldable pub acquire_blocks : Blocks → Io → Io
acquire_blocks b io =
    acquire_of b.wave
      (acquire_of b.pins (acquire_of b.filter (acquire_of b.pair (acquire_of b.properties io))))

unfoldable pub free_blocks : Blocks → Io → Io
free_blocks b io =
    free_of b.pins (free_of b.filter (free_of b.pair (free_of b.wave (free_of b.properties io))))

-- A pair of the four blocks, where all of them were had.
abbrev pub complete :
    Option ℕ → Option ℕ → Option ℕ → Option ℕ → Option ℕ → ℕ → List ℕ → Option Pair
complete (some properties) (some pair) (some filter) (some pins) wave count categories =
    some (record {
      properties = properties;
      pair = pair;
      filter = filter;
      pins = pins;
      wave = wave;
      property_count = count;
      categories = categories;
    })
complete properties pair filter pins wave count categories = none

-- With the blocks asked for, the pair that they make, if it can be made, and the status of the change
-- of its category.
unfoldable pub finish_pair : Blocks → Option Pair → NtStatus → Io → NtStatus × Option Pair × Io
finish_pair b none status io = (insufficient_resources, none, free_blocks b io)
finish_pair b (some p) status io =
    if nt_success status then (success, some p, io) else (status, none, free_blocks b io)

-- What a pair is made from: the number of the base pair's properties, the categories of its pins, and
-- the category that the device gives.
pub record Base : Type 0 where
  pub property_count : ℕ
  pub categories : List ℕ
  pub audio : ℕ
  pub category : ℕ

-- CreateCustomEndpointMinipair of UsbHsDevice and of BthHfpDevice, which have no properties of the
-- wave filter's interface.
unfoldable pub create_custom_endpoint_minipair : Base → Blocks → Io → NtStatus × Option Pair × Io
create_custom_endpoint_minipair base b io =
    let u = update_custom_endpoint_category base.audio base.category base.categories in
    let four = record b { wave = none } in
    finish_pair four
      (complete b.properties b.pair b.filter b.pins none (add32 base.property_count 1) u.1) u.0
      (acquire_blocks four io)

-- CreateCustomEndpointMinipair of A2dpHpDevice, with `custom` properties that the device gives.
abbrev pub with_wave : Option ℕ → Option Pair → Option Pair
with_wave none p = none
with_wave (some w) p = p

unfoldable pub a2dp_create_custom_endpoint_minipair :
    Base → ℕ → Blocks → Io → NtStatus × Option Pair × Io
a2dp_create_custom_endpoint_minipair base custom b io =
    let u = update_custom_endpoint_category base.audio base.category base.categories in
    let count = add32 (add32 base.property_count 1) custom in
    finish_pair b (with_wave b.wave (complete b.properties b.pair b.filter b.pins b.wave count u.1))
      u.0 (acquire_blocks b io)

-- DeleteCustomEndpointMinipair, of all three classes: the properties of the wave filter's interface
-- are not among what it frees.
unfoldable pub delete_custom_endpoint_minipair : Option Pair → Io → Io
delete_custom_endpoint_minipair none io = io
delete_custom_endpoint_minipair (some p) io =
    free p.pair (free p.filter (free p.pins (free p.properties io)))
