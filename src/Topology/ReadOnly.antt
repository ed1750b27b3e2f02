-- ===== src/Topology/ReadOnly.antt =====
-- inferno_driver/basetopo.cpp: which requests leave the registers alone.
use inferno_windows.Prelude.{
  ℕ, ◌≡◌, ◌⊎◌, inl, inr, ◌∙◌, refl, arith, true, false, Option, if_both, if◌then◌else◌,
}
use inferno_windows.Status.{NtStatus}
use inferno_windows.Hw.{
  Hw, dev_bool_read, dev_bool_write, dev_int_read, dev_int_write, dev_uint_read, dev_uint_write,
  mixer_volume_read, mixer_volume_write, mixer_mute_read, mixer_mute_write, mixer_peak_meter_read,
}
use inferno_windows.Properties.{
  Sizes, Constants, Request, validate_property_params, basic_support_volume, basic_support_mute,
  basic_support_peak_meter2, volume_normalize, peak_meter_normalize,
}
use inferno_windows.Properties.Requests.{
  Write, access_level, supported, property_handler_volume, property_handler_mute,
  property_handler_peak_meter2, first_channel, truth,
}
use inferno_windows.Topology.{
  Result, Property, volume_level, mute, peak_meter2, cpu_resources, mux_source, dev_specific, other,
  property_handler_generic, property_handler_mux_source, property_handler_dev_specific,
  access_dev_specific,
}

-- A request is not one to set, or is one to get.
abbrev pub ReadsOnly : Request → Type 0
ReadsOnly r = (r.get ≡ true) ⊎ (r.set ≡ false)

validate-get : (c i : ℕ) (r : Request) → (validate_property_params c i r).1.get ≡ r.get
unfolding validate_property_params
validate-get c i r = ground arith

validate-set : (c i : ℕ) (r : Request) → (validate_property_params c i r).1.set ≡ r.set
unfolding validate_property_params
validate-set c i r = ground arith

validate-ReadsOnly :
    (c i : ℕ) (r : Request) → ReadsOnly r → ReadsOnly (validate_property_params c i r).1
validate-ReadsOnly c i r (inl p) = inl (validate-get c i r ∙ p)
validate-ReadsOnly c i r (inr p) = inr (validate-set c i r ∙ p)

access_level-reads :
    (n level : ℕ) (write : Write) (round : ℕ → ℕ) (o : NtStatus × Request) (a : Option Hw)
    → ReadsOnly o.1
    → (access_level n level write round o a).2 ≡ a
unfolding access_level
access_level-reads n level write round o a (inl p) = ground arith
access_level-reads n level write round o a (inr p) = ground arith

access_dev_specific-reads :
    (read : Option Hw → ℕ) (write : ℕ → Option Hw → Option Hw) (o : NtStatus × Request)
    (a : Option Hw)
    → ReadsOnly o.1
    → (access_dev_specific read write o a).2 ≡ a
unfolding access_dev_specific
access_dev_specific-reads read write o a (inl p) = ground arith
access_dev_specific-reads read write o a (inr p) = ground arith

supported-reads : (o : NtStatus × Request) (a : Option Hw) → (supported o a).2 ≡ a
unfolding supported
supported-reads o a = refl

abbrev Keeps : Option Hw → Result → Type 0
Keeps a o = o.2 ≡ a

mux_source-reads :
    (z : Sizes) (k : Constants) (r : Request) (a : Option Hw)
    → ReadsOnly r
    → Keeps a (property_handler_mux_source z k r a)
unfolding property_handler_mux_source supported
mux_source-reads z k r a (inl p) = ground arith
mux_source-reads z k r a (inr p) = ground arith

dev_specific-reads :
    (z : Sizes) (k : Constants) (r : Request) (a : Option Hw)
    → ReadsOnly r
    → Keeps a (property_handler_dev_specific z k r a)
unfolding property_handler_dev_specific supported
dev_specific-reads z k r a q =
    let w = validate-ReadsOnly 4 0 r q in
    let o = validate_property_params 4 0 r in
    ground (
      arith,
      access_dev_specific-reads dev_bool_read dev_bool_write o a w,
      access_dev_specific-reads dev_int_read dev_int_write o a w,
      access_dev_specific-reads dev_uint_read dev_uint_write o a w,
    )

-- A handler that asks for a level of a node, once its parameters are validated.
level-reads :
    (s : NtStatus × Request) (n level : ℕ) (write : Write) (round : ℕ → ℕ) (r : Request)
    (a : Option Hw)
    → ReadsOnly r
    → Keeps a (
        if r.basic_support
        then supported s a
        else access_level n level write round (validate_property_params 4 4 r) a)
level-reads s n level write round r a q =
    if_both (Keeps a) r.basic_support {x = supported s a}
      {y = access_level n level write round (validate_property_params 4 4 r) a}
      (supported-reads s a)
      (access_level-reads n level write round (validate_property_params 4 4 r) a
        (validate-ReadsOnly 4 4 r q))

-- Whatever its property, its sizes and its node, a request to get, and one that is not to set, leaves
-- the registers as they were.
pub property_handler_generic-reads :
    (z : Sizes) (k : Constants) (n : ℕ) (x : Property) (r : Request) (a : Option Hw)
    → ReadsOnly r
    → (property_handler_generic z k n x r a).2 ≡ a
unfolding property_handler_generic property_handler_volume property_handler_mute
    property_handler_peak_meter2
property_handler_generic-reads z k n volume_level r a q =
    level-reads (basic_support_volume z k n r) n
      (mixer_volume_read r.node (first_channel r.channel) a) mixer_volume_write volume_normalize r a
      q
property_handler_generic-reads z k n mute r a q =
    level-reads (basic_support_mute z k n r) n (mixer_mute_read r.node (first_channel r.channel) a)
      mixer_mute_write truth r a q
property_handler_generic-reads z k n peak_meter2 r a q =
    level-reads (basic_support_peak_meter2 z k n r) n
      (peak_meter_normalize (mixer_peak_meter_read r.node (first_channel r.channel) a))
      (λ node channel x a. a) volume_normalize r a q
property_handler_generic-reads z k n cpu_resources r a q = supported-reads _ a
property_handler_generic-reads z k n mux_source r a q = mux_source-reads z k r a q
property_handler_generic-reads z k n dev_specific r a q = dev_specific-reads z k r a q
property_handler_generic-reads z k n other r a q = refl
