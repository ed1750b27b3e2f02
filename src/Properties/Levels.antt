-- ===== src/Properties/Levels.antt =====
-- inferno_driver/kshelper.cpp: PropertyHandler_Volume from a request to set a level to one that
-- reads it, and the rounding of levels by the macros of inferno_driver/sysvad.h.
use inferno_windows.Prelude.{
  ℕ, zero, suc, ◌+◌, ◌%◌, ◌^◌, ◌≤◌, ◌<◌, ◌≡◌, ◌⊎◌, arith, true, false, Option, some, length, get_or,
  ◌==◌, length-set, get_or-set_self, if_both,
}
use inferno_windows.Status.{NtStatus, success}
use inferno_windows.Hw.{
  Hw, max_topology_nodes, mixer_volume_read, mixer_volume_write, get_mixer_volume, set_mixer_volume,
}
use inferno_windows.Properties.{
  Sizes, Constants, Request, validate_property_params, volume_normalize, volume_minimum,
  volume_step, negate,
}
use inferno_windows.Properties.Requests.{
  write_channels_from, set_level, all_channels_id, is_unknown, access_level, first_channel,
  property_handler_volume,
}

validate-success :
    (c i : ℕ) (r : Request)
    → 0 < c
    → c ≤ r.value_size
    → i ≤ r.instance_size
    → r.has_value ≡ true
    → validate_property_params c i r ≡ (success, r)
unfolding validate_property_params
validate-success c i r p q s v = ground arith

pub record HoldsLevel (node x : ℕ) (h : Hw) : Type 0 where
  pub sized : length h.volume ≡ max_topology_nodes
  pub held : get_or h.volume node 0 ≡ x

set_mixer_volume-HoldsLevel :
    (node x i : ℕ) (h : Hw)
    → node < max_topology_nodes
    → length h.volume ≡ max_topology_nodes
    → HoldsLevel node x (set_mixer_volume node i x h)
unfolding set_mixer_volume
set_mixer_volume-HoldsLevel node x i h b e = record {
  sized = ground (arith, length-set h.volume node x);
  held = ground (arith, get_or-set_self h.volume node x 0 (omega (arith, b, e)));
}

-- After more rounds of the loop a node that holds the level still reads it.
write_channels_from-read :
    (node x d n i : ℕ) (h : Hw)
    → node < max_topology_nodes
    → HoldsLevel node x h
    → mixer_volume_read node d (write_channels_from mixer_volume_write node x n i (some h)) ≡ x
unfolding write_channels_from mixer_volume_read mixer_volume_write get_mixer_volume
write_channels_from-read node x d zero i h b l = ground (arith, l.held)
write_channels_from-read node x d (suc n) i h b l =
    write_channels_from-read node x d n (i + 1) (set_mixer_volume node i x h) b
      (set_mixer_volume-HoldsLevel node x i h b l.sized)

set_level-read :
    (node c x d : ℕ) (h : Hw)
    → node < max_topology_nodes
    → length h.volume ≡ max_topology_nodes
    → mixer_volume_read node d (set_level mixer_volume_write node c x (some h)) ≡ x
unfolding set_level write_channels_from mixer_volume_write
set_level-read node zero x d h b e =
    write_channels_from-read node x d zero 0 _ b (set_mixer_volume-HoldsLevel node x 0 h b e)
set_level-read node (suc n) x d h b e =
    if_both (λ a. mixer_volume_read node d a ≡ x) (suc n == all_channels_id)
      (write_channels_from-read node x d n 1 _ b (set_mixer_volume-HoldsLevel node x 0 h b e))
      (write_channels_from-read node x d zero 0 _ b
        (set_mixer_volume-HoldsLevel node x (suc n) h b e))

-- A request that names a node, carries a channel and has a buffer for a word, and is not one for
-- basic support.
pub record IsLevelRequest (r : Request) : Type 0 where
  pub inside : r.node < max_topology_nodes
  pub level : r.basic_support ≡ false
  pub instance : 4 ≤ r.instance_size
  pub room : 4 ≤ r.value_size
  pub buffer : r.has_value ≡ true

abbrev pub adapter_after : NtStatus × Request × Option Hw → Option Hw
adapter_after o = o.2

-- Where a request to set a level is for one channel of a node or for all, and the registers have a
-- level for each of the 20 nodes, PropertyHandler_Volume succeeds, and a later request to read the
-- level of that node for any channel gives the rounded level.
pub property_handler_volume-recall :
    (z : Sizes) (k : Constants) (n d : ℕ) (r : Request) (h : Hw)
    → IsLevelRequest r
    → length h.volume ≡ max_topology_nodes
    → is_unknown n r.channel ≡ false
    → is_unknown n d ≡ false
    → ((property_handler_volume z k n (record r { get = false; set = true }) (some h)).0 ≡ success)
      × (property_handler_volume z k n
            (record r { get = true; channel = d })
            (adapter_after
              (property_handler_volume z k n (record r { get = false; set = true }) (some h)))
          ≡ (
            success,
            record r { get = true; channel = d; value = volume_normalize r.value; value_size = 4 },
            adapter_after
                (property_handler_volume z k n (record r { get = false; set = true }) (some h)),
          ))
unfolding property_handler_volume access_level
property_handler_volume-recall z k n d r h l e u w = (
  ground (
    arith,
    l.level,
    u,
    validate-success 4 4 (record r { get = false; set = true }) (omega arith) l.room l.instance
        l.buffer,
  ),
  ground (
    arith,
    l.level,
    u,
    w,
    validate-success 4 4 (record r { get = false; set = true }) (omega arith) l.room l.instance
        l.buffer,
    validate-success 4 4 (record r { get = true; channel = d }) (omega arith) l.room l.instance
        l.buffer,
    set_level-read r.node r.channel (volume_normalize r.value) (first_channel d) h l.inside e,
  ),
)

-- For a word, VOLUME_NORMALIZE_IN_RANGE gives 0 dB or a level from -96 dB to 0 dB, a whole number of
-- half decibels, and a level above -96 dB and not above 0 dB moves by a quarter of a decibel at most.
pub volume_normalize-bounds :
    (v : ℕ)
    → v < 2 ^ 32
    → ((volume_normalize v ≡ 0)
        ⊎ (volume_minimum ≤ volume_normalize v) × (volume_normalize v < 2 ^ 32))
      × (volume_normalize v % volume_step ≡ 0)
      × (volume_minimum ≤ v → negate (volume_normalize v) ≤ negate v + 0x4000)
      × (volume_minimum ≤ v → negate v ≤ negate (volume_normalize v) + 0x4000)
unfolding volume_normalize
volume_normalize-bounds v p = (ground arith, ground arith, ground arith, ground arith)
