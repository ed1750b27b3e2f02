-- ===== src/Hw/Recall.antt =====
-- The registers seen through the adapter, as a map from a register to the value last written.
use inferno_windows.Prelude.{
  ℕ, ℕ_discrete, subst, ◌-◌, ◌^◌, ◌<◌, ◌≡◌, refl, ap, sym, ◌∙◌, arith, Bool, true, false, Option,
  some, List, [], ◌∷◌, length, get_or, set, ltb, ◌==◌, if◌then◌else◌, length-set, get_or-set_self,
  get_or-set_ne, get_or-replicate,
}
use inferno_windows.Hw.{
  Hw, max_topology_nodes, adapter_reset, mixer_reset, get_mixer_mute, get_mixer_volume,
  set_mixer_mute, set_mixer_volume, dev_bool_read, dev_bool_write, dev_int_read, dev_int_write,
  dev_uint_read, dev_uint_write, mixer_mute_read, mixer_mute_write, mixer_mux_read, mixer_mux_write,
  mixer_volume_read, mixer_volume_write,
}

pub data Register : Type 0 where
  dev_bool dev_int dev_uint mux : Register
  mute volume : ℕ → Register

-- A write names a register and a channel.
pub data Op : Type 0 where
  write : Register → ℕ → ℕ → Op
  reset : Op

unfoldable pub read : Register → ℕ → Option Hw → ℕ
read dev_bool channel = dev_bool_read
read dev_int channel = dev_int_read
read dev_uint channel = dev_uint_read
read mux channel = mixer_mux_read
read (mute i) channel = mixer_mute_read i channel
read (volume i) channel = mixer_volume_read i channel

unfoldable pub step : Op → Option Hw → Option Hw
step reset = adapter_reset
step (write dev_bool channel x) = dev_bool_write x
step (write dev_int channel x) = dev_int_write x
step (write dev_uint channel x) = dev_uint_write x
step (write mux channel x) = mixer_mux_write x
step (write (mute i) channel x) = mixer_mute_write i channel x
step (write (volume i) channel x) = mixer_volume_write i channel x

unfoldable pub run : List Op → Option Hw → Option Hw
run [] a = a
run (o ∷ os) a = run os (step o a)

abbrev pub is_same : Register → Register → Bool
is_same dev_bool dev_bool = true
is_same dev_int dev_int = true
is_same dev_uint dev_uint = true
is_same mux mux = true
is_same (mute i) (mute j) = i == j
is_same (volume i) (volume j) = i == j
is_same _ _ = false

-- What a reset leaves in a register that held `x`.
abbrev pub after_reset : Register → ℕ → ℕ
after_reset mux x = 2
after_reset (mute i) x = 0
after_reset (volume i) x = 2 ^ 32 - 1
after_reset _ x = x

-- The value that a register is to have after some operations, from the one it had before.
abbrev pub recall : Register → ℕ → List Op → ℕ
recall r x [] = x
recall r x (reset ∷ os) = recall r (after_reset r x) os
recall r x (write s channel y ∷ os) = recall r (if is_same r s then y else x) os

abbrev pub IsInBounds : Register → Type 0
IsInBounds (mute i) = i < max_topology_nodes
IsInBounds (volume i) = i < max_topology_nodes
IsInBounds _ = 0 < max_topology_nodes

pub record IsSized (h : Hw) : Type 0 where
  pub mutes : length h.mute ≡ max_topology_nodes
  pub volumes : length h.volume ≡ max_topology_nodes

get-set :
    (xs : List ℕ) (i j x : ℕ)
    → length xs ≡ max_topology_nodes
    → i < max_topology_nodes
    → get_or (if ltb j max_topology_nodes then set xs j x else xs) i 0
      ≡ (if i == j then x else get_or xs i 0)
get-set xs i j x e h = elim (ℕ_discrete i j) [
  | yes p ↦
      subst
        (λ (j : ℕ).
          get_or (if ltb j max_topology_nodes then set xs j x else xs) i 0
          ≡ (if i == j then x else get_or xs i 0))
        p (ground (arith, get_or-set_self xs i x 0 (omega (arith, e, h))))
  | no n ↦ ground (arith, get_or-set_ne xs j i x 0 (λ q. n (sym q)))
]

-- A read behind one write.
read-write :
    (r s : Register) (c c' x : ℕ) (h : Hw)
    → IsSized h
    → IsInBounds r
    → read r c (step (write s c' x) (some h)) ≡ (if is_same r s then x else read r c (some h))
unfolding read step dev_bool_read dev_bool_write dev_int_read dev_int_write dev_uint_read
    dev_uint_write mixer_mux_read mixer_mux_write mixer_mute_read mixer_mute_write mixer_volume_read
    mixer_volume_write get_mixer_mute get_mixer_volume set_mixer_mute set_mixer_volume
read-write dev_bool dev_bool c c' x h z b = refl
read-write dev_int dev_int c c' x h z b = refl
read-write dev_uint dev_uint c c' x h z b = refl
read-write mux mux c c' x h z b = refl
read-write (mute i) (mute j) c c' x h z b = ground (arith, get-set h.mute i j x z.mutes b)
read-write (volume i) (volume j) c c' x h z b = ground (arith, get-set h.volume i j x z.volumes b)
read-write _ _ c c' x h z b = ground arith

-- A read behind a reset.
read-reset :
    (r : Register) (c : ℕ) (h : Hw)
    → IsInBounds r
    → read r c (step reset (some h)) ≡ after_reset r (read r c (some h))
unfolding read step adapter_reset mixer_reset dev_bool_read dev_int_read dev_uint_read
    mixer_mux_read mixer_mute_read mixer_volume_read get_mixer_mute get_mixer_volume
read-reset (mute i) c h b = ground (arith, get_or-replicate {A = ℕ} max_topology_nodes i 0 0 b)
read-reset (volume i) c h b =
    ground (arith, get_or-replicate {A = ℕ} max_topology_nodes i (2 ^ 32 - 1) 0 b)
read-reset _ c h b = refl

abbrev Sized : Option Hw → Type 0
Sized a = (h : Hw) × (a ≡ some h) × IsSized h

step-IsSized : (o : Op) (h : Hw) → IsSized h → Sized (step o (some h))
unfolding step adapter_reset mixer_reset dev_bool_write dev_int_write dev_uint_write mixer_mux_write
    mixer_mute_write mixer_volume_write set_mixer_mute set_mixer_volume
step-IsSized reset h z = (mixer_reset h, refl, record { mutes = refl; volumes = refl })
step-IsSized (write (mute i) c x) h z = (
  set_mixer_mute i c x h,
  refl,
  record {
    mutes = ground (arith, z.mutes, length-set h.mute i x);
    volumes = ground (arith, z.volumes);
  },
)
step-IsSized (write (volume i) c x) h z = (
  set_mixer_volume i c x h,
  refl,
  record {
    mutes = ground (arith, z.mutes);
    volumes = ground (arith, z.volumes, length-set h.volume i x);
  },
)
step-IsSized _ h z = (_, refl, record { mutes = z.mutes; volumes = z.volumes })

-- Through the adapter, each register within bounds holds the value last written to it on any
-- channel, or what the last reset left there, whatever was done to the other registers between.
pub recalled :
    (os : List Op) (r : Register) (c : ℕ) (h : Hw)
    → IsSized h
    → IsInBounds r
    → read r c (run os (some h)) ≡ recall r (read r c (some h)) os
unfolding run
recalled [] r c h z b = refl
recalled (write s c' x ∷ os) r c h z b =
    let (h', e, z') = step-IsSized (write s c' x) h z in
    ap (λ (a : Option Hw). read r c (run os a)) e
    ∙ recalled os r c h' z' b
    ∙ ap (λ (y : ℕ). recall r y os) (ap (read r c) (sym e) ∙ read-write r s c c' x h z b)
recalled (reset ∷ os) r c h z b =
    let (h', e, z') = step-IsSized reset h z in
    ap (λ (a : Option Hw). read r c (run os a)) e
    ∙ recalled os r c h' z' b
    ∙ ap (λ (y : ℕ). recall r y os) (ap (read r c) (sym e) ∙ read-reset r c h b)
