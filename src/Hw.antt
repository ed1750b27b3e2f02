-- ===== src/Hw.antt =====
-- inferno_driver/hw.cpp and hw.h: the registers of the simulated hardware, class CSYSVADHW, and
-- the accessors of CAdapterCommon in common.cpp that reach them through m_pHW.
pub mod Recall
mod Tests
use inferno_windows.Prelude.{
  ℕ, ◌-◌, ◌/◌, ◌^◌, Option, none, some, List, get_or, set, replicate, ltb, if◌then◌else◌,
}

-- MAX_TOPOLOGY_NODES and PEAKMETER_SIGNED_MAXIMUM / 2
abbrev pub max_topology_nodes : ℕ
max_topology_nodes = 20

abbrev pub half_peak : ℕ
half_peak = (2 ^ 31 - 1) / 2

-- The members of the class. A LONG, an INT and a BOOL are 32-bit words.
pub record Hw : Type 0 where
  pub mute : List ℕ
  pub volume : List ℕ
  pub peak_meter : List ℕ
  pub mux : ℕ
  pub dev_bool : ℕ
  pub dev_int : ℕ
  pub dev_uint : ℕ

-- MixerReset: the memory of the volumes is filled with 0xFF, so each is the word -1.
unfoldable pub mixer_reset : Hw → Hw
mixer_reset h = record h {
  mute = replicate max_topology_nodes 0;
  volume = replicate max_topology_nodes (2 ^ 32 - 1);
  peak_meter = replicate max_topology_nodes half_peak;
  mux = 2;
}

-- The constructor, over the arrays that it finds.
unfoldable pub create_hw : Hw → Hw
create_hw h = mixer_reset (record h { mux = 0; dev_bool = 0; dev_int = 0; dev_uint = 0 })

unfoldable pub get_mixer_mute : ℕ → ℕ → Hw → ℕ
get_mixer_mute node channel h = if ltb node max_topology_nodes then get_or h.mute node 0 else 0

unfoldable pub get_mixer_volume : ℕ → ℕ → Hw → ℕ
get_mixer_volume node channel h = if ltb node max_topology_nodes then get_or h.volume node 0 else 0

unfoldable pub get_mixer_peak_meter : ℕ → ℕ → Hw → ℕ
get_mixer_peak_meter node channel h =
    if ltb node max_topology_nodes then get_or h.peak_meter node 0 else 0

unfoldable pub set_mixer_mute : ℕ → ℕ → ℕ → Hw → Hw
set_mixer_mute node channel x h =
    if ltb node max_topology_nodes then record h { mute = set h.mute node x } else h

unfoldable pub set_mixer_volume : ℕ → ℕ → ℕ → Hw → Hw
set_mixer_volume node channel x h =
    if ltb node max_topology_nodes then record h { volume = set h.volume node x } else h

abbrev pub set_mixer_mux : ℕ → Hw → Hw
set_mixer_mux node h = record h { mux = node }

abbrev pub set_dev_bool : ℕ → Hw → Hw
set_dev_bool x h = record h { dev_bool = x }

abbrev pub set_dev_int : ℕ → Hw → Hw
set_dev_int x h = record h { dev_int = x }

abbrev pub set_dev_uint : ℕ → Hw → Hw
set_dev_uint x h = record h { dev_uint = x }

-- m_pHW of the adapter: with no hardware a read gives 0, and a write does nothing.
abbrev pub read_with : (Hw → ℕ) → Option Hw → ℕ
read_with f none = 0
read_with f (some h) = f h

abbrev pub write_with : (Hw → Hw) → Option Hw → Option Hw
write_with f none = none
write_with f (some h) = some (f h)

-- CAdapterCommon's accessors
unfoldable pub adapter_reset : Option Hw → Option Hw
adapter_reset = write_with mixer_reset

unfoldable pub dev_bool_read : Option Hw → ℕ
dev_bool_read = read_with (λ h. h.dev_bool)

unfoldable pub dev_bool_write : ℕ → Option Hw → Option Hw
dev_bool_write x = write_with (set_dev_bool x)

unfoldable pub dev_int_read : Option Hw → ℕ
dev_int_read = read_with (λ h. h.dev_int)

unfoldable pub dev_int_write : ℕ → Option Hw → Option Hw
dev_int_write x = write_with (set_dev_int x)

unfoldable pub dev_uint_read : Option Hw → ℕ
dev_uint_read = read_with (λ h. h.dev_uint)

unfoldable pub dev_uint_write : ℕ → Option Hw → Option Hw
dev_uint_write x = write_with (set_dev_uint x)

unfoldable pub mixer_mute_read : ℕ → ℕ → Option Hw → ℕ
mixer_mute_read index channel = read_with (get_mixer_mute index channel)

unfoldable pub mixer_mute_write : ℕ → ℕ → ℕ → Option Hw → Option Hw
mixer_mute_write index channel x = write_with (set_mixer_mute index channel x)

unfoldable pub mixer_mux_read : Option Hw → ℕ
mixer_mux_read = read_with (λ h. h.mux)

unfoldable pub mixer_mux_write : ℕ → Option Hw → Option Hw
mixer_mux_write index = write_with (set_mixer_mux index)

unfoldable pub mixer_volume_read : ℕ → ℕ → Option Hw → ℕ
mixer_volume_read index channel = read_with (get_mixer_volume index channel)

unfoldable pub mixer_volume_write : ℕ → ℕ → ℕ → Option Hw → Option Hw
mixer_volume_write index channel x = write_with (set_mixer_volume index channel x)

unfoldable pub mixer_peak_meter_read : ℕ → ℕ → Option Hw → ℕ
mixer_peak_meter_read index channel = read_with (get_mixer_peak_meter index channel)
