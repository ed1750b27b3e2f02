-- ===== src/Hw/Tests.antt =====
-- Runs of the registers.
use inferno_windows.Prelude.{◌≡◌, refl, some, List, [], ◌∷◌, replicate, arith}
use inferno_windows.Hw.{Hw}
use inferno_windows.Hw.Recall.{mute, volume, Op, write, reset, read, run, IsSized, recalled}

abbrev zeroed : Hw
zeroed = record {
  mute = replicate 20 0;
  volume = replicate 20 0;
  peak_meter = replicate 20 0;
  mux = 0;
  dev_bool = 0;
  dev_int = 0;
  dev_uint = 0;
}

zeroed-IsSized : IsSized zeroed
zeroed-IsSized = record { mutes = refl; volumes = refl }

abbrev ops : List Op
ops =
    write (volume 3) 0 7
    ∷ reset
    ∷ write (volume 3) 1 9
    ∷ write (mute 3) 0 1
    ∷ write (volume 25) 0 5
    ∷ []

recalled_example : read (volume 3) 0 (run ops (some zeroed)) ≡ 9
unfolding read
recalled_example = recalled ops (volume 3) 0 zeroed zeroed-IsSized (omega arith)
