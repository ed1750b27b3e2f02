-- ===== src/Shm/Tests.antt =====
-- Runs of the ring with two channels and with one.
use inferno_windows.Prelude.{
  ℕ, ◌-◌, ◌/◌, ◌≡◌, refl, true, false, none, some, List, [], ◌∷◌, ◌++◌, replicate, length-replicate,
  arith,
}
use inferno_windows.Status.{success}
use inferno_windows.Shm.{View, Shm, Sections, write_view, write}
use inferno_windows.Shm.Ring.{IsView, sample_back, write_view-sample_back}
use inferno_windows.Shm.Chunks.{write_append}

-- A ring of two channels whose index is about to wrap.
abbrev stereo : View
stereo = record {
  write_index = 4294967295;
  channel_count = 2;
  sample_rate = 48000;
  frames = 4096;
  ring = replicate 8192 0;
}

stereo-IsView : IsView stereo
stereo-IsView = record {
  fits = length-replicate {A = ℕ} 8192 0;
  narrow = omega arith;
  index = omega arith;
}

abbrev two_frames : List ℕ
two_frames = 1 ∷ 2 ∷ 3 ∷ 4 ∷ []

write_view-sample_back_example : sample_back (write_view two_frames 2 2 stereo) 1 1 ≡ 2
write_view-sample_back_example =
    write_view-sample_back two_frames 2 stereo 1 1 stereo-IsView (omega arith) (omega arith)
      (omega arith) (omega arith)

abbrev mapped : Shm
mapped = record { base = some stereo; handle = true }

write_append_example :
    write (5 ∷ 6 ∷ []) 1 2 (write two_frames 2 2 mapped)
    ≡ write (two_frames ++ (5 ∷ 6 ∷ [])) 3 2 mapped
write_append_example = write_append two_frames (5 ∷ 6 ∷ []) 2 1 2 refl (omega arith) mapped

abbrev sections : Sections
sections = record {
  create = λ n. success;
  map_view = λ n. success;
  view = λ n. record stereo { ring = replicate ((n - 16) / 2) 0 };
}

abbrev unmapped : Shm
unmapped = record { base = none; handle = false }
