-- ===== src/Tone/Tests.antt =====
-- Runs of the generator, with numbers in the place of doubles.
use inferno_windows.Prelude.{
  ℕ, ◌+◌, ◌-◌, ◌*◌, ◌/◌, ◌≡◌, refl, false, some, List, [], ◌∷◌, length, ltb, not, arith,
}
use inferno_windows.Status.{success}
use inferno_windows.Tone.{Doubles, Tone, generate_sine}
use inferno_windows.Tone.Frames.{IsTone}
use inferno_windows.Tone.Buffers.{bytes_left, generate_sine-IsTone}

abbrev numbers : Doubles
numbers = record {
  Double = ℕ;
  add = λ a b. a + b;
  sub = λ a b. a - b;
  mul = λ a b. a * b;
  div = λ a b. a / b;
  at_least = λ a b. not (ltb a b);
  sin = λ a. a;
  of_ulong = λ a. a;
  to_long = λ a. a;
  to_short = λ a. a;
  to_uchar = λ a. a;
  two_pi = 7;
  i32_max = 2147483647;
  i16_max = 32767;
  half_range = 127;
}

-- A stereo generator of 16 bits, with three bytes left of a frame.
abbrev stereo : Tone numbers
stereo = record {
  frequency = 1;
  channel_count = 2;
  bits_per_sample = 16;
  samples_per_second = 7;
  theta = 0;
  sample_increment = 1;
  mute = false;
  partial_frame = some (0 ∷ 1 ∷ 2 ∷ 3 ∷ []);
  partial_frame_bytes = 3;
  frame_size = 4;
  tone_amplitude = 1;
  tone_dc_offset = 0;
}

stereo-IsTone : IsTone numbers stereo
stereo-IsTone = record {
  frame = refl;
  narrow = omega arith;
  less = omega arith;
  channels = omega arith;
}

abbrev nine : List ℕ
nine = 0 ∷ 0 ∷ 0 ∷ 0 ∷ 0 ∷ 0 ∷ 0 ∷ 0 ∷ 0 ∷ []

generate_sine-IsTone_example :
    IsTone numbers (generate_sine numbers false success 9 (stereo, nine)).0
    × (length (generate_sine numbers false success 9 (stereo, nine)).1 ≡ 9)
    × ((generate_sine numbers false success 9 (stereo, nine)).0.partial_frame_bytes
        ≡ bytes_left numbers false success 9 stereo)
generate_sine-IsTone_example =
    generate_sine-IsTone numbers false success 9 nine stereo stereo-IsTone (omega arith)

bytes_left_example : bytes_left numbers false success 9 stereo ≡ 2
bytes_left_example = refl
