-- ===== src/Tone.antt =====
-- inferno_driver/ToneGenerator.cpp and ToneGenerator.h: the sine wave that a capture stream
-- delivers. A sample is bytes in little-endian order.
pub mod Buffers
pub mod Frames
pub mod Setup
mod Tests
use inferno_windows.Prelude.{
  ℕ, zero, suc, ◌+◌, ◌-◌, ◌*◌, ◌/◌, ◌%◌, ◌^◌, min, Bool, true, false, ◌&&◌, ◌||◌, Option, none,
  some, List, [], ◌∷◌, take, drop, replicate, slice, length, ◌++◌, dword, sub32, mul32, ltb, ◌==◌,
  if◌then◌else◌,
}
use inferno_windows.Status.{NtStatus, success, not_supported, insufficient_resources, nt_success}

-- The arithmetic of doubles, of the compiler and its library. `to_long`, `to_short` and `to_uchar`
-- are the casts, as words of 32, 16 and 8 bits; `two_pi`, `i32_max`, `i16_max` and `half_range`
-- are M_PI * 2, _I32_MAX, _I16_MAX and 127.5.
pub record Doubles : Type 1 where
  pub Double : Type 0
  pub add : Double → Double → Double
  pub sub : Double → Double → Double
  pub mul : Double → Double → Double
  pub div : Double → Double → Double
  pub at_least : Double → Double → Bool
  pub sin : Double → Double
  pub of_ulong : ℕ → Double
  pub to_long : Double → ℕ
  pub to_short : Double → ℕ
  pub to_uchar : Double → ℕ
  pub two_pi : Double
  pub i32_max : Double
  pub i16_max : Double
  pub half_range : Double

-- What Init reads of a WAVEFORMATEXTENSIBLE: `pcm` says that wFormatTag is WAVE_FORMAT_PCM,
-- `extensible_pcm` that it is WAVE_FORMAT_EXTENSIBLE with the subtype of PCM.
pub record Format : Type 0 where
  pub pcm : Bool
  pub extensible_pcm : Bool
  pub channels : ℕ
  pub bits_per_sample : ℕ
  pub samples_per_second : ℕ

-- The bytes behind m_PartialFrame.
abbrev pub frame_of : Option (List ℕ) → List ℕ
frame_of none = []
frame_of (some f) = f

-- RtlCopyMemory or RtlZeroMemory of `chunk` to the offset `o` of a memory. What goes past the end
-- makes the memory longer, so that an overrun is seen in its length.
unfoldable pub store_bytes : ℕ → List ℕ → List ℕ → List ℕ
store_bytes o chunk memory = take o memory ++ (chunk ++ drop (o + length chunk) memory)

abbrev pub zeros : ℕ → List ℕ
zeros n = replicate n 0

module _ (F : Doubles) where
  open F use {
    Double, add, sub, mul, div, at_least, sin, of_ulong, to_long, to_short, to_uchar, two_pi,
    i32_max, i16_max, half_range,
  }

  -- The members of ToneGenerator.
  pub record Tone : Type 0 where
    pub frequency : ℕ
    pub channel_count : ℕ
    pub bits_per_sample : ℕ
    pub samples_per_second : ℕ
    pub theta : Double
    pub sample_increment : Double
    pub mute : Bool
    pub partial_frame : Option (List ℕ)
    pub partial_frame_bytes : ℕ
    pub frame_size : ℕ
    pub tone_amplitude : Double
    pub tone_dc_offset : Double

  unfoldable pub convert_to_long : Double → ℕ
  convert_to_long x = to_long (mul x i32_max)

  unfoldable pub convert_to_short : Double → ℕ
  convert_to_short x = to_short (mul x i16_max)

  unfoldable pub convert_to_uchar : Double → ℕ
  convert_to_uchar x = to_uchar (add (mul x half_range) half_range)

  -- The store of channel `i`, for each sample size. That of 24 bits is at the start of the frame
  -- for every channel.
  unfoldable pub write_channel : ℕ → Double → ℕ → List ℕ → List ℕ
  unfolding convert_to_long convert_to_short convert_to_uchar
  write_channel bits x i frame =
      if bits == 8
      then store_bytes i (convert_to_uchar x ∷ []) frame
      else if bits == 16
      then store_bytes (2 * i) (take 2 (dword (convert_to_short x))) frame
      else if bits == 24
      then store_bytes 0 (drop 1 (dword (convert_to_long x))) frame
      else if bits == 32
      then store_bytes (4 * i) (dword (convert_to_long x)) frame
      else frame

  -- The loop over the channels, with `n` left.
  unfoldable pub write_channels : ℕ → Double → ℕ → ℕ → List ℕ → List ℕ
  unfolding write_channel
  write_channels bits x zero i frame = frame
  write_channels bits x (suc n) i frame =
      write_channels bits x n (i + 1) (write_channel bits x i frame)

  unfoldable pub advance_theta : Tone → Tone
  advance_theta t =
      let theta = add t.theta t.sample_increment in
      record t { theta = if at_least theta two_pi then sub theta two_pi else theta }

  abbrev pub block_align : ℕ → ℕ → ℕ
  block_align channels bits = mul32 channels bits / 8

  -- InitNewFrame, on the memory `frame` of `size` bytes.
  unfoldable pub init_new_frame : ℕ → List ℕ → Tone → List ℕ × Tone
  unfolding write_channels advance_theta
  init_new_frame size frame t =
      let x = add t.tone_dc_offset (mul t.tone_amplitude (sin t.theta)) in
      if size == block_align t.channel_count t.bits_per_sample
      then (write_channels t.bits_per_sample x t.channel_count 0 frame, advance_theta t)
      else (store_bytes 0 (zeros size) frame, t)

  -- How many bytes of the last partial frame go into a buffer of `length` bytes.
  abbrev pub copy_bytes : ℕ → Tone → ℕ
  copy_bytes length t = min t.partial_frame_bytes length

  -- The residual bytes of the last call, which are then taken as delivered.
  unfoldable pub residual : ℕ → Tone × List ℕ → Tone × List ℕ
  residual length (t, buffer) =
      let offset = sub32 t.frame_size t.partial_frame_bytes in
      let n = copy_bytes length t in
      let f = frame_of t.partial_frame in
      if ltb 0 t.partial_frame_bytes
      then (
        record t { partial_frame = some (store_bytes offset (zeros n) f); partial_frame_bytes = 0 },
        store_bytes 0 (slice offset n f) buffer,
      )
      else (t, buffer)

  -- The loop over the frames that fit, with `n` left, from the offset `o`.
  unfoldable pub whole_frames : ℕ → ℕ → Tone × List ℕ → Tone × List ℕ
  whole_frames zero o tb = tb
  whole_frames (suc n) o (t, buffer) =
      let (f, t') = init_new_frame t.frame_size (slice o t.frame_size buffer) t in
      whole_frames n (o + t.frame_size) (t', store_bytes o f buffer)

  -- The start of one more frame, for the `length` bytes that are left behind the offset `o`.
  unfoldable pub partial : ℕ → ℕ → Tone × List ℕ → Tone × List ℕ
  partial length o (t, buffer) =
      let (f, t') = init_new_frame t.frame_size (frame_of t.partial_frame) t in
      (
        record t' {
          partial_frame = some (store_bytes 0 (zeros length) f);
          partial_frame_bytes = sub32 t.frame_size (length % 2 ^ 32);
        },
        store_bytes o (take length f) buffer,
      )

  -- The part of GenerateSine between the calls that save and restore the state of the processor.
  unfoldable pub fill : ℕ → Tone × List ℕ → Tone × List ℕ
  fill length (t, buffer) =
      let n = copy_bytes length t in
      let rest = length - n in
      let frames = rest / t.frame_size in
      let left = rest % t.frame_size in
      let done = whole_frames frames n (residual length (t, buffer)) in
      if left == 0 then done else partial left (n + frames * t.frame_size) done

  -- GenerateSine: `disabled` is g_DisableToneGenerator, and `saved` the status of
  -- KeSaveFloatingPointState.
  unfoldable pub generate_sine : Bool → NtStatus → ℕ → Tone × List ℕ → Tone × List ℕ
  generate_sine disabled saved length (t, buffer) =
      if t.mute || disabled
      then (t, store_bytes 0 (zeros length) buffer)
      else if nt_success saved
      then fill length (t, buffer)
      else (t, store_bytes 0 (zeros length) buffer)

  -- Init: `saved` is the status of KeSaveFloatingPointState, and `room` says that the memory of the
  -- partial frame was had; it is zeroed.
  unfoldable pub init :
      NtStatus → Bool → ℕ → Double → Double → Double → Format → Tone → NtStatus × Tone
  init saved room frequency amplitude dc_offset phase w t =
      let size = block_align w.channels w.bits_per_sample in
      let t' = record t {
        theta = phase;
        frequency = frequency;
        tone_amplitude = amplitude;
        tone_dc_offset = dc_offset;
        channel_count = w.channels;
        bits_per_sample = w.bits_per_sample;
        samples_per_second = w.samples_per_second;
        mute = false;
        sample_increment = div (mul (of_ulong frequency) two_pi) (of_ulong w.samples_per_second);
        frame_size = size;
      } in
      if w.pcm || w.extensible_pcm
      then (if nt_success saved
          then (if room
              then (success, record t' { partial_frame = some (zeros size) })
              else (insufficient_resources, record t' { partial_frame = none }))
          else (saved, t))
      else (not_supported, t)

  abbrev pub set_mute : Bool → Tone → Tone
  set_mute b t = record t { mute = b }
