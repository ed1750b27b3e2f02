-- ===== src/Tone/Setup.antt =====
-- What Init leaves of the generator.
use inferno_windows.Prelude.{ℕ, ◌<◌, ◌≡◌, ◌^◌, arith, Bool, true, ◌||◌, length-replicate}
use inferno_windows.Status.{NtStatus, nt_success}
use inferno_windows.Tone.{Doubles, Tone, Format, init, block_align}
use inferno_windows.Tone.Frames.{IsTone}

module _ (F : Doubles) where
  -- Where Init succeeds for a format of a word of channels and at least a byte in a frame, on a
  -- generator that has no bytes left, the format is PCM, and the generator is ready for GenerateSine.
  pub init-IsTone :
      (saved : NtStatus) (room : Bool) (frequency : ℕ) (amplitude dc_offset phase : F.Double)
      (w : Format) (t : Tone F)
      → 0 < block_align F w.channels w.bits_per_sample
      → w.channels < 2 ^ 16
      → t.partial_frame_bytes ≡ 0
      → nt_success (init F saved room frequency amplitude dc_offset phase w t).0 ≡ true
      → IsTone F (init F saved room frequency amplitude dc_offset phase w t).1
        × ((w.pcm || w.extensible_pcm) ≡ true)
  unfolding init
  init-IsTone saved room frequency amplitude dc_offset phase w t some_bytes narrow nothing ok =
      ground (arith, length-replicate {A = ℕ} (block_align F w.channels w.bits_per_sample) 0)
