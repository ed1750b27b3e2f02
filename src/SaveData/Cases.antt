-- ===== src/SaveData/Cases.antt =====
-- What WriteData does to the buffer, in the three places where a write can end.
use native.Mathlib.Nat.{mul-le-mul_left, mul-le-mul_right}
use inferno_windows.Prelude.{
  ℕ, suc, mul32, add32, ◌+◌, ◌-◌, ◌*◌, ◌≤◌, ◌<◌, ◌^◌, ◌≡◌, ◌≢◌, refl, ap, sym, ◌∙◌, arith, true,
  false, List, [], length, take, drop, take-all, drop-all, length-take, dec_lt, leb,
}
use inferno_windows.SaveData.State.{SaveData, buffer_of}
use inferno_windows.SaveData.Frames.{
  copy, left_over, write_current, write_bytes, closes_frame, frame_full, close_frame, wrap_offset,
}

-- The buffer is made of frames, and the write position lies in the current one.
pub record IsFramed (d : SaveData) : Type 0 where
  pub size : d.buffer_size ≡ d.frame_count * d.frame_size
  pub narrow : d.buffer_size < 2 ^ 32
  pub several : 2 ≤ d.frame_count
  pub index : d.frame_index < d.frame_count
  pub above : d.frame_index * d.frame_size ≤ d.buffer_offset
  pub below : d.buffer_offset < d.frame_index * d.frame_size + d.frame_size
  pub flags : length d.frame_used ≡ d.frame_count
  pub memory : length (buffer_of d.data_buffer) ≡ d.buffer_size

-- The current frame ends within the buffer, and its end has a 32-bit position.
pub frame_end :
    (d : SaveData) → IsFramed d → d.frame_index * d.frame_size + d.frame_size ≤ d.buffer_size
frame_end d v = omega (
  arith,
  v.size,
  mul-le-mul_right {m = suc d.frame_index} {n = d.frame_count} d.frame_size v.index,
)

pub frame_end32 :
    (d : SaveData)
    → IsFramed d
    → mul32 (add32 d.frame_index 1) d.frame_size ≡ d.frame_index * d.frame_size + d.frame_size
frame_end32 d v =
    let small : d.frame_index * 1 ≤ d.frame_index * d.frame_size =
      mul-le-mul_left d.frame_index (omega arith) in
    let next : add32 d.frame_index 1 ≡ d.frame_index + 1 = omega (arith, frame_end d v) in
    rw next (omega (arith, frame_end d v))

wrap_offset_keep : (d : SaveData) → d.buffer_offset ≢ d.buffer_size → wrap_offset d ≡ d
unfolding wrap_offset
wrap_offset_keep d h = ground arith

wrap_offset_zero :
    (d : SaveData)
    → d.buffer_offset ≡ d.buffer_size
    → wrap_offset d ≡ record d { buffer_offset = 0 }
unfolding wrap_offset
wrap_offset_zero d h = ground arith

pub copy_offset :
    (c : List ℕ) (d : SaveData)
    → d.buffer_offset + length c < 2 ^ 32
    → (copy c d).buffer_offset ≡ d.buffer_offset + length c
unfolding copy
copy_offset c d h = omega arith

left_over_nil : (d : SaveData) → left_over [] d ≡ d
unfolding left_over
left_over_nil d = refl

copy_size : (c : List ℕ) (d : SaveData) → (copy c d).buffer_size ≡ d.buffer_size
unfolding copy
copy_size c d = refl

module _ (d : SaveData) (chunk : List ℕ) (v : IsFramed d) where
  write_bytes_all :
      d.buffer_offset + length chunk ≤ d.buffer_size → write_bytes chunk d ≡ length chunk
  unfolding write_bytes
  write_bytes_all h = ground (arith, frame_end d v)

  write_bytes_some :
      d.buffer_size ≤ d.buffer_offset + length chunk
      → write_bytes chunk d ≡ d.buffer_size - d.buffer_offset
  unfolding write_bytes
  write_bytes_some h = ground (arith, frame_end d v)

  -- Whether a copy that ends within the buffer, fills the current frame.
  frame_full-copy :
      (c : List ℕ)
      → d.buffer_offset + length c ≤ d.buffer_size
      → frame_full (copy c d)
        ≡ leb (d.frame_index * d.frame_size + d.frame_size) (d.buffer_offset + length c)
  unfolding frame_full copy
  frame_full-copy c h = rw (frame_end32 d v) (ground (arith, frame_end d v))

  -- The chunk ends before its frame does.
  pub write_current_within :
      d.buffer_offset + length chunk < d.frame_index * d.frame_size + d.frame_size
      → (write_current chunk d ≡ copy chunk d) × (closes_frame chunk d ≡ false)
  unfolding write_current closes_frame
  write_current_within h =
      rw
        (
          write_bytes_all (omega (arith, end)),
          take-all _ chunk le,
          drop-all _ chunk le,
          full,
          wrap_offset_keep (copy chunk d) (omega (arith, end, at, copy_size chunk d)),
          left_over_nil,
        )
        (refl, refl)
    where
      end : d.frame_index * d.frame_size + d.frame_size ≤ d.buffer_size
      end = frame_end d v

      le : length chunk ≤ length chunk
      le = omega arith

      at : (copy chunk d).buffer_offset ≡ d.buffer_offset + length chunk
      at = copy_offset chunk d (omega (arith, end, v.narrow))

      full : frame_full (copy chunk d) ≡ false
      full = frame_full-copy chunk (omega (arith, end)) ∙ ground arith

  -- The chunk ends behind its frame, in the next one.
  pub write_current_next :
      d.frame_index + 1 < d.frame_count
      → length chunk ≤ d.frame_size
      → d.frame_index * d.frame_size + d.frame_size ≤ d.buffer_offset + length chunk
      → (write_current chunk d ≡ close_frame (copy chunk d)) × (closes_frame chunk d ≡ true)
  unfolding write_current closes_frame
  write_current_next l n h =
      rw
        (
          write_bytes_all (omega (arith, end)),
          take-all _ chunk le,
          drop-all _ chunk le,
          full,
          wrap_offset_keep (copy chunk d) (omega (arith, end, at, copy_size chunk d)),
          left_over_nil,
        )
        (refl, refl)
    where
      end : d.buffer_offset + length chunk < d.buffer_size
      end = omega (
        arith,
        v.size,
        v.below,
        mul-le-mul_right {m = suc (suc d.frame_index)} {n = d.frame_count} d.frame_size
            (omega arith),
      )

      le : length chunk ≤ length chunk
      le = omega arith

      at : (copy chunk d).buffer_offset ≡ d.buffer_offset + length chunk
      at = copy_offset chunk d (omega (arith, end, v.narrow))

      full : frame_full (copy chunk d) ≡ true
      full = frame_full-copy chunk (omega (arith, end)) ∙ ground arith

  -- The chunk reaches the end of the buffer, and the rest of it goes to the start.
  pub write_current_wrap :
      d.frame_index + 1 ≡ d.frame_count
      → d.frame_index * d.frame_size + d.frame_size ≤ d.buffer_offset + length chunk
      → (write_current chunk d
          ≡ left_over (drop (d.buffer_size - d.buffer_offset) chunk) (
              close_frame (record (copy (take (d.buffer_size - d.buffer_offset) chunk) d) {
                buffer_offset = 0;
              })))
        × (closes_frame chunk d ≡ true)
  unfolding write_current closes_frame
  write_current_wrap l h =
      rw (write_bytes_some (omega (arith, end)), full, wrap_offset_zero (copy part d) reached)
        (refl, refl)
    where
      part : List ℕ
      part = take (d.buffer_size - d.buffer_offset) chunk

      end : d.frame_index * d.frame_size + d.frame_size ≡ d.buffer_size
      end = omega (arith, v.size, ap (λ (k : ℕ). k * d.frame_size) l)

      size : d.buffer_offset + length part ≡ d.buffer_size
      size = omega (arith, end, v.below, length-take {0} (d.buffer_size - d.buffer_offset) chunk)

      reached : (copy part d).buffer_offset ≡ (copy part d).buffer_size
      reached = copy_offset part d (omega (arith, size, v.narrow)) ∙ size ∙ sym (copy_size part d)

      full : frame_full (copy part d) ≡ true
      full = frame_full-copy part (omega (arith, size)) ∙ ground (arith, size, end)

-- Where a chunk that is no longer than a frame ends: in its frame, in the next one, or at or behind
-- the end of the buffer.
pub data Ending (d : SaveData) (chunk : List ℕ) : Type 0 where
  within :
      d.buffer_offset + length chunk < d.frame_index * d.frame_size + d.frame_size → Ending d chunk
  next :
      d.frame_index + 1 < d.frame_count
      → d.frame_index * d.frame_size + d.frame_size ≤ d.buffer_offset + length chunk
      → d.buffer_offset + length chunk < d.buffer_size
      → Ending d chunk
  wrap :
      d.frame_index + 1 ≡ d.frame_count
      → d.frame_index * d.frame_size + d.frame_size ≤ d.buffer_offset + length chunk
      → Ending d chunk

pub ending :
    (d : SaveData) (chunk : List ℕ) → IsFramed d → length chunk ≤ d.frame_size → Ending d chunk
ending d chunk v n =
    elim (dec_lt (d.buffer_offset + length chunk) (d.frame_index * d.frame_size + d.frame_size)) [
      | yes h ↦ within h
      | no h ↦ elim (dec_lt (d.frame_index + 1) d.frame_count) [
        | yes l ↦ next l (omega arith) (
            omega (
              arith,
              v.size,
              v.below,
              mul-le-mul_right {m = suc (suc d.frame_index)} {n = d.frame_count} d.frame_size
                  (omega arith),
            ))
        | no l ↦ wrap (omega (arith, v.index)) (omega arith)
      ]
    ]
