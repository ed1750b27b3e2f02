-- ===== src/SaveData/Stream.antt =====
-- inferno_driver/savedata.cpp, WriteData: the bytes that wait in the buffer, before and after.
use mathlib.Core.Path.{ap₂}
use native.Mathlib.Nat.{mul-le-mul_left, mul-le-mul_right, mod-eq_of_lt, mod_self, zero-mul}
use inferno_windows.Prelude.{
  ℕ, ◌+◌, ◌-◌, ◌*◌, ◌%◌, ◌≤◌, ◌<◌, ◌^◌, ◌≡◌, ◌⊎◌, inl, inr, refl, ap, sym, ◌∙◌, arith, true, false,
  Option, none, some, List, [], ◌∷◌, ◌++◌, length, take, drop, get_or, take-all, length-take,
  length-drop, slice, blit, slice_split, slice-blit_over, slice-blit_after, length-blit, blit-nil,
  blit_nothing, append_assoc, take-append-drop, get_or-set_ne, slice-zero,
}
use inferno_windows.SaveData.State.{SaveData, buffer_of}
use inferno_windows.SaveData.Frames.{
  copy, copy_to, left_over, current_used, write_current, closes_frame, close_frame,
}
use inferno_windows.SaveData.Cases.{
  IsFramed, frame_end, write_current_within, write_current_next, write_current_wrap, within, next,
  wrap, ending,
}

-- The bytes of the current frame that no work item has been given yet.
abbrev pub unsaved : SaveData → List ℕ
unsaved d =
    slice (d.frame_index * d.frame_size) (d.buffer_offset - d.frame_index * d.frame_size)
      (buffer_of d.data_buffer)

-- The bytes of a whole frame.
abbrev pub frame_bytes : ℕ → SaveData → List ℕ
frame_bytes i d = slice (i * d.frame_size) d.frame_size (buffer_of d.data_buffer)

abbrev pub next_frame : SaveData → ℕ
next_frame d = (d.frame_index + 1) % d.frame_count

copy_to-nil : (b : Option (List ℕ)) → copy_to 0 [] b ≡ b
unfolding copy_to
copy_to-nil none = refl
copy_to-nil (some b) = ap some (blit_nothing b)

pub buffer-copy_to :
    (o : ℕ) (c : List ℕ) (b : Option (List ℕ)) → buffer_of (copy_to o c b) ≡ blit o c (buffer_of b)
unfolding copy_to
buffer-copy_to o c none = sym (blit-nil o c)
buffer-copy_to o c (some b) = refl

count_narrow : (d : SaveData) → IsFramed d → d.frame_count < 2 ^ 32
count_narrow d v =
    let least : d.frame_count * 1 ≤ d.frame_count * d.frame_size =
      mul-le-mul_left d.frame_count (omega (arith, v.above, v.below)) in
    omega (arith, v.size, v.narrow, least)

pub next_index :
    (d : SaveData)
    → IsFramed d
    → d.frame_index + 1 < d.frame_count
    → (d.frame_index + 1) % 2 ^ 32 % d.frame_count ≡ d.frame_index + 1
next_index d v l =
    let narrow : (d.frame_index + 1) % 2 ^ 32 ≡ d.frame_index + 1 =
      omega (arith, count_narrow d v) in
    rw narrow (mod-eq_of_lt l)

-- The last frame is followed by the first.
pub next_index_last :
    (d : SaveData)
    → IsFramed d
    → d.frame_index + 1 ≡ d.frame_count
    → (d.frame_index + 1) % 2 ^ 32 % d.frame_count ≡ 0
next_index_last d v l =
    let narrow : (d.frame_index + 1) % 2 ^ 32 ≡ d.frame_count = omega (arith, count_narrow d v) in
    rw narrow (mod_self d.frame_count)

-- What did not fit is stored at the start of a free frame, whole.
pub left_over_free :
    (rest : List ℕ) (e : SaveData)
    → e.buffer_offset ≡ 0
    → length rest < 2 ^ 32
    → current_used e ≡ false
    → left_over rest e
      ≡ record e { data_buffer = copy_to 0 rest e.data_buffer; buffer_offset = length rest }
unfolding left_over copy
left_over_free [] e o n f = ground (arith, copy_to-nil e.data_buffer)
left_over_free (x ∷ rest) e o n f =
    rw f
      λ i. record e { data_buffer = copy_to (o i) (x ∷ rest) e.data_buffer; buffer_offset = size i }
  where
    size : (e.buffer_offset + length (x ∷ rest)) % 2 ^ 32 ≡ length (x ∷ rest)
    size = omega arith

-- The state between the two copies of a write that reaches the end of the buffer.
abbrev pub wrapped : List ℕ → SaveData → SaveData
wrapped part d = close_frame (record (copy part d) { buffer_offset = 0 })

module _ (d : SaveData) (chunk : List ℕ) (v : IsFramed d) where
  -- A read from the start of the frame to the end of a copy at the write position.
  unsaved-copy :
      d.buffer_offset + length chunk ≤ d.buffer_size
      → slice
          (d.frame_index * d.frame_size)
          (d.buffer_offset - d.frame_index * d.frame_size + length chunk)
          (buffer_of (copy chunk d).data_buffer)
        ≡ unsaved d ++ chunk
  unfolding copy
  unsaved-copy h = rw (buffer-copy_to d.buffer_offset chunk d.data_buffer) (
      slice-blit_over (d.frame_index * d.frame_size)
        (d.buffer_offset - d.frame_index * d.frame_size) (length chunk) d.buffer_offset _ chunk
        (buffer_of d.data_buffer) (omega (arith, v.above)) refl (omega arith)
        (omega (arith, v.memory))
      ∙ ap (λ (t : List ℕ). unsaved d ++ t) (take-all (length chunk) chunk (omega arith)))

module _ (d : SaveData) (chunk : List ℕ) (v : IsFramed d) where
  stream_within :
      d.buffer_offset + length chunk < d.frame_index * d.frame_size + d.frame_size
      → unsaved (copy chunk d) ≡ unsaved d ++ chunk
  unfolding copy
  stream_within h =
      let size : (d.buffer_offset + length chunk) % 2 ^ 32 - d.frame_index * d.frame_size
          ≡ d.buffer_offset - d.frame_index * d.frame_size + length chunk =
        omega (arith, v.above, v.narrow, frame_end d v) in
      rw size (unsaved-copy d chunk v (omega (arith, frame_end d v)))

  stream_next :
      d.frame_index + 1 < d.frame_count
      → d.buffer_offset + length chunk ≤ d.buffer_size
      → d.frame_index * d.frame_size + d.frame_size ≤ d.buffer_offset + length chunk
      → frame_bytes d.frame_index (close_frame (copy chunk d))
          ++ unsaved (close_frame (copy chunk d))
        ≡ unsaved d ++ chunk
  unfolding copy close_frame
  stream_next l n h =
      rw (index, size)
        (sym (slice_split (d.frame_index * d.frame_size) d.frame_size _ _ _ _ total (omega arith))
          ∙ unsaved-copy d chunk v n)
    where
      index : (d.frame_index + 1) % 2 ^ 32 % d.frame_count ≡ d.frame_index + 1
      index = next_index d v l

      size :
          (d.buffer_offset + length chunk) % 2 ^ 32 - (d.frame_index + 1) * d.frame_size
          ≡ d.buffer_offset + length chunk - (d.frame_index * d.frame_size + d.frame_size)
      size = omega (arith, v.narrow)

      total :
          d.buffer_offset - d.frame_index * d.frame_size + length chunk
          ≡ d.frame_size
            + (d.buffer_offset + length chunk - (d.frame_index * d.frame_size + d.frame_size))
      total = omega (arith, v.above)

  stream_wrap :
      d.frame_index + 1 ≡ d.frame_count
      → length chunk ≤ d.frame_size
      → d.frame_index * d.frame_size + d.frame_size ≤ d.buffer_offset + length chunk
      → get_or d.frame_used 0 true ≡ false
      → let d' =
          left_over
            (drop (d.buffer_size - d.buffer_offset) chunk)
            (wrapped (take (d.buffer_size - d.buffer_offset) chunk) d) in
        frame_bytes d.frame_index d' ++ unsaved d' ≡ unsaved d ++ chunk
  unfolding copy close_frame
  stream_wrap l n h free =
      rw
        (left_over_free rest (wrapped part d) refl
          (omega (arith, length_rest, v.narrow, frame_end d v)) next_free)
        (rw
          (
            index,
            zero-mul d.frame_size,
            buffer-copy_to 0 rest (copy_to d.buffer_offset part d.data_buffer),
          )
          (ap₂ ◌++◌ frame start
            ∙ append_assoc (unsaved d) part rest
            ∙ ap (◌++◌ (unsaved d)) (take-append-drop (d.buffer_size - d.buffer_offset) chunk)))
    where
      part : List ℕ
      part = take (d.buffer_size - d.buffer_offset) chunk

      rest : List ℕ
      rest = drop (d.buffer_size - d.buffer_offset) chunk

      index : (d.frame_index + 1) % 2 ^ 32 % d.frame_count ≡ 0
      index = next_index_last d v l

      length_rest : length rest ≡ length chunk - (d.buffer_size - d.buffer_offset)
      length_rest = length-drop (d.buffer_size - d.buffer_offset) chunk

      next_free : current_used (wrapped part d) ≡ false
      next_free = rw index (
          get_or-set_ne d.frame_used d.frame_index 0 true true (omega (arith, v.several, l)) ∙ free)

      buffer : List ℕ
      buffer = buffer_of (copy part d).data_buffer

      length_part : d.buffer_offset + length part ≡ d.buffer_size
      length_part = omega (
        arith,
        h,
        v.size,
        v.below,
        ap (λ (k : ℕ). k * d.frame_size) l,
        length-take {0} (d.buffer_size - d.buffer_offset) chunk,
      )

      frame_size : d.frame_size ≡ d.buffer_offset - d.frame_index * d.frame_size + length part
      frame_size = omega (arith, length_part, v.above, v.size, ap (λ (k : ℕ). k * d.frame_size) l)

      second : d.frame_size ≤ d.frame_index * d.frame_size
      second = omega (
        arith,
        mul-le-mul_right {m = 1} {n = d.frame_index} d.frame_size (omega (arith, v.several, l)),
      )

      frame :
          slice (d.frame_index * d.frame_size) d.frame_size (blit 0 rest buffer) ≡ unsaved d ++ part
      frame =
          slice-blit_after (d.frame_index * d.frame_size) d.frame_size 0 rest buffer
            (omega (arith, length_rest, second))
          ∙ ap (λ (t : ℕ). slice (d.frame_index * d.frame_size) t buffer) frame_size
          ∙ unsaved-copy d part v (omega (arith, length_part))

      length_buffer : length buffer ≡ d.buffer_size
      length_buffer =
          ap length (buffer-copy_to d.buffer_offset part d.data_buffer)
          ∙ length-blit d.buffer_offset part (buffer_of d.data_buffer)
          ∙ v.memory

      start : slice 0 (length rest - 0) (blit 0 rest buffer) ≡ rest
      start =
          slice-blit_over 0 0 (length rest) 0 (length rest - 0) rest buffer refl (omega arith)
            (omega arith) (omega (arith, length_buffer, length_rest, second, frame_end d v))
          ∙ ap₂ ◌++◌ (slice-zero 0 buffer) (take-all (length rest) rest (omega arith))

-- The frame of `d`, if it was closed, and the bytes behind it are what was there and the chunk.
abbrev pub KeepsStream : List ℕ → SaveData → SaveData → Type 0
KeepsStream chunk d e =
    ((closes_frame chunk d ≡ false) × (unsaved e ≡ unsaved d ++ chunk))
    ⊎ ((closes_frame chunk d ≡ true)
        × (frame_bytes d.frame_index e ++ unsaved e ≡ unsaved d ++ chunk))

-- A write adds its chunk to the bytes that wait: they are in the current frame, or fill it up to a
-- full frame that is to be saved and go on behind it; where they have to go on at the start of the
-- buffer, the first frame must be free.
pub write_current-KeepsStream :
    (d : SaveData) (chunk : List ℕ)
    → IsFramed d
    → length chunk ≤ d.frame_size
    → get_or d.frame_used (next_frame d) true ≡ false
    → KeepsStream chunk d (write_current chunk d)
write_current-KeepsStream d chunk v n free = elim (ending d chunk v n) [
  | within h ↦
      let e = write_current_within d chunk v h in inl (e.1, rw e.0 (stream_within d chunk v h))
  | next l h b ↦
      let e = write_current_next d chunk v l n h in
      inr (e.1, rw e.0 (stream_next d chunk v l (omega arith) h))
  | wrap l h ↦
      let e = write_current_wrap d chunk v l h in
      let first : (d.frame_index + 1) % d.frame_count ≡ 0 = rw l (mod_self d.frame_count) in
      inr (e.1, rw e.0 (stream_wrap d chunk v l n h (rw first at free)))
]
