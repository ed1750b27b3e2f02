-- ===== src/SaveData/Framing.antt =====
-- inferno_driver/savedata.cpp, WriteData: the bounds of its copies and the write position.
use inferno_windows.Prelude.{
  ℕ, ◌+◌, ◌-◌, ◌*◌, ◌≤◌, ◌<◌, ◌≡◌, inl, inr, ap, ◌∙◌, arith, true, false, Option, List, [], ◌∷◌,
  length, take, drop, length-take, length-drop, length-blit, length-set, Bool-cases,
}
use inferno_windows.Shm.{Shm}
use inferno_windows.SaveData.State.{SaveData, buffer_of}
use inferno_windows.SaveData.Frames.{
  copy, copy_to, left_over, current_used, write_bytes, wrap_offset, end_frame, write_current,
  closes_frame, close_frame, save_frame, get_new_work_item, queue_found, find_free, write_frame,
  write_data, skips, bridge,
}
use inferno_windows.SaveData.Cases.{
  IsFramed, frame_end, write_current_within, write_current_next, write_current_wrap, within, next,
  wrap, ending,
}
use inferno_windows.SaveData.Stream.{buffer-copy_to, next_index, next_index_last, wrapped}

length-copy_to :
    (o : ℕ) (c : List ℕ) (b : Option (List ℕ))
    → length (buffer_of (copy_to o c b)) ≡ length (buffer_of b)
length-copy_to o c b = ap length (buffer-copy_to o c b) ∙ length-blit o c (buffer_of b)

module _ (d : SaveData) (chunk : List ℕ) (v : IsFramed d) where
  within-IsFramed :
      d.buffer_offset + length chunk < d.frame_index * d.frame_size + d.frame_size
      → IsFramed (copy chunk d)
  unfolding copy
  within-IsFramed h = omega (
    arith,
    v.size,
    v.narrow,
    v.several,
    v.index,
    v.above,
    v.flags,
    v.memory,
    frame_end d v,
    length-copy_to d.buffer_offset chunk d.data_buffer,
  )

  next-IsFramed :
      d.frame_index + 1 < d.frame_count
      → length chunk ≤ d.frame_size
      → d.frame_index * d.frame_size + d.frame_size ≤ d.buffer_offset + length chunk
      → d.buffer_offset + length chunk < d.buffer_size
      → IsFramed (close_frame (copy chunk d))
  unfolding copy close_frame
  next-IsFramed l n h e = record {
    size = v.size;
    narrow = v.narrow;
    several = v.several;
    index = rw (next_index d v l) l;
    above = rw (next_index d v l) (omega (arith, v.narrow));
    below = rw (next_index d v l) (omega (arith, v.narrow, v.below));
    flags = length-set d.frame_used d.frame_index true ∙ v.flags;
    memory = length-copy_to d.buffer_offset chunk d.data_buffer ∙ v.memory;
  }

  wrapped-IsFramed : d.frame_index + 1 ≡ d.frame_count → IsFramed (wrapped chunk d)
  unfolding copy close_frame
  wrapped-IsFramed l = record {
    size = v.size;
    narrow = v.narrow;
    several = v.several;
    index = rw (next_index_last d v l) (omega (arith, v.several));
    above = rw (next_index_last d v l) (omega arith);
    below = rw (next_index_last d v l) (omega (arith, v.above, v.below));
    flags = length-set d.frame_used d.frame_index true ∙ v.flags;
    memory = length-copy_to d.buffer_offset chunk d.data_buffer ∙ v.memory;
  }

wrapped_below :
    (d : SaveData) (part : List ℕ) (n : ℕ)
    → n < d.frame_size
    → (wrapped part d).buffer_offset + n
      < (wrapped part d).frame_index * (wrapped part d).frame_size + (wrapped part d).frame_size
unfolding copy close_frame
wrapped_below d part n h = omega arith

left_over-IsFramed :
    (rest : List ℕ) (d : SaveData)
    → IsFramed d
    → d.buffer_offset + length rest < d.frame_index * d.frame_size + d.frame_size
    → IsFramed (left_over rest d)
unfolding left_over
left_over-IsFramed [] d v h = v
left_over-IsFramed (x ∷ rest) d v h = elim (Bool-cases (current_used d)) [
  | inl used ↦ rw used v
  | inr free ↦ rw free (within-IsFramed d (x ∷ rest) v h)
]

wrap-IsFramed :
    (d : SaveData) (part rest : List ℕ)
    → IsFramed d
    → d.frame_index + 1 ≡ d.frame_count
    → length rest < d.frame_size
    → IsFramed (left_over rest (wrapped part d))
wrap-IsFramed d part rest v l n =
    left_over-IsFramed rest (wrapped part d) (wrapped-IsFramed d part v l) below
  where
    below :
        (wrapped part d).buffer_offset + length rest
        < (wrapped part d).frame_index * (wrapped part d).frame_size + (wrapped part d).frame_size
    below = wrapped_below d part (length rest) n

pub write_current-IsFramed :
    (d : SaveData) (chunk : List ℕ)
    → IsFramed d
    → length chunk ≤ d.frame_size
    → IsFramed (write_current chunk d)
write_current-IsFramed d chunk v n = elim (ending d chunk v n) [
  | within h ↦ rw (write_current_within d chunk v h).0 (within-IsFramed d chunk v h)
  | next l h e ↦ rw (write_current_next d chunk v l n h).0 (next-IsFramed d chunk v l n h e)
  | wrap l h ↦ rw (write_current_wrap d chunk v l h).0 (
      wrap-IsFramed d _ _ v l (
        omega
          (arith, v.below, frame_end d v, length-drop {0} (d.buffer_size - d.buffer_offset) chunk)))
]

end_frame-offset : (d : SaveData) → (end_frame d).buffer_offset ≡ (wrap_offset d).buffer_offset
unfolding close_frame
end_frame-offset d = ground arith

-- With a well-formed buffer and a chunk of up to a frame, the first copy of a write is of no more
-- than the chunk and ends within the buffer, and the copy of the rest, from where the write
-- position then is, ends within the buffer too, whatever flags are set.
pub write_in_bounds :
    (d : SaveData) (chunk : List ℕ)
    → IsFramed d
    → length chunk ≤ d.frame_size
    → let n = write_bytes chunk d in
      (n ≤ length chunk)
      × (d.buffer_offset + n ≤ d.buffer_size)
      × ((end_frame (copy (take n chunk) d)).buffer_offset + length (drop n chunk) ≤ d.buffer_size)
unfolding write_bytes copy wrap_offset
write_in_bounds d chunk v n =
    let m : ℕ = write_bytes chunk d in
    ground (
      arith,
      frame_end d v,
      v.narrow,
      v.below,
      end_frame-offset (copy (take m chunk) d),
      length-take {0} m chunk,
      length-drop {0} m chunk,
    )

pub save_frame-IsFramed : (i n : ℕ) (d : SaveData) → IsFramed d → IsFramed (save_frame i n d)
unfolding save_frame get_new_work_item queue_found find_free
save_frame-IsFramed i n d v = ground arith

pub write_frame-IsFramed :
    (d : SaveData) (chunk : List ℕ)
    → IsFramed d
    → length chunk ≤ d.frame_size
    → IsFramed (write_frame chunk d)
unfolding write_frame
write_frame-IsFramed d chunk v n = elim (Bool-cases (closes_frame chunk d)) [
  | inl closed ↦
      rw closed
        (save_frame-IsFramed d.frame_index d.frame_size _ (write_current-IsFramed d chunk v n))
  | inr open_frame ↦ rw open_frame (write_current-IsFramed d chunk v n)
]

pub write_data-skips :
    (bytes : List ℕ) (d : SaveData) (s : Shm)
    → skips bytes d ≡ true
    → write_data bytes (d, s) ≡ (d, s)
unfolding write_data
write_data-skips bytes d s h = rw h

pub write_data-write_frame :
    (bytes : List ℕ) (d : SaveData) (s : Shm)
    → skips bytes d ≡ false
    → write_data bytes (d, s) ≡ (
      write_frame (take d.frame_size bytes) d,
      bridge (take (write_bytes (take d.frame_size bytes) d) (take d.frame_size bytes)) s,
    )
unfolding write_data
write_data-write_frame bytes d s h = rw h

-- WriteData keeps the buffer well formed, for every input and in every state of the flags.
pub write_data-IsFramed :
    (bytes : List ℕ) (d : SaveData) (s : Shm) → IsFramed d → IsFramed (write_data bytes (d, s)).0
write_data-IsFramed bytes d s v = elim (Bool-cases (skips bytes d)) [
  | inl skip ↦ rw (write_data-skips bytes d s skip) v
  | inr write ↦ rw (write_data-write_frame bytes d s write) (
      write_frame-IsFramed d (take d.frame_size bytes) v
        (omega (arith, length-take {0} d.frame_size bytes)))
]
