-- ===== src/SaveData/Resize.antt =====
-- SetMaxWriteSize: the new buffer, and the write position that it leaves.
use inferno_windows.Prelude.{
  ℕ, ◌*◌, ◌<◌, ◌≤◌, ◌^◌, ◌≡◌, ap, sym, ◌∙◌, arith, subst, true, some, List, length, replicate,
  length-replicate, if_true, lt→ltb, ltb,
}
use inferno_windows.Kernel.{Kernel}
use inferno_windows.SaveData.State.{SaveData, default_frame_count}
use inferno_windows.SaveData.Cases.{IsFramed}
use inferno_windows.SaveData.Frames.{write_bytes}
use inferno_windows.SaveData.Files.{Outcome}
use inferno_windows.SaveData.Setup.{set_max_write_size}

abbrev pub resized : ℕ → SaveData → SaveData
resized n d = record d {
  data_buffer = some (replicate (n * default_frame_count) 0);
  buffer_size = n * default_frame_count;
  frame_size = n;
}

module _ (k : Kernel) where
  set_max_write_size_lem :
      (n : ℕ) (d : SaveData) (w : k.World)
      → n * default_frame_count < 2 ^ 32
      → (k.allocate (n * default_frame_count) w).0 ≡ true
      → (set_max_write_size k n d w).1 ≡ resized n d
  unfolding set_max_write_size
  set_max_write_size_lem n d w narrow room =
      ap (λ (t : Outcome k). t.1)
        (if_true (ltb (n * default_frame_count) (2 ^ 32)) _ _ (lt→ltb _ _ narrow)
          ∙ if_true (k.allocate (n * default_frame_count) w).0 _ _ room)

  -- Before the first write, a size that fits and memory for it give a well-formed buffer.
  pub set_max_write_size-IsFramed :
      (n : ℕ) (d : SaveData) (w : k.World)
      → 0 < n
      → n * default_frame_count < 2 ^ 32
      → (k.allocate (n * default_frame_count) w).0 ≡ true
      → d.frame_count ≡ default_frame_count
      → length d.frame_used ≡ default_frame_count
      → d.frame_index ≡ 0
      → d.buffer_offset ≡ 0
      → IsFramed (set_max_write_size k n d w).1
  set_max_write_size-IsFramed n d w some_size narrow room count flags index offset =
      subst IsFramed (sym (set_max_write_size_lem n d w narrow room)) (record {
        size = rw count (omega arith);
        narrow = narrow;
        several = omega (arith, count);
        index = omega (arith, count, index);
        above = rw index (omega arith);
        below = rw (index, offset) (omega arith);
        flags = flags ∙ sym count;
        memory = length-replicate {A = ℕ} (n * default_frame_count) 0;
      })

  -- In the middle of a stream the write position stays. Where it lies behind the end of the new
  -- buffer, the room that WriteData computes wraps around, and it stores every byte of a chunk
  -- outside the buffer.
  pub set_max_write_size_overruns :
      (n : ℕ) (d : SaveData) (w : k.World) (chunk : List ℕ)
      → n * default_frame_count < d.buffer_offset
      → d.buffer_offset < 2 ^ 32
      → (k.allocate (n * default_frame_count) w).0 ≡ true
      → length chunk ≤ n
      → let e = (set_max_write_size k n d w).1 in
        (write_bytes chunk e ≡ length chunk) × (e.buffer_size < e.buffer_offset)
  unfolding write_bytes
  set_max_write_size_overruns n d w chunk behind narrow room fits =
      subst
        (λ (e : SaveData). (write_bytes chunk e ≡ length chunk) × (e.buffer_size < e.buffer_offset))
        (sym (set_max_write_size_lem n d w (omega (arith, behind, narrow)) room)) (ground arith)
