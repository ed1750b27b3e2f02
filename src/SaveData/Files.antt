-- ===== src/SaveData/Files.antt =====
-- inferno_driver/savedata.cpp, the data file: FileOpen, FileClose, FileWrite, FileWriteHeader, and
-- the worker that saves a frame, SaveFrameWorkerCallback.
use mathlib.Core.Option
use inferno_windows.Prelude.{
  ℕ, ◌+◌, Bool, true, false, none, some, List, [], ◌∷◌, ltb, take, set, get_or, slice, sub32, mul32,
  ◌==◌, if◌then◌else◌,
}
use inferno_windows.Status.{NtStatus, success, unsuccessful, invalid_handle, nt_success, is_success}
use inferno_windows.Kernel.{Kernel}
use inferno_windows.SaveData.State.{
  WorkItem, no_item, SaveData, buffer_of, format_tag, cb_size, format_pcm, pcm_format_size,
  format_ex_size, file_header_bytes, data_header_bytes,
}
use inferno_windows.SaveData.Frames.{save_frame}

-- The length of the format that goes into the file.
abbrev pub format_length : List ℕ → ℕ
format_length format =
    if format_tag format == format_pcm then pcm_format_size else format_ex_size + cb_size format

abbrev pub position : SaveData → ℕ
position d = elim d.file_ptr [ none ↦ 0 | some p ↦ p ]

abbrev pub advance : ℕ → SaveData → SaveData
advance n d = record d { file_ptr = Option.map (λ p. p + n) d.file_ptr }

-- The part of WaitAllWorkItems that queues a frame which is not full.
unfoldable pub flush : SaveData → SaveData
flush d =
    let start = mul32 d.frame_index d.frame_size in
    if ltb start d.buffer_offset
    then save_frame d.frame_index (sub32 d.buffer_offset start) d
    else d

module _ (k : Kernel) where
  open k use {World, create_file, close_file, write_file, wait_mutex}

  -- What a function of the class leaves: its status, the object and the world.
  abbrev pub Outcome : Type 0
  Outcome = NtStatus × SaveData × World

  -- FileOpen. The handle is stored only when the service succeeds.
  unfoldable pub file_open : Bool → SaveData → World → Outcome
  file_open overwrite d w =
      if d.initialized
      then (if d.file_open
          then (success, d, w)
          else (let (status, w') = create_file overwrite w in
              (status, record d { file_open = nt_success status }, w')))
      else (unsuccessful, d, w)

  -- FileClose
  unfoldable pub file_close : SaveData → World → Outcome
  file_close d w =
      if d.file_open
      then (let (status, w') = close_file w in (status, record d { file_open = false }, w'))
      else (success, d, w)

  -- FileWrite, of `n` bytes.
  unfoldable pub file_write : List ℕ → ℕ → SaveData → World → Outcome
  file_write bytes n d w =
      if d.file_open
      then (let (status, w') = write_file (position d) bytes w in
          (status, if nt_success status then advance n d else d, w'))
      else (invalid_handle, d, w)

  -- One of the three writes of the header: the pointer moves on whether or not it succeeds.
  unfoldable pub write_part : List ℕ → ℕ → SaveData → World → Outcome
  write_part bytes n d w =
      let (status, w') = write_file (position d) bytes w in (status, advance n d, w')

  unfoldable pub write_headers : List ℕ → SaveData → World → Outcome
  unfolding write_part
  write_headers format d w =
      let n = format_length format in
      let d₀ = record d {
        file_ptr = Option.map (λ _. 0) d.file_ptr;
        file_header = record d.file_header { format_length = n };
      } in
      let (_, d₁, w₁) = write_part (file_header_bytes d₀.file_header) 20 d₀ w in
      let (_, d₂, w₂) = write_part (take n format) n d₁ w₁ in
      write_part (data_header_bytes d₂.data_header) 8 d₂ w₂

  -- FileWriteHeader. The status is that of the last write.
  unfoldable pub file_write_header : SaveData → World → Outcome
  file_write_header d w =
      if d.file_open
      then (elim d.wave_format [
        | none ↦ (invalid_handle, d, w)
        | some format ↦ write_headers format d w
      ])
      else (invalid_handle, d, w)

  -- The frame of a work item, appended to the file.
  unfoldable pub save_item : WorkItem → SaveData → World → SaveData × World
  save_item item d w =
      let (opened, d₁, w₁) = file_open false d w in
      let (_, d₂, w₂) =
        file_write (slice item.start item.data_size (buffer_of d₁.data_buffer)) item.data_size d₁
          w₁ in
      let (_, d₃, w₃) = file_close d₂ w₂ in if nt_success opened then (d₃, w₃) else (d₁, w₁)

  abbrev pub free_frame : ℕ → SaveData → SaveData
  free_frame i d = record d { frame_used = set d.frame_used i false }

  -- The frame is saved and given back under the file mutex.
  unfoldable pub save_locked : WorkItem → SaveData → World → SaveData × World
  save_locked item d w =
      let (locked, w₁) = wait_mutex w in
      let (d', w₂) = save_item item d w₁ in
      if is_success locked then (free_frame item.frame_no d', w₂) else (d, w₁)

  abbrev pub finish_item : ℕ → SaveData → SaveData
  finish_item n d = record d {
    work_items = set d.work_items n (record (get_or d.work_items n no_item) { done = true });
  }

  -- SaveFrameWorkerCallback, for the item `n`.
  unfoldable pub save_frame_worker : ℕ → SaveData → World → SaveData × World
  save_frame_worker n d w =
      let item = get_or d.work_items n no_item in
      let (d', w') = save_locked item d w in
      if item.allocated then (finish_item n d', w') else (finish_item n d, w)

  -- The system runs the queued items in some order.
  unfoldable pub run_workers : List ℕ → SaveData → World → SaveData × World
  unfolding save_frame_worker save_locked save_item file_open file_write file_close
  run_workers [] d w = (d, w)
  run_workers (n ∷ order) d w = let (d', w') = save_frame_worker n d w in run_workers order d' w'
