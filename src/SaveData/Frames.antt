-- ===== src/SaveData/Frames.antt =====
-- inferno_driver/savedata.cpp, the path of the audio engine: WriteData, with SaveFrame and
-- GetNewWorkItem, which queue a full frame for the worker.
use inferno_windows.Prelude.{
  ℕ, suc, ◌+◌, ◌*◌, ◌/◌, ◌%◌, Bool, true, false, ◌&&◌, ◌||◌, Option, none, some, List, [], ◌∷◌,
  length, take, drop, get_or, set, blit, add32, sub32, mul32, ltb, leb, ◌==◌, if◌then◌else◌,
}
use inferno_windows.Shm.{Shm}
use inferno_windows.Shm
use inferno_windows.SaveData.State.{WorkItem, no_item, SaveData}

-- The first item whose event is signalled and which has a work item.
unfoldable pub find_free : List WorkItem → Option ℕ
find_free [] = none
find_free (i ∷ items) =
    if i.done && i.allocated
    then some 0
    else elim (find_free items) [ none ↦ none | some n ↦ some (suc n) ]

unfoldable pub reset_item : List WorkItem → ℕ → List WorkItem
reset_item items n = set items n (record (get_or items n no_item) { done = false })

-- GetNewWorkItem: the event of the item that is found is reset.
unfoldable pub get_new_work_item : SaveData → Option ℕ × SaveData
unfolding reset_item
get_new_work_item d = elim (find_free d.work_items) [
  | none ↦ (none, d)
  | some n ↦ (some n, record d { work_items = reset_item d.work_items n })
]

unfoldable pub fill_item : SaveData → ℕ → ℕ → ℕ → SaveData
fill_item d n frame_no data_size = record d {
  work_items = set d.work_items n (record (get_or d.work_items n no_item) {
    frame_no = frame_no;
    data_size = data_size;
    start = mul32 frame_no d.frame_size;
  });
}

unfoldable pub queue_found : ℕ → ℕ → Option ℕ × SaveData → SaveData
unfolding fill_item
queue_found frame_no data_size (none, d) = d
queue_found frame_no data_size (some n, d) = fill_item d n frame_no data_size

-- SaveFrame: without a free item the frame is not queued.
unfoldable pub save_frame : ℕ → ℕ → SaveData → SaveData
save_frame frame_no data_size d = queue_found frame_no data_size (get_new_work_item d)

unfoldable pub copy_to : ℕ → List ℕ → Option (List ℕ) → Option (List ℕ)
copy_to o chunk none = none
copy_to o chunk (some b) = some (blit o chunk b)

-- RtlCopyMemory to the write position, which moves on.
unfoldable pub copy : List ℕ → SaveData → SaveData
unfolding copy_to
copy chunk d = record d {
  data_buffer = copy_to d.buffer_offset chunk d.data_buffer;
  buffer_offset = add32 d.buffer_offset (length chunk);
}

-- The INT16 samples of a run of bytes.
unfoldable pub samples : List ℕ → List ℕ
samples [] = []
samples (a ∷ []) = []
samples (a ∷ b ∷ bytes) = (a + 256 * b) ∷ samples bytes

-- The write to the shared memory bridge: whole frames of 8 channels.
unfoldable pub bridge : List ℕ → Shm → Shm
unfolding samples
bridge chunk s =
    let frame_count = length chunk / 2 / Shm.channels in
    if ltb 0 frame_count then Shm.write (samples chunk) frame_count Shm.channels s else s

-- How many bytes fit before the end of the buffer.
unfoldable pub write_bytes : List ℕ → SaveData → ℕ
write_bytes chunk d =
    if ltb (sub32 d.buffer_size d.buffer_offset) (length chunk)
    then sub32 d.buffer_size d.buffer_offset
    else length chunk

-- The end of the current frame, or of the buffer, is reached.
unfoldable pub frame_full : SaveData → Bool
frame_full d =
    leb (mul32 (add32 d.frame_index 1) d.frame_size) d.buffer_offset
    || (d.buffer_offset == d.buffer_size)

unfoldable pub wrap_offset : SaveData → SaveData
wrap_offset d = record d {
  buffer_offset = if d.buffer_offset == d.buffer_size then 0 else d.buffer_offset;
}

-- The frame is marked as used, and the next one becomes current.
unfoldable pub close_frame : SaveData → SaveData
close_frame d = record d {
  frame_used = set d.frame_used d.frame_index true;
  frame_index = add32 d.frame_index 1 % d.frame_count;
}

-- What WriteData does behind its first copy, before the copy of what did not fit.
abbrev pub end_frame : SaveData → SaveData
end_frame d = if frame_full d then close_frame (wrap_offset d) else wrap_offset d

abbrev pub current_used : SaveData → Bool
current_used d = get_or d.frame_used d.frame_index true

-- What did not fit before the end goes to the start, if the frame there is free.
unfoldable pub left_over : List ℕ → SaveData → SaveData
left_over [] d = d
left_over (x ∷ rest) d = if current_used d then d else copy (x ∷ rest) d

-- The part of WriteData between the check of the current frame and the queueing.
unfoldable pub write_current : List ℕ → SaveData → SaveData
write_current chunk d =
    let n = write_bytes chunk d in left_over (drop n chunk) (end_frame (copy (take n chunk) d))

-- Whether that part closes the current frame.
unfoldable pub closes_frame : List ℕ → SaveData → Bool
closes_frame chunk d = frame_full (copy (take (write_bytes chunk d) chunk) d)

unfoldable pub write_frame : List ℕ → SaveData → SaveData
write_frame chunk d =
    if closes_frame chunk d
    then save_frame d.frame_index d.frame_size (write_current chunk d)
    else write_current chunk d

-- The guards of WriteData: writing is disabled, there is nothing to write, the frame is in use.
abbrev pub skips : List ℕ → SaveData → Bool
skips bytes d = d.write_disabled || length bytes == 0 || current_used d

-- WriteData, on a buffer of `length bytes` bytes.
unfoldable pub write_data : List ℕ → SaveData × Shm → SaveData × Shm
unfolding write_frame write_current closes_frame save_frame get_new_work_item queue_found find_free
    copy write_bytes frame_full wrap_offset close_frame left_over bridge
write_data bytes (d, s) =
    let chunk = take d.frame_size bytes in
    if skips bytes d
    then (d, s)
    else (write_frame chunk d, bridge (take (write_bytes chunk d) chunk) s)
