-- ===== src/SaveData/Setup.antt =====
-- inferno_driver/savedata.cpp, the calls of the stream's owner: Initialize and the destructor,
-- SetDataFormat, SetMaxWriteSize, Disable, and the work items' InitializeWorkItems and
-- DestroyWorkItems.
use inferno_windows.Prelude.{
  ℕ, zero, suc, ◌+◌, ◌*◌, ◌%◌, ◌^◌, Bool, true, false, none, some, List, [], ◌∷◌, take, replicate,
  add32, sub32, ltb, if◌then◌else◌,
}
use inferno_windows.Status.{NtStatus, success, insufficient_resources, nt_success, is_success}
use inferno_windows.Kernel.{Kernel}
use inferno_windows.SaveData.State.{
  FileName, WorkItem, no_item, SaveData, default_frame_count, max_worker_item_count,
}
use inferno_windows.SaveData.Files.{
  Outcome, file_open, file_close, file_write_header, format_length, position,
}

-- sizeof (SAVEWORKER_PARAM), packed, on x64.
abbrev item_size : ℕ
item_size = 56

-- Disable
pub disable : Bool → SaveData → SaveData
disable b d = record d { write_disabled = b }

-- The static stream numbers.
pub record Numbers : Type 0 where
  pub stream_id : ℕ
  pub offload_stream_id : ℕ

-- The number of a new stream of either kind is the next one.
pub take_number : Bool → Numbers → Numbers
take_number true n = record n { offload_stream_id = add32 n.offload_stream_id 1 }
take_number false n = record n { stream_id = add32 n.stream_id 1 }

pub stream_name : Bool → Numbers → FileName
stream_name true n = record { offload = true; number = n.offload_stream_id }
stream_name false n = record { offload = false; number = n.stream_id }

-- What SetDataFormat is given: the specifier of the format, and its WAVEFORMATEX.
pub data Specifier : Type 0 where
  dsound waveformatex other : Specifier

module _ (k : Kernel) where
  open k use {World, allocate, allocate_work_item, make_folder, wait_mutex}

  -- The next step runs only while the status is a success.
  infixl 5 ◌and_then◌
  abbrev pub ◌and_then◌ : Outcome k → (SaveData → World → Outcome k) → Outcome k
  (status, d, w) and_then f = let next = f d w in if nt_success status then next else (status, d, w)

  -- The loop of InitializeWorkItems, with `n` items left: it stops at the first that cannot be had,
  -- and the rest of the zeroed memory stays as it is.
  unfoldable pub make_items : ℕ → World → Bool × List WorkItem × World
  make_items zero w = (true, [], w)
  make_items (suc n) w =
      let (got, w₁) = allocate_work_item w in
      let rest = make_items n w₁ in
      if got
      then (rest.0, record no_item { allocated = true; done = true } ∷ rest.1, rest.2)
      else (false, replicate (suc n) no_item, w₁)

  -- InitializeWorkItems
  unfoldable pub initialize_work_items : SaveData → World → Outcome k
  unfolding make_items
  initialize_work_items d w = elim d.work_items [
    | i ∷ items ↦ (success, d, w)
    | [] ↦
        let (room, w₁) = allocate (item_size * max_worker_item_count) w in
        let (all, items, w₂) = make_items max_worker_item_count w₁ in
        if room
        then (if all then success else insufficient_resources, record d { work_items = items }, w₂)
        else (insufficient_resources, d, w₁)
  ]

  -- The two folders of the data file.
  unfoldable pub make_folders : SaveData → World → Outcome k
  make_folders d w =
      let (first, w₁) = make_folder 1 w in
      let (second, w₂) = make_folder 2 w₁ in
      if nt_success first then (second, d, w₂) else (first, d, w₁)

  allocate_or : ℕ → SaveData → SaveData → World → Outcome k
  allocate_or size got d w =
      let (room, w₁) = allocate size w in
      if room then (success, got, w₁) else (insufficient_resources, d, w₁)

  -- The file name of `chars` characters; the data buffer; the flags, with the file position behind
  -- them. The pool's memory is zeroed.
  unfoldable pub allocate_name : FileName → ℕ → SaveData → World → Outcome k
  unfolding allocate_or
  allocate_name name chars d =
      allocate_or ((chars * 2 + 2) % 2 ^ 16) (record d { file_name = some name }) d

  unfoldable pub allocate_buffer : SaveData → World → Outcome k
  unfolding allocate_or
  allocate_buffer d =
      allocate_or d.buffer_size (record d { data_buffer = some (replicate d.buffer_size 0) }) d

  unfoldable pub allocate_flags : SaveData → World → Outcome k
  unfolding allocate_or
  allocate_flags d =
      allocate_or (d.frame_count * 4 + 8) (record d { frame_used = replicate d.frame_count false })
        d

  unfoldable pub close_behind : Outcome k → Outcome k
  close_behind (status, d, w) = let (_, d', w') = file_close k d w in (status, d', w')

  unfoldable pub header_to : Outcome k → Outcome k
  header_to (status, d, w) =
      if nt_success status then close_behind (file_write_header k d w) else (status, d, w)

  -- The header is written to the file, which is opened for it and closed behind it.
  unfoldable pub header_session : Bool → SaveData → World → Outcome k
  unfolding header_to close_behind
  header_session overwrite d w = header_to (file_open k overwrite d w)

  -- The file is made, and its header written, under the file mutex.
  unfoldable pub create_data_file : SaveData → World → Outcome k
  create_data_file d₀ w₀ =
      let d = record d₀ { file_ptr = some 0; initialized = true } in
      let (locked, w) = wait_mutex w₀ in
      let session = header_session true d w in if is_success locked then session else (locked, d, w)

  -- Initialize, with the length that a file name prints to.
  unfoldable pub initialize :
      (FileName → ℕ) → Bool → Numbers × SaveData × World → NtStatus × Numbers × SaveData × World
  initialize chars offloaded (numbers, d, w) =
      let numbers' = take_number offloaded numbers in
      let name = stream_name offloaded numbers' in
      let (status, d', w') =
        make_folders d w
        and_then allocate_name name (chars name)
        and_then allocate_buffer
        and_then allocate_flags
        and_then initialize_work_items
        and_then create_data_file in
      (status, numbers', d', w')

  unfoldable pub copy_format : List ℕ → SaveData → World → Outcome k
  copy_format format d w =
      let n = format_length format in
      let (room, w₁) = allocate n w in
      if room
      then (success, record d { wave_format = some (take n format) }, w₁)
      else (insufficient_resources, record d { wave_format = none }, w₁)

  -- SetDataFormat: the old format is freed first.
  unfoldable pub set_data_format : Specifier → List ℕ → SaveData → World → Outcome k
  set_data_format other format d w = (success, d, w)
  set_data_format dsound format d w = copy_format format d w
  set_data_format waveformatex format d w = copy_format format d w

  -- SetMaxWriteSize: a product that does not fit a ULONG is refused.
  unfoldable pub set_max_write_size : ℕ → SaveData → World → Outcome k
  set_max_write_size n d w =
      let size = n * default_frame_count in
      let (room, w₁) = allocate size w in
      if ltb size (2 ^ 32)
      then (if room
          then (
            success,
            record d { data_buffer = some (replicate size 0); buffer_size = size; frame_size = n },
            w₁,
          )
          else (insufficient_resources, d, w₁))
      else (insufficient_resources, d, w)

  -- The sizes that the destructor puts into the headers, from the end of the file.
  abbrev pub final_headers : SaveData → SaveData
  final_headers d =
      let end = position d % 2 ^ 32 in
      record d {
        file_header = record d.file_header { file_size = sub32 end 8 };
        data_header = record d.data_header {
          data_length = sub32 (sub32 (sub32 end 20) d.file_header.format_length) 8;
        };
      }

  unfoldable pub rewrite_header : SaveData → World → SaveData × World
  rewrite_header d w =
      let (locked, w₁) = wait_mutex w in
      let (_, d', w') = header_session false d w₁ in if is_success locked then (d', w') else (d, w₁)

  abbrev pub free_memory : SaveData → SaveData
  free_memory d = record d {
    wave_format = none;
    frame_used = [];
    file_name = none;
    data_buffer = none;
  }

  -- DestroyWorkItems
  unfoldable pub destroy_work_items : SaveData → SaveData
  destroy_work_items d = record d { work_items = [] }

  -- The destructor.
  unfoldable pub destroy : SaveData → World → SaveData × World
  destroy d₀ w =
      let d = destroy_work_items d₀ in
      let (d', w') = rewrite_header (final_headers d) w in
      elim d.file_ptr [ none ↦ (free_memory d, w) | some p ↦ (free_memory d', w') ]
