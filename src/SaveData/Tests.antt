-- ===== src/SaveData/Tests.antt =====
-- Runs of the data file on a volume whose state is the contents of one file.
use Prim.{tt}
use inferno_windows.Prelude.{
  ℕ, ◌<◌, ◌+◌, ◌≤◌, ◌≡◌, refl, true, false, none, some, List, [], ◌∷◌, ◌++◌, length, take, drop,
  arith,
}
use mathlib.Core.List.{flatten}
use inferno_windows.Status.{success}
use inferno_windows.Kernel.{Kernel, IsReliable}
use inferno_windows.Shm.{Shm}
use inferno_windows.SaveData.State.{SaveData, WorkItem, no_item, create}
use inferno_windows.SaveData.Cases.{IsFramed}
use inferno_windows.SaveData.Frames.{find_free}
use inferno_windows.SaveData.Items.{find_queued}
use inferno_windows.SaveData.Serve.{IsIdle}
use inferno_windows.SaveData.Serve.{serve}
use inferno_windows.SaveData.Frames.{write_current, write_data, write_bytes, copy, end_frame}
use inferno_windows.SaveData.Files.{flush}
use inferno_windows.SaveData.Items.{queued_item}
use inferno_windows.SaveData.Stream.{KeepsStream, write_current-KeepsStream}
use inferno_windows.SaveData.Framing.{write_data-IsFramed, write_in_bounds}
use inferno_windows.SaveData.Headers.{header_bytes}
use inferno_windows.SaveData.Setup.{create_data_file, destroy}
use inferno_windows.SaveData.Lifetime.{IsFresh, lifetime}
use inferno_windows.SaveData.Closing.{fresh_header, fresh_data, wave_file}
use inferno_windows.SaveData.Playback.{record_all, record_all-Recorded}
use inferno_windows.SaveData.Turns.{Recorded}

abbrev disk : Kernel
disk = record {
  World = List ℕ;
  create_file = λ o w. (success, elim o [ true ↦ [] | false ↦ w ]);
  write_file = λ o c w. (success, take o w ++ (c ++ drop (o + length c) w));
  close_file = λ w. (success, w);
  wait_mutex = λ w. (success, w);
  make_folder = λ n w. (success, w);
  allocate = λ n w. (true, w);
  allocate_work_item = λ w. (true, w);
}

abbrev contents : List ℕ → List ℕ
contents w = w

disk-IsReliable : IsReliable disk contents
disk-IsReliable = record {
  opens = λ o w. refl;
  open_keeps = λ w. refl;
  open_empties = λ w. refl;
  writes = λ o c w. refl;
  write_at = λ o c w h. refl;
  close_keeps = λ w. refl;
  locks = λ w. refl;
  lock_keeps = λ w. refl;
}

-- A stream with two frames of four bytes and two work items.
abbrev idle_item : WorkItem
idle_item = record no_item { allocated = true; done = true }

abbrev small : SaveData
small = record create {
  data_buffer = some (0 ∷ 0 ∷ 0 ∷ 0 ∷ 0 ∷ 0 ∷ 0 ∷ 0 ∷ []);
  buffer_size = 8;
  frame_count = 2;
  frame_size = 4;
  frame_used = false ∷ false ∷ [];
  file_ptr = some 0;
  work_items = idle_item ∷ idle_item ∷ [];
  initialized = true;
}

abbrev unmapped : Shm
unmapped = record { base = none; handle = false }

small-IsFramed : (n : ℕ) → n < 4 → IsFramed (record small { buffer_offset = n })
small-IsFramed n h = record {
  size = refl;
  narrow = omega arith;
  several = omega arith;
  index = omega arith;
  above = omega arith;
  below = omega arith;
  flags = refl;
  memory = refl;
}

small-IsIdle :
    (n : ℕ) → n < 4 → IsIdle disk contents disk-IsReliable (record small { buffer_offset = n }) []
unfolding find_free find_queued
small-IsIdle n h = record {
  framed = small-IsFramed n h;
  at_end = record { ready = refl; closed = refl; end = refl };
  enabled = refl;
  idle = refl;
  item = 0;
  free = refl;
  flags = refl;
}

abbrev three : List (List ℕ)
three = (1 ∷ 2 ∷ 3 ∷ []) ∷ (4 ∷ 5 ∷ 6 ∷ []) ∷ (7 ∷ 8 ∷ 9 ∷ []) ∷ []

record_all-Recorded_example :
    let (e, s, w) = record_all disk three (small, unmapped, []) in
    Recorded disk contents disk-IsReliable (flatten three) small [] (e, w)
record_all-Recorded_example =
    record_all-Recorded disk contents disk-IsReliable three small unmapped []
      (small-IsIdle 0 (omega arith)) (omega arith, (omega arith, (omega arith, tt)))

-- Three bytes wait in the first frame.
abbrev waiting : SaveData
waiting = record small { buffer_offset = 3 }

write_current-KeepsStream_example :
    KeepsStream (4 ∷ 5 ∷ 6 ∷ []) waiting (write_current (4 ∷ 5 ∷ 6 ∷ []) waiting)
write_current-KeepsStream_example =
    write_current-KeepsStream waiting (4 ∷ 5 ∷ 6 ∷ []) (small-IsFramed 3 (omega arith))
      (omega arith) refl

write_data-IsFramed_example : IsFramed (write_data (4 ∷ 5 ∷ 6 ∷ 7 ∷ 8 ∷ []) (waiting, unmapped)).0
write_data-IsFramed_example =
    write_data-IsFramed (4 ∷ 5 ∷ 6 ∷ 7 ∷ 8 ∷ []) waiting unmapped (small-IsFramed 3 (omega arith))

-- The last two bytes of the buffer are free.
abbrev almost_full : SaveData
almost_full = record small { frame_index = 1; buffer_offset = 6 }

almost_full-IsFramed : IsFramed almost_full
almost_full-IsFramed = record {
  size = refl;
  narrow = omega arith;
  several = omega arith;
  index = omega arith;
  above = omega arith;
  below = omega arith;
  flags = refl;
  memory = refl;
}

abbrev three_bytes : List ℕ
three_bytes = 4 ∷ 5 ∷ 6 ∷ []

write_in_bounds_example :
    let n = write_bytes three_bytes almost_full in
    (n ≤ 3)
    × (6 + n ≤ 8)
    × ((end_frame (copy (take n three_bytes) almost_full)).buffer_offset
          + length (drop n three_bytes)
        ≤ 8)
write_in_bounds_example = write_in_bounds almost_full three_bytes almost_full-IsFramed (omega arith)

-- The second frame is queued for the worker.
abbrev busy : SaveData
busy = record small { work_items = queued_item 1 4 small ∷ idle_item ∷ [] }

-- A mono format of 8 bits at 8000 samples a second, and a file of four samples of it.
abbrev mono : List ℕ
mono = 1 ∷ 0 ∷ 1 ∷ 0 ∷ 64 ∷ 31 ∷ 0 ∷ 0 ∷ 64 ∷ 31 ∷ 0 ∷ 0 ∷ 1 ∷ 0 ∷ 8 ∷ 0 ∷ 0 ∷ 0 ∷ []

abbrev full_file : List ℕ
full_file = header_bytes (fresh_header 16) mono fresh_data ++ (9 ∷ 8 ∷ 7 ∷ 6 ∷ [])

abbrev finished : SaveData
finished = record small {
  wave_format = some mono;
  file_header = fresh_header 16;
  data_header = fresh_data;
  file_ptr = some 48;
}

-- The stream before its file is made.
abbrev fresh : SaveData
fresh = record small { file_ptr = none; initialized = false; wave_format = some mono }

fresh-IsFresh : IsFresh mono fresh
unfolding find_free find_queued
fresh-IsFresh = record {
  framed = record {
    size = refl;
    narrow = omega arith;
    several = omega arith;
    index = omega arith;
    above = omega arith;
    below = omega arith;
    flags = refl;
    memory = refl;
  };
  offset = refl;
  closed = refl;
  enabled = refl;
  idle = refl;
  item = 0;
  free = refl;
  flags = refl;
  wave_format = refl;
  long = omega arith;
  file_header = refl;
  data_header = refl;
}

lifetime_example :
    let (_, d₁, w₁) = create_data_file disk fresh [] in
    let (d₂, _, w₂) = record_all disk three (d₁, unmapped, w₁) in
    let (d₃, w₃) = serve disk (flush d₂) w₂ in
    (destroy disk d₃ w₃).1 ≡ wave_file (take 16 mono) (flatten three)
unfolding flatten
lifetime_example =
    lifetime disk contents disk-IsReliable mono three fresh unmapped [] fresh-IsFresh
      (omega arith, (omega arith, (omega arith, tt))) (omega arith)
