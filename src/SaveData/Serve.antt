-- ===== src/SaveData/Serve.antt =====
-- The system's run of an item that WriteData queued, from a state where all frames are free.
use mathlib.Core.Option
use native.Mathlib.Nat.{mul-le-mul_right}
use inferno_windows.Prelude.{
  ℕ, suc, ◌+◌, ◌*◌, ◌≤◌, ◌<◌, ◌≡◌, refl, ap, ◌∙◌, arith, true, false, none, some, List, ◌++◌,
  length, set, get_or, replicate, slice, mul32, length-append, length-slice, length-set,
  get_or-set_self, set-set,
}
use inferno_windows.Kernel.{Kernel, IsReliable}
use inferno_windows.SaveData.State.{SaveData, WorkItem, no_item, buffer_of}
use inferno_windows.SaveData.Frames.{find_free}
use inferno_windows.SaveData.Cases.{IsFramed}
use inferno_windows.SaveData.Files.{save_frame_worker, advance, free_frame, finish_item}
use inferno_windows.SaveData.Items.{
  find_queued, find_free_lem, find_free-set, find_queued-set, queued_item,
}
use inferno_windows.SaveData.Recording.{IsAtEnd, save_frame_worker_appends}

-- The system runs the first item that is queued.
unfoldable pub serve : (k : Kernel) → SaveData → k.World → SaveData × k.World
serve k d w = elim (find_queued d.work_items) [ none ↦ (d, w) | some n ↦ save_frame_worker k n d w ]

module _ (k : Kernel) (bytes : k.World → List ℕ) (r : IsReliable k bytes) where
  -- Nothing is queued, no frame is in use, and an item is free.
  pub record IsIdle (d : SaveData) (w : k.World) : Type 0 where
    pub framed : IsFramed d
    pub at_end : IsAtEnd k bytes r d w
    pub enabled : d.write_disabled ≡ false
    pub idle : find_queued d.work_items ≡ none
    pub item : ℕ
    pub free : find_free d.work_items ≡ some item
    pub flags : d.frame_used ≡ replicate d.frame_count false

module _ (k : Kernel) (bytes : k.World → List ℕ) (r : IsReliable k bytes) (e : SaveData)
    (w : k.World) (i m n : ℕ) (v : IsFramed e) (a : IsAtEnd k bytes r e w)
    (idle : find_queued e.work_items ≡ none) (free : find_free e.work_items ≡ some n)
    (inside : i < e.frame_count) (on : e.write_disabled ≡ false) (part : m ≤ e.frame_size)
    (flags : set e.frame_used i false ≡ replicate e.frame_count false) where
  abbrev pub part_bytes : List ℕ
  part_bytes = slice (i * e.frame_size) m (buffer_of e.data_buffer)

  abbrev pub queued : SaveData
  queued = record e { work_items = set e.work_items n (queued_item i m e) }

  abbrev pub saved : SaveData
  saved = finish_item k n (free_frame k i (advance m queued))

  item_at : get_or queued.work_items n no_item ≡ queued_item i m e
  item_at = get_or-set_self e.work_items n _ no_item (find_free_lem e.work_items n free).0

  frame_within : i * e.frame_size + e.frame_size ≤ e.buffer_size
  frame_within =
      omega (arith, v.size, mul-le-mul_right {m = suc i} {n = e.frame_count} e.frame_size inside)

  start_at : mul32 i e.frame_size ≡ i * e.frame_size
  start_at = omega (arith, frame_within, v.narrow, v.above, v.below)

  queue_at : find_queued queued.work_items ≡ some n
  queue_at =
      find_queued-set e.work_items n (queued_item i m e) idle (find_free_lem e.work_items n free).0

  serve_worker : serve k queued w ≡ save_frame_worker k n queued w
  unfolding serve
  serve_worker = rw (queue_at, serve) refl

  pub serve_saves :
      (bytes (serve k queued w).1 ≡ bytes w ++ part_bytes) × ((serve k queued w).0 ≡ saved)
  serve_saves =
      let q = queued in
      let ran =
        save_frame_worker_appends k bytes r n q w (ap (λ (x : WorkItem). x.allocated) item_at)
          (record { ready = a.ready; closed = a.closed; end = a.end }) in
      (
        ap (λ (p : SaveData × k.World). bytes p.1) serve_worker
            ∙ ran.0
            ∙ ap (λ (x : WorkItem). bytes w ++ slice x.start x.data_size (buffer_of e.data_buffer))
                item_at
            ∙ ap (λ (t : ℕ). bytes w ++ slice t m (buffer_of e.data_buffer)) start_at,
        ap (λ (p : SaveData × k.World). p.0) serve_worker
            ∙ ran.1
            ∙ ap
                (λ (x : WorkItem).
                  finish_item k n (free_frame k x.frame_no (advance x.data_size q)))
                item_at,
      )

  saved_items : saved.work_items ≡ set e.work_items n (record (queued_item i m e) { done = true })
  saved_items =
      ap (λ (x : WorkItem). set queued.work_items n (record x { done = true })) item_at
      ∙ set-set e.work_items n _ _

  length_part : length part_bytes ≡ m
  length_part = omega (
    arith,
    part,
    length-slice (i * e.frame_size) m (buffer_of e.data_buffer),
    frame_within,
    v.memory,
  )

  pub saved-IsIdle : (w' : k.World) → bytes w' ≡ bytes w ++ part_bytes → IsIdle k bytes r saved w'
  saved-IsIdle w' b = record {
    framed = record {
      size = v.size;
      narrow = v.narrow;
      several = v.several;
      index = v.index;
      above = v.above;
      below = v.below;
      flags = length-set e.frame_used i false ∙ v.flags;
      memory = v.memory;
    };
    at_end = record { ready = a.ready; closed = a.closed; end = end };
    enabled = on;
    idle =
        ap find_queued saved_items
        ∙ find_queued-set e.work_items n _ idle (find_free_lem e.work_items n free).0;
    item = n;
    free = ap find_free saved_items ∙ find_free-set e.work_items n _ free refl refl;
    flags = flags;
  }
    where
      total : length (bytes w) + m ≡ length (bytes w')
      total = omega (arith, ap length b, length-append {0} (bytes w) part_bytes, length_part)

      end : Option.map (λ p. p + m) e.file_ptr ≡ some (length (bytes w'))
      end = ap (Option.map (λ p. p + m)) a.end ∙ ap some total
