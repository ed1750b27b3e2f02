-- ===== src/SaveData/Items.antt =====
-- The work items of a CSaveData: which one is found, queued and freed.
use inferno_windows.Prelude.{
  ℕ, zero, suc, ◌<◌, ◌≡◌, ap, ◌∙◌, arith, true, false, Option, none, some, List, [], ◌∷◌, length,
  take, drop, set, get_or, set-set, get_or-set_self, if◌then◌else◌, mul32, Bool-cases, inl, inr,
}
use inferno_windows.SaveData.State.{WorkItem, no_item, SaveData}
use inferno_windows.SaveData.Frames.{
  find_free, get_new_work_item, save_frame, reset_item, fill_item, queue_found, left_over, copy,
  write_current, closes_frame, close_frame, wrap_offset, write_bytes, frame_full,
}

-- The first item that the system has still to run.
unfoldable pub find_queued : List WorkItem → Option ℕ
find_queued [] = none
find_queued (i ∷ items) =
    if i.done then elim (find_queued items) [ none ↦ none | some n ↦ some (suc n) ] else some 0

-- The item that is found exists, is signalled and has a work item.
pub find_free_lem :
    (items : List WorkItem) (n : ℕ)
    → find_free items ≡ some n
    → (n < length items)
      × ((get_or items n no_item).done ≡ true)
      × ((get_or items n no_item).allocated ≡ true)
unfolding find_free
find_free_lem [] n e = cc
find_free_lem (i ∷ items) zero e = ground arith
find_free_lem (i ∷ items) (suc n) e = ground (arith, find_free_lem items n)

-- An item like the one that was found leaves the search as it is.
pub find_free-set :
    (items : List WorkItem) (n : ℕ) (x : WorkItem)
    → find_free items ≡ some n
    → x.done ≡ true
    → x.allocated ≡ true
    → find_free (set items n x) ≡ some n
unfolding find_free
find_free-set [] n x e a b = cc
find_free-set (i ∷ items) zero x e a b = ground arith
find_free-set (i ∷ items) (suc n) x e a b = ground (arith, find_free-set items n x)

pub find_queued-set :
    (items : List WorkItem) (n : ℕ) (x : WorkItem)
    → find_queued items ≡ none
    → n < length items
    → find_queued (set items n x) ≡ (if x.done then none else some n)
unfolding find_queued
find_queued-set [] n x e h = absurd (omega arith)
find_queued-set (i ∷ items) zero x e h = ground arith
find_queued-set (i ∷ items) (suc n) x e h = ground (arith, find_queued-set items n x)

abbrev pub queued_item : ℕ → ℕ → SaveData → WorkItem
queued_item frame_no data_size d = record {
  allocated = true;
  done = false;
  frame_no = frame_no;
  data_size = data_size;
  start = mul32 frame_no d.frame_size;
}

get_new_work_item_lem :
    (d : SaveData) (n : ℕ)
    → find_free d.work_items ≡ some n
    → get_new_work_item d ≡ (some n, record d { work_items = reset_item d.work_items n })
unfolding get_new_work_item
get_new_work_item_lem d n e = rw (e, get_new_work_item)

fill-reset :
    (frame_no data_size : ℕ) (d : SaveData) (n : ℕ)
    → find_free d.work_items ≡ some n
    → fill_item (record d { work_items = reset_item d.work_items n }) n frame_no data_size
      ≡ record d { work_items = set d.work_items n (queued_item frame_no data_size d) }
unfolding fill_item reset_item
fill-reset frame_no data_size d n e =
    ap (λ (items : List WorkItem). record d { work_items = items })
      (set-set d.work_items n reset _ ∙ ap (set d.work_items n) item)
  where
    old : WorkItem
    old = get_or d.work_items n no_item

    reset : WorkItem
    reset = record old { done = false }

    fill : WorkItem → WorkItem
    fill i = record i {
      frame_no = frame_no;
      data_size = data_size;
      start = mul32 frame_no d.frame_size;
    }

    item : fill (get_or (set d.work_items n reset) n no_item) ≡ queued_item frame_no data_size d
    item =
        ap fill (get_or-set_self d.work_items n reset no_item (find_free_lem d.work_items n e).0)
        ∙ λ i. record (queued_item frame_no data_size d) {
          allocated = (find_free_lem d.work_items n e).2 i;
        }

-- SaveFrame puts the frame into the item that is found.
pub save_frame_queues :
    (frame_no data_size : ℕ) (d : SaveData) (n : ℕ)
    → find_free d.work_items ≡ some n
    → save_frame frame_no data_size d
      ≡ record d { work_items = set d.work_items n (queued_item frame_no data_size d) }
unfolding save_frame queue_found
save_frame_queues frame_no data_size d n e =
    ap (queue_found frame_no data_size) (get_new_work_item_lem d n e)
    ∙ fill-reset frame_no data_size d n e

-- What a write of the audio engine leaves alone, outside the buffer and the flags.
pub record IsSameOutside (d e : SaveData) : Type 0 where
  pub items : e.work_items ≡ d.work_items
  pub initialized : e.initialized ≡ d.initialized
  pub file_open : e.file_open ≡ d.file_open
  pub file_ptr : e.file_ptr ≡ d.file_ptr
  pub write_disabled : e.write_disabled ≡ d.write_disabled
  pub frame_count : e.frame_count ≡ d.frame_count
  pub frame_size : e.frame_size ≡ d.frame_size
  pub wave_format : e.wave_format ≡ d.wave_format
  pub file_header : e.file_header ≡ d.file_header
  pub data_header : e.data_header ≡ d.data_header

left_over_same :
    (rest : List ℕ) (d : SaveData)
    → IsSameOutside d (left_over rest d) × ((left_over rest d).frame_used ≡ d.frame_used)
unfolding left_over copy
left_over_same [] d = ground arith
left_over_same (x ∷ rest) d = ground arith

pub IsSameOutside-trans :
    (d e f : SaveData) → IsSameOutside d e → IsSameOutside e f → IsSameOutside d f
IsSameOutside-trans d e f p q = record {
  items = q.items ∙ p.items;
  initialized = q.initialized ∙ p.initialized;
  file_open = q.file_open ∙ p.file_open;
  file_ptr = q.file_ptr ∙ p.file_ptr;
  write_disabled = q.write_disabled ∙ p.write_disabled;
  frame_count = q.frame_count ∙ p.frame_count;
  frame_size = q.frame_size ∙ p.frame_size;
  wave_format = q.wave_format ∙ p.wave_format;
  file_header = q.file_header ∙ p.file_header;
  data_header = q.data_header ∙ p.data_header;
}

close_frame_same :
    (chunk : List ℕ) (d : SaveData)
    → IsSameOutside d (close_frame (wrap_offset (copy chunk d)))
      × ((close_frame (wrap_offset (copy chunk d))).frame_used
          ≡ set d.frame_used d.frame_index true)
unfolding copy close_frame wrap_offset
close_frame_same chunk d = ground arith

wrap_offset_same :
    (chunk : List ℕ) (d : SaveData)
    → IsSameOutside d (wrap_offset (copy chunk d))
      × ((wrap_offset (copy chunk d)).frame_used ≡ d.frame_used)
unfolding copy wrap_offset
wrap_offset_same chunk d = ground arith

-- A write touches the buffer and its position; of the flags it sets that of the frame it closes.
pub write_current_same :
    (chunk : List ℕ) (d : SaveData)
    → IsSameOutside d (write_current chunk d)
      × ((write_current chunk d).frame_used
          ≡ (if closes_frame chunk d then set d.frame_used d.frame_index true else d.frame_used))
unfolding write_current closes_frame
write_current_same chunk d = elim (Bool-cases (frame_full (copy part d))) [
  | inl full ↦ rw full (
      let p = close_frame_same part d in
      let q = left_over_same rest (close_frame (wrap_offset (copy part d))) in
      (IsSameOutside-trans d _ _ p.0 q.0, q.1 ∙ p.1))
  | inr more ↦ rw more (
      let p = wrap_offset_same part d in
      let q = left_over_same rest (wrap_offset (copy part d)) in
      (IsSameOutside-trans d _ _ p.0 q.0, q.1 ∙ p.1))
]
  where
    part : List ℕ
    part = take (write_bytes chunk d) chunk

    rest : List ℕ
    rest = drop (write_bytes chunk d) chunk
