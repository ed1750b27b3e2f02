-- ===== src/SaveData/Recording.antt =====
-- The file that a stream records, on a volume that takes every request.
use mathlib.Core.Option
use inferno_windows.Prelude.{
  if_true, ℕ, ◌+◌, ◌≡◌, refl, ap, sym, ◌∙◌, arith, Bool, true, false, some, List, ◌++◌, length,
  get_or, slice,
}
use inferno_windows.Status.{is_success}
use inferno_windows.Kernel.{Kernel, IsReliable, write_extends}
use inferno_windows.SaveData.State.{SaveData, WorkItem, no_item, buffer_of}
use inferno_windows.SaveData.Files.{
  save_frame_worker, save_locked, save_item, file_open, file_write, file_close, advance, position,
  free_frame, finish_item,
}

abbrev pub with_file : Bool → SaveData → SaveData
with_file b d = record d { file_open = b }

module _ (k : Kernel) (bytes : k.World → List ℕ) (r : IsReliable k bytes) where
  -- The object between streams of writes: ready to open the file and to append to it.
  pub record IsAtEnd (d : SaveData) (w : k.World) : Type 0 where
    pub ready : d.initialized ≡ true
    pub closed : d.file_open ≡ false
    pub end : d.file_ptr ≡ some (length (bytes w))

  pub file_open_lem :
      (o : Bool) (d : SaveData) (w : k.World)
      → d.initialized ≡ true
      → d.file_open ≡ false
      → file_open k o d w ≡ ((k.create_file o w).0, with_file true d, (k.create_file o w).1)
  unfolding file_open
  file_open_lem o d w ready closed = ground (arith, r.opens o w)

  file_write_lem :
      (c : List ℕ) (n : ℕ) (d : SaveData) (w : k.World)
      → d.file_open ≡ true
      → file_write k c n d w
        ≡ ((k.write_file (position d) c w).0, advance n d, (k.write_file (position d) c w).1)
  unfolding file_write
  file_write_lem c n d w open_ = ground (arith, r.writes (position d) c w)

  pub file_close_lem :
      (d : SaveData) (w : k.World)
      → d.file_open ≡ true
      → file_close k d w ≡ ((k.close_file w).0, with_file false d, (k.close_file w).1)
  unfolding file_close
  file_close_lem d w open_ = ground arith

  save_item_appends :
      (i : WorkItem) (d : SaveData) (w : k.World)
      → IsAtEnd d w
      → (bytes (save_item k i d w).1
          ≡ bytes w ++ slice i.start i.data_size (buffer_of d.data_buffer))
        × ((save_item k i d w).0 ≡ advance i.data_size d)
  unfolding save_item
  save_item_appends i d w e =
      rw
        (
          file_open_lem false d w e.ready e.closed,
          r.opens false w,
          file_write_lem _ i.data_size (with_file true d) (k.create_file false w).1 refl,
          file_close_lem (advance i.data_size (with_file true d)) _ refl,
        )
        (
          contents,
          λ j. record d {
            file_ptr = Option.map (λ p. p + i.data_size) d.file_ptr;
            file_open = sym e.closed j;
          },
        )
    where
      c : List ℕ
      c = slice i.start i.data_size (buffer_of d.data_buffer)

      at : position d ≡ length (bytes (k.create_file false w).1)
      at = rw (e.end, r.open_keeps w) refl

      contents :
          bytes (k.close_file (k.write_file (position d) c (k.create_file false w).1).1).1
          ≡ bytes w ++ c
      contents =
          r.close_keeps _
          ∙ rw at (write_extends k bytes r c (k.create_file false w).1)
          ∙ ap (λ (t : List ℕ). t ++ c) (r.open_keeps w)

  save_locked_lem :
      (i : WorkItem) (d : SaveData) (w : k.World)
      → let saved = save_item k i d (k.wait_mutex w).1 in
        save_locked k i d w ≡ (free_frame k i.frame_no saved.0, saved.1)
  unfolding save_locked
  save_locked_lem i d w = if_true (is_success (k.wait_mutex w).0) _ _ (r.locks w)

  save_frame_worker_lem :
      (n : ℕ) (d : SaveData) (w : k.World)
      → let i = get_or d.work_items n no_item in
        i.allocated ≡ true
        → let saved = save_item k i d (k.wait_mutex w).1 in
          save_frame_worker k n d w ≡ (finish_item k n (free_frame k i.frame_no saved.0), saved.1)
  unfolding save_frame_worker
  save_frame_worker_lem n d w a =
      let i = get_or d.work_items n no_item in
      if_true i.allocated _ _ a
      ∙ ap (λ (p : SaveData × k.World). (finish_item k n p.0, p.1)) (save_locked_lem i d w)

  -- On a reliable volume, with the file closed and the file pointer at its end, the worker of an
  -- item that has a work item appends the item's bytes to the file, moves the pointer on by their
  -- number, gives the frame back and signals the item.
  pub save_frame_worker_appends :
      (n : ℕ) (d : SaveData) (w : k.World)
      → (get_or d.work_items n no_item).allocated ≡ true
      → IsAtEnd d w
      → let i = get_or d.work_items n no_item in
        (bytes (save_frame_worker k n d w).1
          ≡ bytes w ++ slice i.start i.data_size (buffer_of d.data_buffer))
        × ((save_frame_worker k n d w).0
            ≡ finish_item k n (free_frame k i.frame_no (advance i.data_size d)))
  save_frame_worker_appends n d w a e =
      let i = get_or d.work_items n no_item in
      let c = slice i.start i.data_size (buffer_of d.data_buffer) in
      let same = r.lock_keeps w in
      let saved = save_item_appends i d (k.wait_mutex w).1 (record {
        ready = e.ready;
        closed = e.closed;
        end = e.end ∙ ap (λ (b : List ℕ). some (length b)) (sym same);
      }) in
      let ran = save_frame_worker_lem n d w a in
      (
        ap (λ (p : SaveData × k.World). bytes p.1) ran ∙ saved.0 ∙ ap (λ (b : List ℕ). b ++ c) same,
        ap (λ (p : SaveData × k.World). p.0) ran
            ∙ ap (λ (x : SaveData). finish_item k n (free_frame k i.frame_no x)) saved.1,
      )
