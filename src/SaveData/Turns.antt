-- ===== src/SaveData/Turns.antt =====
-- inferno_driver/savedata.cpp, one write of a stream: WriteData from a state where nothing is
-- queued, followed by the system's run of the item that it queued.
use native.Mathlib.Nat.{mod-lt}
use inferno_windows.Prelude.{
  ℕ, ◌*◌, ◌+◌, ◌≤◌, ◌<◌, ◌≡◌, refl, ap, sym, subst, ◌∙◌, arith, Bool, true, false, none, some, List,
  ◌++◌, length, set, get_or, replicate, append_assoc, get_or-replicate, inl, inr, if_true, if_false,
  set_back, slice,
}
use inferno_windows.Kernel.{Kernel, IsReliable}
use inferno_windows.SaveData.State.{SaveData, buffer_of}
use inferno_windows.SaveData.Frames.{find_free, write_current, closes_frame, write_frame}
use inferno_windows.SaveData.Cases.{IsFramed}
use inferno_windows.SaveData.Stream.{unsaved, frame_bytes, next_frame, write_current-KeepsStream}
use inferno_windows.SaveData.Framing.{write_current-IsFramed}
use inferno_windows.SaveData.Items.{
  find_queued, save_frame_queues, write_current_same, IsSameOutside,
}
use inferno_windows.SaveData.Recording.{IsAtEnd}
use inferno_windows.SaveData.Serve.{serve, IsIdle, queued, saved, serve_saves, saved-IsIdle}

-- What a stream's writes leave alone for the end of the stream.
pub record IsSameStream (d e : SaveData) : Type 0 where
  pub frame_size : e.frame_size ≡ d.frame_size
  pub wave_format : e.wave_format ≡ d.wave_format
  pub file_header : e.file_header ≡ d.file_header
  pub data_header : e.data_header ≡ d.data_header

IsSameOutside-IsSameStream : (d e : SaveData) → IsSameOutside d e → IsSameStream d e
IsSameOutside-IsSameStream d e p = record {
  frame_size = p.frame_size;
  wave_format = p.wave_format;
  file_header = p.file_header;
  data_header = p.data_header;
}

pub IsSameStream-trans : (d e f : SaveData) → IsSameStream d e → IsSameStream e f → IsSameStream d f
IsSameStream-trans d e f p q = record {
  frame_size = q.frame_size ∙ p.frame_size;
  wave_format = q.wave_format ∙ p.wave_format;
  file_header = q.file_header ∙ p.file_header;
  data_header = q.data_header ∙ p.data_header;
}

pub IsSameStream-refl : (d : SaveData) → IsSameStream d d
IsSameStream-refl d = record {
  frame_size = refl;
  wave_format = refl;
  file_header = refl;
  data_header = refl;
}

module _ (k : Kernel) (bytes : k.World → List ℕ) (r : IsReliable k bytes) where
  -- A write that closes no frame queues nothing.
  kept :
      (chunk : List ℕ) (d : SaveData) (w : k.World)
      → IsIdle k bytes r d w
      → length chunk ≤ d.frame_size
      → closes_frame chunk d ≡ false
      → IsIdle k bytes r (write_current chunk d) w
  kept chunk d w z n h =
      let (same, used) = write_current_same chunk d in
      record {
        framed = write_current-IsFramed d chunk z.framed n;
        at_end = record {
          ready = same.initialized ∙ z.at_end.ready;
          closed = same.file_open ∙ z.at_end.closed;
          end = same.file_ptr ∙ z.at_end.end;
        };
        enabled = same.write_disabled ∙ z.enabled;
        idle = ap find_queued same.items ∙ z.idle;
        item = z.item;
        free = ap find_free same.items ∙ z.free;
        flags =
            used
            ∙ if_false (closes_frame chunk d) _ _ h
            ∙ z.flags
            ∙ ap (λ (c : ℕ). replicate c false) (sym same.frame_count);
      }

  -- Reads of free frames.
  pub current_free :
      (d : SaveData) (w : k.World) (z : IsIdle k bytes r d w) (i : ℕ)
      → i < d.frame_count
      → get_or d.frame_used i true ≡ false
  current_free d w z i h =
      ap (λ (f : List Bool). get_or f i true) z.flags
      ∙ get_or-replicate d.frame_count i false true h

  -- The object is idle again, and the file and the buffer hold `chunk` more than before.
  abbrev pub Recorded : List ℕ → SaveData → k.World → SaveData × k.World → Type 0
  Recorded chunk d w (e, w') =
      IsIdle k bytes r e w'
      × (bytes w' ++ unsaved e ≡ (bytes w ++ unsaved d) ++ chunk)
      × IsSameStream d e

  pub serve_idle : (d : SaveData) (w : k.World) → IsIdle k bytes r d w → serve k d w ≡ (d, w)
  unfolding serve
  serve_idle d w z = rw (z.idle, serve) refl

  write_frame-Recorded_open :
      (chunk : List ℕ) (d : SaveData) (w : k.World)
      → IsIdle k bytes r d w
      → length chunk ≤ d.frame_size
      → closes_frame chunk d ≡ false
      → unsaved (write_current chunk d) ≡ unsaved d ++ chunk
      → Recorded chunk d w (serve k (write_frame chunk d) w)
  unfolding write_frame
  write_frame-Recorded_open chunk d w z n h s =
      let e = write_current chunk d in
      let after = kept chunk d w z n h in
      let same : serve k (write_frame chunk d) w ≡ (e, w) =
        ap (λ (x : SaveData). serve k x w) (if_false (closes_frame chunk d) _ _ h)
        ∙ serve_idle e w after in
      subst (Recorded chunk d w) (sym same) (
        after,
        ap (◌++◌ (bytes w)) s ∙ sym (append_assoc (bytes w) (unsaved d) chunk),
        IsSameOutside-IsSameStream d e (write_current_same chunk d).0,
      )

  write_frame-Recorded_closed :
      (chunk : List ℕ) (d : SaveData) (w : k.World)
      → IsIdle k bytes r d w
      → length chunk ≤ d.frame_size
      → closes_frame chunk d ≡ true
      → (let e = write_current chunk d in
          frame_bytes d.frame_index e ++ unsaved e ≡ unsaved d ++ chunk)
      → Recorded chunk d w (serve k (write_frame chunk d) w)
  unfolding write_frame
  write_frame-Recorded_closed chunk d w z n h s = subst (Recorded chunk d w) (sym served) (
    saved-IsIdle k bytes r e w i d.frame_size z.item v a idle free inside on whole flags _ done.0,
    stream,
    record {
      frame_size = same.frame_size;
      wave_format = same.wave_format;
      file_header = same.file_header;
      data_header = same.data_header;
    },
  )
    where
      e : SaveData
      e = write_current chunk d

      i : ℕ
      i = d.frame_index

      same : IsSameOutside d e
      same = (write_current_same chunk d).0

      v : IsFramed e
      v = write_current-IsFramed d chunk z.framed n

      a : IsAtEnd k bytes r e w
      a = record {
        ready = same.initialized ∙ z.at_end.ready;
        closed = same.file_open ∙ z.at_end.closed;
        end = same.file_ptr ∙ z.at_end.end;
      }

      idle : find_queued e.work_items ≡ none
      idle = ap find_queued same.items ∙ z.idle

      free : find_free e.work_items ≡ some z.item
      free = ap find_free same.items ∙ z.free

      inside : i < e.frame_count
      inside = omega (arith, same.frame_count, z.framed.index)

      on : e.write_disabled ≡ false
      on = same.write_disabled ∙ z.enabled

      whole : d.frame_size ≤ e.frame_size
      whole = omega (arith, same.frame_size)

      used : e.frame_used ≡ set d.frame_used i true
      used = (write_current_same chunk d).1 ∙ if_true (closes_frame chunk d) _ _ h

      flags : set e.frame_used i false ≡ replicate e.frame_count false
      flags =
          ap (λ (f : List Bool). set f i false) used
          ∙ set_back d.frame_used i true false true (omega (arith, z.framed.flags, z.framed.index))
              (current_free d w z i z.framed.index)
          ∙ z.flags
          ∙ ap (λ (c : ℕ). replicate c false) (sym same.frame_count)

      q : SaveData
      q = queued k bytes r e w i d.frame_size z.item v a idle free inside on whole flags

      queue : write_frame chunk d ≡ q
      queue = if_true (closes_frame chunk d) _ _ h ∙ save_frame_queues i d.frame_size e z.item free

      done :
          (bytes (serve k q w).1
            ≡ bytes w ++ slice (i * e.frame_size) d.frame_size (buffer_of e.data_buffer))
          × ((serve k q w).0
              ≡ saved k bytes r e w i d.frame_size z.item v a idle free inside on whole flags)
      done = serve_saves k bytes r e w i d.frame_size z.item v a idle free inside on whole flags

      served : serve k (write_frame chunk d) w ≡ (
        saved k bytes r e w i d.frame_size z.item v a idle free inside on whole flags,
        (serve k q w).1,
      )
      served = ap (λ (x : SaveData). serve k x w) queue ∙ λ j. (done.1 j, (serve k q w).1)

      stream : bytes (serve k q w).1 ++ unsaved e ≡ (bytes w ++ unsaved d) ++ chunk
      stream =
          ap (λ (b : List ℕ). b ++ unsaved e) done.0
          ∙ append_assoc (bytes w) _ (unsaved e)
          ∙ ap
              (λ (t : ℕ).
                bytes w ++ (slice (i * e.frame_size) t (buffer_of e.data_buffer) ++ unsaved e))
              (sym same.frame_size)
          ∙ ap (◌++◌ (bytes w)) s
          ∙ sym (append_assoc (bytes w) (unsaved d) chunk)

  pub write_frame-Recorded :
      (chunk : List ℕ) (d : SaveData) (w : k.World)
      → IsIdle k bytes r d w
      → length chunk ≤ d.frame_size
      → Recorded chunk d w (serve k (write_frame chunk d) w)
  write_frame-Recorded chunk d w z n =
      elim (write_current-KeepsStream d chunk z.framed n
        (current_free d w z (next_frame d) below)) [
          | inl (h, s) ↦ write_frame-Recorded_open chunk d w z n h s
          | inr (h, s) ↦ write_frame-Recorded_closed chunk d w z n h s
        ]
    where
      below : next_frame d < d.frame_count
      below = mod-lt (d.frame_index + 1) (omega (arith, z.framed.several))
