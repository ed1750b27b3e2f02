-- ===== src/SaveData/Session.antt =====
-- inferno_driver/savedata.cpp, WaitAllWorkItems: the partial frame at the end of a stream.
use inferno_windows.Prelude.{
  ℕ, ◌-◌, ◌*◌, ◌≤◌, ◌<◌, ◌≡◌, refl, ap, sym, ◌∙◌, subst, arith, Bool, false, List, [], ◌++◌, set,
  replicate, append-nil, if_true, if_false, sub32, mul32, slice, slice-zero, ltb, dec_lt, lt→ltb,
  if◌then◌else◌, set-replicate,
}
use inferno_windows.Kernel.{Kernel, IsReliable}
use inferno_windows.SaveData.State.{SaveData, buffer_of}
use inferno_windows.SaveData.Cases.{frame_end}
use inferno_windows.SaveData.Stream.{unsaved}
use inferno_windows.SaveData.Frames.{save_frame}
use inferno_windows.SaveData.Files.{flush}
use inferno_windows.SaveData.Items.{save_frame_queues}
use inferno_windows.SaveData.Serve.{serve, IsIdle, queued, saved, serve_saves, saved-IsIdle}
use inferno_windows.SaveData.Turns.{IsSameStream, serve_idle, IsSameStream-refl}

module _ (k : Kernel) (bytes : k.World → List ℕ) (r : IsReliable k bytes) where
  -- What the flush and the system's turn leave.
  abbrev pub Flushed : SaveData → k.World → SaveData × k.World → Type 0
  Flushed d w (e, w') = IsIdle k bytes r e w' × (bytes w' ≡ bytes w ++ unsaved d) × IsSameStream d e

  flush_something :
      (d : SaveData) (w : k.World)
      → IsIdle k bytes r d w
      → d.frame_index * d.frame_size < d.buffer_offset
      → Flushed d w (serve k (flush d) w)
  unfolding flush
  flush_something d w z h = subst (Flushed d w) (sym served) (
    saved-IsIdle k bytes r d w i m z.item z.framed z.at_end z.idle z.free inside z.enabled part
        flags _ done.0,
    done.0,
    record { frame_size = refl; wave_format = refl; file_header = refl; data_header = refl },
  )
    where
      i : ℕ
      i = d.frame_index

      m : ℕ
      m = d.buffer_offset - i * d.frame_size

      inside : i < d.frame_count
      inside = z.framed.index

      part : m ≤ d.frame_size
      part = omega (arith, z.framed.below)

      flags : set d.frame_used i false ≡ replicate d.frame_count false
      flags = ap (λ (f : List Bool). set f i false) z.flags ∙ set-replicate d.frame_count i false

      start : mul32 i d.frame_size ≡ i * d.frame_size
      start = omega (arith, frame_end d z.framed, z.framed.narrow)

      size : sub32 d.buffer_offset (i * d.frame_size) ≡ m
      size = omega (arith, h, frame_end d z.framed, z.framed.narrow, z.framed.below)

      q : SaveData
      q =
          queued k bytes r d w i m z.item z.framed z.at_end z.idle z.free inside z.enabled part
            flags

      queue : flush d ≡ q
      queue =
          ap
            (λ (t : ℕ).
              if ltb t d.buffer_offset then save_frame i (sub32 d.buffer_offset t) d else d)
            start
          ∙ if_true (ltb (i * d.frame_size) d.buffer_offset) _ _ (lt→ltb _ _ h)
          ∙ ap (λ (t : ℕ). save_frame i t d) size
          ∙ save_frame_queues i m d z.item z.free

      done :
          (bytes (serve k q w).1 ≡ bytes w ++ unsaved d)
          × ((serve k q w).0
              ≡ saved k bytes r d w i m z.item z.framed z.at_end z.idle z.free inside z.enabled part
                  flags)
      done =
          serve_saves k bytes r d w i m z.item z.framed z.at_end z.idle z.free inside z.enabled part
            flags

      served : serve k (flush d) w ≡ (
        saved k bytes r d w i m z.item z.framed z.at_end z.idle z.free inside z.enabled part flags,
        (serve k q w).1,
      )
      served = ap (λ (x : SaveData). serve k x w) queue ∙ λ j. (done.1 j, (serve k q w).1)

  flush_nothing :
      (d : SaveData) (w : k.World)
      → IsIdle k bytes r d w
      → d.buffer_offset ≡ d.frame_index * d.frame_size
      → Flushed d w (serve k (flush d) w)
  unfolding flush
  flush_nothing d w z h =
      subst (Flushed d w) (sym served)
        (z, sym (append-nil _) ∙ ap (◌++◌ (bytes w)) (sym nothing), IsSameStream-refl d)
    where
      nothing : unsaved d ≡ []
      nothing =
          ap (λ (n : ℕ). slice (d.frame_index * d.frame_size) n (buffer_of d.data_buffer)) zero_left
          ∙ slice-zero (d.frame_index * d.frame_size) (buffer_of d.data_buffer)
        where
          zero_left : d.buffer_offset - d.frame_index * d.frame_size ≡ 0
          zero_left = omega (arith, h)

      start : mul32 d.frame_index d.frame_size ≡ d.buffer_offset
      start = omega (arith, h, frame_end d z.framed, z.framed.narrow)

      served : serve k (flush d) w ≡ (d, w)
      served =
          ap (λ (x : SaveData). serve k x w)
            (if_false (ltb (mul32 d.frame_index d.frame_size) d.buffer_offset) _ _
              (rw start (ground arith)))
          ∙ serve_idle k bytes r d w z

  -- On a reliable volume, from an idle object, the flush and the system's turn append the bytes
  -- that wait in the current frame to the file; the object is idle again, and its sizes, format and
  -- headers are as they were.
  pub flushed :
      (d : SaveData) (w : k.World) → IsIdle k bytes r d w → Flushed d w (serve k (flush d) w)
  flushed d w z = elim (dec_lt (d.frame_index * d.frame_size) d.buffer_offset) [
    | yes h ↦ flush_something d w z h
    | no h ↦ flush_nothing d w z (omega (arith, h, z.framed.above))
  ]
