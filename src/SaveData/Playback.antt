-- ===== src/SaveData/Playback.antt =====
-- inferno_driver/savedata.cpp, a stream: calls of WriteData, each followed by the system's run of
-- the item that it queued.
use inferno_windows.Prelude.{
  ℕ, ◌≤◌, ◌≡◌, refl, ap, sym, subst, ◌∙◌, arith, false, List, [], ◌∷◌, ◌++◌, length, append_assoc,
  take-all, append-nil,
}
use inferno_windows.Shm.{Shm}
use inferno_windows.Kernel.{Kernel, IsReliable}
use inferno_windows.SaveData.State.{SaveData}
use inferno_windows.SaveData.Frames.{write_frame, write_data, current_used}
use inferno_windows.SaveData.Stream.{unsaved}
use inferno_windows.SaveData.Framing.{write_data-skips, write_data-write_frame}
use mathlib.Core.List.{flatten}
use inferno_windows.SaveData.Serve.{serve, IsIdle}
use inferno_windows.SaveData.Turns.{
  IsSameStream-trans, IsSameStream-refl, Recorded, current_free, serve_idle, write_frame-Recorded,
}

-- One write, and the system's turn.
unfoldable pub record_chunk :
    (k : Kernel) → List ℕ → SaveData × Shm × k.World → SaveData × Shm × k.World
record_chunk k chunk (d, s, w) =
    let (d', s') = write_data chunk (d, s) in let (d'', w') = serve k d' w in (d'', s', w')

unfoldable pub record_all :
    (k : Kernel) → List (List ℕ) → SaveData × Shm × k.World → SaveData × Shm × k.World
record_all k [] t = t
record_all k (c ∷ chunks) t = record_all k chunks (record_chunk k c t)

-- No chunk is longer than `n`.
abbrev pub AllFit : ℕ → List (List ℕ) → Type 0
AllFit n [] = Unit {0}
AllFit n (c ∷ chunks) = (length c ≤ n) × AllFit n chunks

module _ (k : Kernel) (bytes : k.World → List ℕ) (r : IsReliable k bytes) where
  -- A write of any size up to a frame, with the system's turn behind it.
  record_chunk-Recorded :
      (chunk : List ℕ) (d : SaveData) (s : Shm) (w : k.World)
      → IsIdle k bytes r d w
      → length chunk ≤ d.frame_size
      → let (e, s', w') = record_chunk k chunk (d, s, w) in Recorded k bytes r chunk d w (e, w')
  unfolding record_chunk
  record_chunk-Recorded [] d s w z n =
      subst (λ (x : SaveData). Recorded k bytes r [] d w (serve k x w)) (sym skipped)
        (subst (Recorded k bytes r [] d w) (sym (serve_idle k bytes r d w z))
          (z, sym (append-nil _), IsSameStream-refl d))
    where
      skipped : (write_data [] (d, s)).0 ≡ d
      skipped = ap (λ (t : SaveData × Shm). t.0) (write_data-skips [] d s (rw z.enabled refl))
  record_chunk-Recorded (x ∷ c) d s w z n =
      subst (λ (e : SaveData). Recorded k bytes r (x ∷ c) d w (serve k e w)) (sym written)
        (write_frame-Recorded k bytes r (x ∷ c) d w z n)
    where
      current : current_used d ≡ false
      current = current_free k bytes r d w z d.frame_index z.framed.index

      written : (write_data (x ∷ c) (d, s)).0 ≡ write_frame (x ∷ c) d
      written =
          ap (λ (t : SaveData × Shm). t.0)
            (write_data-write_frame (x ∷ c) d s (rw (z.enabled, current) (ground arith)))
          ∙ ap (λ (b : List ℕ). write_frame b d) (take-all d.frame_size (x ∷ c) n)

  -- The file and the buffer hold the whole stream: on a reliable volume, from an idle object, after
  -- writes of up to a frame each, with the system's turn behind each, what the file holds, followed
  -- by the bytes of the current frame, is what they held before, followed by the chunks in their
  -- order; the object is idle again, and its sizes, format and headers are as they were.
  pub record_all-Recorded :
      (chunks : List (List ℕ)) (d : SaveData) (s : Shm) (w : k.World)
      → IsIdle k bytes r d w
      → AllFit d.frame_size chunks
      → let (e, s', w') = record_all k chunks (d, s, w) in
        Recorded k bytes r (flatten chunks) d w (e, w')
  unfolding record_all flatten
  record_all-Recorded [] d s w z f = (z, sym (append-nil _), IsSameStream-refl d)
  record_all-Recorded (c ∷ chunks) d s w z f =
      let (e, s', w') = record_chunk k c (d, s, w) in
      let first = record_chunk-Recorded c d s w z f.0 in
      let rest =
        record_all-Recorded chunks e s' w' first.0
          (subst (λ n. AllFit n chunks) (sym first.2.frame_size) f.1) in
      (
        rest.0,
        rest.1
            ∙ ap (λ (b : List ℕ). b ++ flatten chunks) first.1
            ∙ append_assoc (bytes w ++ unsaved d) c (flatten chunks),
        IsSameStream-trans d e _ first.2 rest.2,
      )
