-- ===== src/SaveData/Lifetime.antt =====
-- inferno_driver/savedata.cpp, the life of a stream: the file that Initialize makes, the writes,
-- WaitAllWorkItems and the destructor.
use mathlib.Core.List.{flatten}
use inferno_windows.Prelude.{
  ℕ, ◌+◌, ◌-◌, ◌*◌, ◌≤◌, ◌<◌, ◌^◌, ◌≡◌, refl, ap, sym, ◌∙◌, subst, arith, true, false, none, some,
  List, [], ◌++◌, length, take, drop, replicate, append-nil, if_true, length-append, length-take,
  slice, slice-zero,
}
use inferno_windows.Status.{is_success}
use inferno_windows.Shm.{Shm}
use inferno_windows.Kernel.{Kernel, IsReliable}
use inferno_windows.SaveData.State.{SaveData, data_header_bytes, buffer_of}
use inferno_windows.SaveData.Cases.{IsFramed}
use inferno_windows.SaveData.Frames.{find_free}
use inferno_windows.SaveData.Items.{find_queued}
use inferno_windows.SaveData.Files.{Outcome, format_length, flush}
use inferno_windows.SaveData.Serve.{serve, IsIdle}
use inferno_windows.SaveData.Stream.{unsaved}
use inferno_windows.SaveData.Playback.{record_all, AllFit, record_all-Recorded}
use inferno_windows.SaveData.Turns.{Recorded}
use inferno_windows.SaveData.Session.{Flushed, flushed}
use inferno_windows.SaveData.Setup.{create_data_file, header_session, destroy}
use inferno_windows.SaveData.Headers.{header_bytes, with_length}
use inferno_windows.SaveData.Wave.{Headed, header_session_lem, drop-nil}
use inferno_windows.SaveData.Closing.{fresh_header, fresh_data, wave_file, destroyed}

-- A stream before its file is made: the memory of Initialize and the format are there, and nothing
-- has been written.
pub record IsFresh (format : List ℕ) (d : SaveData) : Type 0 where
  pub framed : IsFramed d
  pub offset : d.buffer_offset ≡ 0
  pub closed : d.file_open ≡ false
  pub enabled : d.write_disabled ≡ false
  pub idle : find_queued d.work_items ≡ none
  pub item : ℕ
  pub free : find_free d.work_items ≡ some item
  pub flags : d.frame_used ≡ replicate d.frame_count false
  pub wave_format : d.wave_format ≡ some format
  pub long : format_length format ≤ length format
  pub file_header : with_length d.file_header format ≡ fresh_header (format_length format)
  pub data_header : d.data_header ≡ fresh_data

module _ (k : Kernel) (bytes : k.World → List ℕ) (r : IsReliable k bytes) where
  -- What the making of the file leaves.
  abbrev Created : List ℕ → SaveData → Outcome k → Type 0
  Created format d (status, e, w) =
      IsIdle k bytes r e w
      × (unsaved e ≡ [])
      × (e.wave_format ≡ some format)
      × (e.file_header ≡ fresh_header (format_length format))
      × (e.data_header ≡ fresh_data)
      × (e.frame_size ≡ d.frame_size)
      × (bytes w ≡ header_bytes (fresh_header (format_length format)) format fresh_data)

  created :
      (format : List ℕ) (d : SaveData) (w : k.World)
      → IsFresh format d
      → Created format d (create_data_file k d w)
  unfolding create_data_file
  created format d w f = subst (Created format d) (sym session) (
      subst (λ (e : SaveData). Created format d (out.0, e, out.2)) (sym state)
        (idle, nothing, f.wave_format, refl, f.data_header, refl, contents))
    where
      e₀ : SaveData
      e₀ = record d { file_ptr = some 0; initialized = true }

      w₁ : k.World
      w₁ = (k.wait_mutex w).1

      out : Outcome k
      out = header_session k true e₀ w₁

      session : create_data_file k d w ≡ out
      session = if_true (is_success (k.wait_mutex w).0) _ _ (r.locks w)

      h : Headed k bytes r format e₀ (bytes (k.create_file true w₁).1) out
      h = header_session_lem k bytes r true format 0 e₀ w₁ refl f.closed f.wave_format refl f.long

      n : ℕ
      n = format_length format

      e₁ : SaveData
      e₁ = record e₀ {
        file_ptr = some (20 + n + 8);
        file_header = fresh_header n;
        file_open = false;
      }

      state : out.1 ≡ e₁
      state = h.1 ∙ λ i. record e₁ { file_header = f.file_header i }

      contents : bytes out.2 ≡ header_bytes (fresh_header n) format fresh_data
      contents =
          h.2
          ∙ (λ i.
              header_bytes (f.file_header i) format (f.data_header i)
              ++ drop 8 (drop n (drop 20 (r.open_empties w₁ i))))
          ∙ ap (λ (t : List ℕ). header_bytes (fresh_header n) format fresh_data ++ drop 8 t)
              (drop-nil n)
          ∙ append-nil _

      size : 20 + n + 8 ≡ length (bytes out.2)
      size = omega (
        arith,
        ap length contents,
        f.long,
        length-take {0} n format,
        length-append {0} (take n format) (data_header_bytes fresh_data),
      )

      idle : IsIdle k bytes r e₁ out.2
      idle = record {
        framed = record {
          size = f.framed.size;
          narrow = f.framed.narrow;
          several = f.framed.several;
          index = f.framed.index;
          above = f.framed.above;
          below = f.framed.below;
          flags = f.framed.flags;
          memory = f.framed.memory;
        };
        at_end = record { ready = refl; closed = refl; end = ap some size };
        enabled = f.enabled;
        idle = f.idle;
        item = f.item;
        free = f.free;
        flags = f.flags;
      }

      nothing : unsaved e₁ ≡ []
      nothing =
          ap (λ (m : ℕ). slice (d.frame_index * d.frame_size) m (buffer_of d.data_buffer)) none_wait
          ∙ slice-zero (d.frame_index * d.frame_size) (buffer_of d.data_buffer)
        where
          none_wait : d.buffer_offset - d.frame_index * d.frame_size ≡ 0
          none_wait = omega (arith, f.offset)

  -- From the making of its file to the destructor, a stream whose chunks each fit in a frame leaves
  -- on a reliable volume a wave file of its format and of all bytes that were written, in their
  -- order, if it stays below 4 GB and the system runs each queued item before the next call.
  pub lifetime :
      (format : List ℕ) (chunks : List (List ℕ)) (d : SaveData) (s : Shm) (w : k.World)
      → IsFresh format d
      → AllFit d.frame_size chunks
      → 28 + format_length format + length (flatten chunks) < 2 ^ 32
      → let (_, d₁, w₁) = create_data_file k d w in
        let (d₂, _, w₂) = record_all k chunks (d₁, s, w₁) in
        let (d₃, w₃) = serve k (flush d₂) w₂ in
        bytes (destroy k d₃ w₃).1 ≡ wave_file (take (format_length format) format) (flatten chunks)
  lifetime format chunks d s w f fit narrow =
      destroyed k bytes r format (flatten chunks) c.0 c.1 q.0.at_end
        (q.2.wave_format ∙ p.2.wave_format ∙ z.2) f.long (q.2.file_header ∙ p.2.file_header ∙ z.3)
        (q.2.data_header ∙ p.2.data_header ∙ z.4) stream narrow
    where
      a : Outcome k
      a = create_data_file k d w

      z : Created format d a
      z = created format d w f

      b : SaveData × Shm × k.World
      b = record_all k chunks (a.1, s, a.2)

      p : Recorded k bytes r (flatten chunks) a.1 a.2 (b.0, b.2)
      p =
          record_all-Recorded k bytes r chunks a.1 s a.2 z.0
            (subst (λ (n : ℕ). AllFit n chunks) (sym z.5) fit)

      c : SaveData × k.World
      c = serve k (flush b.0) b.2

      q : Flushed k bytes r b.0 b.2 c
      q = flushed k bytes r b.0 b.2 p.0

      stream :
          bytes c.1
          ≡ header_bytes (fresh_header (format_length format)) format fresh_data ++ flatten chunks
      stream =
          q.1
          ∙ p.1
          ∙ ap (λ (t : List ℕ). (bytes a.2 ++ t) ++ flatten chunks) z.1
          ∙ ap (λ (t : List ℕ). t ++ flatten chunks) (append-nil (bytes a.2) ∙ z.6)
