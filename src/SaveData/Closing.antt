-- ===== src/SaveData/Closing.antt =====
-- inferno_driver/savedata.cpp, the destructor: the sizes that it puts into the header of the file.
use inferno_windows.Prelude.{
  ℕ, ◌+◌, ◌%◌, ◌^◌, ◌≤◌, ◌<◌, ◌≡◌, ap, ◌∙◌, arith, false, Option, none, some, List, [], ◌++◌,
  length, take, drop, append_assoc, length-append, length-take, if_true, drop-append, dword,
}
use inferno_windows.Status.{is_success}
use inferno_windows.Kernel.{Kernel, IsReliable}
use inferno_windows.SaveData.State.{
  SaveData, FileHeader, DataHeader, file_header_bytes, data_header_bytes,
}
use inferno_windows.SaveData.Files.{format_length, position}
use inferno_windows.SaveData.Recording.{IsAtEnd}
use inferno_windows.SaveData.Setup.{
  destroy, rewrite_header, header_session, final_headers, free_memory, destroy_work_items,
}
use inferno_windows.SaveData.Headers.{header_bytes, with_length}
use inferno_windows.SaveData.Wave.{header_session_lem}

-- The headers as the constructor and a format make them.
abbrev pub fresh_header : ℕ → FileHeader
fresh_header n = record {
  riff = 0x46464952;
  file_size = 0;
  wave = 0x45564157;
  format = 0x20746D66;
  format_length = n;
}

abbrev pub fresh_data : DataHeader
fresh_data = record { tag = 0x61746164; data_length = 0 }

-- A RIFF file of wave data: the tag, the size of all that follows it, and the chunks of the format
-- and of the data, each with its tag and its size.
abbrev pub wave_file : List ℕ → List ℕ → List ℕ
wave_file format samples =
    dword 0x46464952
    ++ (dword (4 + (8 + length format) + (8 + length samples))
        ++ (dword 0x45564157
            ++ (dword 0x20746D66
                ++ (dword (length format)
                    ++ (format ++ (dword 0x61746164 ++ (dword (length samples) ++ samples)))))))

-- What stands behind a header.
drop_header :
    (h : FileHeader) (format : List ℕ) (g : DataHeader) (rest : List ℕ)
    → format_length format ≤ length format
    → drop 8 (drop (format_length format) (drop 20 (header_bytes h format g ++ rest))) ≡ rest
drop_header h format g rest long =
    ap (λ (t : List ℕ). drop 8 (drop n t)) (append_assoc f (data_header_bytes g) rest)
    ∙ ap (drop 8) (drop-append f (data_header_bytes g ++ rest) n 0 whole)
  where
    n : ℕ
    n = format_length format

    f : List ℕ
    f = take n format

    whole : n ≡ length f + 0
    whole = omega (arith, length-take {0} n format, long)

-- Headers with the sizes of their file are those of the wave file.
layout :
    (size m : ℕ) (format samples : List ℕ)
    → let n = format_length format in
      n ≤ length format
      → size ≡ 20 + n + length samples
      → m ≡ length samples
      → header_bytes
            (record (fresh_header n) { file_size = size })
            format
            (record fresh_data { data_length = m })
          ++ samples
        ≡ wave_file (take n format) samples
layout size m format samples long e f =
    append_assoc file (t ++ data_header_bytes g) samples
    ∙ ap (◌++◌ file) (append_assoc t (data_header_bytes g) samples)
    ∙ λ i.
        dword 0x46464952
        ++ (dword (whole i)
            ++ (dword 0x45564157
                ++ (dword 0x20746D66
                    ++ (dword (part i) ++ (t ++ (dword 0x61746164 ++ (dword (f i) ++ samples)))))))
  where
    n : ℕ
    n = format_length format

    t : List ℕ
    t = take n format

    g : DataHeader
    g = record fresh_data { data_length = m }

    file : List ℕ
    file = file_header_bytes (record (fresh_header n) { file_size = size })

    part : n ≡ length t
    part = omega (arith, length-take {0} n format, long)

    whole : size ≡ 4 + (8 + length t) + (8 + length samples)
    whole = omega (arith, e, part)

module _ (k : Kernel) (bytes : k.World → List ℕ) (r : IsReliable k bytes) where
  -- On a reliable volume, with the file closed and the file pointer at its end, the destructor
  -- turns a file whose header was written before its samples into a wave file of the samples, if
  -- the file is below 4 GB.
  pub destroyed :
      (format samples : List ℕ) (d : SaveData) (w : k.World)
      → IsAtEnd k bytes r d w
      → d.wave_format ≡ some format
      → format_length format ≤ length format
      → d.file_header ≡ fresh_header (format_length format)
      → d.data_header ≡ fresh_data
      → bytes w ≡ header_bytes (fresh_header (format_length format)) format fresh_data ++ samples
      → 28 + format_length format + length samples < 2 ^ 32
      → bytes (destroy k d w).1 ≡ wave_file (take (format_length format) format) samples
  unfolding destroy destroy_work_items rewrite_header
  destroyed format samples d w a f long fh dh b fits =
      ap bytes (start ∙ locked)
      ∙ (header_session_lem k bytes r false format p D w₁ a.ready a.closed f a.end long).2
      ∙ ap (◌++◌ (header_bytes h format g)) behind
      ∙ (λ i.
          header_bytes (with_length (record (fh i) { file_size = size }) format) format
            (record (dh i) { data_length = m })
          ++ samples)
      ∙ layout size m format samples long (omega (arith, end))
          (omega (arith, end, ap (λ x. x.format_length) fh))
    where
      n : ℕ
      n = format_length format

      p : ℕ
      p = length (bytes w)

      D : SaveData
      D = final_headers k (record d { work_items = [] })

      h : FileHeader
      h = with_length D.file_header format

      g : DataHeader
      g = D.data_header

      size : ℕ
      size = D.file_header.file_size

      m : ℕ
      m = D.data_header.data_length

      w₁ : k.World
      w₁ = (k.wait_mutex w).1

      X : SaveData × k.World
      X = rewrite_header k D w

      start : (destroy k d w).1 ≡ X.1
      start =
          ap
            (λ (o : Option ℕ).
              (elim o as (λ (_ : Option ℕ). SaveData × k.World) [
                | none ↦ (free_memory k (record d { work_items = [] }), w)
                | some _ ↦ (free_memory k X.0, X.1)
              ]).1)
            a.end

      locked : X.1 ≡ (header_session k false D w₁).2
      locked =
          ap (λ (t : SaveData × k.World). t.1)
            (if_true (is_success (k.wait_mutex w).0) _ _ (r.locks w))

      end : position d % 2 ^ 32 ≡ 28 + n + length samples
      end = omega (
        arith,
        at,
        ap length b,
        long,
        fits,
        length-append {0} (t ++ data_header_bytes fresh_data) samples,
        length-append {0} t (data_header_bytes fresh_data),
        length-take {0} n format,
      )
        where
          t : List ℕ
          t = take n format

          at : position d ≡ p
          at =
              ap (λ (o : Option ℕ). elim o as (λ (_ : Option ℕ). ℕ) [ none ↦ 0 | some q ↦ q ]) a.end

      behind : drop 8 (drop n (drop 20 (bytes (k.create_file false w₁).1))) ≡ samples
      behind =
          ap (λ (t : List ℕ). drop 8 (drop n (drop 20 t))) (r.open_keeps w₁ ∙ r.lock_keeps w ∙ b)
          ∙ drop_header (fresh_header n) format fresh_data samples long
