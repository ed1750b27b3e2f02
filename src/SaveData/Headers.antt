-- ===== src/SaveData/Headers.antt =====
-- The header of the data file: FileWriteHeader on a volume that takes every request.
use mathlib.Core.Path.{ap₂}
use inferno_windows.Prelude.{
  ℕ, ◌+◌, ◌≤◌, ◌≡◌, refl, ap, sym, ◌∙◌, arith, true, some, List, [], ◌++◌, length, take, drop,
  append_assoc, length-append, length-take, take-append, drop-append,
}
use inferno_windows.Status.{nt_success}
use inferno_windows.Kernel.{Kernel, IsReliable}
use inferno_windows.SaveData.State.{
  SaveData, FileHeader, DataHeader, file_header_bytes, data_header_bytes,
}
use inferno_windows.SaveData.Files.{write_headers, write_part, format_length}

-- The header part of a file.
abbrev pub header_bytes : FileHeader → List ℕ → DataHeader → List ℕ
header_bytes h format g =
    file_header_bytes h ++ (take (format_length format) format ++ data_header_bytes g)

abbrev pub with_length : FileHeader → List ℕ → FileHeader
with_length h format = record h { format_length = format_length format }

abbrev pub at_position : ℕ → SaveData → SaveData
at_position p d = record d { file_ptr = some p }

module _ (k : Kernel) (bytes : k.World → List ℕ) (r : IsReliable k bytes) where
  -- A write behind the part `a` of a file.
  write_behind :
      (a b c : List ℕ) (o : ℕ) (w : k.World)
      → bytes w ≡ a ++ b
      → o ≡ length a
      → bytes (k.write_file o c w).1 ≡ (a ++ c) ++ drop (length c) b
  write_behind a b c o w e f =
      r.write_at o c w (omega (arith, f, ap length e, length-append {0} a b))
      ∙ ap₂ ◌++◌ (ap (take o) e ∙ take-append a b o f) (
          ap (λ (t : List ℕ). c ++ drop (o + length c) t) e
          ∙ ap (◌++◌ c) (drop-append a b (o + length c) (length c) (omega arith)))
      ∙ sym (append_assoc a c (drop (length c) b))

  -- The three writes put the header over the start of the file, whatever stood there.
  pub write_headers_lem :
      (format : List ℕ) (p : ℕ) (d : SaveData) (w : k.World)
      → format_length format ≤ length format
      → let n = format_length format in
        let h = with_length d.file_header format in
        ((write_headers k format (at_position p d) w).1
          ≡ record d { file_ptr = some (20 + n + 8); file_header = h })
        × (nt_success (write_headers k format (at_position p d) w).0 ≡ true)
        × (bytes (write_headers k format (at_position p d) w).2
            ≡ header_bytes h format d.data_header ++ drop 8 (drop n (drop 20 (bytes w))))
  unfolding write_headers write_part
  write_headers_lem format p d w long = (refl, r.writes _ _ _, contents)
    where
      n : ℕ
      n = format_length format

      c₀ : List ℕ
      c₀ = file_header_bytes (with_length d.file_header format)

      c₁ : List ℕ
      c₁ = take n format

      c₂ : List ℕ
      c₂ = data_header_bytes d.data_header

      length_c₁ : length c₁ ≡ n
      length_c₁ = omega (arith, length-take {0} n format, long)

      w₁ : k.World
      w₁ = (k.write_file 0 c₀ w).1

      w₂ : k.World
      w₂ = (k.write_file 20 c₁ w₁).1

      after₁ : bytes w₁ ≡ c₀ ++ drop 20 (bytes w)
      after₁ = write_behind [] (bytes w) c₀ 0 w refl refl

      after₂ : bytes w₂ ≡ (c₀ ++ c₁) ++ drop n (drop 20 (bytes w))
      after₂ =
          write_behind c₀ (drop 20 (bytes w)) c₁ 20 w₁ after₁ refl
          ∙ ap (λ (m : ℕ). (c₀ ++ c₁) ++ drop m (drop 20 (bytes w))) length_c₁

      contents :
          bytes (k.write_file (20 + n) c₂ w₂).1
          ≡ (c₀ ++ (c₁ ++ c₂)) ++ drop 8 (drop n (drop 20 (bytes w)))
      contents =
          write_behind (c₀ ++ c₁) (drop n (drop 20 (bytes w))) c₂ (20 + n) w₂ after₂
            (omega (arith, length-append {0} c₀ c₁, length_c₁))
          ∙ ap (λ (t : List ℕ). t ++ drop 8 (drop n (drop 20 (bytes w)))) (append_assoc c₀ c₁ c₂)
