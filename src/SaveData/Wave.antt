-- ===== src/SaveData/Wave.antt =====
-- inferno_driver/savedata.cpp: the sessions of Initialize and of the destructor that write the
-- header.
use inferno_windows.Prelude.{
  ℕ, zero, suc, ◌+◌, ◌≤◌, ◌≡◌, refl, ap, sym, ◌∙◌, subst, Bool, true, false, Option, none, some,
  List, [], ◌++◌, length, drop, if_true,
}
use inferno_windows.Status.{invalid_handle, nt_success}
use inferno_windows.Kernel.{Kernel, IsReliable}
use inferno_windows.SaveData.State.{SaveData}
use inferno_windows.SaveData.Files.{
  Outcome, file_close, file_write_header, write_headers, format_length,
}
use inferno_windows.SaveData.Recording.{file_open_lem, file_close_lem, with_file}
use inferno_windows.SaveData.Setup.{header_session, header_to, close_behind}
use inferno_windows.SaveData.Headers.{header_bytes, with_length, write_headers_lem, at_position}

pub drop-nil : (n : ℕ) → drop {A = ℕ} n [] ≡ []
drop-nil zero = refl
drop-nil (suc n) = refl

module _ (k : Kernel) (bytes : k.World → List ℕ) (r : IsReliable k bytes) where
  header_lem :
      (format : List ℕ) (d : SaveData) (w : k.World)
      → d.file_open ≡ true
      → d.wave_format ≡ some format
      → file_write_header k d w ≡ write_headers k format d w
  unfolding file_write_header
  header_lem format d w opened e =
      if_true d.file_open _ _ opened
      ∙ ap
          (λ (o : Option (List ℕ)). elim o [
            | none ↦ (invalid_handle, d, w)
            | some f ↦ write_headers k f d w
          ])
          e

  -- What a session leaves: the header over the start of the file, and the position behind it.
  abbrev pub Headed : List ℕ → SaveData → List ℕ → Outcome k → Type 0
  Headed format d old (status, e, w) =
      let h = with_length d.file_header format in
      (nt_success status ≡ true)
      × (e ≡ record d {
        file_ptr = some (20 + format_length format + 8);
        file_header = h;
        file_open = false;
      })
      × (bytes w
          ≡ header_bytes h format d.data_header
            ++ drop 8 (drop (format_length format) (drop 20 old)))

  -- On a reliable volume, an initialized object whose file is closed opens it, writes its header
  -- over the start of what the opening left, closes it, and has its file pointer behind the header.
  -- On a reliable volume, an initialized object whose file is closed opens it, writes its header
  -- over the start of what the opening left, closes it, and has its file pointer behind the header.
  -- On a reliable volume, an initialized object whose file is closed opens it, writes its header
  -- over the start of what the opening left, closes it, and has its file pointer behind the header.
  -- On a reliable volume, an initialized object whose file is closed opens it, writes its header
  -- over the start of what the opening left, closes it, and has its file pointer behind the header.
  -- On a reliable volume, an initialized object whose file is closed opens it, writes its header
  -- over the start of what the opening left, closes it, and has its file pointer behind the header.
  -- On a reliable volume, an initialized object whose file is closed opens it, writes its header
  -- over the start of what the opening left, closes it, and has its file pointer behind the header.
  -- On a reliable volume, an initialized object whose file is closed opens it, writes its header
  -- over the start of what the opening left, closes it, and has its file pointer behind the header.
  -- On a reliable volume, an initialized object whose file is closed opens it, writes its header
  -- over the start of what the opening left, closes it, and has its file pointer behind the header.
  -- On a reliable volume, an initialized object whose file is closed opens it, writes its header
  -- over the start of what the opening left, closes it, and has its file pointer behind the header.
  -- On a reliable volume, an initialized object whose file is closed opens it, writes its header
  -- over the start of what the opening left, closes it, and has its file pointer behind the header.
  -- On a reliable volume, an initialized object whose file is closed opens it, writes its header
  -- over the start of what the opening left, closes it, and has its file pointer behind the header.
  -- On a reliable volume, an initialized object whose file is closed opens it, writes its header
  -- over the start of what the opening left, closes it, and has its file pointer behind the header.
  -- On a reliable volume, an initialized object whose file is closed opens it, writes its header
  -- over the start of what the opening left, closes it, and has its file pointer behind the header.
  -- On a reliable volume, an initialized object whose file is closed opens it, writes its header
  -- over the start of what the opening left, closes it, and has its file pointer behind the header.
  -- On a reliable volume, an initialized object whose file is closed opens it, writes its header
  -- over the start of what the opening left, closes it, and has its file pointer behind the header.
  -- On a reliable volume, an initialized object whose file is closed opens it, writes its header
  -- over the start of what the opening left, closes it, and has its file pointer behind the header.
  -- On a reliable volume, an initialized object whose file is closed opens it, writes its header
  -- over the start of what the opening left, closes it, and has its file pointer behind the header.
  -- On a reliable volume, an initialized object whose file is closed opens it, writes its header
  -- over the start of what the opening left, closes it, and has its file pointer behind the header.
  -- On a reliable volume, an initialized object whose file is closed opens it, writes its header
  -- over the start of what the opening left, closes it, and has its file pointer behind the header.
  -- On a reliable volume, an initialized object whose file is closed opens it, writes its header
  -- over the start of what the opening left, closes it, and has its file pointer behind the header.
  -- On a reliable volume, an initialized object whose file is closed opens it, writes its header
  -- over the start of what the opening left, closes it, and has its file pointer behind the header.
  -- On a reliable volume, an initialized object whose file is closed opens it, writes its header
  -- over the start of what the opening left, closes it, and has its file pointer behind the header.
  -- On a reliable volume, an initialized object whose file is closed opens it, writes its header
  -- over the start of what the opening left, closes it, and has its file pointer behind the header.
  -- On a reliable volume, an initialized object whose file is closed opens it, writes its header
  -- over the start of what the opening left, closes it, and has its file pointer behind the header.
  -- On a reliable volume, an initialized object whose file is closed opens it, writes its header
  -- over the start of what the opening left, closes it, and has its file pointer behind the header.
  -- On a reliable volume, an initialized object whose file is closed opens it, writes its header
  -- over the start of what the opening left, closes it, and has its file pointer behind the header.
  -- On a reliable volume, an initialized object whose file is closed opens it, writes its header
  -- over the start of what the opening left, closes it, and has its file pointer behind the header.
  -- On a reliable volume, an initialized object whose file is closed opens it, writes its header
  -- over the start of what the opening left, closes it, and has its file pointer behind the header.
  -- On a reliable volume, an initialized object whose file is closed opens it, writes its header
  -- over the start of what the opening left, closes it, and has its file pointer behind the header.
  -- On a reliable volume, an initialized object whose file is closed opens it, writes its header
  -- over the start of what the opening left, closes it, and has its file pointer behind the header.
  pub header_session_lem :
      (o : Bool) (format : List ℕ) (p : ℕ) (d : SaveData) (w : k.World)
      → d.initialized ≡ true
      → d.file_open ≡ false
      → d.wave_format ≡ some format
      → d.file_ptr ≡ some p
      → format_length format ≤ length format
      → Headed format d (bytes (k.create_file o w).1) (header_session k o d w)
  unfolding header_session header_to close_behind
  header_session_lem o format p d w ready closed f at long =
      subst (Headed format d (bytes w₁)) (sym all)
        (parts.1, state, ap (λ (t : Outcome k). bytes t.2) closing ∙ r.close_keeps _ ∙ parts.2)
    where
      w₁ : k.World
      w₁ = (k.create_file o w).1

      e : SaveData
      e = with_file true d

      same : e ≡ at_position p e
      same = λ i. record e { file_ptr = at i }

      all : header_session k o d w ≡ close_behind k (write_headers k format (at_position p e) w₁)
      all =
          ap (header_to k) (file_open_lem k bytes r o d w ready closed)
          ∙ if_true (nt_success (k.create_file o w).0) _ _ (r.opens o w)
          ∙ ap (close_behind k) (
              header_lem format e w₁ refl f
              ∙ ap (λ (x : SaveData). write_headers k format x w₁) same)

      h : Outcome k
      h = write_headers k format (at_position p e) w₁

      parts :
          (h.1 ≡ record e {
            file_ptr = some (20 + format_length format + 8);
            file_header = with_length d.file_header format;
          })
          × (nt_success h.0 ≡ true)
          × (bytes h.2
              ≡ header_bytes (with_length d.file_header format) format d.data_header
                ++ drop 8 (drop (format_length format) (drop 20 (bytes w₁))))
      parts = write_headers_lem k bytes r format p e w₁ long

      closing :
          file_close k h.1 h.2 ≡ ((k.close_file h.2).0, with_file false h.1, (k.close_file h.2).1)
      closing = file_close_lem k bytes r h.1 h.2 (ap (λ (x : SaveData). x.file_open) parts.0)

      state : (file_close k h.1 h.2).1 ≡ record d {
        file_ptr = some (20 + format_length format + 8);
        file_header = with_length d.file_header format;
        file_open = false;
      }
      state = ap (λ (t : Outcome k). t.1) closing ∙ ap (with_file false) parts.0
