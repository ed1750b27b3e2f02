-- ===== src/Kernel.antt =====
-- The kernel services that the driver calls. Their code is not in the repository, so the model
-- takes them as a record of functions on a state of the world outside the driver.
use inferno_windows.Prelude.{
  ℕ, ◌+◌, ◌≡◌, ◌≤◌, Bool, true, false, List, [], ◌++◌, length, take, drop, ◌∙◌, append-nil,
  take-all, drop-all, arith,
}
use inferno_windows.Status.{NtStatus, nt_success, is_success}

-- `create_file` is ZwCreateFile on the stream's file, with FILE_OVERWRITE_IF or else FILE_OPEN_IF;
-- `write_file` is ZwWriteFile at a byte offset; `close_file` is ZwClose; `wait_mutex` is
-- KeWaitForSingleObject with no time limit; `make_folder` creates a folder or opens it;
-- `allocate` is ExAllocatePool2 for so many bytes, and `allocate_work_item` IoAllocateWorkItem.
pub record Kernel : Type 1 where
  pub World : Type 0
  pub create_file : Bool → World → NtStatus × World
  pub write_file : ℕ → List ℕ → World → NtStatus × World
  pub close_file : World → NtStatus × World
  pub wait_mutex : World → NtStatus × World
  pub make_folder : ℕ → World → NtStatus × World
  pub allocate : ℕ → World → Bool × World
  pub allocate_work_item : World → Bool × World

-- What the services are documented to do on a volume that takes every request: `bytes` is the
-- contents of the stream's file. A write within the
-- file replaces what stands there, and extends the file where it goes past its end.
pub record IsReliable (k : Kernel) (bytes : k.World → List ℕ) : Type 0 where
  pub opens : (o : Bool) (w : k.World) → nt_success (k.create_file o w).0 ≡ true
  pub open_keeps : (w : k.World) → bytes (k.create_file false w).1 ≡ bytes w
  pub open_empties : (w : k.World) → bytes (k.create_file true w).1 ≡ []
  pub writes : (o : ℕ) (c : List ℕ) (w : k.World) → nt_success (k.write_file o c w).0 ≡ true
  pub write_at :
      (o : ℕ) (c : List ℕ) (w : k.World)
      → o ≤ length (bytes w)
      → bytes (k.write_file o c w).1 ≡ take o (bytes w) ++ (c ++ drop (o + length c) (bytes w))
  pub close_keeps : (w : k.World) → bytes (k.close_file w).1 ≡ bytes w
  pub locks : (w : k.World) → is_success (k.wait_mutex w).0 ≡ true
  pub lock_keeps : (w : k.World) → bytes (k.wait_mutex w).1 ≡ bytes w

-- A write at the end of the file appends.
pub write_extends :
    (k : Kernel) (bytes : k.World → List ℕ)
    → IsReliable k bytes
    → (c : List ℕ) (w : k.World) → bytes (k.write_file (length (bytes w)) c w).1 ≡ bytes w ++ c
write_extends k bytes r c w =
    r.write_at (length (bytes w)) c w (omega arith)
    ∙ rw (
      take-all (length (bytes w)) (bytes w) (omega arith),
      drop-all (length (bytes w) + length c) (bytes w) (omega arith),
      append-nil c,
    )
