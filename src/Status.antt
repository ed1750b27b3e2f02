-- ===== src/Status.antt =====
-- NTSTATUS values, as inferno_driver/ uses them.
use inferno_windows.Prelude.{ℕ, Bool, true, false}

-- The values that the driver names, and those that a kernel service returns beside them: `pending`
-- is a success that is not STATUS_SUCCESS (STATUS_TIMEOUT is one), `failure` any other failure.
pub data NtStatus : Type 0 where
  success unsuccessful invalid_handle insufficient_resources not_supported : NtStatus
  object_name_not_found : NtStatus
  pending failure : ℕ → NtStatus

-- NT_SUCCESS
abbrev pub nt_success : NtStatus → Bool
nt_success success = true
nt_success (pending n) = true
nt_success unsuccessful = false
nt_success invalid_handle = false
nt_success insufficient_resources = false
nt_success not_supported = false
nt_success object_name_not_found = false
nt_success (failure n) = false

-- STATUS_SUCCESS == status
abbrev pub is_success : NtStatus → Bool
is_success success = true
is_success (pending n) = false
is_success unsuccessful = false
is_success invalid_handle = false
is_success insufficient_resources = false
is_success not_supported = false
is_success object_name_not_found = false
is_success (failure n) = false
