-- ===== src/Kernel.antt =====
-- What the daemon takes from the installed kernel package (photospider/core/status.hpp and the
-- headers of values and execution), which is not in this repository: the enumerators of
-- `ErrorCode`, `Backend` and `ElementType` by their underlying numbers, `Status::ok`, and the version
-- of a document that nobody has set.
use photospider_daemon.Base.{true, false, arith, ℕ, ◌<◌, ◌≤◌, ◌≡◌, ◌≢◌, Bool, [], Bytes, ◌==◌}
use photospider_daemon.Base.Outcome.{Outcome}

-- `Status` has the two public members that the daemon reads and writes.
pub record Status : Type 0 where
  pub code : ℕ
  pub message : Bytes

abbrev pub Result {ℓ} : Type ℓ → Type ℓ
Result A = Outcome Status A

-- `internal` is the last enumerator: the codec takes every number up to it for a category.
pub record Kernel : Type 0 where
  pub ok_code : ℕ
  pub invalid_argument : ℕ
  pub not_found : ℕ
  pub resource_exhausted : ℕ
  pub cancelled : ℕ
  pub internal : ℕ
  pub backend_cpu : ℕ
  pub backend_gpu : ℕ
  pub type_uint8 : ℕ
  pub type_float32 : ℕ
  pub type_float64 : ℕ
  -- The default member initialiser of `WorkflowDocument::schema_version`.
  pub default_schema_version : ℕ
  pub status_ok : Status → Bool
  -- `ok()` holds exactly of the category `Ok`.
  pub status_ok_lem : (s : Status) → status_ok s ≡ (s.code == ok_code)
  -- The categories are distinct, and fit the byte that carries them.
  pub ok-le : ok_code ≤ internal
  pub invalid_argument-le : invalid_argument ≤ internal
  pub not_found-le : not_found ≤ internal
  pub resource_exhausted-le : resource_exhausted ≤ internal
  pub cancelled-le : cancelled ≤ internal
  pub internal-lt : internal < 256
  pub invalid_argument-ne-ok : invalid_argument ≢ ok_code
  pub not_found-ne-ok : not_found ≢ ok_code
  pub resource_exhausted-ne-ok : resource_exhausted ≢ ok_code
  pub cancelled-ne-ok : cancelled ≢ ok_code
  pub internal-ne-ok : internal ≢ ok_code
  pub not_found-ne-invalid_argument : not_found ≢ invalid_argument
  pub internal-ne-cancelled : internal ≢ cancelled
  pub resource_exhausted-ne-cancelled : resource_exhausted ≢ cancelled
  pub not_found-ne-internal : not_found ≢ internal
  pub backend_cpu-lt : backend_cpu < 256
  pub backend_gpu-lt : backend_gpu < 256

module _ ⦃k : Kernel⦄ where
  -- `Status::success()` and `Status::failure(code, message)`.
  abbrev pub success : Status
  success = record { code = k.ok_code; message = [] }

  abbrev pub failure : ℕ → Bytes → Status
  failure code message = record { code = code; message = message }

  pub status_ok-success : k.status_ok success ≡ true
  status_ok-success = rw (k.status_ok_lem success) (ground arith)

  pub status_ok-failure :
      (code : ℕ) (message : Bytes) → code ≢ k.ok_code → k.status_ok (failure code message) ≡ false
  status_ok-failure code message h = rw (k.status_ok_lem (failure code message)) (ground arith)
