-- ===== src/Codec/Failure.antt =====
-- `CodecFailure`, the exception that unwinds a malformed encode or decode, and its translation
-- into a failed `Result` at the exported functions.
use photospider_daemon.Base.{ℕ, Bytes, String, bytes_of}
use photospider_daemon.Base.Outcome.{Outcome, ok, err}
use photospider_daemon.Kernel.{Kernel, Result, failure}

pub record CodecFailure : Type 0 where
  pub code : ℕ
  pub what : Bytes

-- A call that may throw a `CodecFailure`.
abbrev pub Codec {ℓ} : Type ℓ → Type ℓ
Codec A = Outcome CodecFailure A

module _ ⦃k : Kernel⦄ where
  abbrev pub invalid : String → CodecFailure
  invalid text = record { code = k.invalid_argument; what = bytes_of text }

  abbrev pub exhausted : String → CodecFailure
  exhausted text = record { code = k.resource_exhausted; what = bytes_of text }

  -- What an exported function returns: the `catch (const CodecFailure&)` handler.
  abbrev pub codec_failure_result {ℓ} : {A : Type ℓ} → Codec A → Result A
  codec_failure_result (ok a) = ok a
  codec_failure_result (err e) = err (failure e.code e.what)
