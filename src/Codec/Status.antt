-- ===== src/Codec/Status.antt =====
-- `encode_status`, `decode_status`, the identity checks and `validate_job_status` of
-- src/lib/ipc/codec.cpp.
use photospider_daemon.Base.{
  Bool, true, false, not, ◌&&◌, ◌||◌, [], ◌∷◌, Bytes, ltb, ◌==◌, if◌then◌else◌, Option, none, some,
}
use photospider_daemon.Kernel.{Kernel, Status, success, failure}
use photospider_daemon.Protocol.{
  SessionId, JobId, JobStatus, JobState, queued, running, succeeded, failed, cancelled,
}
use photospider_daemon.Codec.Failure.{CodecFailure, invalid}
use photospider_daemon.Codec.Encoder
use photospider_daemon.Codec.Encoder.{Encode, ◌>>◌, ensure}
use photospider_daemon.Codec.Decoder
use photospider_daemon.Codec.Decoder.{Decode, ◌>>=◌, pure, require}

abbrev pub is_empty : Bytes → Bool
is_empty [] = true
is_empty (x ∷ xs) = false

module _ ⦃k : Kernel⦄ where
  -- The encoder's canonical form: a known category, and no diagnostic on success.
  abbrev pub canonical : Status → Bool
  canonical status =
      not (ltb k.internal status.code || (k.status_ok status && not (is_empty status.message)))

  unfoldable pub encode_status : Status → Encode
  encode_status status =
      ensure (canonical status) (invalid "wire status is not canonical")
      >> (Encoder.u8 status.code >> Encoder.text status.message 4096)

  unfoldable pub decode_status : Decode Status
  decode_status = do
    raw ← Decoder.u8
    _ ← require (not (ltb k.internal raw)) (invalid "wire status error code is unknown")
    message ← Decoder.text 4096
    _ ←
        require (not (raw == k.ok_code && not (is_empty message)))
          (invalid "wire success status contains a diagnostic")
    pure (if raw == k.ok_code then success else failure raw message)

  -- A validation that returns, or the failure that it throws.
  unfoldable pub require_session_id : SessionId → Option CodecFailure
  require_session_id id =
      if id.instance_id == 0 || id.value == 0
      then some (invalid "wire SessionId contains zero")
      else none

  unfoldable pub require_job_id : JobId → Option CodecFailure
  require_job_id id =
      if id.instance_id == 0 || id.value == 0
      then some (invalid "wire JobId contains zero")
      else none

  -- The `switch` on the state.
  unfoldable pub validate_outcome : JobState → Status → Option CodecFailure
  validate_outcome queued outcome =
      if not (k.status_ok outcome)
      then some (invalid "wire non-failed Job state carries failure")
      else none
  validate_outcome running outcome =
      if not (k.status_ok outcome)
      then some (invalid "wire non-failed Job state carries failure")
      else none
  validate_outcome succeeded outcome =
      if not (k.status_ok outcome)
      then some (invalid "wire non-failed Job state carries failure")
      else none
  validate_outcome failed outcome =
      if k.status_ok outcome || outcome.code == k.cancelled
      then some (invalid "wire failed Job carries invalid outcome")
      else none
  validate_outcome cancelled outcome =
      if not (outcome.code == k.cancelled)
      then some (invalid "wire cancelled Job lacks cancellation outcome")
      else none

  unfoldable pub validate_job_status : JobStatus → Option CodecFailure
  unfolding require_job_id require_session_id validate_outcome
  validate_job_status status = elim (require_job_id status.job_id) [
    | some e ↦ some e
    | none ↦ elim (require_session_id status.session_id) [
      | some e ↦ some e
      | none ↦
          if not (status.job_id.instance_id == status.session_id.instance_id)
          then some (invalid "wire JobStatus identity domains differ")
          else validate_outcome status.state status.outcome
    ]
  ]
