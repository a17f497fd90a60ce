-- ===== src/Codec/Response.antt =====
-- Responses: the struct of src/lib/ipc/codec.hpp, and `encode_response` and `decode_response` of
-- src/lib/ipc/codec.cpp.
pub mod Agreement
use photospider_daemon.Base.{
  ℕ, ◌^◌, ◌<◌, Bool, true, false, not, ◌&&◌, ◌||◌, [], Bytes, ◌==◌, if◌then◌else◌,
}
use photospider_daemon.Base.Outcome.{err}
use photospider_daemon.Kernel.{Kernel, Status, Result, success}
use photospider_daemon.Protocol.{
  protocol_version, SessionId, JobId, JobStatus, JobState, queued, DaemonInfo, Method,
  session_create, session_close, job_submit, job_status, job_cancel, job_result, job_release,
  daemon_info, daemon_shutdown,
}
use photospider_daemon.Execution.{ExecutionResult, ExecutionDiagnostics, Values}
use photospider_daemon.Codec.Failure.{Codec, invalid, codec_failure_result}
use photospider_daemon.Codec.Encoder
use photospider_daemon.Codec.Encoder.{Encode, ◌>>◌, ensure, skip}
use photospider_daemon.Codec.Decoder
use photospider_daemon.Codec.Decoder.{Decode, ◌>>=◌, pure, require, lift}
use photospider_daemon.Codec.Method.{
  method_code, valid_method, decode_method, job_state_code, decode_job_state,
}
use photospider_daemon.Codec.Status.{
  encode_status, decode_status, require_session_id, require_job_id, validate_job_status,
}
use photospider_daemon.Codec.Request.{
  no_session, no_job, encode_session_id, decode_session_id, encode_job_id, decode_job_id,
  decode_whole,
}
use photospider_daemon.Codec.Info.{encode_daemon_info, decode_daemon_info, validate_daemon_info}
use photospider_daemon.Codec.Diagnostics.{encode_execution_result, decode_execution_result}

pub record Response (Value : Type 0) : Type 0 where
  pub request_id : ℕ
  pub method : Method
  pub status : Status
  pub session_id : SessionId
  pub job_id : JobId
  pub job_snapshot : JobStatus
  pub execution_result : ExecutionResult Value
  pub info : DaemonInfo
  pub shutdown_after_write : Bool

abbrev pub no_result : {Value : Type 0} → ExecutionResult Value
no_result = record {
  values = [];
  diagnostics = record {
    execute_us = 0;
    selected_backends = [];
    transfer_count = 0;
    transfer_bytes = 0;
    peak_live_bytes = 0;
    fallback_reasons = [];
    operation_timings = [];
    plan_digest = [];
    result_digest = [];
  };
}

abbrev pub no_info : ℕ → DaemonInfo
no_info version = record {
  version = version;
  instance_id = 0;
  service_version = [];
  transport = [];
  methods = [];
  active_sessions = 0;
  active_jobs = 0;
  maximum_concurrency = 0;
  maximum_sessions = 0;
}

module _ ⦃k : Kernel⦄ where
  abbrev pub no_job_status : JobStatus
  no_job_status = record {
    job_id = no_job;
    session_id = no_session;
    state = queued;
    outcome = success;
  }

  -- A default response with its correlation and status.
  abbrev pub blank_response : {Value : Type 0} → ℕ → Method → Status → Response Value
  blank_response id method status = record {
    request_id = id;
    method = method;
    status = status;
    session_id = no_session;
    job_id = no_job;
    job_snapshot = no_job_status;
    execution_result = no_result;
    info = no_info protocol_version;
    shutdown_after_write = false;
  }

  unfoldable pub encode_job_status : JobStatus → Encode
  encode_job_status s =
      encode_job_id s.job_id
      >> (encode_session_id s.session_id
          >> (Encoder.u8 (job_state_code s.state) >> encode_status s.outcome))

  unfoldable pub decode_job_status : Decode JobStatus
  decode_job_status = do
    job_id ← decode_job_id
    session_id ← decode_session_id
    raw ← Decoder.u8
    state ← lift (decode_job_state raw)
    outcome ← decode_status
    pure (record { job_id = job_id; session_id = session_id; state = state; outcome = outcome })

  module _ {Value : Type 0} ⦃vs : Values Value⦄ where
    -- The `switch` of `encode_response`.
    unfoldable pub encode_payload : Method → Response Value → Encode
    encode_payload session_create r =
        Encoder.validate (require_session_id r.session_id) >> encode_session_id r.session_id
    encode_payload job_submit r =
        Encoder.validate (require_job_id r.job_id) >> encode_job_id r.job_id
    encode_payload job_status r =
        Encoder.validate (validate_job_status r.job_snapshot) >> encode_job_status r.job_snapshot
    encode_payload job_result r = encode_execution_result r.execution_result
    encode_payload daemon_info r =
        Encoder.validate (validate_daemon_info r.info) >> encode_daemon_info r.info
    encode_payload session_close r = skip
    encode_payload job_cancel r = skip
    encode_payload job_release r = skip
    encode_payload daemon_shutdown r = skip

    -- A failed response carries nothing more.
    unfoldable pub encode_success : Bool → Response Value → Encode
    encode_success true r = encode_payload r.method r
    encode_success false r = skip

    unfoldable pub encode_response_payload : Response Value → Encode
    encode_response_payload r =
        ensure (not (r.request_id == 0 || not (valid_method (method_code r.method))))
          (invalid "wire response id or method is invalid")
        >> (Encoder.u16 protocol_version
            >> (Encoder.u64 r.request_id
                >> (Encoder.u8 (method_code r.method)
                    >> (encode_status r.status >> encode_success (k.status_ok r.status) r))))

    unfoldable pub encode_response : Response Value → Result Bytes
    encode_response r = codec_failure_result (encode_response_payload r [])

    -- The `switch` of `decode_response`.
    unfoldable pub decode_payload : Method → Response Value → Decode (Response Value)
    decode_payload session_create r = do
      id ← decode_session_id
      _ ← Decoder.validate (require_session_id id)
      pure (record r { session_id = id })
    decode_payload job_submit r = do
      id ← decode_job_id
      _ ← Decoder.validate (require_job_id id)
      pure (record r { job_id = id })
    decode_payload job_status r = do
      s ← decode_job_status
      _ ← Decoder.validate (validate_job_status s)
      pure (record r { job_snapshot = s })
    decode_payload job_result r = do
      result ← decode_execution_result
      pure (record r { execution_result = result })
    decode_payload daemon_info r = do
      info ← decode_daemon_info
      _ ← Decoder.validate (validate_daemon_info info)
      pure (record r { info = info })
    decode_payload session_close r = pure r
    decode_payload job_cancel r = pure r
    decode_payload job_release r = pure r
    decode_payload daemon_shutdown r = pure r

    unfoldable pub decode_success : Bool → Response Value → Decode (Response Value)
    decode_success true r = decode_payload r.method r
    decode_success false r = pure r

    unfoldable pub decode_response_payload : Method → ℕ → Decode (Response Value)
    decode_response_payload expected_method expected_request_id = do
      version ← Decoder.u16
      _ ← require (version == protocol_version) (invalid "response protocol version is not three")
      request_id ← Decoder.u64
      raw ← Decoder.u8
      method ← lift (decode_method raw)
      _ ←
          require
            (not (
              not (request_id == expected_request_id)
              || not (method_code method == method_code expected_method)))
            (invalid "response correlation does not match request")
      status ← decode_status
      decode_success (k.status_ok status) (blank_response request_id method status)

    -- The expected correlation is checked before the decoder is built.
    unfoldable pub decode_response : Bytes → Method → ℕ → Result (Response Value)
    decode_response payload expected_method expected_request_id = codec_failure_result (
        if expected_request_id == 0 || not (valid_method (method_code expected_method))
        then err (invalid "expected response correlation is invalid")
        else decode_whole (decode_response_payload expected_method expected_request_id) payload)
