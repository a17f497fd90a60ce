-- ===== src/Codec/Response/Agreement.antt =====
-- `decode_response` undoes `encode_response`.
use photospider_daemon.Base.{
  ◌^◌, ◌≤◌, ◌<◌, ◌≡◌, refl, ap, Bool, true, false, not, [], Bytes, length, ◌==◌, if◌then◌else◌,
  arith, ◌∷◌,
}
use photospider_daemon.Base.Outcome.{ok}
use photospider_daemon.Kernel.{Kernel, Status, success, failure}
use photospider_daemon.Protocol.{
  maximum_frame_payload_bytes, JobStatus, JobState, queued, DaemonInfo, Method, session_create,
  session_close, job_submit, job_status, job_cancel, job_result, job_release, daemon_info,
  daemon_shutdown,
}
use photospider_daemon.Execution.{Values, IsExecutionResult}
use photospider_daemon.Codec.Failure.{codec_failure_result}
use photospider_daemon.Codec.Decoder
use photospider_daemon.Codec.Method.{method_code, decode_job_state, job_state_code}
use photospider_daemon.Codec.Status.{encode_status, decode_status, canonical, is_empty}
use photospider_daemon.Codec.RoundTrip.Compose.{
  RoundTrip, RoundTrip-bind, RoundTrip-pure, RoundTrip-last, RoundTrip-then, RoundTrip-weaken,
  RoundTrip-require, RoundTrip-ensure, RoundTrip-each, RoundTrip-fence, RoundTrip-validate_encode,
  ensure_passed,
}
use photospider_daemon.Codec.RoundTrip.Scalars.{
  u8-RoundTrip, u16-RoundTrip, u32-RoundTrip, u64-RoundTrip, text-RoundTrip,
}
use photospider_daemon.Codec.Request.Agreement.{
  decode_method-method_code, session_id-RoundTrip, job_id-RoundTrip, RoundTrip-lift, ok_of_result,
  decode_whole-encode, written_size,
}
use photospider_daemon.Codec.Diagnostics.Agreement.{execution_result-RoundTrip, All-units}
use photospider_daemon.Codec.Info.{
  encode_name, encode_capabilities, decode_capabilities, encode_daemon_info, decode_daemon_info,
}
use photospider_daemon.Codec.Response.{
  Response, blank_response, encode_job_status, decode_job_status, encode_payload, decode_payload,
  encode_success, decode_success, encode_response_payload, decode_response_payload, encode_response,
  decode_response,
}

-- The ranges of the C++ members.
pub record IsJobStatus (s : JobStatus) : Type 0 where
  pub job_instance : s.job_id.instance_id < 2 ^ 64
  pub job_value : s.job_id.value < 2 ^ 64
  pub session_instance : s.session_id.instance_id < 2 ^ 64
  pub session_value : s.session_id.value < 2 ^ 64

pub record IsInfo (i : DaemonInfo) : Type 0 where
  pub version_range : i.version < 2 ^ 16
  pub instance_range : i.instance_id < 2 ^ 64
  pub sessions_range : i.active_sessions < 2 ^ 64
  pub jobs_range : i.active_jobs < 2 ^ 64
  pub concurrency_range : i.maximum_concurrency < 2 ^ 32
  pub capacity_range : i.maximum_sessions < 2 ^ 32

pub not-true : (b : Bool) → not b ≡ true → b ≡ false
not-true true h = cc
not-true false h = refl

is_empty_lem : (m : Bytes) → is_empty m ≡ true → m ≡ []
is_empty_lem [] h = refl
is_empty_lem (x ∷ xs) h = cc

module _ ⦃k : Kernel⦄ where
  -- A canonical status is rebuilt by `success()` or `failure(code, message)`.
  rebuilt :
      (s : Status)
      → canonical s ≡ true
      → (if s.code == k.ok_code then success else failure s.code s.message) ≡ s
  rebuilt s h = ground (arith, k.status_ok_lem s, is_empty_lem s.message)

  pub status-RoundTrip : (s : Status) → RoundTrip (encode_status s) decode_status s 5 0
  unfolding encode_status decode_status
  status-RoundTrip s = RoundTrip-ensure _ _ λ fine.
      RoundTrip-bind _ (u8-RoundTrip s.code)
        (RoundTrip-require _ _ _ (ground arith) (
          RoundTrip-then _ (text-RoundTrip s.message 4096)
            (λ rest. unfold Decoder.require in ground (arith, k.status_ok_lem s, rebuilt s))))
        (omega arith)

  decode_job_state-code : (s : JobState) → decode_job_state (job_state_code s) ≡ ok s
  unfolding decode_job_state
  decode_job_state-code queued = refl
  decode_job_state-code _ = refl

  job_status-RoundTrip :
      (s : JobStatus) → IsJobStatus s → RoundTrip (encode_job_status s) decode_job_status s 38 0
  unfolding encode_job_status decode_job_status
  job_status-RoundTrip s h =
      RoundTrip-bind _ (job_id-RoundTrip s.job_id h.job_instance h.job_value)
        (RoundTrip-bind _ (session_id-RoundTrip s.session_id h.session_instance h.session_value)
          (RoundTrip-bind _ (u8-RoundTrip (job_state_code s.state))
            (RoundTrip-lift _ _ _ (decode_job_state-code s.state)
              (RoundTrip-last _ (status-RoundTrip s.outcome)))
            (omega arith))
          (omega arith))
        (omega arith)

  name-RoundTrip :
      (name : Bytes) → Unit {0} → RoundTrip (encode_name name) (Decoder.text 64) name 4 0
  unfolding encode_name
  name-RoundTrip name _ = text-RoundTrip name 64

  capabilities-RoundTrip :
      (i : DaemonInfo)
      → IsInfo i
      → RoundTrip
          (encode_capabilities i)
          (decode_capabilities i.version i.instance_id i.service_version i.transport)
          i
          25
          0
  unfolding encode_capabilities decode_capabilities
  capabilities-RoundTrip i h = RoundTrip-ensure _ _ λ few.
      let few' : length i.methods ≤ 16 = ground arith in
      RoundTrip-weaken _ _ (omega arith) (omega arith) (
        RoundTrip-bind _ (u8-RoundTrip (length i.methods))
          (RoundTrip-require _ _ _ (ground arith) (
            RoundTrip-fence _ _ _ (omega arith) (omega arith) (
              RoundTrip-bind _
                (RoundTrip-each encode_name (Decoder.text 64) (λ _. Unit {0}) 4 0 name-RoundTrip
                  i.methods (All-units i.methods))
                (RoundTrip-bind _ (u64-RoundTrip i.active_sessions h.sessions_range)
                  (RoundTrip-bind _ (u64-RoundTrip i.active_jobs h.jobs_range)
                    (RoundTrip-bind _ (u32-RoundTrip i.maximum_concurrency h.concurrency_range)
                      (RoundTrip-last _ (u32-RoundTrip i.maximum_sessions h.capacity_range))
                      (omega arith))
                    (omega arith))
                  (omega arith))
                (omega arith))))
          (omega arith))

  daemon_info-RoundTrip :
      (i : DaemonInfo) → IsInfo i → RoundTrip (encode_daemon_info i) decode_daemon_info i 43 0
  unfolding encode_daemon_info decode_daemon_info
  daemon_info-RoundTrip i h =
      RoundTrip-bind _ (u16-RoundTrip i.version h.version_range)
        (RoundTrip-bind _ (u64-RoundTrip i.instance_id h.instance_range)
          (RoundTrip-bind _ (text-RoundTrip i.service_version 128)
            (RoundTrip-bind _ (text-RoundTrip i.transport 64) (capabilities-RoundTrip i h)
              (omega arith))
            (omega arith))
          (omega arith))
        (omega arith)

  module _ {Value : Type 0} ⦃vs : Values Value⦄ where
    -- The ranges of the C++ members of a response.
    pub record IsResponse (r : Response Value) : Type 0 where
      pub id_range : r.request_id < 2 ^ 64
      pub session_instance : r.session_id.instance_id < 2 ^ 64
      pub session_value : r.session_id.value < 2 ^ 64
      pub job_instance : r.job_id.instance_id < 2 ^ 64
      pub job_value : r.job_id.value < 2 ^ 64
      pub snapshot_ranges : IsJobStatus r.job_snapshot
      pub result_ranges : IsExecutionResult r.execution_result
      pub info_ranges : IsInfo r.info

    -- A response with its correlation, its status and the payload of its method.
    abbrev keep_payload : Method → Response Value → Response Value
    keep_payload session_create r = record (blank_response r.request_id r.method r.status) {
      session_id = r.session_id;
    }
    keep_payload job_submit r = record (blank_response r.request_id r.method r.status) {
      job_id = r.job_id;
    }
    keep_payload job_status r = record (blank_response r.request_id r.method r.status) {
      job_snapshot = r.job_snapshot;
    }
    keep_payload job_result r = record (blank_response r.request_id r.method r.status) {
      execution_result = r.execution_result;
    }
    keep_payload daemon_info r = record (blank_response r.request_id r.method r.status) {
      info = r.info;
    }
    keep_payload _ r = blank_response r.request_id r.method r.status

    abbrev keep_success : Bool → Response Value → Response Value
    keep_success true r = keep_payload r.method r
    keep_success false r = blank_response r.request_id r.method r.status

    -- What a client receives: of a failure the status alone, and never `shutdown_after_write`.
    abbrev pub received : Response Value → Response Value
    received r = keep_success (k.status_ok r.status) r

    payload-RoundTrip :
        (m : Method) (r : Response Value)
        → IsResponse r
        → RoundTrip
            (encode_payload m r)
            (decode_payload m (blank_response r.request_id r.method r.status))
            (keep_payload m r)
            0
            0
    unfolding encode_payload decode_payload Decoder.validate
    payload-RoundTrip session_create r h = RoundTrip-validate_encode _ λ valid.
        RoundTrip-weaken _ _ (omega arith) (omega arith) (
          RoundTrip-then _ (session_id-RoundTrip r.session_id h.session_instance h.session_value)
            (λ rest. rw valid))
    payload-RoundTrip job_submit r h = RoundTrip-validate_encode _ λ valid.
        RoundTrip-weaken _ _ (omega arith) (omega arith) (
          RoundTrip-then _ (job_id-RoundTrip r.job_id h.job_instance h.job_value)
            (λ rest. rw valid))
    payload-RoundTrip job_status r h = RoundTrip-validate_encode _ λ valid.
        RoundTrip-weaken _ _ (omega arith) (omega arith) (
          RoundTrip-then _ (job_status-RoundTrip r.job_snapshot h.snapshot_ranges)
            (λ rest. rw valid))
    payload-RoundTrip job_result r h =
        RoundTrip-weaken _ _ (omega arith) (omega arith)
          (RoundTrip-last _ (execution_result-RoundTrip r.execution_result h.result_ranges))
    payload-RoundTrip daemon_info r h = RoundTrip-validate_encode _ λ valid.
        RoundTrip-weaken _ _ (omega arith) (omega arith)
          (RoundTrip-then _ (daemon_info-RoundTrip r.info h.info_ranges) (λ rest. rw valid))
    payload-RoundTrip session_close r h = RoundTrip-pure
    payload-RoundTrip job_cancel r h = RoundTrip-pure
    payload-RoundTrip job_release r h = RoundTrip-pure
    payload-RoundTrip daemon_shutdown r h = RoundTrip-pure

    success-RoundTrip :
        (b : Bool) (r : Response Value)
        → IsResponse r
        → RoundTrip
            (encode_success b r)
            (decode_success b (blank_response r.request_id r.method r.status))
            (keep_success b r)
            0
            0
    unfolding encode_success decode_success
    success-RoundTrip true r h = payload-RoundTrip r.method r h
    success-RoundTrip false r h = RoundTrip-pure

    response_payload-RoundTrip :
        (r : Response Value)
        → IsResponse r
        → RoundTrip
            (encode_response_payload r)
            (decode_response_payload r.method r.request_id)
            (received r)
            16
            0
    unfolding encode_response_payload decode_response_payload
    response_payload-RoundTrip r h = RoundTrip-ensure _ _ λ valid.
        RoundTrip-bind _ (u16-RoundTrip 3 (omega arith))
          (RoundTrip-require _ _ _ refl (
            RoundTrip-bind _ (u64-RoundTrip r.request_id h.id_range)
              (RoundTrip-bind _ (u8-RoundTrip (method_code r.method))
                (RoundTrip-lift _ _ _ (decode_method-method_code r.method) (
                  RoundTrip-require _ _ _ (ground arith) (
                    RoundTrip-bind _ (status-RoundTrip r.status)
                      (success-RoundTrip (k.status_ok r.status) r h) (omega arith))))
                (omega arith))
              (omega arith)))
          (omega arith)

    -- What `encode_response` writes, `decode_response` reads for the call of the same id and
    -- method: the status, and on success the payload of the method. It reads no
    -- `shutdown_after_write`. The response is in the ranges of its C++ members, its maps are in key
    -- order, and the kernel makes each of its Values again from its parts, which have an axis at
    -- least, a known element type and facets of at most 64 KiB.
    pub decode_response-encode_response :
        (r : Response Value) (payload : Bytes)
        → IsResponse r
        → encode_response r ≡ ok payload
        → decode_response payload r.method r.request_id ≡ ok (received r)
    unfolding encode_response decode_response encode_response_payload
    decode_response-encode_response r payload h e =
        let sent = ok_of_result (encode_response_payload r []) e in
        let valid = ensure_passed _ _ _ [] sent in
        let whole =
          decode_whole-encode (decode_response_payload r.method r.request_id) (received r) payload
            (response_payload-RoundTrip r h) sent in
        rw (not-true _ valid) (ap codec_failure_result whole)

    pub length-encode_response :
        (r : Response Value) (payload : Bytes)
        → IsResponse r
        → encode_response r ≡ ok payload
        → (0 < length payload) × (length payload ≤ maximum_frame_payload_bytes)
    unfolding encode_response encode_response_payload
    length-encode_response r payload h e =
        written_size (response_payload-RoundTrip r h) (omega arith)
          (ok_of_result (encode_response_payload r []) e)
