-- ===== src/Codec/Request.antt =====
-- Requests: the struct of src/lib/ipc/codec.hpp, and `encode_request` and `decode_request` of
-- src/lib/ipc/codec.cpp.
pub mod Agreement
use photospider_daemon.Base.{ℕ, ◌^◌, ◌<◌, ◌≢◌, Bool, false, not, ◌||◌, [], Bytes, ◌==◌}
use photospider_daemon.Base.Outcome.{Outcome, ok, err}
use photospider_daemon.Kernel.{Kernel, Result}
use photospider_daemon.Protocol.{
  protocol_version, SessionId, JobId, JobSubmitOptions, Method, session_create, session_close,
  job_submit, job_status, job_cancel, job_result, job_release, daemon_info, daemon_shutdown,
}
use photospider_daemon.Workflow.{WorkflowDocument, IsWorkflowDocument}
use photospider_daemon.Codec.Failure.{Codec, invalid, codec_failure_result}
use photospider_daemon.Codec.Encoder
use photospider_daemon.Codec.Encoder.{Encode, ◌>>◌, ensure, skip}
use photospider_daemon.Codec.Decoder
use photospider_daemon.Codec.Decoder.{Decode, ◌>>=◌, pure, require, lift, require_end, open_payload}
use photospider_daemon.Codec.Method.{method_code, valid_method, decode_method}
use photospider_daemon.Codec.Status.{require_session_id, require_job_id}
use photospider_daemon.Codec.Document.{encode_document, decode_document}

pub record Request : Type 0 where
  pub request_id : ℕ
  pub method : Method
  pub document : WorkflowDocument
  pub session_id : SessionId
  pub job_id : JobId
  pub submit_options : JobSubmitOptions

-- Default member initialisers.
abbrev pub no_session : SessionId
no_session = record { instance_id = 0; value = 0 }

abbrev pub no_job : JobId
no_job = record { instance_id = 0; value = 0 }

abbrev pub default_options : JobSubmitOptions
default_options = record { allow_gpu = false; maximum_parallelism = 0 }

module _ ⦃k : Kernel⦄ where
  abbrev pub no_document : WorkflowDocument
  no_document = record {
    schema_version = k.default_schema_version;
    declared_inputs = 0;
    nodes = [];
    outputs = [];
  }

  -- `Request request; request.request_id = …; request.method = …;`
  abbrev pub blank_request : ℕ → Method → Request
  blank_request id method = record {
    request_id = id;
    method = method;
    document = no_document;
    session_id = no_session;
    job_id = no_job;
    submit_options = default_options;
  }

  unfoldable pub encode_session_id : SessionId → Encode
  encode_session_id id = Encoder.u64 id.instance_id >> Encoder.u64 id.value

  unfoldable pub encode_job_id : JobId → Encode
  encode_job_id id = Encoder.u64 id.instance_id >> Encoder.u64 id.value

  unfoldable pub decode_session_id : Decode SessionId
  decode_session_id = do
    instance_id ← Decoder.u64
    value ← Decoder.u64
    pure (record { instance_id = instance_id; value = value })

  unfoldable pub decode_job_id : Decode JobId
  decode_job_id = do
    instance_id ← Decoder.u64
    value ← Decoder.u64
    pure (record { instance_id = instance_id; value = value })

  encode_job_argument : JobId → Encode
  encode_job_argument id = Encoder.validate (require_job_id id) >> encode_job_id id

  -- The `switch` of `encode_request`.
  unfoldable pub encode_arguments : Method → Request → Encode
  unfolding encode_job_argument
  encode_arguments session_create request = encode_document request.document
  encode_arguments session_close request =
      Encoder.validate (require_session_id request.session_id)
      >> encode_session_id request.session_id
  encode_arguments job_submit request =
      Encoder.validate (require_session_id request.session_id)
      >> (encode_session_id request.session_id
          >> (Encoder.boolean request.submit_options.allow_gpu
              >> Encoder.u32 request.submit_options.maximum_parallelism))
  encode_arguments job_status request = encode_job_argument request.job_id
  encode_arguments job_cancel request = encode_job_argument request.job_id
  encode_arguments job_result request = encode_job_argument request.job_id
  encode_arguments job_release request = encode_job_argument request.job_id
  encode_arguments daemon_info request = skip
  encode_arguments daemon_shutdown request = skip

  unfoldable pub encode_header : ℕ → Method → Encode
  encode_header request_id method =
      ensure (not (request_id == 0 || not (valid_method (method_code method))))
        (invalid "wire request id or method is invalid")
      >> (Encoder.u16 protocol_version
          >> (Encoder.u64 request_id >> Encoder.u8 (method_code method)))

  unfoldable pub encode_request_payload : Request → Encode
  encode_request_payload request =
      encode_header request.request_id request.method >> encode_arguments request.method request

  unfoldable pub encode_request : Request → Result Bytes
  encode_request request = codec_failure_result (encode_request_payload request [])

  decode_job_argument : Request → Decode Request
  decode_job_argument request = do
    id ← decode_job_id
    _ ← Decoder.validate (require_job_id id)
    pure (record request { job_id = id })

  -- The `switch` of `decode_request`.
  unfoldable pub decode_arguments : Method → Request → Decode Request
  unfolding decode_job_argument
  decode_arguments session_create request = do
    document ← decode_document
    pure (record request { document = document })
  decode_arguments session_close request = do
    id ← decode_session_id
    _ ← Decoder.validate (require_session_id id)
    pure (record request { session_id = id })
  decode_arguments job_submit request = do
    id ← decode_session_id
    allow_gpu ← Decoder.boolean
    maximum_parallelism ← Decoder.u32
    _ ← Decoder.validate (require_session_id id)
    pure (record request {
      session_id = id;
      submit_options = record { allow_gpu = allow_gpu; maximum_parallelism = maximum_parallelism };
    })
  decode_arguments job_status request = decode_job_argument request
  decode_arguments job_cancel request = decode_job_argument request
  decode_arguments job_result request = decode_job_argument request
  decode_arguments job_release request = decode_job_argument request
  decode_arguments daemon_info request = pure request
  decode_arguments daemon_shutdown request = pure request

  -- The version, the id and the method, each checked.
  unfoldable pub decode_header : Decode (ℕ × Method)
  decode_header = do
    version ← Decoder.u16
    _ ← require (version == protocol_version) (invalid "wire protocol version is not three")
    request_id ← Decoder.u64
    _ ← require (not (request_id == 0)) (invalid "wire request id must be nonzero")
    raw ← Decoder.u8
    method ← lift (decode_method raw)
    pure (request_id, method)

  unfoldable pub decode_request_payload : Decode Request
  decode_request_payload = do
    header ← decode_header
    decode_arguments header.1 (blank_request header.0 header.1)

  -- `Decoder decoder(payload)`, a body, and `decoder.require_end()`.
  unfoldable pub decode_whole {ℓ} : {A : Type ℓ} → Decode A → Bytes → Codec A
  decode_whole body payload = elim (open_payload payload) [
    | err e ↦ err e
    | ok unread ↦ elim ((body >>= λ a. require_end >>= λ _. pure a) unread) [
      | err e ↦ err e
      | ok (a, rest) ↦ ok a
    ]
  ]

  unfoldable pub decode_request : Bytes → Result Request
  decode_request payload = codec_failure_result (decode_whole decode_request_payload payload)

module _ ⦃k : Kernel⦄ where
  -- The request with only what its method selects, as a decoder builds it.
  abbrev pub keep_selected : Method → Request → Request
  keep_selected session_create r = record (blank_request r.request_id r.method) {
    document = r.document;
  }
  keep_selected session_close r = record (blank_request r.request_id r.method) {
    session_id = r.session_id;
  }
  keep_selected job_submit r = record (blank_request r.request_id r.method) {
    session_id = r.session_id;
    submit_options = r.submit_options;
  }
  keep_selected job_status r = record (blank_request r.request_id r.method) { job_id = r.job_id }
  keep_selected job_cancel r = record (blank_request r.request_id r.method) { job_id = r.job_id }
  keep_selected job_result r = record (blank_request r.request_id r.method) { job_id = r.job_id }
  keep_selected job_release r = record (blank_request r.request_id r.method) { job_id = r.job_id }
  keep_selected daemon_info r = blank_request r.request_id r.method
  keep_selected daemon_shutdown r = blank_request r.request_id r.method

  abbrev pub selected : Request → Request
  selected r = keep_selected r.method r

-- The ranges of the C++ members.
pub record IsRequest (r : Request) : Type 0 where
  pub id_range : r.request_id < 2 ^ 64
  pub document_ranges : IsWorkflowDocument r.document
  pub session_instance : r.session_id.instance_id < 2 ^ 64
  pub session_value : r.session_id.value < 2 ^ 64
  pub job_instance : r.job_id.instance_id < 2 ^ 64
  pub job_value : r.job_id.value < 2 ^ 64
  pub parallelism_range : r.submit_options.maximum_parallelism < 2 ^ 32
