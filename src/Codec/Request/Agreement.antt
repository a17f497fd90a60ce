-- ===== src/Codec/Request/Agreement.antt =====
-- `decode_request` undoes `encode_request`.
use photospider_daemon.Base.{
  ℕ, ◌^◌, ◌≤◌, ◌<◌, ◌≡◌, refl, sym, ap, ◌∙◌, [], ◌++◌, Bytes, length, arith, subst, append-nil,
}
use photospider_daemon.Base.Outcome.{ok, err}
use photospider_daemon.Kernel.{Kernel}
use photospider_daemon.Protocol.{
  maximum_frame_payload_bytes, SessionId, JobId, Method, session_create, session_close, job_submit,
  job_status, job_cancel, job_result, job_release, daemon_info, daemon_shutdown,
}
use photospider_daemon.Codec.Failure.{Codec, codec_failure_result}
use photospider_daemon.Codec.Status.{require_job_id}
use photospider_daemon.Codec.Encoder
use photospider_daemon.Codec.Encoder.{Encode, ◌>>◌}
use photospider_daemon.Codec.Decoder
use photospider_daemon.Codec.Decoder.{Decode, ◌>>=◌, pure, lift, open_payload, require_end}
use photospider_daemon.Codec.Method.{method_code, decode_method}
use photospider_daemon.Codec.RoundTrip.Compose.{
  RoundTrip, RoundTrip-bind, RoundTrip-pure, RoundTrip-last, RoundTrip-then, RoundTrip-weaken,
  RoundTrip-require, RoundTrip-ensure, RoundTrip-validate_encode,
}
use photospider_daemon.Codec.RoundTrip.Scalars.{
  u8-RoundTrip, u16-RoundTrip, u32-RoundTrip, u64-RoundTrip, boolean-RoundTrip,
}
use photospider_daemon.Codec.Document.Agreement.{document-RoundTrip}
use photospider_daemon.Codec.Request.{
  Request, IsRequest, selected, keep_selected, blank_request, encode_session_id, encode_job_id,
  decode_session_id, decode_job_id, encode_arguments, decode_arguments, encode_header,
  decode_header, encode_request_payload, decode_request_payload, encode_request, decode_request,
  decode_whole,
}

module _ ⦃k : Kernel⦄ where
  -- The exported function succeeds only where nothing was thrown.
  pub ok_of_result : {A : Type 0} {a : A} (c : Codec A) → codec_failure_result c ≡ ok a → c ≡ ok a
  ok_of_result (ok b) h = cc
  ok_of_result (err e) h = absurd (cc)

  pub RoundTrip-lift :
      {A B : Type 0} {e : Encode} {b : B} {m s : ℕ} (c : Codec A) (f : A → Decode B) (a : A)
      → c ≡ ok a
      → RoundTrip e (f a) b m s
      → RoundTrip e (lift c >>= f) b m s
  unfolding lift
  RoundTrip-lift {e = e} {b = b} {m = m} {s = s} c f a h x =
      subst (λ r. RoundTrip e (lift r >>= f) b m s) (sym h) x

  pub decode_method-method_code : (m : Method) → decode_method (method_code m) ≡ ok m
  unfolding decode_method
  decode_method-method_code session_create = refl
  decode_method-method_code _ = refl

  pub session_id-RoundTrip :
      (id : SessionId)
      → id.instance_id < 2 ^ 64
      → id.value < 2 ^ 64
      → RoundTrip (encode_session_id id) decode_session_id id 16 0
  unfolding encode_session_id decode_session_id
  session_id-RoundTrip id h h' =
      RoundTrip-bind _ (u64-RoundTrip id.instance_id h)
        (RoundTrip-last _ (u64-RoundTrip id.value h')) (omega arith)

  pub job_id-RoundTrip :
      (id : JobId)
      → id.instance_id < 2 ^ 64
      → id.value < 2 ^ 64
      → RoundTrip (encode_job_id id) decode_job_id id 16 0
  unfolding encode_job_id decode_job_id
  job_id-RoundTrip id h h' =
      RoundTrip-bind _ (u64-RoundTrip id.instance_id h)
        (RoundTrip-last _ (u64-RoundTrip id.value h')) (omega arith)

  -- A job argument, checked on both sides.
  job_argument-RoundTrip :
      (id : JobId) (f : JobId → Request)
      → id.instance_id < 2 ^ 64
      → id.value < 2 ^ 64
      → RoundTrip
          (Encoder.validate (require_job_id id) >> encode_job_id id)
          (decode_job_id >>= λ read. Decoder.validate (require_job_id read) >>= λ _. pure (f read))
          (f id)
          0
          0
  unfolding Decoder.validate
  job_argument-RoundTrip id f h h' = RoundTrip-validate_encode _ λ valid.
      RoundTrip-weaken _ _ (omega arith) (omega arith)
        (RoundTrip-then _ (job_id-RoundTrip id h h') (λ rest. rw valid))

  arguments-RoundTrip :
      (m : Method) (r : Request)
      → IsRequest r
      → RoundTrip
          (encode_arguments m r)
          (decode_arguments m (blank_request r.request_id r.method))
          (keep_selected m r)
          0
          0
  unfolding encode_arguments decode_arguments Decoder.validate
  arguments-RoundTrip session_create r h =
      RoundTrip-weaken _ _ (omega arith) (omega arith)
        (RoundTrip-last _ (document-RoundTrip r.document h.document_ranges))
  arguments-RoundTrip session_close r h = RoundTrip-validate_encode _ λ valid.
      RoundTrip-weaken _ _ (omega arith) (omega arith) (
        RoundTrip-then _ (session_id-RoundTrip r.session_id h.session_instance h.session_value)
          (λ rest. rw valid))
  arguments-RoundTrip job_submit r h = RoundTrip-validate_encode _ λ valid.
      RoundTrip-weaken _ _ (omega arith) (omega arith) (
        RoundTrip-bind _ (session_id-RoundTrip r.session_id h.session_instance h.session_value)
          (RoundTrip-bind _ (boolean-RoundTrip r.submit_options.allow_gpu)
            (RoundTrip-then _
              (u32-RoundTrip r.submit_options.maximum_parallelism h.parallelism_range)
              (λ rest. rw valid))
            (omega arith))
          (omega arith))
  arguments-RoundTrip job_status r h = job_argument-RoundTrip r.job_id _ h.job_instance h.job_value
  arguments-RoundTrip job_cancel r h = job_argument-RoundTrip r.job_id _ h.job_instance h.job_value
  arguments-RoundTrip job_result r h = job_argument-RoundTrip r.job_id _ h.job_instance h.job_value
  arguments-RoundTrip job_release r h = job_argument-RoundTrip r.job_id _ h.job_instance h.job_value
  arguments-RoundTrip daemon_info r h = RoundTrip-pure
  arguments-RoundTrip daemon_shutdown r h = RoundTrip-pure

  pub header-RoundTrip :
      (id : ℕ) (m : Method)
      → id < 2 ^ 64
      → RoundTrip (encode_header id m) decode_header (id, m) 11 0
  unfolding encode_header decode_header lift
  header-RoundTrip id m h = RoundTrip-ensure _ _ λ valid.
      RoundTrip-bind _ (u16-RoundTrip 3 (omega arith))
        (RoundTrip-require _ _ _ refl (
          RoundTrip-bind _ (u64-RoundTrip id h)
            (RoundTrip-require _ _ _ (ground arith) (
              RoundTrip-then _ (u8-RoundTrip (method_code m))
                (λ rest. rw (decode_method-method_code m))))
            (omega arith)))
        (omega arith)

  request_payload-RoundTrip :
      (r : Request)
      → IsRequest r
      → RoundTrip (encode_request_payload r) decode_request_payload (selected r) 11 0
  unfolding encode_request_payload decode_request_payload
  request_payload-RoundTrip r h =
      RoundTrip-bind _ (header-RoundTrip r.request_id r.method h.id_range)
        (arguments-RoundTrip r.method r h) (omega arith)

  -- A whole payload that was written is in the bounds of a frame.
  pub written_size :
      {A : Type 0} {e : Encode} {d : Decode A} {a : A} {m : ℕ} {payload : Bytes}
      → RoundTrip e d a m 0
      → 0 < m
      → e [] ≡ ok payload
      → (0 < length payload) × (length payload ≤ maximum_frame_payload_bytes)
  written_size {payload = payload} x positive h =
      let w = x.run [] payload h in
      let same : length payload ≡ length w.written = ap length w.appended in
      (omega (arith, same, w.long), w.bounded (omega arith))

  -- A whole payload that was written decodes to its value, with nothing left.
  pub decode_whole-encode :
      {A : Type 0} {e : Encode} (d : Decode A) (a : A) {m : ℕ} (payload : Bytes)
      → RoundTrip e d a m 0
      → e [] ≡ ok payload
      → decode_whole d payload ≡ ok a
  unfolding decode_whole open_payload require_end
  decode_whole-encode d a payload x h =
      let w = x.run [] payload h in
      let fits : length payload ≤ maximum_frame_payload_bytes = w.bounded (omega arith) in
      let same : payload ≡ w.written ++ [] = w.appended ∙ sym (append-nil w.written) in
      let read : d payload ≡ ok (a, []) = ap d same ∙ w.reads [] (omega arith) in ground arith

  -- Whatever `encode_request` writes, `decode_request` reads as the same request: its id, its
  -- method and what the method selects, for requests in the ranges of their C++ members with their
  -- parameters in key order.
  pub decode_request-encode_request :
      (r : Request) (payload : Bytes)
      → IsRequest r
      → encode_request r ≡ ok payload
      → decode_request payload ≡ ok (selected r)
  unfolding encode_request decode_request
  decode_request-encode_request r payload h e = ap codec_failure_result (
      decode_whole-encode decode_request_payload (selected r) payload
        (request_payload-RoundTrip r h) (ok_of_result (encode_request_payload r []) e))

  pub length-encode_request :
      (r : Request) (payload : Bytes)
      → IsRequest r
      → encode_request r ≡ ok payload
      → (0 < length payload) × (length payload ≤ maximum_frame_payload_bytes)
  unfolding encode_request
  length-encode_request r payload h e =
      written_size (request_payload-RoundTrip r h) (omega arith)
        (ok_of_result (encode_request_payload r []) e)
