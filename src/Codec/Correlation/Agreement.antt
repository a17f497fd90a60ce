-- ===== src/Codec/Correlation/Agreement.antt =====
-- Answers to requests that were not routed.
use photospider_daemon.Base.{
  ℕ, zero, suc, ◌+◌, ◌*◌, ◌^◌, ◌<◌, ◌≡◌, refl, sym, ap, ◌∙◌, subst, true, false, not, ◌&&◌, [], ◌∷◌,
  ◌++◌, Bytes, All, ◌==◌, arith, bit_or, Option, none, some,
}
use photospider_daemon.Base.Bits.{bit_or_disjoint}
use photospider_daemon.Base.Outcome.{ok}
use photospider_daemon.Kernel.{Kernel, Status}
use photospider_daemon.Protocol.{Method}
use photospider_daemon.Codec.Failure.{codec_failure_result}
use photospider_daemon.Codec.Method.{method_code}
use photospider_daemon.Codec.RoundTrip.Compose.{
  RoundTrip, RoundTrip-bind, RoundTrip-require, RoundTrip-ensure, RoundTrip-last, ensure_passed,
}
use photospider_daemon.Codec.RoundTrip.Scalars.{
  u8-RoundTrip, u16-RoundTrip, u64-RoundTrip, pow_byte, mul_le,
}
use photospider_daemon.Codec.Request.{encode_header, decode_header}
use photospider_daemon.Codec.Request.Agreement.{
  header-RoundTrip, RoundTrip-lift, decode_method-method_code, decode_whole-encode, ok_of_result,
}
use photospider_daemon.Codec.Response.{blank_response}
use photospider_daemon.Codec.Response.Agreement.{status-RoundTrip, not-true}
use photospider_daemon.Codec.Correlation.{
  RecoveredCorrelation, byte_at, header_id, recover_correlation, encode_error_payload,
  encode_protocol_error, decode_error_payload, decode_protocol_error, accept_error,
}
use photospider_daemon.Codec.Correlation.Recovery.{
  recover_correlation-decode_header, correlation_of,
}

byte_at-lt : (xs : Bytes) (i : ℕ) → All (λ b. b < 256) xs → byte_at xs i < 256
unfolding byte_at
byte_at-lt [] i h = omega arith
byte_at-lt (x ∷ xs) zero h = h.0
byte_at-lt (x ∷ xs) (suc i) h = byte_at-lt xs i h.1

-- One more byte above the low ones.
with_byte-lt :
    (low byte index : ℕ)
    → low < 2 ^ (index * 8)
    → byte < 256
    → bit_or low (byte * 2 ^ (index * 8)) < 2 ^ ((index + 1) * 8)
with_byte-lt low byte index h b = omega (
  arith,
  bit_or_disjoint (index * 8) low byte h,
  pow_byte index,
  mul_le byte 255 (2 ^ (index * 8)) (omega arith),
)

header_id-lt :
    (payload : Bytes) (rounds index value : ℕ)
    → All (λ b. b < 256) payload
    → value < 2 ^ (index * 8)
    → header_id payload rounds index value < 2 ^ ((index + rounds) * 8)
unfolding header_id
header_id-lt payload zero index value bytes h = subst (λ i. value < 2 ^ (i * 8)) (omega arith) h
header_id-lt payload (suc rounds) index value bytes h =
    subst
      (λ i.
        header_id payload rounds (index + 1)
          (bit_or value (byte_at payload (index + 2) * 2 ^ (index * 8)))
        < 2 ^ (i * 8))
      (omega arith)
      (header_id-lt payload rounds (index + 1) _ bytes (
        with_byte-lt value (byte_at payload (index + 2)) index h
          (byte_at-lt payload (index + 2) bytes)))

-- The bytes behind a frame, where there is one.
abbrev pub IsPayload : Option Bytes → Type 0
IsPayload none = Unit {0}
IsPayload (some payload) = All (λ b. b < 256) payload

recovered-lt : (p : Option Bytes) → IsPayload p → (recover_correlation p).request_id < 2 ^ 64
unfolding recover_correlation
recovered-lt none h = omega arith
recovered-lt (some payload) h =
    let bound = header_id-lt payload 8 0 0 h (omega arith) in ground (arith, bound)

-- A recovered id of zero comes with the sentinel's method.
recovered_sentinel :
    (p : Option Bytes)
    → ((recover_correlation p).request_id == 0
        && not (method_code (recover_correlation p).method == 8))
      ≡ false
unfolding recover_correlation
recovered_sentinel none = refl
recovered_sentinel (some payload) = ground arith

module _ ⦃k : Kernel⦄ where
  -- The 64-bit id and the method of an encoded header are recovered whatever bytes follow it.
  pub recover_correlation-encode_header :
      (id : ℕ) (m : Method) (header rest : Bytes)
      → id < 2 ^ 64
      → encode_header id m [] ≡ ok header
      → recover_correlation (some (header ++ rest)) ≡ record { request_id = id; method = m }
  recover_correlation-encode_header id m header rest h e =
      let w = (header-RoundTrip id m h).run [] header e in
      recover_correlation-decode_header (header ++ rest)
      ∙ ap correlation_of (
          subst (λ x. decode_header (x ++ rest) ≡ ok ((id, m), rest)) (sym w.appended)
            (w.reads rest (omega arith)))

  error_payload-RoundTrip :
      {Value : Type 0} (s : Status) (c : RecoveredCorrelation)
      → c.request_id < 2 ^ 64
      → RoundTrip
          (encode_error_payload s c)
          (decode_error_payload {Value = Value})
          (blank_response c.request_id c.method s)
          16
          0
  unfolding encode_error_payload decode_error_payload
  error_payload-RoundTrip s c h =
      RoundTrip-bind _ (u16-RoundTrip 3 (omega arith))
        (RoundTrip-require _ _ _ refl (
          RoundTrip-bind _ (u64-RoundTrip c.request_id h)
            (RoundTrip-bind _ (u8-RoundTrip (method_code c.method))
              (RoundTrip-lift _ _ _ (decode_method-method_code c.method)
                (RoundTrip-last _ (status-RoundTrip s)))
              (omega arith))
            (omega arith)))
        (omega arith)

  accept_error_lem :
      {Value : Type 0} (s : Status) (p : Option Bytes)
      → not (k.status_ok s) ≡ true
      → let r =
          blank_response {Value = Value}
            (recover_correlation p).request_id
            (recover_correlation p).method
            s in
        accept_error (ok r) ≡ ok r
  unfolding accept_error
  accept_error_lem s p failing = rw (not-true (k.status_ok s) failing, recovered_sentinel p)

  -- Where `encode_protocol_error` answers a payload of bytes, or none, the status and the
  -- correlation recovered from the payload arrive at the client as they were.
  pub decode_protocol_error-encode_protocol_error :
      {Value : Type 0} (s : Status) (p : Option Bytes) (payload : Bytes)
      → IsPayload p
      → encode_protocol_error s p ≡ ok payload
      → decode_protocol_error {Value = Value} payload
        ≡ ok (blank_response (recover_correlation p).request_id (recover_correlation p).method s)
  unfolding encode_protocol_error decode_protocol_error
  decode_protocol_error-encode_protocol_error s p payload h e =
      let c = recover_correlation p in
      let sent = ok_of_result _ e in
      let failing = ensure_passed _ _ _ [] sent in
      let whole =
        decode_whole-encode decode_error_payload (blank_response c.request_id c.method s) payload
          (RoundTrip-ensure _ _ λ _. error_payload-RoundTrip s c (recovered-lt p h)) sent in
      ap (λ r. codec_failure_result (accept_error r)) whole
      ∙ ap codec_failure_result (accept_error_lem s p failing)
