-- ===== src/Codec/Correlation.antt =====
-- Failures before routing, of src/lib/ipc/codec.cpp: `recover_correlation`,
-- `encode_protocol_error` and `decode_protocol_error`.
pub mod Recovery
pub mod Agreement
use photospider_daemon.Base.{
  ℕ, zero, suc, ◌+◌, ◌*◌, ◌^◌, Bool, not, ◌&&◌, ◌||◌, List, [], ◌∷◌, Bytes, length, ltb, ◌==◌,
  if◌then◌else◌, bit_or, Option, none, some,
}
use photospider_daemon.Base.Outcome.{ok, err}
use photospider_daemon.Kernel.{Kernel, Status, Result}
use photospider_daemon.Protocol.{protocol_version, Method, daemon_info}
use photospider_daemon.Codec.Failure.{Codec, invalid, codec_failure_result}
use photospider_daemon.Codec.Encoder
use photospider_daemon.Codec.Encoder.{Encode, ◌>>◌, ensure}
use photospider_daemon.Codec.Decoder
use photospider_daemon.Codec.Decoder.{Decode, ◌>>=◌, pure, require, lift}
use photospider_daemon.Codec.Method.{method_code, method_of, valid_method, decode_method}
use photospider_daemon.Codec.Status.{encode_status, decode_status}
use photospider_daemon.Codec.Request.{decode_whole}
use photospider_daemon.Codec.Response.{Response, blank_response}

pub record RecoveredCorrelation : Type 0 where
  pub request_id : ℕ
  pub method : Method

abbrev pub sentinel : RecoveredCorrelation
sentinel = record { request_id = 0; method = daemon_info }

-- `(*payload)[index]`, where the payload is long enough.
unfoldable pub byte_at : Bytes → ℕ → ℕ
byte_at [] index = 0
byte_at (b ∷ rest) zero = b
byte_at (b ∷ rest) (suc index) = byte_at rest index

-- The loop over the eight bytes of the request id.
unfoldable pub header_id : Bytes → ℕ → ℕ → ℕ → ℕ
header_id payload zero index value = value
header_id payload (suc rounds) index value =
    header_id payload rounds (index + 1)
      (bit_or value (byte_at payload (index + 2) * 2 ^ (index * 8)))

unfoldable pub recover_correlation : Option Bytes → RecoveredCorrelation
recover_correlation none = sentinel
recover_correlation (some payload) =
    if ltb (length payload) 11
      || not (bit_or (byte_at payload 0) (byte_at payload 1 * 2 ^ 8) == protocol_version)
    then sentinel
    else if header_id payload 8 0 0 == 0 || not (valid_method (byte_at payload 10))
    then sentinel
    else record { request_id = header_id payload 8 0 0; method = method_of (byte_at payload 10) }

module _ ⦃k : Kernel⦄ where
  unfoldable pub encode_error_payload : Status → RecoveredCorrelation → Encode
  encode_error_payload status correlation =
      Encoder.u16 protocol_version
      >> (Encoder.u64 correlation.request_id
          >> (Encoder.u8 (method_code correlation.method) >> encode_status status))

  unfoldable pub encode_protocol_error : Status → Option Bytes → Result Bytes
  encode_protocol_error status request_payload = codec_failure_result (
      (ensure (not (k.status_ok status)) (invalid "protocol error response cannot carry success")
          >> encode_error_payload status (recover_correlation request_payload))
        [])

  unfoldable pub decode_error_payload : {Value : Type 0} → Decode (Response Value)
  decode_error_payload = do
    version ← Decoder.u16
    _ ←
        require (version == protocol_version)
          (invalid "protocol error response version is not three")
    request_id ← Decoder.u64
    raw ← Decoder.u8
    method ← lift (decode_method raw)
    status ← decode_status
    pure (blank_response request_id method status)

  -- The check behind `require_end()`.
  unfoldable pub accept_error : {Value : Type 0} → Codec (Response Value) → Codec (Response Value)
  accept_error (err e) = err e
  accept_error (ok r) =
      if k.status_ok r.status
        || (r.request_id == 0 && not (method_code r.method == method_code daemon_info))
      then err (invalid "protocol error response status or sentinel is invalid")
      else ok r

  unfoldable pub decode_protocol_error : {Value : Type 0} → Bytes → Result (Response Value)
  decode_protocol_error payload =
      codec_failure_result (accept_error (decode_whole decode_error_payload payload))
