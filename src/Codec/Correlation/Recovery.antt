-- ===== src/Codec/Correlation/Recovery.antt =====
-- What a failed request's answer is correlated with.
use photospider_daemon.Base.{ℕ, ◌≡◌, [], ◌∷◌, Bytes, arith, some}
use photospider_daemon.Base.Bits.{bit_or_first}
use photospider_daemon.Base.Outcome.{ok, err}
use photospider_daemon.Kernel.{Kernel}
use photospider_daemon.Protocol.{Method}
use photospider_daemon.Codec.Failure.{Codec}
use photospider_daemon.Codec.Decoder
use photospider_daemon.Codec.Method.{valid_method, decode_method}
use photospider_daemon.Codec.Request.{decode_header}
use photospider_daemon.Codec.Correlation.{
  RecoveredCorrelation, sentinel, byte_at, header_id, recover_correlation,
}

-- The header that a decode found, or the sentinel.
abbrev pub correlation_of : Codec ((ℕ × Method) × Bytes) → RecoveredCorrelation
correlation_of (ok (header, rest)) = record { request_id = header.0; method = header.1 }
correlation_of (err e) = sentinel

module _ ⦃k : Kernel⦄ where
  -- On every payload, whatever follows its header, `recover_correlation` returns the id and the
  -- method that `decode_request` reads there, or the sentinel where it reads no valid header.
  pub recover_correlation-decode_header :
      (payload : Bytes)
      → recover_correlation (some payload) ≡ correlation_of (decode_header payload)
  unfolding recover_correlation decode_header byte_at header_id Decoder.u16 Decoder.u64
      Decoder.little_endian Decoder.u8 Decoder.require Decoder.lift decode_method valid_method
  recover_correlation-decode_header ([]) = ground arith
  recover_correlation-decode_header (v0 ∷ []) = ground arith
  recover_correlation-decode_header (v0 ∷ v1 ∷ []) = ground (arith, bit_or_first v0)
  recover_correlation-decode_header (v0 ∷ v1 ∷ i0 ∷ []) = ground (arith, bit_or_first v0)
  recover_correlation-decode_header (v0 ∷ v1 ∷ i0 ∷ i1 ∷ []) = ground (arith, bit_or_first v0)
  recover_correlation-decode_header (v0 ∷ v1 ∷ i0 ∷ i1 ∷ i2 ∷ []) = ground (arith, bit_or_first v0)
  recover_correlation-decode_header (v0 ∷ v1 ∷ i0 ∷ i1 ∷ i2 ∷ i3 ∷ []) =
      ground (arith, bit_or_first v0)
  recover_correlation-decode_header (v0 ∷ v1 ∷ i0 ∷ i1 ∷ i2 ∷ i3 ∷ i4 ∷ []) =
      ground (arith, bit_or_first v0)
  recover_correlation-decode_header (v0 ∷ v1 ∷ i0 ∷ i1 ∷ i2 ∷ i3 ∷ i4 ∷ i5 ∷ []) =
      ground (arith, bit_or_first v0)
  recover_correlation-decode_header (v0 ∷ v1 ∷ i0 ∷ i1 ∷ i2 ∷ i3 ∷ i4 ∷ i5 ∷ i6 ∷ []) =
      ground (arith, bit_or_first v0)
  recover_correlation-decode_header (v0 ∷ v1 ∷ i0 ∷ i1 ∷ i2 ∷ i3 ∷ i4 ∷ i5 ∷ i6 ∷ i7 ∷ []) =
      ground (arith, bit_or_first v0, bit_or_first i0)
  recover_correlation-decode_header (v0 ∷ v1 ∷ i0 ∷ i1 ∷ i2 ∷ i3 ∷ i4 ∷ i5 ∷ i6 ∷ i7 ∷ m ∷ rest) =
      ground (arith, bit_or_first v0, bit_or_first i0)
