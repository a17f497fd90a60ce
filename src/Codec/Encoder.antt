-- ===== src/Codec/Encoder.antt =====
-- The class `Encoder` of src/lib/ipc/codec.cpp. An `Encode` takes the accumulated payload to the
-- longer one, or throws.
use photospider_daemon.Base.{
  ℕ, zero, suc, ◌+◌, ◌-◌, ◌*◌, ◌/◌, ◌%◌, ◌^◌, Bool, true, false, not, ◌||◌, List, [], ◌∷◌, ◌++◌,
  Bytes, length, ltb, if◌then◌else◌, Option, none, some,
}
use photospider_daemon.Base.Words.{sub64}
use photospider_daemon.Base.Outcome.{ok, err}
use photospider_daemon.Kernel.{Kernel}
use photospider_daemon.Protocol.{maximum_frame_payload_bytes}
use photospider_daemon.Codec.Failure.{CodecFailure, Codec, invalid, exhausted}
use photospider_daemon.Codec.Utf8.{valid_utf8}

abbrev pub Encode : Type 0
Encode = Bytes → Codec Bytes

infixl 5 ◌>>◌
abbrev pub ◌>>◌ : Encode → Encode → Encode
◌>>◌ first second payload = elim (first payload) [ ok p ↦ second p | err e ↦ err e ]

-- `if (!test) throw failure;`
unfoldable pub ensure : Bool → CodecFailure → Encode
ensure true failure payload = ok payload
ensure false failure payload = err failure

-- A validation, with the failure that it throws.
unfoldable pub validate : Option CodecFailure → Encode
validate none payload = ok payload
validate (some failure) payload = err failure

abbrev pub refuse : CodecFailure → Encode
refuse failure payload = err failure

-- No bytes.
abbrev pub skip : Encode
skip payload = ok payload

-- A loop over a vector or a map.
unfoldable pub each {ℓ} : {A : Type ℓ} → (A → Encode) → List A → Encode
each put [] = skip
each put (x ∷ xs) = put x >> each put xs

-- What `text` accepts.
abbrev pub text_fits : Bytes → ℕ → Bool
text_fits value maximum =
    not (ltb maximum (length value) || ltb (2 ^ 32 - 1) (length value) || not (valid_utf8 value))

module _ ⦃k : Kernel⦄ where
  unfoldable pub append : Bytes → Encode
  append bytes payload =
      if ltb (sub64 maximum_frame_payload_bytes (length payload)) (length bytes)
      then err (exhausted "wire payload exceeds maximum frame size")
      else ok (payload ++ bytes)

  unfoldable pub u8 : ℕ → Encode
  u8 value = append (value ∷ [])

  -- The loop of `u16`, `u32` and `u64`: `rounds` more bytes from byte `index` on.
  unfoldable pub little_endian : ℕ → ℕ → ℕ → Encode
  little_endian zero index value = skip
  little_endian (suc rounds) index value =
      u8 (value / 2 ^ (index * 8) % 256) >> little_endian rounds (index + 1) value

  unfoldable pub u16 : ℕ → Encode
  u16 value = little_endian 2 0 value

  unfoldable pub u32 : ℕ → Encode
  u32 value = little_endian 4 0 value

  unfoldable pub u64 : ℕ → Encode
  u64 value = little_endian 8 0 value

  -- A signed integer and a binary64 value are carried by their bit patterns.
  unfoldable pub i64 : ℕ → Encode
  i64 bits = u64 bits

  unfoldable pub f64 : ℕ → Encode
  f64 bits = u64 bits

  unfoldable pub boolean : Bool → Encode
  boolean value = u8 (if value then 1 else 0)

  unfoldable pub text : Bytes → ℕ → Encode
  text value maximum =
      ensure (text_fits value maximum) (invalid "wire text exceeds its bound or is invalid UTF-8")
      >> (u32 (length value) >> append value)

  unfoldable pub bytes : Bytes → Encode
  bytes value =
      ensure (not (ltb (2 ^ 32 - 1) (length value))) (exhausted "wire byte vector exceeds uint32")
      >> (u32 (length value) >> append value)
