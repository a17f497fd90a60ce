-- ===== src/Codec/Decoder.antt =====
-- The class `Decoder` of src/lib/ipc/codec.cpp. Its state is the unread part of the payload, the
-- bytes from `offset_` on: a `Decode` reads a value and returns it with what is then unread.
use photospider_daemon.Base.{
  ℕ, zero, suc, ◌+◌, ◌-◌, ◌*◌, ◌/◌, ◌^◌, Bool, true, false, not, ◌&&◌, List, [], ◌∷◌, Bytes, length,
  take, drop, ltb, leb, ◌==◌, if◌then◌else◌, bit_or, Option, none, some,
}
use photospider_daemon.Base.Outcome.{ok, err}
use photospider_daemon.Kernel.{Kernel}
use photospider_daemon.Codec.Failure.{CodecFailure, Codec, invalid}
use photospider_daemon.Protocol.{maximum_frame_payload_bytes}
use photospider_daemon.Codec.Utf8.{valid_utf8}

abbrev pub Decode {ℓ} : Type ℓ → Type ℓ
Decode A = Bytes → Codec (A × Bytes)

abbrev pub pure {ℓ} : {A : Type ℓ} → A → Decode A
pure a unread = ok (a, unread)

abbrev pub throw {ℓ} : {A : Type ℓ} → CodecFailure → Decode A
throw e unread = err e

infixl 5 ◌>>=◌
abbrev pub ◌>>=◌ {ℓ κ} : {A : Type ℓ} {B : Type κ} → Decode A → (A → Decode B) → Decode B
◌>>=◌ first next unread = elim (first unread) [ ok (a, rest) ↦ next a rest | err e ↦ err e ]

-- `if (!test) throw failure;`
unfoldable pub require : Bool → CodecFailure → Decode (Unit {0})
require true failure unread = ok (tt, unread)
require false failure unread = err failure

-- A validation, with the failure that it throws.
unfoldable pub validate : Option CodecFailure → Decode (Unit {0})
validate none unread = ok (tt, unread)
validate (some failure) unread = err failure

-- A callee that decodes no bytes of its own.
unfoldable pub lift {ℓ} : {A : Type ℓ} → Codec A → Decode A
lift (ok a) unread = ok (a, unread)
lift (err e) unread = err e

-- A counted loop that appends one entry in each round.
unfoldable pub repeat {ℓ} : {A : Type ℓ} → ℕ → Decode A → Decode (List A)
repeat zero get = pure []
repeat (suc count) get = do x ← get; xs ← repeat count get; pure (x ∷ xs)

-- Minimum encoded bytes of an entry, and of what follows the whole collection.
pub record CountContract : Type 0 where
  pub minimum_entry_bytes : ℕ
  pub required_suffix_bytes : ℕ

unfoldable pub count_fits : ℕ → ℕ → CountContract → Bool
count_fits count remaining_bytes contract =
    not (contract.minimum_entry_bytes == 0)
    && (leb contract.required_suffix_bytes remaining_bytes
        && leb count
            ((remaining_bytes - contract.required_suffix_bytes) / contract.minimum_entry_bytes))

module _ ⦃k : Kernel⦄ where
  -- The constructor.
  unfoldable pub open_payload : Bytes → Codec Bytes
  open_payload payload =
      if ltb maximum_frame_payload_bytes (length payload)
      then err (invalid "wire payload exceeds maximum frame size")
      else ok payload

  unfoldable pub u8 : Decode ℕ
  u8 [] = err (invalid "wire payload is truncated")
  u8 (byte ∷ rest) = ok (byte, rest)

  -- `require(size)`, the copy and the move of `offset_`.
  unfoldable pub read_block : ℕ → Decode Bytes
  read_block size unread =
      if ltb (length unread) size
      then err (invalid "wire payload is truncated")
      else ok (take size unread, drop size unread)

  -- The loop of `u16`, `u32` and `u64`. `value |= byte << (index * 8)` stays within the width.
  unfoldable pub little_endian : ℕ → ℕ → ℕ → Decode ℕ
  little_endian zero index value = pure value
  little_endian (suc rounds) index value = do
    byte ← u8
    little_endian rounds (index + 1) (bit_or value (byte * 2 ^ (index * 8)))

  unfoldable pub u16 : Decode ℕ
  u16 = little_endian 2 0 0

  unfoldable pub u32 : Decode ℕ
  u32 = little_endian 4 0 0

  unfoldable pub u64 : Decode ℕ
  u64 = little_endian 8 0 0

  unfoldable pub i64 : Decode ℕ
  i64 = u64

  unfoldable pub f64 : Decode ℕ
  f64 = u64

  unfoldable pub boolean : Decode Bool
  boolean = do
    value ← u8
    _ ← require (not (ltb 1 value)) (invalid "wire boolean is not zero or one")
    pure (not (value == 0))

  unfoldable pub text : ℕ → Decode Bytes
  text maximum = do
    size ← u32
    _ ← require (not (ltb maximum size)) (invalid "wire text exceeds its method bound")
    value ← read_block size
    _ ← require (valid_utf8 value) (invalid "wire text is invalid UTF-8")
    pure value

  unfoldable pub bytes : ℕ → Decode Bytes
  bytes maximum = do
    size ← u32
    _ ← require (not (ltb maximum size)) (invalid "wire byte vector exceeds its method bound")
    read_block size

  unfoldable pub require_count_fits : ℕ → CountContract → Decode (Unit {0})
  require_count_fits count contract unread =
      if count_fits count (length unread) contract
      then ok (tt, unread)
      else err (invalid "wire collection count exceeds remaining bytes")

  unfoldable pub require_end : Decode (Unit {0})
  require_end [] = ok (tt, [])
  require_end (byte ∷ rest) = err (invalid "wire payload has trailing bytes")
