-- ===== src/Codec/Utf8.antt =====
-- `valid_utf8` of src/lib/ipc/codec.cpp.
pub mod Masks
pub mod Rounds
pub mod Grammar
pub mod Encoded
pub mod Agreement
use photospider_daemon.Base.{
  ℕ, zero, suc, ◌*◌, ◌^◌, Bool, true, false, ◌&&◌, ◌||◌, not, [], ◌∷◌, Bytes, length, ltb, leb,
  ◌==◌, if◌then◌else◌, bit_and, bit_or, Option, none, some,
}

-- The lead byte's continuation count, initial scalar bits and least scalar.
pub record Lead : Type 0 where
  pub continuation_count : ℕ
  pub scalar : ℕ
  pub minimum : ℕ

unfoldable pub classify_lead : ℕ → Option Lead
classify_lead first =
    if leb 0xc2 first && leb first 0xdf
    then some (record { continuation_count = 1; scalar = bit_and first 0x1f; minimum = 0x80 })
    else if leb 0xe0 first && leb first 0xef
    then some (record { continuation_count = 2; scalar = bit_and first 0x0f; minimum = 0x800 })
    else if leb 0xf0 first && leb first 0xf4
    then some (record { continuation_count = 3; scalar = bit_and first 0x07; minimum = 0x10000 })
    else none

-- The inner loop: the scalar with the bits of `count` continuation bytes, and the bytes behind
-- them. `none` where the text ends or a byte is no continuation byte.
unfoldable pub continue_scalar : ℕ → ℕ → Bytes → Option (ℕ × Bytes)
continue_scalar zero scalar rest = some (scalar, rest)
continue_scalar (suc count) scalar [] = none
continue_scalar (suc count) scalar (byte ∷ rest) =
    let more = continue_scalar count (bit_or (scalar * 2 ^ 6) (bit_and byte 0x3f)) rest in
    if bit_and byte 0xc0 == 0x80 then more else none

unfoldable pub scalar_allowed : ℕ → ℕ → Bool
scalar_allowed minimum scalar =
    not (ltb scalar minimum || ltb 0x10ffff scalar || (leb 0xd800 scalar && leb scalar 0xdfff))

-- One round of the outer loop on a multi-byte scalar: the bytes behind it.
unfoldable pub multi_byte : ℕ → Bytes → Option Bytes
unfolding classify_lead continue_scalar scalar_allowed
multi_byte first rest = elim (classify_lead first) [
  | none ↦ none
  | some lead ↦ elim (continue_scalar lead.continuation_count lead.scalar rest) [
    | none ↦ none
    | some (scalar, behind) ↦ if scalar_allowed lead.minimum scalar then some behind else none
  ]
]

-- The outer loop over what `index` has not reached; each round takes a byte at least.
unfoldable pub valid_utf8_loop : ℕ → Bytes → Bool
unfolding multi_byte
valid_utf8_loop fuel [] = true
valid_utf8_loop zero (first ∷ rest) = false
valid_utf8_loop (suc fuel) (first ∷ rest) = elim (leb first 0x7f) [
  | true ↦ valid_utf8_loop fuel rest
  | false ↦ elim (multi_byte first rest) [
    | none ↦ false
    | some behind ↦ valid_utf8_loop fuel behind
  ]
]

unfoldable pub valid_utf8 : Bytes → Bool
unfolding valid_utf8_loop
valid_utf8 value = valid_utf8_loop (length value) value
