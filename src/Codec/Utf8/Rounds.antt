-- ===== src/Codec/Utf8/Rounds.antt =====
-- One round of `valid_utf8` on a multi-byte scalar, without masks.
use photospider_daemon.Base.{
  ℕ, zero, suc, ◌+◌, ◌*◌, ◌%◌, ◌<◌, ◌≡◌, refl, ◌∙◌, ◌&&◌, [], ◌∷◌, Bytes, leb, if◌then◌else◌,
  Option, none, some, All, bit_and, Bool-cases, inl, inr,
}
use photospider_daemon.Codec.Utf8.{Lead, classify_lead, continue_scalar, scalar_allowed, multi_byte}
use photospider_daemon.Codec.Utf8.Masks.{
  is_continuation, continuation_mask, low_three, low_four, low_five, shifted_in,
}

-- The continuation bytes that are left, in arithmetic.
unfoldable pub continued : ℕ → ℕ → Bytes → Option (ℕ × Bytes)
continued zero scalar rest = some (scalar, rest)
continued (suc count) scalar [] = none
continued (suc count) scalar (byte ∷ rest) =
    let more = continued count (scalar * 64 + byte % 64) rest in
    if is_continuation byte then more else none

continue_scalar-continued :
    (count scalar : ℕ) (rest : Bytes)
    → All (λ b. b < 256) rest
    → continue_scalar count scalar rest ≡ continued count scalar rest
unfolding continue_scalar continued
continue_scalar-continued zero scalar rest h = refl
continue_scalar-continued (suc count) scalar [] h = refl
continue_scalar-continued (suc count) scalar (byte ∷ rest) h =
    rw
      (
        continuation_mask byte h.0,
        shifted_in byte h.0 scalar,
        continue_scalar-continued count (scalar * 64 + byte % 64) rest h.1,
      )
      refl

-- What a lead byte announces: the continuation bytes, the bits of the scalar and the least scalar.
abbrev pub checked : ℕ → Option (ℕ × Bytes) → Option Bytes
checked minimum none = none
checked minimum (some (scalar, behind)) =
    if scalar_allowed minimum scalar then some behind else none

unfoldable pub round : ℕ → Bytes → Option Bytes
unfolding continued
round first rest =
    if leb 0xc2 first && leb first 0xdf
    then checked 0x80 (continued 1 (first % 32) rest)
    else if leb 0xe0 first && leb first 0xef
    then checked 0x800 (continued 2 (first % 16) rest)
    else if leb 0xf0 first && leb first 0xf4
    then checked 0x10000 (continued 3 (first % 8) rest)
    else none

multi_byte-lead :
    (first : ℕ) (rest : Bytes) (lead : Lead) (o : Option (ℕ × Bytes))
    → classify_lead first ≡ some lead
    → continue_scalar lead.continuation_count lead.scalar rest ≡ o
    → multi_byte first rest ≡ checked lead.minimum o
unfolding multi_byte
multi_byte-lead first rest lead none e c = rw (e, c, multi_byte) refl
multi_byte-lead first rest lead (some (scalar, behind)) e c = rw (e, c, multi_byte) refl

multi_byte-none :
    (first : ℕ) (rest : Bytes) → classify_lead first ≡ none → multi_byte first rest ≡ none
unfolding multi_byte
multi_byte-none first rest e = rw (e, multi_byte) refl

pub multi_byte-round :
    (first : ℕ) (rest : Bytes)
    → first < 256
    → All (λ b. b < 256) rest
    → multi_byte first rest ≡ round first rest
unfolding classify_lead round
multi_byte-round first rest h all = elim (Bool-cases (leb 0xc2 first && leb first 0xdf)) [
  | inl two ↦
      multi_byte-lead first rest
        (record { continuation_count = 1; scalar = bit_and first 0x1f; minimum = 0x80 }) _
        (rw two refl) (continue_scalar-continued 1 _ rest all)
      ∙ rw (two, low_five first h) refl
  | inr no_two ↦ elim (Bool-cases (leb 0xe0 first && leb first 0xef)) [
    | inl three ↦
        multi_byte-lead first rest
          (record { continuation_count = 2; scalar = bit_and first 0x0f; minimum = 0x800 }) _
          (rw (no_two, three) refl) (continue_scalar-continued 2 _ rest all)
        ∙ rw (no_two, three, low_four first h) refl
    | inr no_three ↦ elim (Bool-cases (leb 0xf0 first && leb first 0xf4)) [
      | inl four ↦
          multi_byte-lead first rest
            (record { continuation_count = 3; scalar = bit_and first 0x07; minimum = 0x10000 }) _
            (rw (no_two, no_three, four) refl) (continue_scalar-continued 3 _ rest all)
          ∙ rw (no_two, no_three, four, low_three first h) refl
      | inr no_four ↦
          multi_byte-none first rest (rw (no_two, no_three, no_four) refl)
          ∙ rw (no_two, no_three, no_four) refl
    ]
  ]
]
