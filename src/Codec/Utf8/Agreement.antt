-- ===== src/Codec/Utf8/Agreement.antt =====
-- `valid_utf8` accepts exactly the encodings of sequences of Unicode scalar values.
use photospider_daemon.Base.{
  ℕ, zero, suc, ◌+◌, ◌/◌, ◌%◌, ◌≤◌, ◌<◌, ◌≡◌, refl, sym, ap, subst, ◌∙◌, ◌↔◌, true, false, List, [],
  ◌∷◌, ◌++◌, Bytes, length, length-append, ltb, leb, Option-cases, none, some, All, arith,
  Bool-cases, inl, inr,
}
use photospider_daemon.Codec.Utf8.{multi_byte, valid_utf8_loop, valid_utf8}
use photospider_daemon.Codec.Utf8.Rounds.{round, multi_byte-round}
use photospider_daemon.Codec.Utf8.Grammar.{is_scalar, encode_scalar, round-Encodes}
use photospider_daemon.Codec.Utf8.Encoded.{two_complete, three_complete, four_complete}

low_round :
    (fuel first : ℕ) (rest : Bytes)
    → leb first 0x7f ≡ true
    → valid_utf8_loop (suc fuel) (first ∷ rest) ≡ valid_utf8_loop fuel rest
unfolding valid_utf8_loop
low_round fuel first rest low = rw (low, valid_utf8_loop) refl

multi_round :
    (fuel first : ℕ) (rest behind : Bytes)
    → leb first 0x7f ≡ false
    → multi_byte first rest ≡ some behind
    → valid_utf8_loop (suc fuel) (first ∷ rest) ≡ valid_utf8_loop fuel behind
unfolding valid_utf8_loop
multi_round fuel first rest behind high e = rw (high, e, valid_utf8_loop) refl

bad_round :
    (fuel first : ℕ) (rest : Bytes)
    → leb first 0x7f ≡ false
    → multi_byte first rest ≡ none
    → valid_utf8_loop (suc fuel) (first ∷ rest) ≡ false
unfolding valid_utf8_loop
bad_round fuel first rest high e = rw (high, e, valid_utf8_loop) refl

abbrev pub encode_all : List ℕ → Bytes
encode_all [] = []
encode_all (s ∷ ss) = encode_scalar s ++ encode_all ss

-- The encoding of a sequence of Unicode scalar values.
abbrev pub IsUtf8 : Bytes → Type 0
IsUtf8 text =
    (scalars : List ℕ) × All (λ s. is_scalar s ≡ true) scalars × (encode_all scalars ≡ text)

abbrev IsByte : ℕ → Type 0
IsByte b = b < 256

All-suffix : (xs ys : Bytes) → All IsByte (xs ++ ys) → All IsByte ys
All-suffix [] ys h = h
All-suffix (x ∷ xs) ys h = All-suffix xs ys h.1

cons-IsUtf8 :
    (s : ℕ) (behind text : Bytes)
    → is_scalar s ≡ true
    → encode_scalar s ++ behind ≡ text
    → IsUtf8 behind
    → IsUtf8 text
cons-IsUtf8 s behind text scalar e (ss, scalars, same) =
    (s ∷ ss, (scalar, scalars), ap (λ x. encode_scalar s ++ x) same ∙ e)

encode_low : (s : ℕ) → leb s 0x7f ≡ true → (is_scalar s ≡ true) × (encode_scalar s ≡ s ∷ [])
unfolding encode_scalar
encode_low s low = (ground arith, ground arith)

nothing_left : (first : ℕ) (rest : Bytes) → valid_utf8_loop zero (first ∷ rest) ≡ false
unfolding valid_utf8_loop
nothing_left first rest = refl

-- What the loop accepts is an encoding.
loop-IsUtf8 :
    (fuel : ℕ) (text : Bytes) → All IsByte text → valid_utf8_loop fuel text ≡ true → IsUtf8 text
loop-IsUtf8 fuel [] bytes e = ([], _, refl)
loop-IsUtf8 zero (first ∷ rest) bytes e = absurd (ground (arith, e, nothing_left first rest))
loop-IsUtf8 (suc fuel) (first ∷ rest) bytes e = elim (Bool-cases (leb first 0x7f)) [
  | inl low ↦
      let known = encode_low first low in
      cons-IsUtf8 first rest (first ∷ rest) known.0 (ap (λ x. x ++ rest) known.1)
        (loop-IsUtf8 fuel rest bytes.1 (sym (low_round fuel first rest low) ∙ e))
  | inr high ↦ elim (Option-cases (multi_byte first rest)) [
    | inl bad ↦ absurd (ground (arith, e, bad_round fuel first rest high bad))
    | inr (behind, found) ↦
        let (s, scalar, split) =
          round-Encodes first rest behind
            (sym (multi_byte-round first rest bytes.0 bytes.1) ∙ found) in
        cons-IsUtf8 s behind (first ∷ rest) scalar split (
          loop-IsUtf8 fuel behind
            (All-suffix (encode_scalar s) behind (subst (All IsByte) (sym split) bytes))
            (sym (multi_round fuel first rest behind high found) ∙ e))
  ]
]

multi_accepts :
    (fuel first : ℕ) (more behind text : Bytes)
    → text ≡ first ∷ more ++ behind
    → All IsByte text
    → length text ≤ fuel
    → leb first 0x7f ≡ false
    → round first (more ++ behind) ≡ some behind
    → ((f : ℕ) → length behind ≤ f → All IsByte behind → valid_utf8_loop f behind ≡ true)
    → valid_utf8_loop fuel text ≡ true
multi_accepts zero first more behind text e bytes enough high found later =
    absurd (omega (arith, ap length e))
multi_accepts (suc fuel) first more behind text e bytes enough high found later =
    let all : All IsByte (first ∷ more ++ behind) = subst (All IsByte) e bytes in
    ap (valid_utf8_loop (suc fuel)) e
    ∙ multi_round fuel first (more ++ behind) behind high
        (multi_byte-round first (more ++ behind) all.0 all.1 ∙ found)
    ∙ later fuel (omega (arith, ap length e, length-append more behind))
        (All-suffix more behind all.1)

low_accepts :
    (fuel first : ℕ) (behind text : Bytes)
    → text ≡ first ∷ behind
    → All IsByte text
    → length text ≤ fuel
    → leb first 0x7f ≡ true
    → ((f : ℕ) → length behind ≤ f → All IsByte behind → valid_utf8_loop f behind ≡ true)
    → valid_utf8_loop fuel text ≡ true
low_accepts zero first behind text e bytes enough low later = absurd (omega (arith, ap length e))
low_accepts (suc fuel) first behind text e bytes enough low later =
    ap (valid_utf8_loop (suc fuel)) e
    ∙ low_round fuel first behind low
    ∙ later fuel (omega (arith, ap length e)) (subst (All IsByte) e bytes).1

scalar_accepts :
    (s fuel : ℕ) (behind : Bytes)
    → is_scalar s ≡ true
    → All IsByte (encode_scalar s ++ behind)
    → length (encode_scalar s ++ behind) ≤ fuel
    → ((f : ℕ) → length behind ≤ f → All IsByte behind → valid_utf8_loop f behind ≡ true)
    → valid_utf8_loop fuel (encode_scalar s ++ behind) ≡ true
unfolding encode_scalar
scalar_accepts s fuel behind scalar bytes enough later = elim (Bool-cases (ltb s 0x80)) [
  | inl low ↦ low_accepts fuel s behind _ (rw low refl) bytes enough (ground arith) later
  | inr one ↦ elim (Bool-cases (ltb s 0x800)) [
    | inl two ↦
        multi_accepts fuel (0xc0 + s / 64) ((0x80 + s % 64) ∷ []) behind _ (rw (one, two) refl)
          bytes enough (ground arith) (two_complete s behind scalar one two) later
    | inr no_two ↦ elim (Bool-cases (ltb s 0x10000)) [
      | inl three ↦
          multi_accepts fuel (0xe0 + s / 4096) ((0x80 + s / 64 % 64) ∷ (0x80 + s % 64) ∷ []) behind
            _ (rw (one, no_two, three) refl) bytes enough (ground arith)
            (three_complete s behind scalar no_two three) later
      | inr four ↦
          multi_accepts fuel (0xf0 + s / 262144)
            ((0x80 + s / 4096 % 64) ∷ (0x80 + s / 64 % 64) ∷ (0x80 + s % 64) ∷ []) behind _
            (rw (one, no_two, four) refl) bytes enough (ground arith)
            (four_complete s behind scalar four) later
    ]
  ]
]

empty_accepts : (fuel : ℕ) → valid_utf8_loop fuel [] ≡ true
unfolding valid_utf8_loop
empty_accepts zero = refl
empty_accepts (suc fuel) = refl

loop-encode_all :
    (scalars : List ℕ) (fuel : ℕ)
    → All (λ s. is_scalar s ≡ true) scalars
    → length (encode_all scalars) ≤ fuel
    → All IsByte (encode_all scalars)
    → valid_utf8_loop fuel (encode_all scalars) ≡ true
loop-encode_all [] fuel scalars enough bytes = empty_accepts fuel
loop-encode_all (s ∷ ss) fuel scalars enough bytes =
    scalar_accepts s fuel (encode_all ss) scalars.0 bytes enough
      (λ f fits left. loop-encode_all ss f scalars.1 fits left)

-- `valid_utf8` accepts a sequence of bytes exactly if it is the encoding, by RFC 3629, of some
-- sequence of Unicode scalar values. So it refuses overlong forms, surrogates, code points above
-- U+10FFFF and truncated or stray continuation bytes, and nothing else.
pub valid_utf8-IsUtf8 :
    (text : Bytes) → All (λ b. b < 256) text → (valid_utf8 text ≡ true) ↔ IsUtf8 text
unfolding valid_utf8
valid_utf8-IsUtf8 text bytes = (
  λ e. loop-IsUtf8 (length text) text bytes e,
  λ (u : IsUtf8 text).
      ap (valid_utf8_loop (length text)) (sym u.2)
      ∙ loop-encode_all u.0 (length text) u.1 (omega (arith, ap length u.2))
          (subst (All IsByte) (sym u.2) bytes),
)
