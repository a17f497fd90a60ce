-- ===== src/Codec/Utf8/Grammar.antt =====
-- UTF-8 as the encodings of Unicode scalar values, and the texts that `valid_utf8` accepts.
use photospider_daemon.Base.{
  ℕ, suc, ◌+◌, ◌*◌, ◌/◌, ◌%◌, ◌≡◌, refl, sym, ap, ◌∙◌, Bool, true, false, ◌&&◌, ◌||◌, [], ◌∷◌, ◌++◌,
  Bytes, ltb, leb, if◌then◌else◌, Option, none, some, arith, Bool-cases, inl, inr,
}
use photospider_daemon.Codec.Utf8.{scalar_allowed}
use photospider_daemon.Codec.Utf8.Masks.{is_continuation}
use photospider_daemon.Codec.Utf8.Rounds.{continued, checked, round}

-- A code point that is no surrogate.
abbrev pub is_scalar : ℕ → Bool
is_scalar s = ltb s 0xd800 || (ltb 0xdfff s && ltb s 0x110000)

abbrev pub two_bytes : ℕ → Bytes
two_bytes s = (0xc0 + s / 64) ∷ (0x80 + s % 64) ∷ []

abbrev pub three_bytes : ℕ → Bytes
three_bytes s = (0xe0 + s / 4096) ∷ (0x80 + s / 64 % 64) ∷ (0x80 + s % 64) ∷ []

abbrev pub four_bytes : ℕ → Bytes
four_bytes s =
    (0xf0 + s / 262144) ∷ (0x80 + s / 4096 % 64) ∷ (0x80 + s / 64 % 64) ∷ (0x80 + s % 64) ∷ []

-- The encoding of RFC 3629.
unfoldable pub encode_scalar : ℕ → Bytes
encode_scalar s =
    if ltb s 0x80
    then s ∷ []
    else if ltb s 0x800
    then two_bytes s
    else if ltb s 0x10000
    then three_bytes s
    else four_bytes s

-- A round reads the bytes of an encoded scalar value.
abbrev pub Encodes : ℕ → Bytes → Bytes → Type 0
Encodes first rest behind =
    (s : ℕ) × (is_scalar s ≡ true) × (encode_scalar s ++ behind ≡ first ∷ rest)

two_sound :
    (first a : ℕ)
    → (leb 0xc2 first && leb first 0xdf) ≡ true
    → is_continuation a ≡ true
    → encode_scalar (first % 32 * 64 + a % 64) ≡ first ∷ a ∷ []
unfolding encode_scalar
two_sound first a range cont = ground arith

three_sound :
    (first a b : ℕ)
    → (leb 0xe0 first && leb first 0xef) ≡ true
    → is_continuation a ≡ true
    → is_continuation b ≡ true
    → ltb ((first % 16 * 64 + a % 64) * 64 + b % 64) 0x800 ≡ false
    → encode_scalar ((first % 16 * 64 + a % 64) * 64 + b % 64) ≡ first ∷ a ∷ b ∷ []
unfolding encode_scalar
three_sound first a b range cont_a cont_b least = ground arith

four_sound :
    (first a b c : ℕ)
    → (leb 0xf0 first && leb first 0xf4) ≡ true
    → is_continuation a ≡ true
    → is_continuation b ≡ true
    → is_continuation c ≡ true
    → ltb (((first % 8 * 64 + a % 64) * 64 + b % 64) * 64 + c % 64) 0x10000 ≡ false
    → encode_scalar (((first % 8 * 64 + a % 64) * 64 + b % 64) * 64 + c % 64)
      ≡ first ∷ a ∷ b ∷ c ∷ []
unfolding encode_scalar
four_sound first a b c range cont_a cont_b cont_c least = ground arith

allowed :
    (minimum s : ℕ)
    → scalar_allowed minimum s ≡ true
    → (is_scalar s ≡ true) × (ltb s minimum ≡ false)
unfolding scalar_allowed
allowed minimum s e = ground arith

one_more :
    {A : Type 0} (b : Bool) (o : Option A) (a : A)
    → (if b then o else none) ≡ some a
    → (b ≡ true) × (o ≡ some a)
one_more true o a e = (refl, e)
one_more false o a e = cc

-- What `checked` lets through.
through_check :
    (minimum : ℕ) (o : Option (ℕ × Bytes)) (behind : Bytes)
    → checked minimum o ≡ some behind
    → (s : ℕ) × (o ≡ some (s, behind)) × (is_scalar s ≡ true) × (ltb s minimum ≡ false)
through_check minimum none behind e = cc
through_check minimum (some (s, rest)) behind e =
    let (good, same) = one_more (scalar_allowed minimum s) (some rest) behind e in
    let (scalar, least) = allowed minimum s good in (s, cc, scalar, least)

continued_one :
    (scalar : ℕ) (rest : Bytes) (s : ℕ) (behind : Bytes)
    → continued 1 scalar rest ≡ some (s, behind)
    → (a : ℕ) × (rest ≡ a ∷ behind) × (is_continuation a ≡ true) × (s ≡ scalar * 64 + a % 64)
unfolding continued
continued_one scalar [] s behind e = cc
continued_one scalar (a ∷ rest) s behind e =
    let (cont, same) = one_more (is_continuation a) (some (scalar * 64 + a % 64, rest)) _ e in
    (a, cc, cont, cc)

continued_more :
    (count scalar : ℕ) (rest : Bytes) (s : ℕ) (behind : Bytes)
    → continued (suc count) scalar rest ≡ some (s, behind)
    → (a : ℕ) × (more : Bytes) × (rest ≡ a ∷ more)
      × (is_continuation a ≡ true)
      × (continued count (scalar * 64 + a % 64) more ≡ some (s, behind))
unfolding continued
continued_more count scalar [] s behind e = cc
continued_more count scalar (a ∷ rest) s behind e =
    let (cont, same) =
      one_more (is_continuation a) (continued count (scalar * 64 + a % 64) rest) _ e in
    (a, rest, refl, cont, same)

continued_two :
    (scalar : ℕ) (rest : Bytes) (s : ℕ) (behind : Bytes)
    → continued 2 scalar rest ≡ some (s, behind)
    → (a b : ℕ) × (rest ≡ a ∷ b ∷ behind)
      × (is_continuation a ≡ true)
      × (is_continuation b ≡ true)
      × (s ≡ (scalar * 64 + a % 64) * 64 + b % 64)
continued_two scalar rest s behind e =
    let (a, more, split, cont_a, later) = continued_more 1 scalar rest s behind e in
    let (b, split_b, cont_b, same) = continued_one (scalar * 64 + a % 64) more s behind later in
    (a, b, split ∙ ap (◌∷◌ a) split_b, cont_a, cont_b, same)

continued_three :
    (scalar : ℕ) (rest : Bytes) (s : ℕ) (behind : Bytes)
    → continued 3 scalar rest ≡ some (s, behind)
    → (a b c : ℕ) × (rest ≡ a ∷ b ∷ c ∷ behind)
      × (is_continuation a ≡ true)
      × (is_continuation b ≡ true)
      × (is_continuation c ≡ true)
      × (s ≡ ((scalar * 64 + a % 64) * 64 + b % 64) * 64 + c % 64)
continued_three scalar rest s behind e =
    let (a, more, split, cont_a, later) = continued_more 2 scalar rest s behind e in
    let (b, c, split_b, cont_b, cont_c, same) =
      continued_two (scalar * 64 + a % 64) more s behind later in
    (a, b, c, split ∙ ap (◌∷◌ a) split_b, cont_a, cont_b, cont_c, same)

value-Encodes :
    (s value first : ℕ) (tail rest behind : Bytes)
    → is_scalar s ≡ true
    → s ≡ value
    → encode_scalar value ≡ first ∷ tail
    → rest ≡ tail ++ behind
    → Encodes first rest behind
value-Encodes s value first tail rest behind scalar same bytes split = (
  s,
  scalar,
  ap (λ x. encode_scalar x ++ behind) same
      ∙ ap (λ x. x ++ behind) bytes
      ∙ ap (◌∷◌ first) (sym split),
)

value_least : (s value minimum : ℕ) → s ≡ value → ltb s minimum ≡ false → ltb value minimum ≡ false
value_least s value minimum same least = sym (ap (λ x. ltb x minimum) same) ∙ least

pub round-Encodes :
    (first : ℕ) (rest behind : Bytes) → round first rest ≡ some behind → Encodes first rest behind
unfolding round
round-Encodes first rest behind e = elim (Bool-cases (leb 0xc2 first && leb first 0xdf)) [
  | inl two ↦
      let (s, found, scalar, least) = through_check 0x80 _ behind (rw two at e) in
      let (a, split, cont, value) = continued_one (first % 32) rest s behind found in
      value-Encodes s _ first (a ∷ []) rest behind scalar value (two_sound first a two cont) split
  | inr no_two ↦ elim (Bool-cases (leb 0xe0 first && leb first 0xef)) [
    | inl three ↦
        let (s, found, scalar, least) = through_check 0x800 _ behind (rw (no_two, three) at e) in
        let (a, b, split, cont_a, cont_b, value) = continued_two (first % 16) rest s behind found in
        value-Encodes s _ first (a ∷ b ∷ []) rest behind scalar value
          (three_sound first a b three cont_a cont_b (value_least s _ _ value least)) split
    | inr no_three ↦ elim (Bool-cases (leb 0xf0 first && leb first 0xf4)) [
      | inl four ↦
          let (s, found, scalar, least) =
            through_check 0x10000 _ behind (rw (no_two, no_three, four) at e) in
          let (a, b, c, split, cont_a, cont_b, cont_c, value) =
            continued_three (first % 8) rest s behind found in
          value-Encodes s _ first (a ∷ b ∷ c ∷ []) rest behind scalar value
            (four_sound first a b c four cont_a cont_b cont_c (value_least s _ _ value least)) split
      | inr no_four ↦ absurd (ground (arith, rw (no_two, no_three, no_four) at e))
    ]
  ]
]
