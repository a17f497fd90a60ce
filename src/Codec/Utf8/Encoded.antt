-- ===== src/Codec/Utf8/Encoded.antt =====
-- A round of `valid_utf8` accepts every encoded scalar value.
use photospider_daemon.Base.{
  ℕ, ◌+◌, ◌*◌, ◌/◌, ◌%◌, ◌≡◌, refl, true, false, ◌&&◌, ◌∷◌, Bytes, ltb, leb, some, arith,
}
use photospider_daemon.Codec.Utf8.{scalar_allowed}
use photospider_daemon.Codec.Utf8.Masks.{is_continuation}
use photospider_daemon.Codec.Utf8.Rounds.{continued, round}
use photospider_daemon.Codec.Utf8.Grammar.{is_scalar}

allowed_scalar :
    (s minimum : ℕ) → is_scalar s ≡ true → ltb s minimum ≡ false → scalar_allowed minimum s ≡ true
unfolding scalar_allowed
allowed_scalar s minimum scalar least = ground arith

pub two_complete :
    (s : ℕ) (rest : Bytes)
    → is_scalar s ≡ true
    → ltb s 0x80 ≡ false
    → ltb s 0x800 ≡ true
    → round (0xc0 + s / 64) ((0x80 + s % 64) ∷ rest) ≡ some rest
unfolding round continued
two_complete s rest scalar low high =
    let lead : (leb 0xc2 (0xc0 + s / 64) && leb (0xc0 + s / 64) 0xdf) ≡ true = ground arith in
    let cont : is_continuation (0x80 + s % 64) ≡ true = ground arith in
    let value : (0xc0 + s / 64) % 32 * 64 + (0x80 + s % 64) % 64 ≡ s = ground arith in
    rw (lead, cont, value, allowed_scalar s 0x80 scalar low) refl

pub three_complete :
    (s : ℕ) (rest : Bytes)
    → is_scalar s ≡ true
    → ltb s 0x800 ≡ false
    → ltb s 0x10000 ≡ true
    → round (0xe0 + s / 4096) ((0x80 + s / 64 % 64) ∷ (0x80 + s % 64) ∷ rest) ≡ some rest
unfolding round continued
three_complete s rest scalar low high =
    let no_two : (leb 0xc2 (0xe0 + s / 4096) && leb (0xe0 + s / 4096) 0xdf) ≡ false =
      ground arith in
    let lead : (leb 0xe0 (0xe0 + s / 4096) && leb (0xe0 + s / 4096) 0xef) ≡ true = ground arith in
    let cont_a : is_continuation (0x80 + s / 64 % 64) ≡ true = ground arith in
    let cont_b : is_continuation (0x80 + s % 64) ≡ true = ground arith in
    let value : ((0xe0 + s / 4096) % 16 * 64 + (0x80 + s / 64 % 64) % 64) * 64
          + (0x80 + s % 64) % 64
        ≡ s =
      ground arith in
    rw (no_two, lead, cont_a, cont_b, value, allowed_scalar s 0x800 scalar low) refl

pub four_complete :
    (s : ℕ) (rest : Bytes)
    → is_scalar s ≡ true
    → ltb s 0x10000 ≡ false
    → round
        (0xf0 + s / 262144)
        ((0x80 + s / 4096 % 64) ∷ (0x80 + s / 64 % 64) ∷ (0x80 + s % 64) ∷ rest)
      ≡ some rest
unfolding round continued
four_complete s rest scalar low =
    let no_two : (leb 0xc2 (0xf0 + s / 262144) && leb (0xf0 + s / 262144) 0xdf) ≡ false =
      ground arith in
    let no_three : (leb 0xe0 (0xf0 + s / 262144) && leb (0xf0 + s / 262144) 0xef) ≡ false =
      ground arith in
    let lead : (leb 0xf0 (0xf0 + s / 262144) && leb (0xf0 + s / 262144) 0xf4) ≡ true =
      ground arith in
    let cont_a : is_continuation (0x80 + s / 4096 % 64) ≡ true = ground arith in
    let cont_b : is_continuation (0x80 + s / 64 % 64) ≡ true = ground arith in
    let cont_c : is_continuation (0x80 + s % 64) ≡ true = ground arith in
    let value : (((0xf0 + s / 262144) % 8 * 64 + (0x80 + s / 4096 % 64) % 64) * 64
              + (0x80 + s / 64 % 64) % 64)
            * 64
          + (0x80 + s % 64) % 64
        ≡ s =
      ground arith in
    rw (no_two, no_three, lead, cont_a, cont_b, cont_c, value, allowed_scalar s 0x10000 scalar low)
      refl
