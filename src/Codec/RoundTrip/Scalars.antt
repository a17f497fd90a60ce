-- ===== src/Codec/RoundTrip/Scalars.antt =====
-- Agreement on bytes, integers, booleans, text and byte vectors.
use native.Mathlib.Nat.{mod-lt, mod-eq_of_lt, div-add-mod, one-le-pow, mod-one, add-zero}
use native.Mathlib.Numerals.{towards_suc}
use mathlib.Core.Path.{subst, subst₂}
use photospider_daemon.Base.{
  ℕ, zero, suc, ◌+◌, ◌-◌, ◌*◌, ◌/◌, ◌%◌, ◌^◌, ◌≤◌, ◌<◌, ◌≡◌, refl, sym, ap, ◌∙◌, Bool, true, false,
  not, [], ◌∷◌, ◌++◌, Bytes, length, length-append, take-length_append, drop-length_append, arith,
  ltb, bit_or,
}
use photospider_daemon.Base.Words.{sub64_lem}
use photospider_daemon.Base.Bits.{bit_or_disjoint}
use photospider_daemon.Base.Outcome.{ok}
use photospider_daemon.Kernel.{Kernel}
use photospider_daemon.Protocol.{maximum_frame_payload_bytes}
use photospider_daemon.Codec.Encoder
use photospider_daemon.Codec.Encoder.{append, text_fits}
use photospider_daemon.Codec.Utf8.{valid_utf8}
use photospider_daemon.Codec.Decoder
use photospider_daemon.Codec.Decoder.{read_block}
use photospider_daemon.Codec.RoundTrip.Compose.{
  RoundTrip, RoundTrip-bind, RoundTrip-pure, RoundTrip-weaken, RoundTrip-require, RoundTrip-ensure,
  RoundTrip-then,
}

mod_of_split : (n a t : ℕ) → t < n → (a * n + t) % n ≡ t
mod_of_split n a t h = grind arith

pub mul_le : (a b p : ℕ) → a ≤ b → a * p ≤ b * p
mul_le a b p h = grind arith

byte_up : (index : ℕ) → (index + 1) * 8 ≡ index * 8 + 8
byte_up index = omega arith

pub pow_byte : (index : ℕ) → 2 ^ ((index + 1) * 8) ≡ 2 ^ (index * 8) * 256
pow_byte index = rw (byte_up index) (simp towards_suc (omega arith))

add_suc_swap : (index rounds : ℕ) → index + suc rounds ≡ index + 1 + rounds
add_suc_swap index rounds = omega arith

-- A wire byte appended to the low bytes read so far.
low_bytes_suc : (v p : ℕ) → 0 < p → v % (p * 256) ≡ v % p + v / p % 256 * p
low_bytes_suc v p pos =
    let low = v % p in
    let digit = v / p % 256 in
    let rest = v / p / 256 in
    ap (λ (t : ℕ). t % (p * 256)) split
    ∙ mod_of_split (p * 256) rest (low + digit * p)
        (omega (arith, mod-lt v pos, mul_le digit 255 p (omega arith)))
  where
    split : v ≡ v / p / 256 * (p * 256) + (v % p + v / p % 256 * p)
    split = omega (arith, div-add-mod v p, ap (λ (t : ℕ). p * t) (div-add-mod (v / p) 256))

-- The bytes below `index + 1`, from those below `index`.
next_low :
    (index v : ℕ)
    → bit_or (v % 2 ^ (index * 8)) (v / 2 ^ (index * 8) % 256 * 2 ^ (index * 8))
      ≡ v % 2 ^ ((index + 1) * 8)
next_low index v =
    let p = 2 ^ (index * 8) in
    bit_or_disjoint (index * 8) (v % p) (v / p % 256)
      (mod-lt v (one-le-pow (index * 8) 2 (omega arith)))
    ∙ sym (low_bytes_suc v p (one-le-pow (index * 8) 2 (omega arith)))
    ∙ ap (λ (t : ℕ). v % t) (sym (pow_byte index))

module _ ⦃k : Kernel⦄ where
  append-bounded :
      (new p q : Bytes)
      → append new p ≡ ok q
      → (q ≡ p ++ new)
        × (length p ≤ maximum_frame_payload_bytes → length q ≤ maximum_frame_payload_bytes)
  unfolding append
  append-bounded new p q h =
      ground (arith, sub64_lem maximum_frame_payload_bytes (length p), length-append p new)

  pub u8-RoundTrip : (v : ℕ) → RoundTrip (Encoder.u8 v) Decoder.u8 v 1 0
  unfolding Encoder.u8 Decoder.u8
  u8-RoundTrip v = record {
    run = λ p q h.
        let (e, b) = append-bounded (v ∷ []) p q h in
        record {
          written = v ∷ [];
          appended = e;
          long = omega arith;
          bounded = b;
          reads = λ rest _. refl;
        };
  }

  little_endian-RoundTrip :
      (rounds index v : ℕ)
      → RoundTrip
          (Encoder.little_endian rounds index v)
          (Decoder.little_endian rounds index (v % 2 ^ (index * 8)))
          (v % 2 ^ ((index + rounds) * 8))
          rounds
          0
  unfolding Encoder.little_endian Decoder.little_endian
  little_endian-RoundTrip zero index v = rw (add-zero index) RoundTrip-pure
  little_endian-RoundTrip (suc rounds) index v = RoundTrip-weaken _ _ (omega arith) (omega arith) (
      RoundTrip-bind _ (u8-RoundTrip (v / 2 ^ (index * 8) % 256))
        (subst₂
          (λ low whole.
            RoundTrip (Encoder.little_endian rounds (index + 1) v)
              (Decoder.little_endian rounds (index + 1) low) whole rounds 0)
          (sym (next_low index v))
          (ap (λ (t : ℕ). v % 2 ^ (t * 8)) (sym (add_suc_swap index rounds)))
          (little_endian-RoundTrip rounds (index + 1) v))
        (omega arith))

  -- `rounds` bytes carry every number that fits them.
  fixed-RoundTrip :
      (rounds v : ℕ)
      → v < 2 ^ (rounds * 8)
      → RoundTrip (Encoder.little_endian rounds 0 v) (Decoder.little_endian rounds 0 0) v rounds 0
  fixed-RoundTrip rounds v h =
      subst₂
        (λ a b.
          RoundTrip (Encoder.little_endian rounds 0 v) (Decoder.little_endian rounds 0 a) b rounds
            0)
        (mod-one v) (mod-eq_of_lt (subst (λ r. v < 2 ^ (r * 8)) (omega arith) h))
        (little_endian-RoundTrip rounds 0 v)

  pub u16-RoundTrip : (v : ℕ) → v < 2 ^ 16 → RoundTrip (Encoder.u16 v) Decoder.u16 v 2 0
  unfolding Encoder.u16 Decoder.u16
  u16-RoundTrip v h = fixed-RoundTrip 2 v h

  pub u32-RoundTrip : (v : ℕ) → v < 2 ^ 32 → RoundTrip (Encoder.u32 v) Decoder.u32 v 4 0
  unfolding Encoder.u32 Decoder.u32
  u32-RoundTrip v h = fixed-RoundTrip 4 v h

  pub u64-RoundTrip : (v : ℕ) → v < 2 ^ 64 → RoundTrip (Encoder.u64 v) Decoder.u64 v 8 0
  unfolding Encoder.u64 Decoder.u64
  u64-RoundTrip v h = fixed-RoundTrip 8 v h

  pub i64-RoundTrip : (v : ℕ) → v < 2 ^ 64 → RoundTrip (Encoder.i64 v) Decoder.i64 v 8 0
  unfolding Encoder.i64 Decoder.i64
  i64-RoundTrip v h = u64-RoundTrip v h

  pub f64-RoundTrip : (v : ℕ) → v < 2 ^ 64 → RoundTrip (Encoder.f64 v) Decoder.f64 v 8 0
  unfolding Encoder.f64 Decoder.f64
  f64-RoundTrip v h = u64-RoundTrip v h

  pub boolean-RoundTrip : (b : Bool) → RoundTrip (Encoder.boolean b) Decoder.boolean b 1 0
  unfolding Encoder.boolean Decoder.boolean Decoder.require
  boolean-RoundTrip true = RoundTrip-then _ (u8-RoundTrip 1) (λ rest. refl)
  boolean-RoundTrip false = RoundTrip-then _ (u8-RoundTrip 0) (λ rest. refl)

  block-RoundTrip :
      (value : Bytes) → RoundTrip (append value) (read_block (length value)) value (length value) 0
  unfolding read_block
  block-RoundTrip value = record {
    run = λ p q h.
        let (e, b) = append-bounded value p q h in
        record {
          written = value;
          appended = e;
          long = omega arith;
          bounded = b;
          reads = λ rest _. ground (
            arith,
            length-append value rest,
            take-length_append value rest,
            drop-length_append value rest,
          );
        };
  }

  -- Text that fits its bound and is valid UTF-8, which the encoder checks.
  pub text-RoundTrip :
      (value : Bytes) (maximum : ℕ)
      → RoundTrip (Encoder.text value maximum) (Decoder.text maximum) value 4 0
  unfolding Encoder.text Decoder.text
  text-RoundTrip value maximum = RoundTrip-ensure (text_fits value maximum) _ λ passes.
      let fits : length value < 2 ^ 32 = ground arith in
      let passes_bound : not (ltb maximum (length value)) ≡ true = ground arith in
      let valid : valid_utf8 value ≡ true = ground arith in
      RoundTrip-weaken _ _ (omega arith) (omega arith) (
        RoundTrip-bind _ (u32-RoundTrip (length value) fits)
          (RoundTrip-require _ _ _ passes_bound
            (RoundTrip-then _ (block-RoundTrip value) (λ rest. unfold Decoder.require in rw valid)))
          (omega arith))

  pub bytes-RoundTrip :
      (value : Bytes) (maximum : ℕ)
      → length value ≤ maximum
      → RoundTrip (Encoder.bytes value) (Decoder.bytes maximum) value 4 0
  unfolding Encoder.bytes Decoder.bytes
  bytes-RoundTrip value maximum h =
      RoundTrip-ensure (not (ltb (2 ^ 32 - 1) (length value))) _ λ passes.
        let fits : length value < 2 ^ 32 = ground arith in
        RoundTrip-weaken _ _ (omega arith) (omega arith) (
          RoundTrip-bind _ (u32-RoundTrip (length value) fits)
            (RoundTrip-require _ _ _ (ground arith) (block-RoundTrip value)) (omega arith))
