-- ===== src/Codec/Utf8/Masks.antt =====
-- The masks of `valid_utf8` on bytes, as arithmetic.
use photospider_daemon.Base.{
  ℕ, zero, suc, ◌+◌, ◌*◌, ◌%◌, ◌^◌, ◌<◌, ◌≡◌, refl, ap, Bool, true, false, ◌&&◌, leb, ◌==◌,
  if◌then◌else◌, bit_and, bit_or, arith, Bool-cases, inl, inr,
}
use photospider_daemon.Base.Bits.{bit_or_shifted}

abbrev pub is_continuation : ℕ → Bool
is_continuation byte = leb 0x80 byte && leb byte 0xbf

-- The masks of one byte have the values that the lemmas below give them.
masks_agree : ℕ → Bool
masks_agree byte =
    let lead = bit_and byte 0xc0 == 0x80 in
    (if is_continuation byte then lead else if lead then false else true)
    && ((bit_and byte 0x07 == byte % 8)
        && ((bit_and byte 0x0f == byte % 16)
            && ((bit_and byte 0x1f == byte % 32) && (bit_and byte 0x3f == byte % 64))))

-- The number of bytes below a bound on which the masks agree.
agreements : ℕ → ℕ
agreements zero = 0
agreements (suc byte) = (if masks_agree byte then 1 else 0) + agreements byte

agreements-le : (n : ℕ) → agreements n < suc n
unfolding agreements
agreements-le zero = omega arith
agreements-le (suc byte) = ground (arith, agreements-le byte)

-- Where they agree on as many bytes as there are, they agree on each.
full_agreement : (n byte : ℕ) → agreements n ≡ n → byte < n → masks_agree byte ≡ true
unfolding agreements
full_agreement zero byte full below = absurd (omega arith)
full_agreement (suc last) byte full below = elim (Bool-cases (masks_agree last)) [
  | inl agrees ↦
      ground (
        arith,
        agrees,
        full,
        below,
        full_agreement last byte,
        λ (e : last ≡ byte). ap masks_agree e,
      )
  | inr differs ↦ absurd (ground (arith, differs, full, agreements-le last))
]

module _ (x : ℕ) (h : x < 256) where
  agrees : masks_agree x ≡ true
  unfolding agreements masks_agree
  agrees = full_agreement 256 x refl h

  pub continuation_mask : (bit_and x 0xc0 == 0x80) ≡ is_continuation x
  unfolding masks_agree
  continuation_mask = ground (arith, agrees)

  pub low_three : bit_and x 0x07 ≡ x % 8
  unfolding masks_agree
  low_three = ground (arith, agrees)

  pub low_four : bit_and x 0x0f ≡ x % 16
  unfolding masks_agree
  low_four = ground (arith, agrees)

  pub low_five : bit_and x 0x1f ≡ x % 32
  unfolding masks_agree
  low_five = ground (arith, agrees)

  low_six : bit_and x 0x3f ≡ x % 64
  unfolding masks_agree
  low_six = ground (arith, agrees)

  -- The bits of a continuation byte behind those of the scalar.
  pub shifted_in : (scalar : ℕ) → bit_or (scalar * 2 ^ 6) (bit_and x 0x3f) ≡ scalar * 64 + x % 64
  shifted_in scalar = rw low_six (bit_or_shifted 6 scalar (x % 64) (omega arith))
