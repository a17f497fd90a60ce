-- ===== src/Base/Bits.antt =====
-- `value |= byte << k`, where `value` has only bits below `k`, is a sum.
use Prim.Native.Nat.{
  ℕ, zero, suc, ◌+◌, ◌*◌, ◌/◌, ◌^◌, ◌≤◌, ◌<◌, max, bit_or, digits, bit_or-bitwise,
}
use mathlib.Core.Path.{◌≡◌, refl}
use native.Mathlib.Omega.{arith}
use native.Mathlib.Nat.{le_refl, pow-suc}

doubled : (n shift : ℕ) → n * 2 ^ suc shift ≡ n * 2 ^ shift * 2
doubled n shift = rw (pow-suc 2 shift) (grind arith)

-- A round takes one bit of each number; the high part, shifted past the low one, has none to add.
merged_bits :
    (rounds shift low high : ℕ)
    → low ≤ rounds
    → low < 2 ^ shift
    → digits (λ remaining. remaining) max rounds low (high * 2 ^ shift) ≡ low + high * 2 ^ shift
merged_bits zero shift zero high enough below = omega arith
merged_bits zero shift (suc low) high enough below = absurd (omega arith)
merged_bits (suc rounds) shift zero high enough below = omega arith
merged_bits (suc rounds) zero (suc low) high enough below = absurd (omega arith)
merged_bits (suc rounds) (suc shift) (suc low) high enough below =
    let shifted = doubled high shift in
    let rest =
      merged_bits rounds shift (suc low / 2) high (omega arith) (omega (arith, pow-suc 2 shift)) in
    let halves : high * 2 ^ suc shift / 2 ≡ high * 2 ^ shift = omega (arith, shifted) in
    rw halves (omega (arith, shifted, rest))

-- The high part is shifted past every bit of the low part.
pub bit_or_disjoint :
    (k low high : ℕ) → low < 2 ^ k → bit_or low (high * 2 ^ k) ≡ low + high * 2 ^ k
bit_or_disjoint k low high below =
    simp bit_or-bitwise (merged_bits low k low high (le_refl low) below)

-- The first `value |= byte << 0` of a loop.
pub bit_or_first : (byte : ℕ) → bit_or 0 (byte * 2 ^ 0) ≡ byte
bit_or_first byte = simp bit_or-bitwise (omega arith)

-- The same with the high part first.
merged_high :
    (rounds shift a low high : ℕ)
    → a ≡ high * 2 ^ shift
    → a ≤ rounds
    → low < 2 ^ shift
    → digits (λ remaining. remaining) max rounds a low ≡ a + low
merged_high zero shift zero low high e enough below = omega arith
merged_high zero shift (suc a) low high e enough below = absurd (omega arith)
merged_high (suc rounds) shift zero low high e enough below = omega arith
merged_high (suc rounds) zero (suc a) low high e enough below =
    let rest =
      merged_high rounds zero (suc a / 2) (low / 2) (suc a / 2) (omega arith) (omega arith)
        (omega arith) in
    omega (arith, rest)
merged_high (suc rounds) (suc shift) (suc a) low high e enough below =
    let shifted = doubled high shift in
    let rest =
      merged_high rounds shift (suc a / 2) (low / 2) high (omega (arith, shifted)) (omega arith)
        (omega (arith, pow-suc 2 shift)) in
    omega (arith, shifted, rest)

pub bit_or_shifted : (k high low : ℕ) → low < 2 ^ k → bit_or (high * 2 ^ k) low ≡ high * 2 ^ k + low
bit_or_shifted k high low below =
    simp bit_or-bitwise
      (merged_high (high * 2 ^ k) k (high * 2 ^ k) low high refl (le_refl _) below)
