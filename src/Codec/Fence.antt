-- ===== src/Codec/Fence.antt =====
-- The count fence of src/lib/ipc/codec.cpp, and the contracts of the collections.
use photospider_daemon.Base.{ℕ, ◌+◌, ◌*◌, ◌-◌, ◌≤◌, ◌<◌, ◌≡◌, ◌↔◌, true, arith}
use native.Mathlib.Nat.{le-div_iff_mul-le}
use photospider_daemon.Codec.Decoder.{CountContract, count_fits}

-- Where an entry has a byte at least, a count passes exactly when that many least entries and the
-- suffix fit the unread bytes. The test multiplies nothing, so that nothing overflows.
pub count_fits_iff :
    (count remaining : ℕ) (contract : CountContract)
    → 0 < contract.minimum_entry_bytes
    → (count_fits count remaining contract ≡ true)
      ↔ (count * contract.minimum_entry_bytes + contract.required_suffix_bytes ≤ remaining)
unfolding count_fits
count_fits_iff count remaining contract pos =
    let room = remaining - contract.required_suffix_bytes in
    let test = le-div_iff_mul-le {k = contract.minimum_entry_bytes} {x = count} {y = room} pos in
    (λ h. ground (arith, test.0), λ h. ground (arith, test.1))

pub count_fits_of_room :
    (count remaining : ℕ) (contract : CountContract)
    → 0 < contract.minimum_entry_bytes
    → count * contract.minimum_entry_bytes + contract.required_suffix_bytes ≤ remaining
    → count_fits count remaining contract ≡ true
count_fits_of_room count remaining contract pos = (count_fits_iff count remaining contract pos).1
