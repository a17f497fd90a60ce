-- ===== src/Base/SortedMap.antt =====
-- A `std::map` as the list of its entries in key order, and `emplace`.
use mathlib.Core.Path.{◌≡◌, refl}
use mathlib.Core.Bool.{Bool, true, false}
use mathlib.Core.List.{List, [], ◌∷◌, ◌++◌}
use mathlib.Core.Option
use mathlib.Core.Option.{Option, none, some}
use native.Mathlib.Omega.{arith}
use photospider_daemon.Base.Tests.{ltb, if◌then◌else◌}
use photospider_daemon.Base.Lists.{Bytes, All}

-- The order of `std::string` keys: bytes compared in turn, a proper prefix first.
unfoldable pub bytes_lt : Bytes → Bytes → Bool
bytes_lt xs [] = false
bytes_lt [] (y ∷ ys) = true
bytes_lt (x ∷ xs) (y ∷ ys) =
    let rest = bytes_lt xs ys in if ltb x y then true else if ltb y x then false else rest

pub bytes_lt_asymm : (xs ys : Bytes) → bytes_lt xs ys ≡ true → bytes_lt ys xs ≡ false
unfolding bytes_lt
bytes_lt_asymm [] [] h = refl
bytes_lt_asymm (x ∷ xs) [] h = cc
bytes_lt_asymm [] (y ∷ ys) h = refl
bytes_lt_asymm (x ∷ xs) (y ∷ ys) h = ground (arith, bytes_lt_asymm xs ys)

All-append_mid {ℓ κ} :
    {A : Type ℓ} (P : A → Type κ) (xs : List A) (y : A) (ys : List A) → All P (xs ++ y ∷ ys) → P y
All-append_mid P [] y ys h = h.0
All-append_mid P (x ∷ xs) y ys h = All-append_mid P xs y ys h.1

module _ {K V : Type 0} (lt : K → K → Bool) where
  -- `none` where the key is there already: `emplace(…).second` is false.
  unfoldable pub emplace : K → V → List (K × V) → Option (List (K × V))
  emplace k v [] = some ((k, v) ∷ [])
  emplace k v ((j, w) ∷ m) =
      let later = Option.map (◌∷◌ (j, w)) (emplace k v m) in
      if lt k j then some ((k, v) ∷ (j, w) ∷ m) else if lt j k then later else none

  abbrev pub IsSorted : List (K × V) → Type 0
  IsSorted [] = Unit {0}
  IsSorted ((k, v) ∷ m) = All (λ entry. lt k entry.0 ≡ true) m × IsSorted m

  -- A key behind all others goes to the end.
  pub emplace_last :
      ((a b : K) → lt a b ≡ true → lt b a ≡ false)
      → (m : List (K × V)) (k : K) (v : V) (rest : List (K × V)) → IsSorted (m ++ (k, v) ∷ rest)
      → emplace k v m ≡ some (m ++ (k, v) ∷ [])
  unfolding emplace
  emplace_last asymm [] k v rest h = refl
  emplace_last asymm ((j, w) ∷ m) k v rest h =
      let below : lt j k ≡ true = All-append_mid (λ entry. lt j entry.0 ≡ true) m (k, v) rest h.0 in
      rw (asymm j k below, below, emplace_last asymm m k v rest h.1)
