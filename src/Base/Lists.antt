-- ===== src/Base/Lists.antt =====
-- Lists measured by native numbers, under the library's names, and bytes.
use Prim.Native.Nat.{ℕ, zero, suc, ◌+◌, ◌-◌, min, ◌≤◌}
use Prim.Native.Char.{code}
use Prim.Native.String.{String}
use mathlib.Core.Path.{◌≡◌, refl, ap, ◌∙◌}
use mathlib.Core.List.{List, [], ◌∷◌, ◌++◌}
use native.Mathlib.Omega.{arith}

-- A byte sequence; an entry of a real one is below 256.
abbrev pub Bytes : Type 0
Bytes = List ℕ

module _ {ℓ} {A : Type ℓ} where
  abbrev pub length : List A → ℕ
  length [] = 0
  length (x ∷ xs) = suc (length xs)

  abbrev pub take : ℕ → List A → List A
  take zero xs = []
  take (suc n) [] = []
  take (suc n) (x ∷ xs) = x ∷ take n xs

  abbrev pub drop : ℕ → List A → List A
  drop zero xs = xs
  drop (suc n) [] = []
  drop (suc n) (x ∷ xs) = drop n xs

  abbrev pub All {κ} : (A → Type κ) → List A → Type κ
  All P [] = Unit {κ}
  All P (x ∷ xs) = P x × All P xs

  pub length-append : (xs ys : List A) → length (xs ++ ys) ≡ length xs + length ys
  length-append [] ys = omega arith
  length-append (x ∷ xs) ys = omega (arith, length-append xs ys)

  pub take-length_append : (xs ys : List A) → take (length xs) (xs ++ ys) ≡ xs
  take-length_append [] ys = refl
  take-length_append (x ∷ xs) ys = ap (◌∷◌ x) (take-length_append xs ys)

  pub drop-length_append : (xs ys : List A) → drop (length xs) (xs ++ ys) ≡ ys
  drop-length_append [] ys = refl
  drop-length_append (x ∷ xs) ys = drop-length_append xs ys

  pub take-append-drop : (n : ℕ) (xs : List A) → take n xs ++ drop n xs ≡ xs
  take-append-drop zero xs = refl
  take-append-drop (suc n) [] = refl
  take-append-drop (suc n) (x ∷ xs) = ap (◌∷◌ x) (take-append-drop n xs)

  pub length-take : (n : ℕ) (xs : List A) → length (take n xs) ≡ min n (length xs)
  length-take zero xs = omega arith
  length-take (suc n) [] = omega arith
  length-take (suc n) (x ∷ xs) = omega (arith, length-take n xs)

  pub length-drop : (n : ℕ) (xs : List A) → length (drop n xs) ≡ length xs - n
  length-drop zero xs = omega arith
  length-drop (suc n) [] = omega arith
  length-drop (suc n) (x ∷ xs) = omega (arith, length-drop n xs)

min_zero : (n : ℕ) → min 0 n ≡ 0
min_zero n = omega arith

zero_minus : (n : ℕ) → 0 ≡ 0 - n
zero_minus n = omega arith

pub zero-add : (n : ℕ) → 0 + n ≡ n
zero-add n = omega arith

pub minus_zero : (n : ℕ) → n ≡ n - 0
minus_zero n = omega arith

suc-minus : (m n : ℕ) → m - n ≡ suc m - suc n
suc-minus m n = omega arith

min-suc : (m n : ℕ) → min (suc m) (suc n) ≡ suc (min m n)
min-suc m n = omega arith

module _ {ℓ} {A : Type ℓ} where
  pub take_nil : (n : ℕ) → ◌≡◌ {A = List A} (take n []) []
  take_nil zero = refl
  take_nil (suc n) = refl

  pub drop_nil : (n : ℕ) → ◌≡◌ {A = List A} (drop n []) []
  drop_nil zero = refl
  drop_nil (suc n) = refl

  pub take-min : (n : ℕ) (xs : List A) → take (min n (length xs)) xs ≡ take n xs
  take-min zero xs = ap (λ m. take m xs) (min_zero (length xs))
  take-min (suc n) [] = take_nil (min (suc n) 0)
  take-min (suc n) (x ∷ xs) =
      ap (λ m. take m (x ∷ xs)) (min-suc n (length xs)) ∙ ap (◌∷◌ x) (take-min n xs)

  pub drop-min : (n : ℕ) (xs : List A) → drop (min n (length xs)) xs ≡ drop n xs
  drop-min zero xs = ap (λ m. drop m xs) (min_zero (length xs))
  drop-min (suc n) [] = drop_nil (min (suc n) 0)
  drop-min (suc n) (x ∷ xs) = ap (λ m. drop m (x ∷ xs)) (min-suc n (length xs)) ∙ drop-min n xs

  -- A prefix taken in two parts.
  pub take_split :
      (m k : ℕ) (xs : List A) → m ≤ k → take m xs ++ take (k - m) (drop m xs) ≡ take k xs
  take_split zero k xs h = ap (λ j. take j xs) (omega arith)
  take_split (suc m) zero xs h = absurd (omega arith)
  take_split (suc m) (suc k) [] h = take_nil (suc k - suc m)
  take_split (suc m) (suc k) (x ∷ xs) h =
      ap (◌∷◌ x)
        (ap (λ j. take m xs ++ take j (drop m xs)) (omega arith) ∙ take_split m k xs (omega arith))

  pub drop_split : (m k : ℕ) (xs : List A) → m ≤ k → drop (k - m) (drop m xs) ≡ drop k xs
  drop_split zero k xs h = ap (λ j. drop j xs) (omega arith)
  drop_split (suc m) zero xs h = absurd (omega arith)
  drop_split (suc m) (suc k) [] h = drop_nil (suc k - suc m)
  drop_split (suc m) (suc k) (x ∷ xs) h =
      ap (λ j. drop j (drop m xs)) (omega arith) ∙ drop_split m k xs (omega arith)

  pub drop_all : (n : ℕ) (xs : List A) → length xs ≤ n → drop n xs ≡ []
  drop_all n [] h = drop_nil n
  drop_all zero (x ∷ xs) h = absurd (omega arith)
  drop_all (suc n) (x ∷ xs) h = drop_all n xs (omega arith)

  pub take_append :
      (n : ℕ) (xs ys : List A) → take n (xs ++ ys) ≡ take n xs ++ take (n - length xs) ys
  take_append zero xs ys = ap (λ m. take m ys) (zero_minus (length xs))
  take_append (suc n) [] ys = ap (λ m. take m ys) (minus_zero (suc n))
  take_append (suc n) (x ∷ xs) ys =
      ap (◌∷◌ x) (take_append n xs ys ∙ ap (λ m. take n xs ++ take m ys) (suc-minus n (length xs)))

  pub take_all : (n : ℕ) (xs : List A) → length xs ≤ n → take n xs ≡ xs
  take_all n [] h = take_nil n
  take_all zero (x ∷ xs) h = absurd (omega arith)
  take_all (suc n) (x ∷ xs) h = ap (◌∷◌ x) (take_all n xs (omega arith))

abbrev codes : String → Bytes
codes String.[] = []
codes (String.◌∷◌ c s) = code c ∷ codes s

-- The bytes of an ASCII literal. It stays shut: proofs never look into a diagnostic.
unfoldable pub bytes_of : String → Bytes
bytes_of s = codes s
