-- ===== src/Base/IdSets.antt =====
-- Lists of ids: membership, selection and stores by id.
use Prim.Native.Nat.{ℕ, ◌≤◌}
use mathlib.Core.Path.{◌≡◌, refl, ap}
use mathlib.Core.Logic.{◌≢◌, inl, inr}
use mathlib.Core.Bool.{Bool, false, ◌&&◌, ◌||◌}
use mathlib.Core.List.{List, [], ◌∷◌, ◌++◌}
use native.Mathlib.Omega.{arith}
use photospider_daemon.Base.Tests.{◌==◌, if◌then◌else◌, ==_iff, Bool-cases}
use photospider_daemon.Base.Lists.{length}

abbrev pub member : ℕ → List ℕ → Bool
member i [] = false
member i (j ∷ js) = (j == i) || member i js

-- What a loop leaves that erases the entries on which `test` fails.
unfoldable pub keep : (ℕ → Bool) → List ℕ → List ℕ
keep test [] = []
keep test (j ∷ js) = let rest = keep test js in if test j then j ∷ rest else rest

-- A store with one entry replaced.
unfoldable pub store {ℓ} : {A : Type ℓ} → ℕ → A → (ℕ → A) → ℕ → A
store i a f j = if j == i then a else f j

pub member-append : (i j : ℕ) (js : List ℕ) → member i (js ++ j ∷ []) ≡ (member i js || (j == i))
member-append i j [] = ground arith
member-append i j (x ∷ xs) = ground (arith, member-append i j xs)

pub member-append_list :
    (i : ℕ) (js ks : List ℕ) → member i (js ++ ks) ≡ (member i js || member i ks)
member-append_list i [] ks = refl
member-append_list i (x ∷ xs) ks = ground (arith, member-append_list i xs ks)

pub member-keep :
    (test : ℕ → Bool) (i : ℕ) (js : List ℕ) → member i (keep test js) ≡ (member i js && test i)
unfolding keep
member-keep test i [] = refl
member-keep test i (x ∷ xs) = elim (Bool-cases (x == i)) [
  | inl e ↦ ground (arith, member-keep test i xs, ap test ((==_iff x i).0 e))
  | inr e ↦ ground (arith, member-keep test i xs)
]

pub length-keep : (test : ℕ → Bool) (js : List ℕ) → length (keep test js) ≤ length js
unfolding keep
length-keep test [] = omega arith
length-keep test (x ∷ xs) = ground (arith, length-keep test xs)

module _ {ℓ} {A : Type ℓ} (i : ℕ) (a : A) (f : ℕ → A) where
  pub store_same : store i a f i ≡ a
  unfolding store
  store_same = ground arith

  pub store_other : (j : ℕ) → j ≢ i → store i a f j ≡ f j
  unfolding store
  store_other j e = ground arith

abbrev pub Distinct : List ℕ → Type 0
Distinct [] = Unit {0}
Distinct (i ∷ is) = (member i is ≡ false) × Distinct is

pub Distinct-append :
    (i : ℕ) (js : List ℕ) → member i js ≡ false → Distinct js → Distinct (js ++ i ∷ [])
Distinct-append i [] e d = (refl, _)
Distinct-append i (j ∷ js) e d =
    (rw (member-append j i js) (ground arith), Distinct-append i js (ground arith) d.1)

pub Distinct-keep : (test : ℕ → Bool) (js : List ℕ) → Distinct js → Distinct (keep test js)
unfolding keep
Distinct-keep test [] d = _
Distinct-keep test (j ∷ js) d = elim (Bool-cases (test j)) [
  | inl e ↦ rw e (rw (member-keep test j js, d.0) refl, Distinct-keep test js d.1)
  | inr e ↦ rw e (Distinct-keep test js d.1)
]
