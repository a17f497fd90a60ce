-- ===== src/Socket/Descriptors/Ending.antt =====
-- Sequences of system calls that end: what they return, with how many answers to spare.
use photospider_daemon.Base.{
  ℕ, suc, ◌≤◌, ◌≡◌, refl, true, false, Bool, List, [], ◌∷◌, Option, none, some, arith,
}
use photospider_daemon.Socket.Descriptors.{
  interrupted, unsupported, other, Reply, returned, failing, World, M, ◌>>=◌, settled, reply_of,
  call, retry_from, retry,
}

-- The answers that end a loop over EINTR.
abbrev pub spare : List Reply → ℕ
spare [] = 0
spare (returned n ∷ rest) = suc (spare rest)
spare (failing interrupted text ∷ rest) = spare rest
spare (failing unsupported text ∷ rest) = suc (spare rest)
spare (failing other text ∷ rest) = suc (spare rest)

-- It ends, `P` holds of the value and the table, and `n` answers are left that end a loop.
abbrev pub Ends : {A : Type 0} → ℕ → (A → List (ℕ × Bool) → Type 0) → Option (A × World) → Type 0
Ends n P none = true ≡ false
Ends n P (some (a, w)) = (n ≤ spare w.script) × P a w.table

bind-Ends :
    {A B : Type 0} (n m : ℕ) (P : A → List (ℕ × Bool) → Type 0) (Q : B → List (ℕ × Bool) → Type 0)
    (o : Option (A × World)) (f : A → M B)
    → Ends n P o
    → ((a : A) (w : World) → n ≤ spare w.script → P a w.table → Ends m Q (f a w))
    → Ends m Q (elim o [ none ↦ none | some (a, after) ↦ f a after ])
bind-Ends n m P Q none f h next = h
bind-Ends n m P Q (some (a, w)) f h next = next a w h.0 h.1

-- The rule for a sequence.
pub >>=-Ends :
    {A B : Type 0} (n m : ℕ) (P : A → List (ℕ × Bool) → Type 0) (Q : B → List (ℕ × Bool) → Type 0)
    (c : M A) (f : A → M B) (w : World)
    → Ends n P (c w)
    → ((a : A) (w : World) → n ≤ spare w.script → P a w.table → Ends m Q (f a w))
    → Ends m Q ((c >>= f) w)
>>=-Ends n m P Q c f w = bind-Ends n m P Q (c w) f

pub map-Ends :
    {A : Type 0} (n m : ℕ) (P Q : A → List (ℕ × Bool) → Type 0) (o : Option (A × World))
    → m ≤ n
    → ((a : A) (t : List (ℕ × Bool)) → P a t → Q a t)
    → Ends n P o
    → Ends m Q o
map-Ends n m P Q none le f h = h
map-Ends n m P Q (some (a, w)) le f h = (omega (arith, h.0), f a w.table h.1)

abbrev pub Keeps : List (ℕ × Bool) → Reply → List (ℕ × Bool) → Type 0
Keeps table reply t = t ≡ table

reply_of-Ends :
    (n : ℕ) (script : List Reply) (w : World)
    → suc n ≤ spare script
    → Ends n (Keeps w.table) (reply_of script w)
reply_of-Ends n [] w h = absurd (omega arith)
reply_of-Ends n (returned v ∷ rest) w h = (omega arith, refl)
reply_of-Ends n (failing interrupted text ∷ rest) w h = (omega arith, refl)
reply_of-Ends n (failing unsupported text ∷ rest) w h = (omega arith, refl)
reply_of-Ends n (failing other text ∷ rest) w h = (omega arith, refl)

pub call-Ends : (n : ℕ) (w : World) → suc n ≤ spare w.script → Ends n (Keeps w.table) (call w)
unfolding call
call-Ends n w h = reply_of-Ends n w.script w h

retry_from-Ends :
    (n : ℕ) (script : List Reply) (w : World)
    → suc n ≤ spare script
    → Ends n (Keeps w.table) (retry_from script w)
unfolding retry_from
retry_from-Ends n [] w h = absurd (omega arith)
retry_from-Ends n (returned v ∷ rest) w h = (omega arith, refl)
retry_from-Ends n (failing interrupted text ∷ rest) w h =
    retry_from-Ends n rest (settled (failing interrupted text) rest w) h
retry_from-Ends n (failing unsupported text ∷ rest) w h = (omega arith, refl)
retry_from-Ends n (failing other text ∷ rest) w h = (omega arith, refl)

pub retry-Ends : (n : ℕ) (w : World) → suc n ≤ spare w.script → Ends n (Keeps w.table) (retry w)
unfolding retry
retry-Ends n w h = retry_from-Ends n w.script w h
