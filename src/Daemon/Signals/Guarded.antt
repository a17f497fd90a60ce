-- ===== src/Daemon/Signals/Guarded.antt =====
-- The guard of the signal mask in apps/photospiderd/main.cpp gives the mask back.
use photospider_daemon.Base.{
  ℕ, zero, suc, ◌+◌, ◌<◌, ◌≡◌, refl, ap, ◌∙◌, Bool, true, false, List, [], ◌∷◌, ◌++◌, append_assoc,
  length, length-append, some, Bool-cases, inl, inr, arith,
}
use photospider_daemon.Base.Outcome.{Outcome, ok, err}
use photospider_daemon.Daemon.Signals.{
  Signal, interrupt, terminate, wake, unmanaged, Signals, Fault, inspection_failed, wait_failed,
  MaskGuard, block_signals, any_managed, accept_managed, Round, first_round, later_rounds, drain,
  restore, restore_noexcept, unmasked, Course, destroyed, guarded,
}

-- How many signals arrive in the listed rounds.
abbrev pub arriving : List Round → ℕ
arriving [] = 0
arriving (r ∷ rs) = length r.arrivals + arriving rs

-- The signals of a list that the daemon leaves alone.
abbrev pub others : List Signal → List ℕ
others [] = []
others (unmanaged n ∷ rest) = n ∷ others rest
others (interrupt ∷ rest) = others rest
others (terminate ∷ rest) = others rest
others (wake ∷ rest) = others rest

-- `late` holds the other signals of `early` first, in their order.
abbrev pub Keeps : List Signal → List Signal → Type 0
Keeps early late = (more : List ℕ) × (others late ≡ others early ++ more)

arriving-first :
    (rs : List Round) → arriving rs ≡ length (first_round rs).arrivals + arriving (later_rounds rs)
arriving-first [] = refl
arriving-first (r ∷ rs) = refl

others-append : (xs ys : List Signal) → others (xs ++ ys) ≡ others xs ++ others ys
others-append [] ys = refl
others-append (unmanaged n ∷ xs) ys = ap (◌∷◌ n) (others-append xs ys)
others-append (interrupt ∷ xs) ys = others-append xs ys
others-append (terminate ∷ xs) ys = others-append xs ys
others-append (wake ∷ xs) ys = others-append xs ys

others-accept_managed : (xs : List Signal) → others (accept_managed xs) ≡ others xs
others-accept_managed [] = refl
others-accept_managed (unmanaged n ∷ xs) = ap (◌∷◌ n) (others-accept_managed xs)
others-accept_managed (interrupt ∷ xs) = refl
others-accept_managed (terminate ∷ xs) = refl
others-accept_managed (wake ∷ xs) = refl

length-accept_managed :
    (xs : List Signal) → any_managed xs ≡ true → suc (length (accept_managed xs)) ≡ length xs
length-accept_managed [] e = ground (arith, e)
length-accept_managed (unmanaged n ∷ xs) e = ap suc (length-accept_managed xs e)
length-accept_managed (interrupt ∷ xs) e = refl
length-accept_managed (terminate ∷ xs) e = refl
length-accept_managed (wake ∷ xs) e = refl

-- What the loop of `restore` comes to.
Drained : List Signal → Outcome Fault (Unit {0}) × List Signal → Type 0
Drained early (ok done, late) = (any_managed late ≡ false) × Keeps early late
Drained early (err fault, late) = Unit {0}

Keeps-append : (xs ys : List Signal) → Keeps xs (xs ++ ys)
Keeps-append xs ys = (others ys, others-append xs ys)

Drained-accept_managed :
    (early more : List Signal) (x : Outcome Fault (Unit {0}) × List Signal)
    → Drained (accept_managed (early ++ more)) x
    → Drained early x
unfolding Drained
Drained-accept_managed early more (err fault, late) h = _
Drained-accept_managed early more (ok done, late) (clear, (rest, e)) = (
  clear,
  (
    others more ++ rest,
    e
        ∙ ap (λ os. os ++ rest) (others-accept_managed (early ++ more) ∙ others-append early more)
        ∙ append_assoc (others early) (others more) rest,
  ),
)

drain-Drained :
    (fuel : ℕ) (rounds : List Round) (pending : List Signal)
    → length pending + arriving rounds < fuel
    → (x : Outcome Fault (Unit {0}) × List Signal) × (drain fuel rounds pending ≡ some x)
      × Drained pending x
unfolding drain Drained
drain-Drained zero rounds pending enough = absurd (omega (arith, enough))
drain-Drained (suc fuel) rounds pending enough =
    let r = first_round rounds in
    let now = pending ++ r.arrivals in
    elim (Bool-cases r.inspected) [
      | inr failed ↦ simp failed ((err inspection_failed, now), refl, _)
      | inl seen ↦ elim (Bool-cases (any_managed now)) [
        | inr clear ↦
            simp (seen, clear) ((ok tt, now), refl, (clear, Keeps-append pending r.arrivals))
        | inl held ↦ elim (Bool-cases r.waited) [
          | inr failed ↦ simp (seen, held, failed) ((err wait_failed, now), refl, _)
          | inl waited ↦
              let fewer = length-accept_managed now held in
              let sum = length-append pending r.arrivals in
              let (x, e, d) =
                drain-Drained fuel (later_rounds rounds) (accept_managed now)
                  (omega (arith, fewer, sum, arriving-first rounds, enough)) in
              simp (seen, held, waited) (x, e, Drained-accept_managed pending r.arrivals x d)
        ]
      ]
    ]

-- What the life of the guard leaves, begun with `before`, where `early` were pending once the daemon
-- had stopped.
pub Restored : Signals → List Signal → Outcome Fault (Unit {0}) × Signals → Type 0
Restored before early (ok done, after) =
    (after.blocked ≡ before.blocked)
    × (any_managed after.pending ≡ false)
    × Keeps early after.pending
Restored before early (err fault, after) = after.blocked ≡ before.blocked

destroyed-Restored :
    (c : Course) (s : Signals) (x : Outcome Fault (Unit {0}) × List Signal)
    → c.masked_at_exit ≡ true
    → Drained c.pending x
    → let g : MaskGuard = record { previous = s.blocked; active = true } in
      (masked : Signal → Bool)
      → Restored s c.pending
          (destroyed c g (unmasked c.masked g (record { blocked = masked; pending = c.pending }) x))
unfolding Drained Restored restore_noexcept
destroyed-Restored c s (err fault, late) set d masked = simp set refl
destroyed-Restored c s (ok done, late) set d masked = elim (Bool-cases c.masked) [
  | inl able ↦ simp able (refl, d.0, d.1)
  | inr unable ↦ simp (unable, set) refl
]

-- The guard of the signal mask gives the mask back on every way out of `main`, where the
-- destructor's call succeeds: whichever call of the constructor or of `restore` fails, and whatever
-- the server throws. It ends within a round for each signal that is pending or arrives, and one
-- more. Where nothing is thrown, no SIGINT, SIGTERM or SIGUSR1 is pending behind it, and the signals
-- that the daemon leaves alone are still pending in their order.
pub guarded-Restored :
    (fuel : ℕ) (built masked : Bool) (c : Course) (s : Signals)
    → length c.pending + arriving c.rounds < fuel
    → c.masked_at_exit ≡ true
    → (x : Outcome Fault (Unit {0}) × Signals) × (guarded fuel built masked c s ≡ some x)
      × Restored s c.pending x
unfolding guarded block_signals restore restore_noexcept Restored
guarded-Restored fuel false masked c s enough set = (_, refl, refl)
guarded-Restored fuel true false c s enough set = (_, refl, refl)
guarded-Restored fuel true true c s enough set = elim (Bool-cases c.thrown) [
  | inl thrown ↦ simp (thrown, set) (_, refl, refl)
  | inr calm ↦
      let (x, e, d) = drain-Drained fuel c.rounds c.pending enough in
      rw (calm, e) (_, refl, destroyed-Restored c s x set d _)
]
