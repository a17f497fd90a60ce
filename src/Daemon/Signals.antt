-- ===== src/Daemon/Signals.antt =====
-- apps/photospiderd/main.cpp: the mask that keeps stop signals from their default action while the
-- daemon runs. The thread that waits for them is left out.
pub mod Guarded
use photospider_daemon.Base.{
  ℕ, zero, suc, Bool, true, false, not, ◌&&◌, ◌||◌, List, [], ◌∷◌, ◌++◌, if◌then◌else◌, Option,
  none, some,
}
use photospider_daemon.Base.Outcome.{Outcome, ok, err}

-- SIGINT, SIGTERM, the waiter's SIGUSR1, and the signals that the daemon leaves alone.
pub data Signal : Type 0 where
  interrupt terminate wake : Signal
  unmanaged : ℕ → Signal

abbrev pub is_managed : Signal → Bool
is_managed (unmanaged n) = false
is_managed _ = true

abbrev pub is_stop : Signal → Bool
is_stop interrupt = true
is_stop terminate = true
is_stop _ = false

-- A thread's signals: those that its mask blocks, and those that are pending.
pub record Signals : Type 0 where
  pub blocked : Signal → Bool
  pub pending : List Signal

-- What leaves `main` by an exception: a call of the guard that failed, or what the server and the
-- waiter throw.
pub data Fault : Type 0 where
  no_signal_set mask_failed inspection_failed wait_failed body_failed : Fault

pub record MaskGuard : Type 0 where
  pub previous : Signal → Bool
  pub active : Bool

-- The constructor, where `built` and `masked` say whether its calls succeed.
unfoldable pub block_signals : (built masked : Bool) → Signals → Outcome Fault MaskGuard × Signals
block_signals built masked s =
    if not built then (err no_signal_set, s) else if not masked then (err mask_failed, s) else (
      ok (record { previous = s.blocked; active = true }),
      record s { blocked = λ signal. is_managed signal || s.blocked signal },
    )

abbrev pub any_managed : List Signal → Bool
any_managed [] = false
any_managed (signal ∷ rest) = is_managed signal || any_managed rest

-- `sigwait` takes a pending signal of the set; which one does not matter to the caller.
abbrev pub accept_managed : List Signal → List Signal
accept_managed [] = []
accept_managed (signal ∷ rest) = if is_managed signal then rest else signal ∷ accept_managed rest

-- A round of the loop of `restore`: the signals that arrive before it, and which calls succeed.
pub record Round : Type 0 where
  pub arrivals : List Signal
  pub inspected : Bool
  pub waited : Bool

-- Behind the listed rounds no signal arrives and every call succeeds.
abbrev pub quiet : Round
quiet = record { arrivals = []; inspected = true; waited = true }

abbrev pub first_round : List Round → Round
first_round [] = quiet
first_round (r ∷ rs) = r

abbrev pub later_rounds : List Round → List Round
later_rounds [] = []
later_rounds (r ∷ rs) = rs

-- What is pending behind the loop, or the failure; `none` is a loop that goes on.
unfoldable pub drain :
    ℕ → List Round → List Signal → Option (Outcome Fault (Unit {0}) × List Signal)
drain zero rounds pending = none
drain (suc fuel) rounds pending =
    let now = pending ++ (first_round rounds).arrivals in
    let rest = drain fuel (later_rounds rounds) (accept_managed now) in
    if not (first_round rounds).inspected
    then some (err inspection_failed, now)
    else if not (any_managed now)
    then some (ok tt, now)
    else if not (first_round rounds).waited
    then some (err wait_failed, now)
    else rest

-- `restore` behind its loop, where `masked` says whether the mask can be set.
abbrev pub unmasked :
    Bool
    → MaskGuard
    → Signals
    → Outcome Fault (Unit {0}) × List Signal
    → Outcome Fault MaskGuard × Signals
unmasked masked g s (err fault, pending) = (err fault, record s { pending = pending })
unmasked masked g s (ok done, pending) =
    if not masked
    then (err mask_failed, record s { pending = pending })
    else (ok (record g { active = false }), record { blocked = g.previous; pending = pending })

unfoldable pub restore :
    ℕ → List Round → Bool → MaskGuard → Signals → Option (Outcome Fault MaskGuard × Signals)
restore fuel rounds masked g s =
    if not g.active then some (ok g, s) else elim (drain fuel rounds s.pending) [
      | none ↦ none
      | some drained ↦ some (unmasked masked g s drained)
    ]

-- The destructor, where `masked` says whether the mask can be set. It cannot tell.
unfoldable pub restore_noexcept : Bool → MaskGuard → Signals → Signals
restore_noexcept masked g s = if g.active && masked then record s { blocked = g.previous } else s

-- How the calls behind the constructor go: what throws, the rounds of `restore`, and whether it and
-- the destructor can set the mask. `pending` is what is pending once the daemon has stopped.
pub record Course : Type 0 where
  pub thrown : Bool
  pub pending : List Signal
  pub rounds : List Round
  pub masked : Bool
  pub masked_at_exit : Bool

abbrev pub destroyed :
    Course → MaskGuard → Outcome Fault MaskGuard × Signals → Outcome Fault (Unit {0}) × Signals
destroyed c g (ok restored, s) = (ok tt, restore_noexcept c.masked_at_exit restored s)
destroyed c g (err fault, s) = (err fault, restore_noexcept c.masked_at_exit g s)

abbrev pub leave :
    ℕ → Course → Outcome Fault MaskGuard × Signals → Option (Outcome Fault (Unit {0}) × Signals)
leave fuel c (err fault, s) = some (err fault, s)
leave fuel c (ok g, s) =
    let later = record s { pending = c.pending } in
    if c.thrown
    then some (err body_failed, restore_noexcept c.masked_at_exit g later)
    else elim (restore fuel c.rounds c.masked g later) [
      | none ↦ none
      | some restored ↦ some (destroyed c g restored)
    ]

-- The life of the guard in `main`: constructed, restored where nothing is thrown, destroyed.
unfoldable pub guarded :
    ℕ → (built masked : Bool) → Course → Signals → Option (Outcome Fault (Unit {0}) × Signals)
guarded fuel built masked c s = leave fuel c (block_signals built masked s)
