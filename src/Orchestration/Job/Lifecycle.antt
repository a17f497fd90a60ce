-- ===== src/Orchestration/Job/Lifecycle.antt =====
-- What one record may show, and the order of its states.
use photospider_daemon.Base.{ℕ, ◌≡◌, ◌≢◌, Option, none, some, arith}
use photospider_daemon.Kernel.{Kernel, Status, success}
use photospider_daemon.Protocol.{JobState, queued, running, succeeded, failed, cancelled}
use photospider_daemon.Codec.Status.{validate_outcome}
use photospider_daemon.Orchestration.Job.{JobRecord, snapshot}

-- The forward order: queued, running, any terminal state.
abbrev pub order : JobState → ℕ
order queued = 0
order running = 1
order _ = 2

module _ ⦃k : Kernel⦄ where
  -- A category that a failed job may carry.
  abbrev pub IsFailure : ℕ → Type 0
  IsFailure code = (code ≢ k.ok_code) × (code ≢ k.cancelled)

  module _ {R : Type 0} where
    -- The outcome and the result that belong to a state.
    abbrev pub Shows : JobState → Status → Option R → Type 0
    Shows queued outcome result = (outcome ≡ success) × (result ≡ none)
    Shows running outcome result = (outcome ≡ success) × (result ≡ none)
    Shows succeeded outcome result = (outcome ≡ success) × (value : R) × (result ≡ some value)
    Shows failed outcome result = IsFailure outcome.code × (result ≡ none)
    Shows cancelled outcome result = (outcome.code ≡ k.cancelled) × (result ≡ none)

    abbrev pub IsCoherent : JobRecord R → Type 0
    IsCoherent r = Shows r.state r.outcome r.result

    validate_outcome-Shows :
        (state : JobState) (outcome : Status) (result : Option R)
        → Shows state outcome result
        → validate_outcome state outcome ≡ none
    unfolding validate_outcome
    validate_outcome-Shows queued outcome result (e, _) =
        rw (k.status_ok_lem outcome, e) (ground arith)
    validate_outcome-Shows running outcome result (e, _) =
        rw (k.status_ok_lem outcome, e) (ground arith)
    validate_outcome-Shows succeeded outcome result (e, _, _) =
        rw (k.status_ok_lem outcome, e) (ground arith)
    validate_outcome-Shows failed outcome result h = rw (k.status_ok_lem outcome) (ground arith)
    validate_outcome-Shows cancelled outcome result h = ground arith

    pub validate_outcome-snapshot :
        (r : JobRecord R)
        → IsCoherent r
        → validate_outcome (snapshot r).state (snapshot r).outcome ≡ none
    validate_outcome-snapshot r h = validate_outcome-Shows r.state r.outcome r.result h
