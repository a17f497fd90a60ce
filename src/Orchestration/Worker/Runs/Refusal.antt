-- ===== src/Orchestration/Worker/Runs/Refusal.antt =====
-- Which job statuses the codec refuses to send.
use photospider_daemon.Base.{◌≡◌, ◌≢◌, false, Bool, ◌==◌}
use photospider_daemon.Kernel.{Kernel, Status, success}
use photospider_daemon.Protocol.{JobState, queued, running, succeeded, failed, cancelled}
use photospider_daemon.Orchestration.Job.{JobRecord}
use photospider_daemon.Orchestration.Job.Lifecycle.{order}
use photospider_daemon.Orchestration.Worker.{
  Phase, failing, fenced, compile_failed, execute_failed, raised,
}
use photospider_daemon.Orchestration.Worker.Runs.{Event, works, stage}

module _ ⦃k : Kernel⦄ where
  -- A failed job whose outcome is a cancellation.
  abbrev pub cancelled_failure : JobState → Status → Bool
  cancelled_failure failed outcome = outcome.code == k.cancelled
  cancelled_failure _ outcome = false

  -- The outcome that belongs to a state, where a failure may have any category but `Ok`.
  abbrev Carries : JobState → Status → Type 0
  Carries queued outcome = outcome ≡ success
  Carries running outcome = outcome ≡ success
  Carries succeeded outcome = outcome ≡ success
  Carries failed outcome = outcome.code ≢ k.ok_code
  Carries cancelled outcome = outcome.code ≡ k.cancelled

module _ ⦃k : Kernel⦄ {R : Type 0} where
  -- What is reported as a failure, or is thrown, has another category than `Ok`.
  abbrev pub IsFailedEvent : Event R → Type 0
  IsFailedEvent (works (compile_failed status)) = status.code ≢ k.ok_code
  IsFailedEvent (works (execute_failed status)) = status.code ≢ k.ok_code
  IsFailedEvent (works (raised code diagnostic)) = code ≢ k.ok_code
  IsFailedEvent _ = Unit {0}

  abbrev IsChosen : Phase R → Type 0
  IsChosen (failing status) = status.code ≢ k.ok_code
  IsChosen (fenced code diagnostic) = code ≢ k.ok_code
  IsChosen _ = Unit {0}

  abbrev Agrees : JobRecord R × Phase R → Type 0
  Agrees (r, phase) = (order r.state ≡ stage phase) × Carries r.state r.outcome × IsChosen phase
