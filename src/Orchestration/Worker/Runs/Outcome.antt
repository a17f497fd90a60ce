-- ===== src/Orchestration/Worker/Runs/Outcome.antt =====
-- What clients see of a job: the answer of `job.result`.
use photospider_daemon.Base.{◌≡◌, refl, List, none, some, arith, All}
use photospider_daemon.Base.Outcome.{ok, err}
use photospider_daemon.Kernel.{Kernel, Status}
use photospider_daemon.Protocol.{
  JobId, SessionId, JobSubmitOptions, JobState, queued, running, succeeded, failed, cancelled,
}
use photospider_daemon.Orchestration.Job.{JobRecord, read_result, result_by_state}
use photospider_daemon.Orchestration.Job.Lifecycle.{IsFailure, Shows}
use photospider_daemon.Orchestration.Worker.Runs.{
  Event, run, IsKernelEvent, run-IsSound, submitted, submitted-IsSound,
}

module _ ⦃k : Kernel⦄ {R : Type 0} where
  -- What `job.result` answers by the state alone.
  abbrev pub IsAnswered : JobState → JobRecord R → Type 0
  IsAnswered succeeded r = (value : R) × (r.result ≡ some value) × (read_result r ≡ ok value)
  IsAnswered failed r = IsFailure r.outcome.code × (read_result r ≡ err r.outcome)
  IsAnswered cancelled r = (r.outcome.code ≡ k.cancelled) × (read_result r ≡ err r.outcome)
  IsAnswered _ r =
      (r.result ≡ none)
      × (status : Status) × (read_result r ≡ err status)
      × (status.code ≡ k.invalid_argument)

  read_result-result_by_state : (r : JobRecord R) → read_result r ≡ result_by_state r.state r
  unfolding read_result
  read_result-result_by_state r = refl

  result_by_state-IsAnswered :
      (state : JobState) (r : JobRecord R)
      → read_result r ≡ result_by_state state r
      → Shows state r.outcome r.result
      → IsAnswered state r
  unfolding result_by_state
  result_by_state-IsAnswered queued r e (_, none_yet) = (none_yet, _, e, refl)
  result_by_state-IsAnswered running r e (_, none_yet) = (none_yet, _, e, refl)
  result_by_state-IsAnswered succeeded r e (_, value, found) = (value, found, rw (e, found) refl)
  result_by_state-IsAnswered failed r e h = ground (arith, k.status_ok_lem r.outcome)
  result_by_state-IsAnswered cancelled r e h =
      ground (arith, k.status_ok_lem r.outcome, k.cancelled-ne-ok)

  -- However the worker, cancellations and a close interleave, where no failure and no exception has
  -- the category `Ok`, and only an execution fails with `Cancelled`, a job that succeeded answers
  -- `job.result` with its result, one that failed or was cancelled with its own outcome, which is a
  -- failure or a cancellation accordingly, and any other has no result yet and is refused as
  -- `InvalidArgument`.
  pub read_result-run :
      (id : JobId) (session : SessionId) (options : JobSubmitOptions) (events : List (Event R))
      → All IsKernelEvent events
      → IsAnswered
          (run events (submitted R id session options)).0.state
          (run events (submitted R id session options)).0
  read_result-run id session options events g =
      let r = (run events (submitted R id session options)).0 in
      result_by_state-IsAnswered r.state r (read_result-result_by_state r)
        (run-IsSound events (submitted R id session options) g
          (submitted-IsSound R id session options)).1
