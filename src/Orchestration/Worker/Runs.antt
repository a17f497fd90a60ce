-- ===== src/Orchestration/Worker/Runs.antt =====
-- One job under its worker, its clients and the close of its session, in any order.
pub mod Outcome
pub mod Cancellation
pub mod Progress
pub mod Refusal
use photospider_daemon.Base.{
  ℕ, ◌≡◌, ◌≢◌, refl, ◌≤◌, ◌<◌, ◌+◌, Bool, true, false, List, [], ◌∷◌, Option, none, some, ◌==◌,
  arith, Bytes, All, ◌++◌, Bool-cases, inl, inr,
}
use photospider_daemon.Kernel.{Kernel, Status}
use photospider_daemon.Protocol.{
  JobId, SessionId, JobSubmitOptions, JobState, queued, running, succeeded, failed, cancelled,
}
use photospider_daemon.Orchestration.Job.{
  JobRecord, new_job, terminal, cancel_job, settle_running, enter_running, finish_failure,
  finish_cancelled, finish_failure_safely, publish_result,
}
use photospider_daemon.Orchestration.Job.Lifecycle.{order, IsFailure, Shows, IsCoherent}
use photospider_daemon.Orchestration.Worker.{
  Phase, popped, before_compile, compiling, compiled, executing, finished, publishing, failing,
  cancelling, fenced, Answer, proceed, compile_ok, compile_failed, execute_ok, execute_failed,
  raised, worker_step,
}

-- A step of the worker, `job.cancel` of a client, or `session.close` on a popped record.
pub data Event (R : Type 0) : Type 0 where
  works : Answer R → Event R
  cancels closes : Event R

abbrev pub stage : {R : Type 0} → Phase R → ℕ
stage popped = 0
stage finished = 2
stage _ = 1

module _ ⦃k : Kernel⦄ {R : Type 0} where
  unfoldable pub step : Event R → JobRecord R × Phase R → JobRecord R × Phase R
  step (works answer) (r, phase) = worker_step answer r phase
  step cancels (r, phase) = (cancel_job r, phase)
  step closes (r, phase) = (settle_running r, phase)

  unfoldable pub run : List (Event R) → JobRecord R × Phase R → JobRecord R × Phase R
  run [] job = job
  run (event ∷ events) job = run events (step event job)

  -- No failure and no exception has the category `Ok`, and only an execution fails with
  -- `Cancelled`.
  abbrev pub IsKernelEvent : Event R → Type 0
  IsKernelEvent (works (compile_failed status)) = IsFailure status.code
  IsKernelEvent (works (execute_failed status)) = status.code ≢ k.ok_code
  IsKernelEvent (works (raised code diagnostic)) = IsFailure code
  IsKernelEvent _ = Unit {0}

  abbrev IsDecided : Phase R → Type 0
  IsDecided (failing status) = IsFailure status.code
  IsDecided (fenced code diagnostic) = IsFailure code
  IsDecided _ = Unit {0}

  -- The record and the worker agree on how far the job is.
  abbrev pub IsSound : JobRecord R × Phase R → Type 0
  IsSound (r, phase) = (order r.state ≡ stage phase) × IsCoherent r × IsDecided phase

  cancel_job-IsSound :
      (r : JobRecord R) (phase : Phase R) → IsSound (r, phase) → IsSound (cancel_job r, phase)
  unfolding cancel_job
  cancel_job-IsSound r phase h = elim (Bool-cases (terminal r.state)) [
    | inl e ↦ rw e h
    | inr e ↦ rw e h
  ]

  worker_step-IsSound :
      (answer : Answer R) (r : JobRecord R) (phase : Phase R)
      → IsKernelEvent (works answer)
      → IsSound (r, phase)
      → IsSound (worker_step answer r phase)
  unfolding worker_step enter_running finish_failure finish_cancelled finish_failure_safely
      publish_result
  worker_step-IsSound answer r popped g h = ground arith
  worker_step-IsSound answer r before_compile g h = ground arith
  worker_step-IsSound answer r compiling g h = ground arith
  worker_step-IsSound answer r compiled g h = ground arith
  worker_step-IsSound answer r executing g h = ground arith
  worker_step-IsSound answer r finished g h = ground arith
  worker_step-IsSound answer r (publishing v) g h = ground arith
  worker_step-IsSound answer r (failing s) g h = ground arith
  worker_step-IsSound answer r (cancelling s) g h = ground arith
  worker_step-IsSound answer r (fenced c d) g h = ground arith

  pub step-IsSound :
      (event : Event R) (job : JobRecord R × Phase R)
      → IsKernelEvent event
      → IsSound job
      → IsSound (step event job)
  unfolding step settle_running
  step-IsSound (works answer) (r, phase) g h = worker_step-IsSound answer r phase g h
  step-IsSound cancels (r, phase) g h = cancel_job-IsSound r phase h
  step-IsSound closes (r, phase) g h = elim (Bool-cases (terminal r.state)) [
    | inl e ↦ rw e h
    | inr e ↦ rw e h
  ]

  pub run-IsSound :
      (events : List (Event R)) (job : JobRecord R × Phase R)
      → All IsKernelEvent events
      → IsSound job
      → IsSound (run events job)
  unfolding run
  run-IsSound [] job g h = h
  run-IsSound (event ∷ events) job g h =
      run-IsSound events (step event job) g.1 (step-IsSound event job g.0 h)

  pub run-append :
      (before after : List (Event R)) (job : JobRecord R × Phase R)
      → run (before ++ after) job ≡ run after (run before job)
  unfolding run
  run-append [] after job = refl
  run-append (event ∷ before) after job = run-append before after (step event job)

module _ ⦃k : Kernel⦄ (R : Type 0) (id : JobId) (session : SessionId)
    (options : JobSubmitOptions) where
  -- A job as it is submitted, for a worker to pop.
  unfoldable pub submitted : JobRecord R × Phase R
  submitted = (new_job id session options, popped)

  pub submitted-IsSound : IsSound submitted
  unfolding submitted new_job
  submitted-IsSound = (refl, (refl, refl), _)
