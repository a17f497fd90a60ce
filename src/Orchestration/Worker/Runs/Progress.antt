-- ===== src/Orchestration/Worker/Runs/Progress.antt =====
-- The worker comes to an end.
use photospider_daemon.Base.{
  ℕ, ◌≡◌, ◌≤◌, ◌+◌, Bool, true, false, List, [], ◌∷◌, arith, All, if◌then◌else◌,
}
use photospider_daemon.Kernel.{Kernel}
use photospider_daemon.Protocol.{JobId, SessionId, JobSubmitOptions}
use photospider_daemon.Orchestration.Job.{
  JobRecord, terminal, cancel_job, settle_running, enter_running,
}
use photospider_daemon.Orchestration.Worker.{
  Phase, popped, before_compile, compiling, compiled, executing, finished, publishing, failing,
  cancelling, fenced, Answer, compile_ok, compile_failed, execute_ok, execute_failed, raised,
  worker_step,
}
use photospider_daemon.Orchestration.Worker.Runs.{
  Event, works, cancels, closes, step, run, IsKernelEvent, IsSound, run-IsSound, submitted,
  submitted-IsSound,
}

module _ {R : Type 0} where
  -- How many answers the worker still needs at most.
  abbrev pub rank : Phase R → ℕ
  rank popped = 6
  rank before_compile = 5
  rank compiling = 4
  rank compiled = 3
  rank executing = 2
  rank finished = 0
  rank _ = 1

  -- The answers that a phase waits for.
  unfoldable pub fits : Answer R → Phase R → Bool
  fits compile_ok compiling = true
  fits (compile_failed status) compiling = true
  fits (raised code diagnostic) compiling = true
  fits _ compiling = false
  fits (execute_ok value) executing = true
  fits (execute_failed status) executing = true
  fits (raised code diagnostic) executing = true
  fits _ executing = false
  fits _ _ = true

module _ ⦃k : Kernel⦄ {R : Type 0} where
  -- How many events of a run are answers that the worker waits for, or come when it has returned.
  unfoldable pub fitting : List (Event R) → JobRecord R × Phase R → ℕ
  fitting [] job = 0
  fitting (works answer ∷ events) (r, phase) =
      (if fits answer phase then 1 else 0) + fitting events (step (works answer) (r, phase))
  fitting (event ∷ events) job = fitting events (step event job)

  worker_step-rank :
      (answer : Answer R) (r : JobRecord R) (phase : Phase R) (n : ℕ)
      → rank phase ≤ (if fits answer phase then 1 else 0) + n
      → rank (worker_step answer r phase).1 ≤ n
  unfolding worker_step enter_running fits
  worker_step-rank answer r popped n h = ground arith
  worker_step-rank answer r before_compile n h = ground arith
  worker_step-rank answer r compiling n h = ground arith
  worker_step-rank answer r compiled n h = ground arith
  worker_step-rank answer r executing n h = ground arith
  worker_step-rank answer r finished n h = ground arith
  worker_step-rank answer r (publishing v) n h = ground arith
  worker_step-rank answer r (failing s) n h = ground arith
  worker_step-rank answer r (cancelling s) n h = ground arith
  worker_step-rank answer r (fenced c d) n h = ground arith

  run-rank :
      (events : List (Event R)) (r : JobRecord R) (phase : Phase R)
      → rank phase ≤ fitting events (r, phase)
      → rank (run events (r, phase)).1 ≡ 0
  unfolding run fitting step
  run-rank [] r phase h = omega arith
  run-rank (works answer ∷ events) r phase h =
      let next = worker_step answer r phase in
      run-rank events next.0 next.1 (worker_step-rank answer r phase _ h)
  run-rank (cancels ∷ events) r phase h = run-rank events (cancel_job r) phase h
  run-rank (closes ∷ events) r phase h = run-rank events (settle_running r) phase h

  terminal_of_rank :
      (r : JobRecord R) (phase : Phase R)
      → IsSound (r, phase)
      → rank phase ≡ 0
      → terminal r.state ≡ true
  terminal_of_rank r phase h e = ground arith

  -- Once the worker has been given six answers that it waits for, however many others and whatever
  -- cancellations and closes come between, the job is terminal, where no failure and no exception
  -- has the category `Ok`, and only an execution fails with `Cancelled`.
  pub run-fitting :
      (id : JobId) (session : SessionId) (options : JobSubmitOptions) (events : List (Event R))
      → All IsKernelEvent events
      → 6 ≤ fitting events (submitted R id session options)
      → terminal (run events (submitted R id session options)).0.state ≡ true
  unfolding submitted
  run-fitting id session options events g h =
      let job = submitted R id session options in
      let last = run events job in
      terminal_of_rank last.0 last.1
        (run-IsSound events job g (submitted-IsSound R id session options))
        (run-rank events job.0 job.1 h)
