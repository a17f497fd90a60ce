-- ===== src/Orchestration/Worker/Runs/Cancellation.antt =====
-- Cancellation, and the states that a job does not leave.
use photospider_daemon.Base.{
  ◌≡◌, ◌≢◌, refl, sym, ◌∙◌, ap, true, false, List, [], ◌∷◌, ◌++◌, none, some, arith, All,
  Bool-cases, inl, inr,
}
use photospider_daemon.Kernel.{Kernel}
use photospider_daemon.Protocol.{JobId, SessionId, JobSubmitOptions, JobState, succeeded, failed}
use photospider_daemon.Orchestration.Job.{
  JobRecord, terminal, cancel_job, settle_running, enter_running, finish_failure, finish_cancelled,
  finish_failure_safely, publish_result,
}
use photospider_daemon.Orchestration.Job.Lifecycle.{order}
use photospider_daemon.Orchestration.Worker.{
  Phase, popped, before_compile, compiling, compiled, executing, finished, publishing, failing,
  cancelling, fenced, Answer, worker_step,
}
use photospider_daemon.Orchestration.Worker.Runs.{
  Event, works, cancels, closes, step, step-IsSound, run, IsKernelEvent, IsSound, run-IsSound,
  run-append, submitted, submitted-IsSound, stage,
}

order-terminal : (state : JobState) → terminal state ≡ true → order state ≡ 2
order-terminal state e = ground arith

module _ ⦃k : Kernel⦄ {R : Type 0} where
  abbrev IsWithdrawn : JobRecord R → Type 0
  IsWithdrawn r = (r.cancel_requested ≡ true) × (r.state ≢ succeeded) × (r.state ≢ failed)

  worker_step-IsWithdrawn :
      (answer : Answer R) (r : JobRecord R) (phase : Phase R)
      → IsSound (r, phase)
      → IsWithdrawn r
      → IsWithdrawn (worker_step answer r phase).0
  unfolding worker_step enter_running finish_failure finish_cancelled finish_failure_safely
      publish_result
  worker_step-IsWithdrawn answer r popped h w = ground arith
  worker_step-IsWithdrawn answer r before_compile h w = ground arith
  worker_step-IsWithdrawn answer r compiling h w = ground arith
  worker_step-IsWithdrawn answer r compiled h w = ground arith
  worker_step-IsWithdrawn answer r executing h w = ground arith
  worker_step-IsWithdrawn answer r finished h w = ground arith
  worker_step-IsWithdrawn answer r (publishing v) h w = ground arith
  worker_step-IsWithdrawn answer r (failing s) h w = ground arith
  worker_step-IsWithdrawn answer r (cancelling s) h w = ground arith
  worker_step-IsWithdrawn answer r (fenced c none) h w = ground arith
  worker_step-IsWithdrawn answer r (fenced c (some d)) h w = ground arith

  step-IsWithdrawn :
      (event : Event R) (r : JobRecord R) (phase : Phase R)
      → IsSound (r, phase)
      → IsWithdrawn r
      → IsWithdrawn (step event (r, phase)).0
  unfolding step cancel_job settle_running
  step-IsWithdrawn (works answer) r phase h w = worker_step-IsWithdrawn answer r phase h w
  step-IsWithdrawn cancels r phase h w = elim (Bool-cases (terminal r.state)) [
    | inl e ↦ rw e w
    | inr e ↦ rw e (refl, w.1, w.2)
  ]
  step-IsWithdrawn closes r phase h w = elim (Bool-cases (terminal r.state)) [
    | inl e ↦ rw e w
    | inr e ↦ rw e (refl, w.1, w.2)
  ]

  run-IsWithdrawn :
      (events : List (Event R)) (r : JobRecord R) (phase : Phase R)
      → All IsKernelEvent events
      → IsSound (r, phase)
      → IsWithdrawn r
      → IsWithdrawn (run events (r, phase)).0
  unfolding run
  run-IsWithdrawn [] r phase g h w = w
  run-IsWithdrawn (event ∷ events) r phase g h w =
      let next = step event (r, phase) in
      run-IsWithdrawn events next.0 next.1 g.1 (step-IsSound event (r, phase) g.0 h)
        (step-IsWithdrawn event r phase h w)

  cancel_job-IsWithdrawn : (r : JobRecord R) → terminal r.state ≡ false → IsWithdrawn (cancel_job r)
  unfolding cancel_job
  cancel_job-IsWithdrawn r e = rw e (ground arith)

  -- A job that is cancelled before it is terminal, at whatever point of its worker, is afterwards
  -- neither succeeded nor failed, whatever comes later, where no failure and no exception has the
  -- category `Ok`, and only an execution fails with `Cancelled`.
  pub run-cancelled :
      (id : JobId) (session : SessionId) (options : JobSubmitOptions)
      (before after : List (Event R))
      → All IsKernelEvent before
      → All IsKernelEvent after
      → terminal (run before (submitted R id session options)).0.state ≡ false
      → ((run (before ++ cancels ∷ after) (submitted R id session options)).0.state ≢ succeeded)
        × ((run (before ++ cancels ∷ after) (submitted R id session options)).0.state ≢ failed)
  unfolding run step
  run-cancelled id session options before after g g2 e =
      let job = submitted R id session options in
      let mid = run before job in
      let sound =
        step-IsSound cancels mid _
          (run-IsSound before job g (submitted-IsSound R id session options)) in
      let withdrawn =
        run-IsWithdrawn after (cancel_job mid.0) mid.1 g2 sound (cancel_job-IsWithdrawn mid.0 e) in
      rw (run-append before (cancels ∷ after) job) (withdrawn.1, withdrawn.2)

  stage_finished : (phase : Phase R) → stage phase ≡ 2 → phase ≡ finished
  stage_finished phase e = ground arith

  worker_step-finished :
      (answer : Answer R) (r : JobRecord R) (phase : Phase R)
      → phase ≡ finished
      → worker_step answer r phase ≡ (r, phase)
  unfolding worker_step
  worker_step-finished answer r phase e = rw e refl

  step-terminal :
      (event : Event R) (r : JobRecord R) (phase : Phase R)
      → IsSound (r, phase)
      → terminal r.state ≡ true
      → step event (r, phase) ≡ (r, phase)
  unfolding step cancel_job settle_running
  step-terminal (works answer) r phase h e =
      worker_step-finished answer r phase
        (stage_finished phase (sym h.0 ∙ order-terminal r.state e))
  step-terminal cancels r phase h e = rw e refl
  step-terminal closes r phase h e = rw e refl

  run-terminal :
      (events : List (Event R)) (job : JobRecord R × Phase R)
      → IsSound job
      → terminal job.0.state ≡ true
      → run events job ≡ job
  unfolding run
  run-terminal [] job h e = refl
  run-terminal (event ∷ events) job h e =
      ap (run events) (step-terminal event job.0 job.1 h e) ∙ run-terminal events job h e

  -- A job that is terminal stays as it is, its outcome and result with it, whatever comes later,
  -- where up to then no failure and no exception had the category `Ok`, and only an execution
  -- failed with `Cancelled`.
  pub run-append-terminal :
      (id : JobId) (session : SessionId) (options : JobSubmitOptions)
      (before after : List (Event R))
      → All IsKernelEvent before
      → terminal (run before (submitted R id session options)).0.state ≡ true
      → run (before ++ after) (submitted R id session options)
        ≡ run before (submitted R id session options)
  run-append-terminal id session options before after g e =
      let job = submitted R id session options in
      run-append before after job
      ∙ run-terminal after (run before job)
          (run-IsSound before job g (submitted-IsSound R id session options)) e
