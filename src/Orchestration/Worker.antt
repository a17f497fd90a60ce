-- ===== src/Orchestration/Worker.antt =====
-- `JobRegistry::execute` of src/lib/orchestration/service.cpp as a machine: between two steps any
-- other thread may run. What the kernel or the runtime does at a step is its `Answer`.
pub mod Runs
use photospider_daemon.Base.{
  ℕ, Bool, true, false, ◌||◌, Bytes, String, ◌==◌, if◌then◌else◌, Option, bytes_of,
}
use photospider_daemon.Kernel.{Kernel, Status}
use photospider_daemon.Orchestration.Job.{
  JobRecord, enter_running, finish_failure, finish_cancelled, finish_failure_safely, publish_result,
}

-- Where a worker is in `execute`. The last phases have decided on a final critical section.
pub data Phase (R : Type 0) : Type 0 where
  popped before_compile compiling compiled executing finished : Phase R
  publishing : R → Phase R
  failing : Status → Phase R
  cancelling : Bytes → Phase R
  -- In a `catch` block: the category, and the diagnostic if it could be built.
  fenced : ℕ → Option Bytes → Phase R

pub data Answer (R : Type 0) : Type 0 where
  -- No event of the kernel: the code's own test decides.
  proceed : Answer R
  -- `compile` succeeded, or failed with a status.
  compile_ok : Answer R
  compile_failed : Status → Answer R
  -- `execute` returned a result, or failed with a status.
  execute_ok : R → Answer R
  execute_failed : Status → Answer R
  -- An exception of the body, with its category.
  raised : ℕ → Option Bytes → Answer R

module _ ⦃k : Kernel⦄ {R : Type 0} where
  abbrev pub enters : JobRecord R × Bool → JobRecord R × Phase R
  enters (r, true) = (r, before_compile)
  enters (r, false) = (r, finished)

  abbrev pub check : JobRecord R → String → Phase R → JobRecord R × Phase R
  check r reason next = (r, if r.cancel_requested then cancelling (bytes_of reason) else next)

  -- One step. An answer that does not fit the phase leaves the worker where it is.
  unfoldable pub worker_step : Answer R → JobRecord R → Phase R → JobRecord R × Phase R
  worker_step answer r popped = enters (enter_running r)
  worker_step (raised code diagnostic) r before_compile = (r, fenced code diagnostic)
  worker_step _ r before_compile = check r "execution cancelled before compilation" compiling
  worker_step compile_ok r compiling = (r, compiled)
  worker_step (compile_failed status) r compiling = (r, failing status)
  worker_step (raised code diagnostic) r compiling = (r, fenced code diagnostic)
  worker_step _ r compiling = (r, compiling)
  worker_step _ r compiled = check r "execution cancelled during compilation" executing
  worker_step (execute_ok value) r executing = (r, publishing value)
  worker_step (execute_failed status) r executing = (
    r,
    if status.code == k.cancelled || r.cancel_requested
        then cancelling status.message
        else failing status,
  )
  worker_step (raised code diagnostic) r executing = (r, fenced code diagnostic)
  worker_step _ r executing = (r, executing)
  worker_step _ r (publishing value) = (publish_result value r, finished)
  worker_step _ r (failing status) = (finish_failure status r, finished)
  worker_step _ r (cancelling reason) = (finish_cancelled reason r, finished)
  worker_step _ r (fenced code diagnostic) = (finish_failure_safely code diagnostic r, finished)
  worker_step _ r finished = (r, finished)
