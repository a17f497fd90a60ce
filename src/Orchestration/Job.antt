-- ===== src/Orchestration/Job.antt =====
-- One execution: `JobRecord` of src/lib/orchestration/service.cpp, and what each critical section
-- under its mutex does to it. `R` stands for the kernel's execution results.
pub mod Lifecycle
use photospider_daemon.Base.{
  ℕ, Bool, true, false, not, ◌&&◌, ◌||◌, [], Bytes, ◌==◌, if◌then◌else◌, Option, none, some,
  bytes_of,
}
use photospider_daemon.Base.Outcome.{ok, err}
use photospider_daemon.Kernel.{Kernel, Status, Result, success, failure}
use photospider_daemon.Protocol.{
  SessionId, JobId, JobStatus, JobSubmitOptions, JobState, queued, running, succeeded, failed,
  cancelled,
}
use photospider_daemon.Codec.Status.{is_empty}

pub record JobRecord (R : Type 0) : Type 0 where
  pub id : JobId
  pub session_id : SessionId
  pub options : JobSubmitOptions
  pub state : JobState
  pub outcome : Status
  -- The cancellation source was used.
  pub cancel_requested : Bool
  pub result : Option R

abbrev pub terminal : JobState → Bool
terminal queued = false
terminal running = false
terminal succeeded = true
terminal failed = true
terminal cancelled = true

abbrev pub is_queued : JobState → Bool
is_queued queued = true
is_queued _ = false

module _ ⦃k : Kernel⦄ {R : Type 0} where
  -- A record as `submit` makes it.
  unfoldable pub new_job : JobId → SessionId → JobSubmitOptions → JobRecord R
  new_job id session_id options = record {
    id = id;
    session_id = session_id;
    options = options;
    state = queued;
    outcome = success;
    cancel_requested = false;
    result = none;
  }

  -- `JobRegistry::cancel`, under the record's mutex.
  unfoldable pub cancel_job : JobRecord R → JobRecord R
  cancel_job r = if terminal r.state then r else record r { cancel_requested = true }

  -- `JobRegistry::status`, under the record's mutex.
  abbrev pub snapshot : JobRecord R → JobStatus
  snapshot r = record {
    job_id = r.id;
    session_id = r.session_id;
    state = r.state;
    outcome = r.outcome;
  }

  unfoldable pub result_by_state : JobState → JobRecord R → Result R
  result_by_state succeeded r = elim r.result [
    | some value ↦ ok value
    | none ↦ err (failure k.invalid_argument (bytes_of "execution result is not ready"))
  ]
  result_by_state failed r =
      if k.status_ok r.outcome
      then err (failure k.internal (bytes_of "terminal execution lacks failure"))
      else err r.outcome
  result_by_state cancelled r =
      if k.status_ok r.outcome
      then err (failure k.internal (bytes_of "terminal execution lacks failure"))
      else err r.outcome
  result_by_state _ r = err (failure k.invalid_argument (bytes_of "execution result is not ready"))

  -- `JobRegistry::result`, under the record's mutex.
  unfoldable pub read_result : JobRecord R → Result R
  unfolding result_by_state
  read_result r = result_by_state r.state r

  -- The first block of `execute`: whether the execution goes on.
  unfoldable pub enter_running : JobRecord R → JobRecord R × Bool
  enter_running r =
      if not (is_queued r.state)
      then (
        record r {
          state = failed;
          outcome = failure k.internal (bytes_of "execution left queued state unexpectedly");
        },
        false,
      )
      else (record r { state = running }, true)

  unfoldable pub finish_failure : Status → JobRecord R → JobRecord R
  finish_failure status r =
      if r.cancel_requested
      then record r {
        state = cancelled;
        outcome = failure k.cancelled (bytes_of "execution cancellation was requested");
        result = none;
      }
      else record r { state = failed; outcome = status; result = none }

  unfoldable pub finish_cancelled : Bytes → JobRecord R → JobRecord R
  finish_cancelled reason r = record r {
    state = cancelled;
    outcome =
        failure k.cancelled
          (if is_empty reason then bytes_of "execution was cancelled" else reason);
    result = none;
  }

  -- `finish_failure_safely`, where the owned diagnostic could be built (`some`) or not (`none`).
  unfoldable pub finish_failure_safely : ℕ → Option Bytes → JobRecord R → JobRecord R
  finish_failure_safely code (some diagnostic) r = finish_failure (failure code diagnostic) r
  finish_failure_safely code none r = record r {
    state = if r.cancel_requested then cancelled else failed;
    outcome = failure (if r.cancel_requested then k.cancelled else code) [];
    result = none;
  }

  -- The last block of `execute`.
  unfoldable pub publish_result : R → JobRecord R → JobRecord R
  publish_result value r =
      if r.cancel_requested
      then record r {
        state = cancelled;
        outcome =
            failure k.cancelled (bytes_of "cancelled execution result publication was rejected");
        result = none;
      }
      else record r { state = succeeded; outcome = success; result = some value }

  -- `settle_close_records` on a record that was still in the queue.
  unfoldable pub settle_queued : JobRecord R → JobRecord R
  settle_queued r = record r {
    cancel_requested = true;
    state = cancelled;
    outcome = failure k.cancelled [];
    result = none;
  }

  -- And on one that a worker had popped.
  unfoldable pub settle_running : JobRecord R → JobRecord R
  settle_running r = if terminal r.state then r else record r { cancel_requested = true }
