-- ===== src/Orchestration/Registry.antt =====
-- `JobRegistry` of src/lib/orchestration/service.cpp: the map of retained jobs, the queue, and the
-- calls on them. A shared pointer is the number of the record's id; `records` holds what it points
-- to.
pub mod Invariant
pub mod Calls
pub mod Reach
pub mod Lookup
pub mod Stop
pub mod Released
use photospider_daemon.Base.{
  ℕ, ◌+◌, ◌%◌, ◌^◌, Bool, true, false, not, ◌&&◌, ◌||◌, List, [], ◌∷◌, ◌++◌, length, leb, ◌==◌,
  if◌then◌else◌, Option, none, some, bytes_of,
}
use photospider_daemon.Base.IdSets.{member, keep, store}
use photospider_daemon.Base.Outcome.{ok, err}
use photospider_daemon.Kernel.{Kernel, Status, Result, success, failure}
use photospider_daemon.Protocol.{SessionId, JobId, JobStatus, JobSubmitOptions}
use photospider_daemon.Orchestration.Job.{
  JobRecord, new_job, terminal, cancel_job, snapshot, read_result,
}

pub record Registry (R : Type 0) : Type 0 where
  pub maximum_jobs : ℕ
  pub instance_id : ℕ
  pub records : ℕ → JobRecord R
  -- The keys of the map in order; a new key is greater than all before.
  pub jobs : List ℕ
  pub queue : List ℕ
  pub next_id : ℕ
  pub stopping : Bool

module _ ⦃k : Kernel⦄ where
  abbrev pub missing : Status
  missing = failure k.not_found (bytes_of "ephemeral execution does not exist")

module _ ⦃k : Kernel⦄ {R : Type 0} where
  -- The next id.
  abbrev pub fresh_id : Registry R → JobId
  fresh_id g = record { instance_id = g.instance_id; value = g.next_id }

  -- The id is taken, and the record goes into the map and the queue.
  unfoldable pub publish : SessionId → JobSubmitOptions → Registry R → Registry R
  publish session options g = record g {
    records = store g.next_id (new_job (fresh_id g) session options) g.records;
    jobs = g.jobs ++ g.next_id ∷ [];
    queue = g.queue ++ g.next_id ∷ [];
    next_id = (g.next_id + 1) % 2 ^ 64;
  }

  -- The id is taken also where the map has it already.
  unfoldable pub admit : SessionId → JobSubmitOptions → Registry R → Result JobId × Registry R
  admit session options g =
      if member g.next_id g.jobs
      then (
        err (failure k.internal (bytes_of "ephemeral execution id was duplicated")),
        record g { next_id = (g.next_id + 1) % 2 ^ 64 },
      )
      else (ok (fresh_id g), publish session options g)

  unfoldable pub submit : SessionId → JobSubmitOptions → Registry R → Result JobId × Registry R
  submit session options g =
      if g.stopping
      then (err (failure k.cancelled (bytes_of "daemon orchestration is stopping")), g)
      else if leb g.maximum_jobs (length g.jobs)
      then (
        err (
            failure k.resource_exhausted (bytes_of "global retained execution bound is exhausted")),
        g,
      )
      else if g.next_id == 0
      then (err (failure k.resource_exhausted (bytes_of "ephemeral execution id exhausted")), g)
      else admit session options g

  unfoldable pub known : JobId → Registry R → Bool
  known id g =
      not (not (id.instance_id == g.instance_id) || (id.value == 0 || not (member id.value g.jobs)))

  unfoldable pub find : JobId → Registry R → Option (JobRecord R)
  find id g = if known id g then some (g.records id.value) else none

  unfoldable pub status : JobId → Registry R → Result JobStatus
  status id g = elim (find id g) [ none ↦ err missing | some r ↦ ok (snapshot r) ]

  unfoldable pub result : JobId → Registry R → Result R
  result id g = elim (find id g) [ none ↦ err missing | some r ↦ read_result r ]

  unfoldable pub cancel : JobId → Registry R → Status × Registry R
  cancel id g =
      if known id g
      then (
        success,
        record g { records = store id.value (cancel_job (g.records id.value)) g.records },
      )
      else (missing, g)

  unfoldable pub release : JobId → Registry R → Status × Registry R
  release id g =
      if not (known id g)
      then (missing, g)
      else if not (terminal (g.records id.value).state)
      then (failure k.invalid_argument (bytes_of "running execution cannot be released"), g)
      else (success, record g { jobs = keep (λ i. not (i == id.value)) g.jobs })

module _ {R : Type 0} where
  -- The record belongs to the session that closes.
  unfoldable pub belongs : SessionId → JobRecord R → Bool
  belongs session r =
      (r.session_id.instance_id == session.instance_id) && (r.session_id.value == session.value)

  -- `close_session` under the registry's mutex: the records taken from the queue and the map, those
  -- taken from the map alone, and what is left.
  unfoldable pub detach : SessionId → Registry R → (List ℕ × List ℕ) × Registry R
  detach session g =
      let queued = keep (λ i. belongs session (g.records i)) g.queue in
      let popped = keep (λ i. not (member i queued)) g.jobs in
      (
        (queued, keep (λ i. belongs session (g.records i)) popped),
        record g {
          queue = keep (λ i. not (belongs session (g.records i))) g.queue;
          jobs = keep (λ i. not (belongs session (g.records i))) popped;
        },
      )

  unfoldable pub pop_front : List ℕ → Registry R → Option (ℕ × Registry R)
  pop_front [] g = none
  pop_front (i ∷ rest) g = some (i, record g { queue = rest })

  -- The critical section of `worker_loop`: `none` where it returns or goes on waiting.
  unfoldable pub pop : Registry R → Option (ℕ × Registry R)
  unfolding pop_front
  pop g = if g.stopping then none else pop_front g.queue g

  -- A critical section of a worker, or of the close that detached it, on a shared record.
  unfoldable pub work : ℕ → (JobRecord R → JobRecord R) → Registry R → Registry R
  work i section g = record g { records = store i (section (g.records i)) g.records }
