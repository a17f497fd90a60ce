-- ===== src/Orchestration/Service/Calls.antt =====
-- `Service::Impl` behind the interface that `dispatch` calls: each call runs its own sections, and
-- where it holds no lock other threads run theirs.
pub mod Kept
pub mod Gone
pub mod Closed
use photospider_daemon.Base.{ℕ, ◌+◌, ◌-◌, List, [], ◌∷◌, ◌++◌, length, map, Option, none, some}
use photospider_daemon.Base.Outcome.{Outcome, ok, err}
use photospider_daemon.Kernel.{Kernel, Status, Result, success}
use photospider_daemon.Protocol.{SessionId, JobId, JobStatus, JobSubmitOptions}
use photospider_daemon.Workflow.{WorkflowDocument}
use photospider_daemon.Execution.{ExecutionResult}
use photospider_daemon.Orchestration.Dispatch.{Raised, nonstandard, Calls}
use photospider_daemon.Orchestration.Registry
use photospider_daemon.Orchestration.Registry.{Registry, cancel, release, detach}
use photospider_daemon.Orchestration.Sessions.{
  Sessions, reserve, publish_session, begin_close, submit_to,
}
use photospider_daemon.Orchestration.Service.{
  Impl, Event, fails, reopens, detaches, finishes, settles_queued, settles_running, own_session,
  with_reserved, with_begun, step, run,
}

-- What the service does not decide: the construction of the graph and its compilation, which may
-- throw or fail, the exception of a close's snapshot, and the sections of other threads while a
-- creation compiles and while a close of the session with a number waits for its jobs.
pub record Environment (R : Type 0) : Type 0 where
  pub compile : WorkflowDocument → Outcome Raised (Option Status)
  pub snapshot : SessionId → Option Raised
  pub while_compiling : Impl R → List (Event R)
  pub while_waiting : ℕ → Impl R → List (Event R)

-- A reply, and the service behind it; `none` is a process that `std::terminate` has ended.
abbrev pub Reply : Type 0 → Type 0 → Type 0
Reply R A = Outcome Raised A × Option (Impl R)

abbrev pub ended : {R A : Type 0} → Reply R A
ended = (err nonstandard, none)

-- A call on a process that has ended has no reply; the interface wants one.
abbrev pub alive : {R A : Type 0} → (Impl R → Reply R A) → Option (Impl R) → Reply R A
alive f none = ended
alive f (some s) = f s

abbrev pub with_jobs : {R A : Type 0} → Impl R → A × Registry R → Reply R A
with_jobs s (reply, jobs) = (ok reply, some (record s { jobs = jobs }))

abbrev pub counted : {R : Type 0} → (Impl R → ℕ) → Option (Impl R) → ℕ
counted f none = 0
counted f (some s) = f s

module _ ⦃k : Kernel⦄ {R : Type 0} where
  -- The last section of a creation.
  abbrev pub published_session :
      Impl R → Option (Result SessionId × Sessions) → Reply R (Result SessionId)
  published_session s none = ended
  published_session s (some (reply, after)) =
      (ok reply, some (record s { sessions = after; creating = s.creating - 1 }))

  abbrev pub compiled : Impl R → Outcome Raised (Option Status) → Reply R (Result SessionId)
  compiled s (err raised) = (err raised, step fails s)
  compiled s (ok (some status)) = (ok (err status), step fails s)
  compiled s (ok none) = published_session s (publish_session s.sessions)

  -- A creation behind the sections of others.
  abbrev pub resumed : Outcome Raised (Option Status) → Option (Impl R) → Reply R (Result SessionId)
  resumed c none = ended
  resumed c (some later) = compiled later c

  abbrev pub reserved :
      Environment R → WorkflowDocument → Impl R → Result Sessions → Reply R (Result SessionId)
  reserved env document s (err status) = (ok (err status), some s)
  reserved env document s (ok after) =
      let held = record s { sessions = after; creating = s.creating + 1 } in
      resumed (env.compile document) (run (env.while_compiling held) held)

  unfoldable pub create_session :
      Environment R → WorkflowDocument → Impl R → Reply R (Result SessionId)
  create_session env document s = reserved env document s (reserve s.sessions)

  -- `settle_close_records` on the records that the close detaches, and the wait for the running.
  abbrev pub settling : Environment R → ℕ → Impl R → List (Event R)
  settling env i s =
      let taken = (detach (own_session i s) s.jobs).0 in
      detaches i ∷ map settles_queued taken.0
      ++ map settles_running taken.1
      ++ env.while_waiting i s

  abbrev pub closed : ℕ → Option (Impl R) → Reply R Status
  closed i none = ended
  closed i (some s) = (ok success, step (finishes i) s)

  abbrev pub close_begun : Environment R → SessionId → Impl R → Option Raised → Reply R Status
  close_begun env id s (some raised) = (err raised, step (reopens id.value) s)
  close_begun env id s none = closed id.value (run (settling env id.value s) s)

  abbrev pub begun : Environment R → SessionId → Impl R → Result Sessions → Reply R Status
  begun env id s (err status) = (ok status, some s)
  begun env id s (ok after) =
      close_begun env id (record s { sessions = after; begun = id.value ∷ s.begun })
        (env.snapshot id)

  unfoldable pub close_session : Environment R → SessionId → Impl R → Reply R Status
  close_session env id s = begun env id s (begin_close id s.sessions)

module _ ⦃k : Kernel⦄ {Value : Type 0} where
  -- The calls of `dispatch`.
  abbrev pub service_calls :
      Environment (ExecutionResult Value) → Calls (Option (Impl (ExecutionResult Value))) Value
  service_calls env = record {
    create_session = λ document. alive (create_session env document);
    close_session = λ id. alive (close_session env id);
    submit = λ id options. alive (λ s. with_jobs s (submit_to id options s.sessions s.jobs));
    status = λ id. alive (λ s. (ok (Registry.status id s.jobs), some s));
    cancel = λ id. alive (λ s. with_jobs s (cancel id s.jobs));
    result = λ id. alive (λ s. (ok (Registry.result id s.jobs), some s));
    release = λ id. alive (λ s. with_jobs s (release id s.jobs));
    session_count = counted (λ s. length s.sessions.sessions);
    size = counted (λ s. length s.jobs.jobs);
  }
