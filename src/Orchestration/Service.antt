-- ===== src/Orchestration/Service.antt =====
-- `Service::Impl` of src/lib/orchestration/service.cpp: the sessions and the jobs together. An event
-- is one critical section of some thread, or a worker's act on a record.
pub mod Housing
pub mod Events
pub mod Runs
pub mod Calls
use photospider_daemon.Base.{
  ℕ, ◌+◌, ◌-◌, ◌==◌, Bool, List, [], ◌∷◌, Option, none, some, if◌then◌else◌,
}
use photospider_daemon.Base.IdSets.{member}
use photospider_daemon.Base.Outcome.{ok, err}
use photospider_daemon.Kernel.{Kernel, Result}
use photospider_daemon.Protocol.{SessionId, JobId, JobSubmitOptions}
use photospider_daemon.Orchestration.Job.{JobRecord, settle_queued, settle_running}
use photospider_daemon.Orchestration.Worker.{Answer, Phase, worker_step}
use photospider_daemon.Orchestration.Registry.{Registry, cancel, release, detach, pop, work}
use photospider_daemon.Orchestration.Registry.Invariant.{empty}
use photospider_daemon.Orchestration.Sessions.{
  Sessions, roll_back, finalize_close, reopen, reserve, publish_session, submit_to, begin_close,
}
use photospider_daemon.Orchestration.Sessions.Steps.{without, start}

-- `creating` counts the reservations of creations in flight. The closes in flight stand before the
-- detaching of their jobs (`begun`) or behind it (`detached`).
pub record Impl (R : Type 0) : Type 0 where
  pub sessions : Sessions
  pub jobs : Registry R
  pub creating : ℕ
  pub begun : List ℕ
  pub detached : List ℕ

-- The sections of `create_session` (`reserves`, `fails`, `publishes`), of `submit` and of
-- `close_session` (`begins`, then `detaches` or, where its snapshot throws, `reopens`, then
-- `finishes`), the calls on a job, and what workers and settling closes do to a record.
pub data Event (R : Type 0) : Type 0 where
  reserves fails publishes pops : Event R
  submits : SessionId → JobSubmitOptions → Event R
  begins : SessionId → Event R
  detaches reopens finishes : ℕ → Event R
  cancels releases : JobId → Event R
  works : ℕ → Answer R → Phase R → Event R
  settles_queued settles_running : ℕ → Event R

module _ {R : Type 0} where
  abbrev pub own_session : ℕ → Impl R → SessionId
  own_session i s = record { instance_id = s.sessions.instance_id; value = i }

  abbrev pub with_failed : Impl R → Option Sessions → Option (Impl R)
  with_failed s none = none
  with_failed s (some after) = some (record s { sessions = after; creating = s.creating - 1 })

  abbrev pub with_published : {A : Type 0} → Impl R → Option (A × Sessions) → Option (Impl R)
  with_published s none = none
  with_published s (some (reply, after)) =
      some (record s { sessions = after; creating = s.creating - 1 })

  abbrev pub with_finished : ℕ → Impl R → Option Sessions → Option (Impl R)
  with_finished i s none = none
  with_finished i s (some after) =
      some (record s { sessions = after; detached = without i s.detached })

  abbrev pub with_popped : Impl R → Option (ℕ × Registry R) → Impl R
  with_popped s none = s
  with_popped s (some (i, after)) = record s { jobs = after }

module _ ⦃k : Kernel⦄ {R : Type 0} where
  abbrev pub with_reserved : Impl R → Result Sessions → Impl R
  with_reserved s (ok after) = record s { sessions = after; creating = s.creating + 1 }
  with_reserved s (err status) = s

  abbrev pub with_begun : ℕ → Impl R → Result Sessions → Impl R
  with_begun i s (ok after) = record s { sessions = after; begun = i ∷ s.begun }
  with_begun i s (err status) = s

  -- One event; `none` is `std::terminate`. A section of a creation or a close that
  -- is not in flight does nothing.
  unfoldable pub step : Event R → Impl R → Option (Impl R)
  step reserves s = some (with_reserved s (reserve s.sessions))
  step fails s = if s.creating == 0 then some s else with_failed s (roll_back s.sessions)
  step publishes s =
      if s.creating == 0 then some s else with_published s (publish_session s.sessions)
  step pops s = some (with_popped s (pop s.jobs))
  step (submits id options) s =
      some (record s { jobs = (submit_to id options s.sessions s.jobs).1 })
  step (begins id) s = some (with_begun id.value s (begin_close id s.sessions))
  step (detaches i) s =
      if member i s.begun
      then some (record s {
        jobs = (detach (own_session i s) s.jobs).1;
        begun = without i s.begun;
        detached = i ∷ s.detached;
      })
      else some s
  step (reopens i) s =
      if member i s.begun
      then some (record s { sessions = reopen i s.sessions; begun = without i s.begun })
      else some s
  step (finishes i) s =
      if member i s.detached then with_finished i s (finalize_close i s.sessions) else some s
  step (cancels id) s = some (record s { jobs = (cancel id s.jobs).1 })
  step (releases id) s = some (record s { jobs = (release id s.jobs).1 })
  step (works i answer phase) s =
      some (record s { jobs = work i (λ r. (worker_step answer r phase).0) s.jobs })
  step (settles_queued i) s = some (record s { jobs = work i settle_queued s.jobs })
  step (settles_running i) s = some (record s { jobs = work i settle_running s.jobs })

  -- The events one after the other, up to a `std::terminate`.
  unfoldable pub run : List (Event R) → Impl R → Option (Impl R)
  run [] s = some s
  run (event ∷ events) s = elim (step event s) [ none ↦ none | some next ↦ run events next ]

  -- A service as its constructor leaves it.
  abbrev pub fresh :
      (maximum_sessions maximum_jobs instance_id : ℕ) → (ℕ → Bool) → (ℕ → JobRecord R) → Impl R
  fresh maximum_sessions maximum_jobs instance_id closing records = record {
    sessions = (start maximum_sessions instance_id closing).registry;
    jobs = empty maximum_jobs instance_id records;
    creating = 0;
    begun = [];
    detached = [];
  }
