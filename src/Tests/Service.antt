-- ===== src/Tests/Service.antt =====
-- The service on a session with two jobs that closes while a worker runs one of them.
use photospider_daemon.Base.{ℕ, ◌≡◌, refl, true, false, List, [], ◌∷◌, Option, none, some}
use photospider_daemon.Orchestration.Job.{JobRecord, new_job}
use photospider_daemon.Orchestration.Worker.{proceed, popped}
use photospider_daemon.Orchestration.Service.{
  Impl, Event, reserves, publishes, submits, pops, works, begins, detaches, settles_queued,
  settles_running, finishes, run, fresh,
}
use photospider_daemon.Base.Outcome.{ok}
use photospider_daemon.Protocol.{session_close}
use photospider_daemon.Execution.{ExecutionResult, ValueParts}
use photospider_daemon.Codec.Request.{Request, blank_request}
use photospider_daemon.Orchestration.Dispatch.{Service, route, dispatch}
use photospider_daemon.Orchestration.Service.Calls.{Environment, close_session, service_calls}
use photospider_daemon.Orchestration.Service.Calls.Gone.{Gone}
use photospider_daemon.Orchestration.Service.Calls.Closed.{dispatch-Gone}
use photospider_daemon.Orchestration.Service.Housing.{Housed}
use photospider_daemon.Orchestration.Service.Runs.{run-fresh-Housed}
use photospider_daemon.Orchestration.Registry.{Registry}
use photospider_daemon.Orchestration.Registry.Invariant.{empty}
use photospider_daemon.Orchestration.Registry.Reach.{here}
use photospider_daemon.Orchestration.Registry.Stop.{
  begin_stop, cancel_retained, IsStopping, Refuses, begin_stop-Refuses,
}
use photospider_daemon.Tests.Fixtures.{test_kernel, test_session, test_options}

abbrev sample_records : ℕ → JobRecord ℕ
sample_records i = new_job (record { instance_id = 5; value = i }) test_session test_options

abbrev closing_events : List (Event ℕ)
closing_events =
    reserves
    ∷ publishes
    ∷ submits test_session test_options
    ∷ submits test_session test_options
    ∷ pops
    ∷ works 1 proceed popped
    ∷ begins test_session
    ∷ submits test_session test_options
    ∷ detaches 1
    ∷ settles_queued 2
    ∷ settles_running 1
    ∷ finishes 1
    ∷ []

run-fresh-Housed_example : Housed (run closing_events (fresh 2 4 5 (λ i. false) sample_records))
run-fresh-Housed_example = run-fresh-Housed 2 4 5 (λ i. false) sample_records closing_events

-- A registry with one queued job.
abbrev one_job : Registry ℕ
one_job = record (empty 4 5 sample_records) { jobs = 1 ∷ []; queue = 1 ∷ []; next_id = 2 }

abbrev one_job_stopping : Registry ℕ
one_job_stopping = record one_job { stopping = true; records = cancel_retained one_job }

one_job_stopped : begin_stop one_job ≡ some one_job_stopping
unfolding begin_stop
one_job_stopped = refl

begin_stop-Refuses_example : IsStopping one_job one_job_stopping × Refuses one_job_stopping
begin_stop-Refuses_example =
    begin_stop-Refuses one_job one_job_stopping [] (one_job_stopping, []) one_job_stopped here

-- A service with one session, a queued job and nobody else at work.
abbrev JobOutcome : Type 0
JobOutcome = ExecutionResult ValueParts

abbrev alone : Environment JobOutcome
alone = record {
  compile = λ document. ok none;
  snapshot = λ id. none;
  while_compiling = λ s. [];
  while_waiting = λ i s. [];
}

abbrev opening_events : List (Event JobOutcome)
opening_events = reserves ∷ publishes ∷ submits test_session test_options ∷ []

abbrev blank_records : ℕ → JobRecord JobOutcome
blank_records i = new_job (record { instance_id = 5; value = i }) test_session test_options

abbrev open_service : Service (Option (Impl JobOutcome))
open_service = record {
  inner = run opening_events (fresh 2 4 5 (λ i. false) blank_records);
  instance_id = 5;
  service_version = [];
  maximum_concurrency = 1;
  maximum_sessions = 2;
  shutting_down = false;
}

abbrev close_request : Request
close_request = record (blank_request 9 session_close) { session_id = test_session }

close_answered :
    test_kernel.status_ok
      (dispatch ⦃calls = service_calls alone⦄ none true close_request open_service).0.status
    ≡ true
unfolding dispatch route close_session run photospider_daemon.Orchestration.Service.step
    photospider_daemon.Orchestration.Sessions.reserve
    photospider_daemon.Orchestration.Sessions.publish_session
    photospider_daemon.Orchestration.Sessions.begin_close
    photospider_daemon.Orchestration.Sessions.is_open photospider_daemon.Base.IdSets.store
    photospider_daemon.Orchestration.Registry.detach photospider_daemon.Base.IdSets.keep
    photospider_daemon.Orchestration.Sessions.submit_to
    photospider_daemon.Orchestration.Registry.submit photospider_daemon.Orchestration.Registry.admit
    photospider_daemon.Orchestration.Registry.publish
    photospider_daemon.Orchestration.Registry.belongs new_job
close_answered = refl

dispatch-Gone_example :
    Gone 1 (dispatch ⦃calls = service_calls alone⦄ none true close_request open_service).1.inner
dispatch-Gone_example =
    dispatch-Gone alone (λ i s. _) none true close_request open_service
      (run-fresh-Housed 2 4 5 (λ i. false) blank_records opening_events) refl close_answered
