-- ===== src/Tests/Sessions.antt =====
-- Two creations at once, a third beyond the bound, and a close.
use photospider_daemon.Base.{ℕ, ◌≡◌, refl, true, false, List, [], ◌∷◌, some, arith}
use photospider_daemon.Base.IdSets.{store}
use photospider_daemon.Base.Outcome.{ok, err}
use photospider_daemon.Orchestration.Job.{new_job}
use photospider_daemon.Orchestration.Registry.{Registry}
use photospider_daemon.Orchestration.Registry.Invariant.{empty}
use photospider_daemon.Orchestration.Sessions.{Sessions, begin_close, submit_to, no_session_status}
use photospider_daemon.Orchestration.Sessions.Steps.{
  Event, reserves, fails, publishes, begins, finishes, State, start, run, IsBounded, GoesOn,
}
use photospider_daemon.Orchestration.Sessions.Capacity.{run-start-GoesOn}
use photospider_daemon.Orchestration.Sessions.Closing.{begin_close-submit_to}
use photospider_daemon.Tests.Fixtures.{test_kernel, test_session, test_options}

abbrev schedule : List Event
schedule =
    reserves ∷ reserves ∷ reserves ∷ publishes ∷ begins test_session ∷ fails ∷ finishes 1 ∷ []

run-start-GoesOn_example : GoesOn (run schedule (start 2 5 (λ i. false)))
run-start-GoesOn_example = run-start-GoesOn 2 5 (λ i. false) schedule

abbrev one_session : Sessions
one_session = record {
  maximum_sessions = 2;
  instance_id = 5;
  sessions = 1 ∷ [];
  closing = λ i. false;
  pending = 0;
  next_session_id = 2;
}

abbrev closing_one : Sessions
closing_one = record one_session { closing = store 1 true (λ i. false) }

close_begun : begin_close test_session one_session ≡ ok closing_one
unfolding begin_close photospider_daemon.Orchestration.Sessions.is_open
close_begun = refl

abbrev no_jobs : Registry ℕ
no_jobs = empty 4 5 (λ i. new_job (record { instance_id = 5; value = i }) test_session test_options)

abbrev one_state : State
one_state = record { registry = one_session; creating = 0; closers = [] }

one_state-IsBounded : IsBounded one_state
one_state-IsBounded = record {
  capacity = omega arith;
  reserved = refl;
  next_range = omega arith;
  issued = λ i h. ground arith;
  closed = λ i h. ground arith;
}

-- A creation, and the finish of the close.
abbrev later_events : List Event
later_events = reserves ∷ publishes ∷ finishes 1 ∷ begins test_session ∷ []

begin_close-submit_to_example :
    (t : State) × (run (begins test_session ∷ later_events) one_state ≡ some t)
    × (submit_to test_session test_options t.registry no_jobs ≡ (err no_session_status, no_jobs))
    × (begin_close test_session t.registry ≡ err no_session_status)
begin_close-submit_to_example =
    begin_close-submit_to test_session test_options one_state closing_one later_events no_jobs
      one_state-IsBounded close_begun (refl, (refl, (refl, (refl, _))))
