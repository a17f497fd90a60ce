-- ===== src/Tests/Registry.antt =====
-- The registry on a few jobs.
use photospider_daemon.Base.{
  ℕ, ◌≡◌, ◌≢◌, refl, ◌<◌, true, false, [], ◌∷◌, length, none, some, arith,
}
use photospider_daemon.Base.Outcome.{ok}
use photospider_daemon.Kernel.{success}
use photospider_daemon.Protocol.{JobId, queued, succeeded}
use photospider_daemon.Orchestration.Job.{new_job, terminal}
use photospider_daemon.Orchestration.Registry.{
  Registry, fresh_id, publish, submit, known, find, status, release, belongs, detach,
}
use photospider_daemon.Orchestration.Registry.Invariant.{IsWellFormed, empty}
use photospider_daemon.Orchestration.Registry.Released.{Reach-IsMissing}
use photospider_daemon.Orchestration.Registry.Lookup.{IsMissing, status-submit, detach-IsMissing}
use photospider_daemon.Orchestration.Registry.Reach.{
  submits, Reach, here, then, Reach-IsWellFormed, submit-publish,
}
use photospider_daemon.Tests.Fixtures.{test_kernel, test_session, test_options}

abbrev idle : Registry ℕ
idle = empty 4 5 (λ i. new_job (record { instance_id = 5; value = i }) test_session test_options)

abbrev first_id : JobId
first_id = record { instance_id = 5; value = 1 }

abbrev busy : Registry ℕ
busy = (submit test_session test_options idle).1

first_submitted : (submit test_session test_options idle).0 ≡ ok first_id
unfolding submit photospider_daemon.Orchestration.Registry.admit
first_submitted = refl

status-submit_example :
    (find first_id idle ≡ none)
    × (status first_id (submit test_session test_options idle).1
        ≡ ok (record {
          job_id = first_id;
          session_id = test_session;
          state = queued;
          outcome = success;
        }))
    × ((other : JobId)
        → other.value ≢ 1
        → find other (submit test_session test_options idle).1 ≡ find other idle)
status-submit_example = status-submit test_session test_options idle first_id first_submitted

busy-Reach : Reach (idle, []) (busy, [])
busy-Reach = then (idle, []) (busy, []) here (submits test_session test_options idle [])

Reach-IsWellFormed_example : IsWellFormed busy []
Reach-IsWellFormed_example =
    Reach-IsWellFormed 4 5
      (λ i. new_job (record { instance_id = 5; value = i }) test_session test_options) (busy, [])
      busy-Reach

busy-IsWellFormed : IsWellFormed busy []
busy-IsWellFormed =
    Reach-IsWellFormed 4 5
      (λ i. new_job (record { instance_id = 5; value = i }) test_session test_options) (busy, [])
      busy-Reach

busy-running : busy.stopping ≡ false
unfolding submit photospider_daemon.Orchestration.Registry.admit publish
busy-running = refl

busy-room : length busy.jobs < busy.maximum_jobs
unfolding submit photospider_daemon.Orchestration.Registry.admit publish
busy-room = omega arith

busy-next : busy.next_id ≡ 2
unfolding submit photospider_daemon.Orchestration.Registry.admit publish
busy-next = refl

submit-publish_example :
    submit test_session test_options busy
    ≡ (ok (fresh_id busy), publish test_session test_options busy)
submit-publish_example =
    submit-publish test_session test_options busy [] busy-IsWellFormed busy-running busy-room
      (λ e. omega (arith, busy-next))

-- One finished job.
abbrev done : Registry ℕ
done = record idle {
  records = λ i.
      record (new_job (record { instance_id = 5; value = i }) test_session test_options) {
        state = succeeded;
        result = some 42;
      };
  jobs = 1 ∷ [];
  next_id = 2;
}

first_released : (release first_id done).0 ≡ success
unfolding release known
first_released = refl

done-IsWellFormed : IsWellFormed done []
unfolding new_job
done-IsWellFormed = record {
  bounded = omega arith;
  next_range = omega arith;
  issued = λ i h. ground arith;
  own = λ i h. refl;
  retained = λ i h. ground arith;
  waiting = λ i h. ground arith;
  distinct = _;
  apart = λ i h. ground arith;
  known_held = λ i h. ground arith;
}

-- Behind the release another job is submitted.
abbrev resubmitted : Registry ℕ
resubmitted = (submit test_session test_options (release first_id done).1).1

resubmitted-Reach : Reach ((release first_id done).1, []) (resubmitted, [])
resubmitted-Reach =
    then ((release first_id done).1, []) (resubmitted, []) here
      (submits test_session test_options (release first_id done).1 [])

Reach-IsMissing_example : (terminal (done.records 1).state ≡ true) × IsMissing first_id resubmitted
Reach-IsMissing_example =
    Reach-IsMissing first_id done [] (resubmitted, []) done-IsWellFormed first_released
      resubmitted-Reach

first_belongs : belongs test_session (done.records 1) ≡ true
unfolding belongs new_job
first_belongs = refl

detach-IsMissing_example : IsMissing first_id (detach test_session done).1
detach-IsMissing_example = detach-IsMissing test_session first_id done first_belongs
