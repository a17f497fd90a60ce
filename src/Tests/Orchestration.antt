-- ===== src/Tests/Orchestration.antt =====
-- Jobs on sample schedules.
use photospider_daemon.Base.{
  ℕ, ◌≤◌, ◌≡◌, ◌≢◌, refl, true, false, List, [], ◌∷◌, ◌++◌, none, arith, All,
}
use photospider_daemon.Protocol.{succeeded, failed}
use photospider_daemon.Kernel.{Status}
use photospider_daemon.Orchestration.Job.{terminal, snapshot}
use photospider_daemon.Orchestration.Worker.{
  Answer, proceed, compile_ok, compile_failed, execute_ok, execute_failed, raised,
}
use photospider_daemon.Orchestration.Worker.Runs.{
  Event, works, cancels, closes, run, submitted, IsKernelEvent,
}
use photospider_daemon.Orchestration.Worker.Runs.Outcome.{read_result-run, IsAnswered}
use photospider_daemon.Orchestration.Worker.Runs.Refusal.{cancelled_failure}
use photospider_daemon.Orchestration.Worker.Runs.Cancellation.{run-cancelled, run-append-terminal}
use photospider_daemon.Orchestration.Worker.Runs.Progress.{fitting, run-fitting}
use photospider_daemon.Tests.Fixtures.{test_kernel, test_job, test_session, test_options}

-- A worker that has come to the execution.
abbrev started : List (Event ℕ)
started = works proceed ∷ works proceed ∷ works compile_ok ∷ works proceed ∷ []

-- And goes on to succeed.
abbrev succeeding : List (Event ℕ)
succeeding = works (execute_ok 42) ∷ works proceed ∷ []

abbrev finishing : List (Event ℕ)
finishing = started ++ succeeding

abbrev stray : List (Event ℕ)
stray = cancels ∷ closes ∷ works (raised 5 none) ∷ []

finishing-IsKernelEvent : All IsKernelEvent finishing
finishing-IsKernelEvent = _

-- A compilation that fails with `Cancelled`, as no client has asked for.
abbrev cancelled_status : Status
cancelled_status = record { code = test_kernel.cancelled; message = [] }

abbrev spoiling : List (Event ℕ)
spoiling =
    works proceed ∷ works proceed ∷ works (compile_failed cancelled_status) ∷ works proceed ∷ []

spoiled :
    cancelled_failure
      (snapshot (run spoiling (submitted ℕ test_job test_session test_options)).0).state
      (snapshot (run spoiling (submitted ℕ test_job test_session test_options)).0).outcome
    ≡ true
unfolding run submitted photospider_daemon.Orchestration.Worker.Runs.step
    photospider_daemon.Orchestration.Worker.worker_step
    photospider_daemon.Orchestration.Job.enter_running photospider_daemon.Orchestration.Job.new_job
    photospider_daemon.Orchestration.Job.finish_failure
spoiled = refl

read_result-run_example :
    IsAnswered
      (run finishing (submitted ℕ test_job test_session test_options)).0.state
      (run finishing (submitted ℕ test_job test_session test_options)).0
read_result-run_example =
    read_result-run test_job test_session test_options finishing finishing-IsKernelEvent

still_running :
    terminal (run started (submitted ℕ test_job test_session test_options)).0.state ≡ false
unfolding run submitted photospider_daemon.Orchestration.Worker.Runs.step
    photospider_daemon.Orchestration.Worker.worker_step
    photospider_daemon.Orchestration.Job.enter_running photospider_daemon.Orchestration.Job.new_job
still_running = refl

run-cancelled_example :
    ((run
        (started ++ cancels ∷ succeeding)
        (submitted ℕ test_job test_session test_options)).0.state
      ≢ succeeded)
    × ((run
          (started ++ cancels ∷ succeeding)
          (submitted ℕ test_job test_session test_options)).0.state
        ≢ failed)
run-cancelled_example =
    run-cancelled test_job test_session test_options started succeeding _ _ still_running

done : terminal (run finishing (submitted ℕ test_job test_session test_options)).0.state ≡ true
unfolding run submitted photospider_daemon.Orchestration.Worker.Runs.step
    photospider_daemon.Orchestration.Worker.worker_step
    photospider_daemon.Orchestration.Job.enter_running photospider_daemon.Orchestration.Job.new_job
    photospider_daemon.Orchestration.Job.publish_result
done = refl

run-append-terminal_example :
    run (finishing ++ stray) (submitted ℕ test_job test_session test_options)
    ≡ run finishing (submitted ℕ test_job test_session test_options)
run-append-terminal_example =
    run-append-terminal test_job test_session test_options finishing stray finishing-IsKernelEvent
      done

six_answers : fitting finishing (submitted ℕ test_job test_session test_options) ≡ 6
unfolding fitting submitted photospider_daemon.Orchestration.Worker.Runs.Progress.fits
    photospider_daemon.Orchestration.Worker.Runs.step
    photospider_daemon.Orchestration.Worker.worker_step
    photospider_daemon.Orchestration.Job.enter_running photospider_daemon.Orchestration.Job.new_job
six_answers = refl

answered : 6 ≤ fitting finishing (submitted ℕ test_job test_session test_options)
answered = omega (arith, six_answers)

run-fitting_example :
    terminal (run finishing (submitted ℕ test_job test_session test_options)).0.state ≡ true
run-fitting_example =
    run-fitting test_job test_session test_options finishing finishing-IsKernelEvent answered
