-- ===== src/Orchestration/Service/Runs.antt =====
-- Every event of the service keeps its jobs in their sessions.
use photospider_daemon.Base.{ℕ, refl, Bool, List, [], ◌∷◌, Option, none, some}
use photospider_daemon.Kernel.{Kernel}
use photospider_daemon.Orchestration.Job.{JobRecord, settle_queued, settle_running}
use photospider_daemon.Orchestration.Worker.{worker_step}
use photospider_daemon.Orchestration.Service.{
  Impl, Event, reserves, fails, publishes, pops, submits, begins, detaches, reopens, finishes,
  cancels, releases, works, settles_queued, settles_running, step, run, fresh,
}
use photospider_daemon.Orchestration.Service.Housing.{IsHoused, Housed, work-IsHoused}
use photospider_daemon.Orchestration.Service.Events.{
  worker_step-session, settle_queued-session, settle_running-session, cancels-Housed,
  releases-Housed, pops-Housed, begins-Housed, reserves-Housed, fails-Housed, publishes-Housed,
  detaches-Housed, reopens-Housed, finishes-Housed, submits-Housed,
}

module _ ⦃k : Kernel⦄ {R : Type 0} where
  pub step-Housed : (event : Event R) (s : Impl R) → IsHoused s → Housed (step event s)
  unfolding step
  step-Housed reserves s h = reserves-Housed s h
  step-Housed fails s h = fails-Housed s h
  step-Housed publishes s h = publishes-Housed s h
  step-Housed pops s h = pops-Housed s h
  step-Housed (submits id options) s h = submits-Housed s h id options
  step-Housed (begins id) s h = begins-Housed s h id
  step-Housed (detaches i) s h = detaches-Housed s h i
  step-Housed (reopens i) s h = reopens-Housed s h i
  step-Housed (finishes i) s h = finishes-Housed s h i
  step-Housed (cancels id) s h = cancels-Housed s h id
  step-Housed (releases id) s h = releases-Housed s h id
  step-Housed (works i answer phase) s h =
      work-IsHoused s i (λ r. (worker_step answer r phase).0)
        (λ r. worker_step-session answer r phase) h
  step-Housed (settles_queued i) s h = work-IsHoused s i settle_queued settle_queued-session h
  step-Housed (settles_running i) s h = work-IsHoused s i settle_running settle_running-session h

  onward-Housed :
      (events : List (Event R)) (next : Option (Impl R))
      → ((s : Impl R) → IsHoused s → Housed (run events s))
      → Housed next
      → Housed (elim next [ none ↦ none | some s ↦ run events s ])
  onward-Housed events none later h = h
  onward-Housed events (some s) later h = later s h

  pub run-Housed : (events : List (Event R)) (s : Impl R) → IsHoused s → Housed (run events s)
  unfolding run
  run-Housed [] s h = h
  run-Housed (event ∷ events) s h =
      onward-Housed events (step event s) (run-Housed events) (step-Housed event s h)

  -- Whatever sections of creations, closes, submissions, job calls and workers have run since the
  -- service was made, in any order, `std::terminate` is not reached, and every retained job belongs
  -- to a session of this process that is still in the map. A session that is closing stays in the
  -- map; once its close has detached its jobs it retains none, and none is admitted to it.
  pub run-fresh-Housed :
      (maximum_sessions maximum_jobs instance_id : ℕ) (closing : ℕ → Bool)
      (records : ℕ → JobRecord R) (events : List (Event R))
      → Housed (run events (fresh maximum_sessions maximum_jobs instance_id closing records))
  run-fresh-Housed maximum_sessions maximum_jobs instance_id closing records events =
      run-Housed events (fresh maximum_sessions maximum_jobs instance_id closing records) (record {
        reserved = refl;
        native = λ j m. cc;
        housed = λ j m. cc;
        closing_begun = λ i m. cc;
        closing_detached = λ i m. cc;
        vacant = λ i j d m. cc;
      })
