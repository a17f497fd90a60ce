-- ===== src/Orchestration/Registry/Reach.antt =====
-- The registries that some sequence of calls, workers and closes leads to.
use photospider_daemon.Base.{
  ℕ, ◌≡◌, ◌≢◌, refl, ◌<◌, Bool, true, false, not, ◌&&◌, ◌||◌, List, [], ◌∷◌, ◌++◌, length, some,
  arith,
}
use photospider_daemon.Base.IdSets.{
  member, keep, member-append_list, member-keep, length-keep, Distinct-keep,
}
use photospider_daemon.Base.Outcome.{ok}
use photospider_daemon.Kernel.{Kernel}
use photospider_daemon.Protocol.{SessionId, JobId, JobSubmitOptions}
use photospider_daemon.Orchestration.Job.{
  JobRecord, enter_running, finish_failure, finish_cancelled, finish_failure_safely, publish_result,
  settle_queued, settle_running,
}
use photospider_daemon.Orchestration.Worker.{Answer, Phase, worker_step}
use photospider_daemon.Orchestration.Registry.{
  Registry, fresh_id, publish, admit, submit, cancel, release, belongs, detach, pop, work,
}
use photospider_daemon.Orchestration.Registry.Invariant.{
  IsWellFormed, empty, empty-IsWellFormed, work-IsWellFormed, pop-IsWellFormed,
}
use photospider_daemon.Orchestration.Registry.Calls.{
  submit-IsWellFormed, cancel-IsWellFormed, release-IsWellFormed, fresh-jobs,
}

module _ {R : Type 0} where
  -- The records that a close goes on to settle.
  abbrev pub detached : SessionId → Registry R → List ℕ
  detached session g = (detach session g).0.0 ++ (detach session g).0.1

  module _ (session : SessionId) (g : Registry R) (held : List ℕ) (w : IsWellFormed g held) where
    abbrev mine : ℕ → Bool
    mine i = belongs session (g.records i)

    abbrev taken : List ℕ
    taken = keep mine g.queue

    abbrev popped : List ℕ
    popped = keep (λ i. not (member i taken)) g.jobs

    left-queue :
        (i : ℕ) → member i (keep (λ j. not (mine j)) g.queue) ≡ (member i g.queue && not (mine i))
    left-queue i = member-keep (λ j. not (mine j)) i g.queue

    left-taken : (i : ℕ) → member i taken ≡ (member i g.queue && mine i)
    left-taken i = member-keep mine i g.queue

    left-popped : (i : ℕ) → member i popped ≡ (member i g.jobs && not (member i taken))
    left-popped i = member-keep (λ j. not (member j taken)) i g.jobs

    left-jobs :
        (i : ℕ) → member i (keep (λ j. not (mine j)) popped) ≡ (member i popped && not (mine i))
    left-jobs i = member-keep (λ j. not (mine j)) i popped

    left-running : (i : ℕ) → member i (keep mine popped) ≡ (member i popped && mine i)
    left-running i = member-keep mine i popped

    member-detached :
        (i : ℕ)
        → member i (detached session g ++ held)
          ≡ ((member i taken || member i (keep mine popped)) || member i held)
    unfolding detach
    member-detached i =
        rw
          (
            member-append_list i (taken ++ keep mine popped) held,
            member-append_list i taken (keep mine popped),
          )
          refl

    detach-IsWellFormed : IsWellFormed (detach session g).1 (detached session g ++ held)
    unfolding detach
    detach-IsWellFormed = record {
      bounded = omega (
        arith,
        w.bounded,
        length-keep (λ j. not (mine j)) popped,
        length-keep (λ i. not (member i taken)) g.jobs,
      );
      next_range = w.next_range;
      issued = λ i h. w.issued i (ground (arith, left-jobs i, left-popped i));
      own = λ i h. w.own i (ground (arith, left-jobs i, left-popped i));
      retained = λ i h.
          ground (arith, left-queue i, w.retained i, left-jobs i, left-popped i, left-taken i);
      waiting = λ i h. w.waiting i (ground (arith, left-queue i));
      distinct = Distinct-keep (λ j. not (mine j)) g.queue w.distinct;
      apart = λ i h.
          ground (arith, member-detached i, left-queue i, left-taken i, left-running i, w.apart i);
      known_held = λ i h. ground (
        arith,
        member-detached i,
        left-taken i,
        left-running i,
        left-popped i,
        w.known_held i,
        w.retained i,
        w.issued i,
      );
    }

module _ ⦃k : Kernel⦄ {R : Type 0} where
  worker_step-id :
      (answer : Answer R) (r : JobRecord R) (phase : Phase R)
      → (worker_step answer r phase).0.id ≡ r.id
  unfolding worker_step enter_running finish_failure finish_cancelled finish_failure_safely
      publish_result
  worker_step-id answer r phase = ground arith

  settle_queued-id : (r : JobRecord R) → (settle_queued r).id ≡ r.id
  unfolding settle_queued
  settle_queued-id r = refl

  settle_running-id : (r : JobRecord R) → (settle_running r).id ≡ r.id
  unfolding settle_running
  settle_running-id r = ground arith

  -- One critical section of some thread: a call of a client, the first section of a session's
  -- close, a worker's pop, or a section of a worker or a close on a record that it holds.
  pub data Step : Registry R × List ℕ → Registry R × List ℕ → Type 0 where
    submits :
        (session : SessionId) (options : JobSubmitOptions) (g : Registry R) (held : List ℕ)
        → Step (g, held) ((submit session options g).1, held)
    cancels : (id : JobId) (g : Registry R) (held : List ℕ) → Step (g, held) ((cancel id g).1, held)
    releases :
        (id : JobId) (g : Registry R) (held : List ℕ) → Step (g, held) ((release id g).1, held)
    detaches :
        (session : SessionId) (g : Registry R) (held : List ℕ)
        → Step (g, held) ((detach session g).1, detached session g ++ held)
    pops :
        (i : ℕ) (g after : Registry R) (held : List ℕ)
        → pop g ≡ some (i, after)
        → Step (g, held) (after, i ∷ held)
    works :
        (i : ℕ) (answer : Answer R) (phase : Phase R) (g : Registry R) (held : List ℕ)
        → member i held ≡ true
        → Step (g, held) (work i (λ r. (worker_step answer r phase).0) g, held)
    settles_queued :
        (i : ℕ) (g : Registry R) (held : List ℕ)
        → member i held ≡ true
        → Step (g, held) (work i settle_queued g, held)
    settles_running :
        (i : ℕ) (g : Registry R) (held : List ℕ)
        → member i held ≡ true
        → Step (g, held) (work i settle_running g, held)

  pub data Reach (start : Registry R × List ℕ) : Registry R × List ℕ → Type 0 where
    here : Reach start start
    then : (a b : Registry R × List ℕ) → Reach start a → Step a b → Reach start b

  Step-IsWellFormed :
      (a b : Registry R × List ℕ) → Step a b → IsWellFormed a.0 a.1 → IsWellFormed b.0 b.1
  Step-IsWellFormed _ _ (submits session options g held) w =
      submit-IsWellFormed g held w session options
  Step-IsWellFormed _ _ (cancels id g held) w = cancel-IsWellFormed g held w id
  Step-IsWellFormed _ _ (releases id g held) w = release-IsWellFormed g held w id
  Step-IsWellFormed _ _ (detaches session g held) w = detach-IsWellFormed session g held w
  Step-IsWellFormed _ _ (pops i g after held e) w = pop-IsWellFormed g after i held e w
  Step-IsWellFormed _ _ (works i answer phase g held shared) w =
      work-IsWellFormed i (λ r. (worker_step answer r phase).0) g held shared
        (λ r. worker_step-id answer r phase) w
  Step-IsWellFormed _ _ (settles_queued i g held shared) w =
      work-IsWellFormed i settle_queued g held shared settle_queued-id w
  Step-IsWellFormed _ _ (settles_running i g held shared) w =
      work-IsWellFormed i settle_running g held shared settle_running-id w

  -- Whatever calls, workers and closes have done since the start, the registry keeps at most
  -- `maximum_jobs` jobs; each has its own id, not zero and not to be given out again; and the queue
  -- has no id twice and only ids of retained jobs that are still queued, none of which a worker or
  -- a close holds.
  pub Reach-IsWellFormed :
      (maximum_jobs instance_id : ℕ) (records : ℕ → JobRecord R) (b : Registry R × List ℕ)
      → Reach (empty maximum_jobs instance_id records, []) b
      → IsWellFormed b.0 b.1
  Reach-IsWellFormed maximum_jobs instance_id records _ here =
      empty-IsWellFormed maximum_jobs instance_id records
  Reach-IsWellFormed maximum_jobs instance_id records _ (then a b path step) =
      Step-IsWellFormed a b step (Reach-IsWellFormed maximum_jobs instance_id records a path)

  -- In a well-formed registry that is not stopping, has room and has an id left, a submission
  -- is admitted under the next id; the answer that an id was duplicated never occurs.
  pub submit-publish :
      (session : SessionId) (options : JobSubmitOptions) (g : Registry R) (held : List ℕ)
      → IsWellFormed g held
      → g.stopping ≡ false
      → length g.jobs < g.maximum_jobs
      → g.next_id ≢ 0
      → submit session options g ≡ (ok (fresh_id g), publish session options g)
  unfolding submit admit
  submit-publish session options g held w on room left = ground (arith, fresh-jobs g held w)
