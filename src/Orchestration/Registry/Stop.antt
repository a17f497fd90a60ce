-- ===== src/Orchestration/Registry/Stop.antt =====
-- `JobRegistry::stop` of src/lib/orchestration/service.cpp, up to the joins and behind them.
use photospider_daemon.Base.{
  ℕ, ◌≡◌, refl, sym, ap, ◌∙◌, Bool, true, not, List, [], ◌==◌, ==_iff, if◌then◌else◌, Option, none,
  some, arith, Bool-cases, inl, inr,
}
use photospider_daemon.Base.IdSets.{member, keep, store, member-keep}
use photospider_daemon.Base.Outcome.{err}
use photospider_daemon.Kernel.{Kernel, failure}
use photospider_daemon.Base.{bytes_of}
use photospider_daemon.Protocol.{SessionId, JobId, JobSubmitOptions}
use photospider_daemon.Orchestration.Job.{
  JobRecord, cancel_job, enter_running, finish_failure, finish_cancelled, finish_failure_safely,
  publish_result, settle_queued, settle_running,
}
use photospider_daemon.Orchestration.Worker.{Answer, Phase, worker_step}
use photospider_daemon.Orchestration.Registry.{
  Registry, submit, cancel, release, belongs, detach, pop, work, known, find,
}
use photospider_daemon.Orchestration.Registry.Reach.{
  Step, submits, cancels, releases, detaches, pops, works, settles_queued, settles_running, Reach,
  here, then,
}

module _ {R : Type 0} where
  -- `cancellation.cancel()` on each retained record.
  unfoldable pub cancel_retained : Registry R → ℕ → JobRecord R
  cancel_retained g i =
      if member i g.jobs then record (g.records i) { cancel_requested = true } else g.records i

  -- The first section; `none` where another call has stopped the registry.
  unfoldable pub begin_stop : Registry R → Option (Registry R)
  begin_stop g =
      if g.stopping then none else some (record g { stopping = true; records = cancel_retained g })

  -- Behind the joins of the workers.
  unfoldable pub clear : Registry R → Registry R
  clear g = record g { queue = []; jobs = [] }

  -- What is kept between the two sections, where `start` is the registry that was stopped.
  pub record IsStopping (start : Registry R) (g : Registry R) : Type 0 where
    pub stopped : g.stopping ≡ true
    pub unissued : g.next_id ≡ start.next_id
    pub retained : (i : ℕ) → member i g.jobs ≡ true → member i start.jobs ≡ true
    pub cancelled : (i : ℕ) → member i start.jobs ≡ true → (g.records i).cancel_requested ≡ true

  work-IsStopping :
      (start g : Registry R) (i : ℕ) (section : JobRecord R → JobRecord R)
      → ((r : JobRecord R) → r.cancel_requested ≡ true → (section r).cancel_requested ≡ true)
      → IsStopping start g
      → IsStopping start (work i section g)
  unfolding work store
  work-IsStopping start g i section keeps h = record {
    stopped = h.stopped;
    unissued = h.unissued;
    retained = h.retained;
    cancelled = λ j m. elim (Bool-cases (j == i)) [
      | inl same ↦ rw same (
          keeps (g.records i) (
            ap (λ x. (g.records x).cancel_requested) (sym ((==_iff j i).0 same)) ∙ h.cancelled j m))
      | inr other ↦ rw other (h.cancelled j m)
    ];
  }

module _ ⦃k : Kernel⦄ {R : Type 0} where
  worker_step-cancel :
      (answer : Answer R) (phase : Phase R) (r : JobRecord R)
      → r.cancel_requested ≡ true
      → (worker_step answer r phase).0.cancel_requested ≡ true
  unfolding worker_step enter_running finish_failure finish_cancelled finish_failure_safely
      publish_result
  worker_step-cancel answer phase r e = ground arith

  settle_queued-cancel :
      (r : JobRecord R) → r.cancel_requested ≡ true → (settle_queued r).cancel_requested ≡ true
  unfolding settle_queued
  settle_queued-cancel r e = refl

  settle_running-cancel :
      (r : JobRecord R) → r.cancel_requested ≡ true → (settle_running r).cancel_requested ≡ true
  unfolding settle_running
  settle_running-cancel r e = ground (arith, e)

  pub Step-IsStopping :
      (start : Registry R) (a b : Registry R × List ℕ)
      → Step a b
      → IsStopping start a.0
      → IsStopping start b.0
  unfolding submit cancel cancel_job release detach pop store
  Step-IsStopping start _ _ (submits session options g held) h = simp h.stopped h
  Step-IsStopping start _ _ (cancels id g held) h = record {
    stopped = ground (arith, h.stopped);
    unissued = ground (arith, h.unissued);
    retained = λ i m. ground (arith, h.retained i);
    cancelled = λ i m. ground (arith, h.cancelled i m, h.cancelled id.value);
  }
  Step-IsStopping start _ _ (releases id g held) h = record {
    stopped = ground (arith, h.stopped);
    unissued = ground (arith, h.unissued);
    retained = λ i m. ground (arith, h.retained i, member-keep (λ j. not (j == id.value)) i g.jobs);
    cancelled = λ i m. ground (arith, h.cancelled i m);
  }
  Step-IsStopping start _ _ (detaches session g held) h =
      let mine : ℕ → Bool = λ i. belongs session (g.records i) in
      let taken = keep mine g.queue in
      record {
        stopped = h.stopped;
        unissued = h.unissued;
        retained = λ i m. h.retained i (
            ground (
              arith,
              member-keep (λ j. not (mine j)) i (keep (λ j. not (member j taken)) g.jobs),
              member-keep (λ j. not (member j taken)) i g.jobs,
            ));
        cancelled = h.cancelled;
      }
  Step-IsStopping start _ _ (pops i g after held e) h = absurd (ground (arith, e, h.stopped))
  Step-IsStopping start _ _ (works i answer phase g held shared) h =
      work-IsStopping start g i (λ r. (worker_step answer r phase).0)
        (λ r e. worker_step-cancel answer phase r e) h
  Step-IsStopping start _ _ (settles_queued i g held shared) h =
      work-IsStopping start g i settle_queued settle_queued-cancel h
  Step-IsStopping start _ _ (settles_running i g held shared) h =
      work-IsStopping start g i settle_running settle_running-cancel h

  Reach-IsStopping :
      (start : Registry R) (a b : Registry R × List ℕ)
      → Reach a b
      → IsStopping start a.0
      → IsStopping start b.0
  Reach-IsStopping start a _ here h = h
  Reach-IsStopping start a _ ((then) b c path step) h =
      Step-IsStopping start b c step (Reach-IsStopping start a b path h)

  begun-IsStopping : (g after : Registry R) → begin_stop g ≡ some after → IsStopping g after
  unfolding begin_stop cancel_retained
  begun-IsStopping g after e = record {
    stopped = ground (arith, e);
    unissued = ground (arith, e);
    retained = λ i m. ground (arith, e);
    cancelled = λ i m. ground (arith, e, m);
  }

  -- What a registry refuses between the two sections, and what the second one leaves.
  pub record Refuses (g : Registry R) : Type 0 where
    pub no_pop : pop g ≡ none
    pub no_second_stop : begin_stop g ≡ none
    pub no_submit :
        (session : SessionId) (options : JobSubmitOptions)
        → submit session options g
          ≡ (err (failure k.cancelled (bytes_of "daemon orchestration is stopping")), g)
    pub emptied : (id : JobId) → find id (clear g) ≡ none

  stopped-Refuses : (g : Registry R) → g.stopping ≡ true → Refuses g
  unfolding pop begin_stop submit find known clear
  stopped-Refuses g e = record {
    no_pop = simp e refl;
    no_second_stop = simp e refl;
    no_submit = λ session options. simp e refl;
    emptied = λ id. ground arith;
  }

  -- Once `stop` has begun, whatever the other threads do up to its second section: no worker pops a
  -- job and no submission is admitted, so no id is given out and no job is added; the cancellation
  -- of every job that was retained when it began stays requested; a second stop does nothing; and
  -- behind the second section no id is found.
  pub begin_stop-Refuses :
      (g after : Registry R) (held : List ℕ) (b : Registry R × List ℕ)
      → begin_stop g ≡ some after
      → Reach (after, held) b
      → IsStopping g b.0 × Refuses b.0
  begin_stop-Refuses g after held b e path =
      let h = Reach-IsStopping g (after, held) b path (begun-IsStopping g after e) in
      (h, stopped-Refuses b.0 h.stopped)
