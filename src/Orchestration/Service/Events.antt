-- ===== src/Orchestration/Service/Events.antt =====
-- What each event of the service keeps of the housing of jobs.
use photospider_daemon.Base.{
  ℕ, ◌≡◌, refl, ap, ◌+◌, ◌-◌, ◌%◌, ◌^◌, true, false, not, ◌||◌, List, [], ◌∷◌, ◌==◌, arith,
  Bool-cases, inl, inr, leb, length,
}
use photospider_daemon.Base.IdSets.{member, store, member-keep}
use photospider_daemon.Kernel.{Kernel}
use photospider_daemon.Protocol.{SessionId, JobId, JobSubmitOptions}
use photospider_daemon.Orchestration.Job.{
  JobRecord, cancel_job, enter_running, finish_failure, finish_cancelled, finish_failure_safely,
  publish_result, settle_queued, settle_running,
}
use photospider_daemon.Orchestration.Worker.{Answer, Phase, worker_step}
use photospider_daemon.Orchestration.Registry.{admit, submit, cancel, release, pop_front, pop}
use photospider_daemon.Orchestration.Sessions.{
  roll_back, finalize_close, is_open, reserve, publish_session, submit_to, begin_close,
}
use photospider_daemon.Orchestration.Service.{
  Impl, reserves, fails, publishes, pops, submits, begins, detaches, reopens, finishes, cancels,
  releases, step, with_popped,
}
use photospider_daemon.Orchestration.Service.Housing.{
  IsHoused, Housed, narrow-IsHoused, publish-IsHoused, count-IsHoused, submit-IsHoused,
}
use photospider_daemon.Orchestration.Service.Housing.Closes.{
  detach-IsHoused, reopen-IsHoused, finish-IsHoused, begin-IsHoused,
}

module _ ⦃k : Kernel⦄ {R : Type 0} where
  pub worker_step-session :
      (answer : Answer R) (r : JobRecord R) (phase : Phase R)
      → (worker_step answer r phase).0.session_id ≡ r.session_id
  unfolding worker_step enter_running finish_failure finish_cancelled finish_failure_safely
      publish_result
  worker_step-session answer r phase = ground arith

  pub settle_queued-session : (r : JobRecord R) → (settle_queued r).session_id ≡ r.session_id
  unfolding settle_queued
  settle_queued-session r = refl

  pub settle_running-session : (r : JobRecord R) → (settle_running r).session_id ≡ r.session_id
  unfolding settle_running
  settle_running-session r = ground arith

  module _ (s : Impl R) (h : IsHoused s) where
    pub cancels-Housed : (id : JobId) → Housed (step (cancels id) s)
    unfolding step cancel cancel_job store
    cancels-Housed id =
        narrow-IsHoused s (cancel id s.jobs).1 (λ j m. ground arith) (λ j. ground arith) h

    pub releases-Housed : (id : JobId) → Housed (step (releases id) s)
    unfolding step release
    releases-Housed id =
        narrow-IsHoused s (release id s.jobs).1
          (λ j m. ground (arith, member-keep (λ i. not (i == id.value)) j s.jobs.jobs))
          (λ j. ground arith) h

    popped-IsHoused : (queue : List ℕ) → IsHoused (with_popped s (pop_front queue s.jobs))
    unfolding pop_front
    popped-IsHoused [] = h
    popped-IsHoused (i ∷ rest) =
        narrow-IsHoused s (record s.jobs { queue = rest }) (λ j m. m) (λ j. refl) h

    pub pops-Housed : Housed (step pops s)
    unfolding step pop
    pops-Housed = elim (Bool-cases s.jobs.stopping) [
      | inl e ↦ simp e h
      | inr e ↦ simp e (popped-IsHoused s.jobs.queue)
    ]

    -- The tests of an open session.
    opened :
        (id : SessionId)
        → is_open id s.sessions ≡ true
        → (id.instance_id ≡ s.sessions.instance_id)
          × (member id.value s.sessions.sessions ≡ true)
          × (s.sessions.closing id.value ≡ false)
    unfolding is_open
    opened id e = (ground arith, ground arith, ground arith)

    pub begins-Housed : (id : SessionId) → Housed (step (begins id) s)
    unfolding step begin_close
    begins-Housed id = elim (Bool-cases (is_open id s.sessions)) [
      | inl e ↦ let o = opened id e in simp e (begin-IsHoused s id.value o.1 o.2 h)
      | inr e ↦ simp e h
    ]

    pub reserves-Housed : Housed (step reserves s)
    unfolding step reserve
    reserves-Housed =
        elim (Bool-cases (
          leb s.sessions.maximum_sessions (length s.sessions.sessions)
          || leb (s.sessions.maximum_sessions - length s.sessions.sessions) s.sessions.pending)) [
            | inl full ↦ simp full h
            | inr room ↦ elim (Bool-cases (s.sessions.next_session_id == 0)) [
              | inl none_left ↦ simp (room, none_left) h
              | inr left ↦ simp (room, left) (count-IsHoused s _ _ (ap (λ n. n + 1) h.reserved) h)
            ]
          ]

    pub fails-Housed : Housed (step fails s)
    unfolding step roll_back
    fails-Housed = elim (Bool-cases (s.creating == 0)) [
      | inl e ↦ simp e h
      | inr e ↦
          let busy : (s.sessions.pending == 0) ≡ false = ground (arith, h.reserved) in
          simp (e, busy) (count-IsHoused s _ _ (ap (λ n. n - 1) h.reserved) h)
    ]

    pub publishes-Housed : Housed (step publishes s)
    unfolding step publish_session roll_back
    publishes-Housed = elim (Bool-cases (s.creating == 0)) [
      | inl e ↦ simp e h
      | inr e ↦
          let busy : (s.sessions.pending == 0) ≡ false = ground (arith, h.reserved) in
          let back = count-IsHoused s _ _ (ap (λ n. n - 1) h.reserved) h in
          elim (Bool-cases (s.sessions.next_session_id == 0)) [
            | inl none_left ↦ simp (e, none_left, busy) back
            | inr left ↦ elim (Bool-cases (member s.sessions.next_session_id s.sessions.sessions)) [
              | inl twice ↦ simp (e, left, twice, busy) back
              | inr new ↦
                  simp (e, left, new, busy)
                    (publish-IsHoused s s.sessions.next_session_id
                      ((s.sessions.next_session_id + 1) % 2 ^ 64) (s.sessions.pending - 1)
                      (s.creating - 1) new (ap (λ n. n - 1) h.reserved) h)
            ]
          ]
    ]

    pub detaches-Housed : (i : ℕ) → Housed (step (detaches i) s)
    unfolding step
    detaches-Housed i = elim (Bool-cases (member i s.begun)) [
      | inl e ↦ simp e (detach-IsHoused s i e h)
      | inr e ↦ simp e h
    ]

    pub reopens-Housed : (i : ℕ) → Housed (step (reopens i) s)
    unfolding step
    reopens-Housed i = elim (Bool-cases (member i s.begun)) [
      | inl e ↦ simp e (reopen-IsHoused s i e h)
      | inr e ↦ simp e h
    ]

    pub finishes-Housed : (i : ℕ) → Housed (step (finishes i) s)
    unfolding step finalize_close
    finishes-Housed i = elim (Bool-cases (member i s.detached)) [
      | inl e ↦
          let known = h.closing_detached i e in simp (e, known.0, known.1) (finish-IsHoused s i e h)
      | inr e ↦ simp e h
    ]

    admits-IsHoused :
        (id : SessionId) (options : JobSubmitOptions)
        → id.instance_id ≡ s.sessions.instance_id
        → member id.value s.sessions.sessions ≡ true
        → s.sessions.closing id.value ≡ false
        → IsHoused (record s { jobs = (admit id options s.jobs).1 })
    unfolding admit
    admits-IsHoused id options own there opened =
        elim (Bool-cases (member s.jobs.next_id s.jobs.jobs)) [
          | inl twice ↦ simp twice (
              narrow-IsHoused s (record s.jobs { next_id = (s.jobs.next_id + 1) % 2 ^ 64 })
                (λ j m. m) (λ j. refl) h)
          | inr new ↦ simp new (submit-IsHoused s id options own there opened h)
        ]

    pub submits-Housed :
        (id : SessionId) (options : JobSubmitOptions) → Housed (step (submits id options) s)
    unfolding step submit_to submit
    submits-Housed id options = elim (Bool-cases (is_open id s.sessions)) [
      | inr e ↦ simp e h
      | inl e ↦
          let o = opened id e in
          simp e (elim (Bool-cases s.jobs.stopping) [
            | inl up ↦ simp up h
            | inr on ↦ simp on (elim (Bool-cases (leb s.jobs.maximum_jobs (length s.jobs.jobs))) [
              | inl full ↦ simp full h
              | inr room ↦ simp room (elim (Bool-cases (s.jobs.next_id == 0)) [
                | inl none_left ↦ simp none_left h
                | inr left ↦ simp left (admits-IsHoused id options o.0 o.1 o.2)
              ])
            ])
          ])
    ]
