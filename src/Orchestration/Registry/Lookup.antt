-- ===== src/Orchestration/Registry/Lookup.antt =====
-- Which jobs a client finds after a call.
use photospider_daemon.Base.{
  ℕ, ◌≡◌, ◌≢◌, refl, ap, Bool, true, false, not, ◌&&◌, List, ◌==◌, none, some, arith, Bool-cases,
  inl, inr,
}
use photospider_daemon.Base.IdSets.{
  member, keep, store, store_same, store_other, member-append, member-keep,
}
use photospider_daemon.Base.Outcome.{ok, err}
use photospider_daemon.Kernel.{Kernel, success}
use photospider_daemon.Protocol.{SessionId, JobId, JobSubmitOptions, queued}
use photospider_daemon.Orchestration.Job.{new_job, terminal}
use photospider_daemon.Orchestration.Registry.{
  Registry, fresh_id, publish, admit, submit, known, find, status, result, cancel, release, missing,
  belongs, detach,
}

member-same : (i : ℕ) (b : Bool) → (b && not (i == i)) ≡ false
member-same i b = ground arith

module _ ⦃k : Kernel⦄ {R : Type 0} where
  -- Every call answers `NotFound`.
  abbrev pub IsMissing : JobId → Registry R → Type 0
  IsMissing id g =
      (status id g ≡ err missing)
      × (result id g ≡ err missing)
      × ((cancel id g).0 ≡ missing)
      × ((release id g).0 ≡ missing)

  find_unknown : (id : JobId) (g : Registry R) → known id g ≡ false → find id g ≡ none
  unfolding find
  find_unknown id g e = rw e refl

  status_missing : (id : JobId) (g : Registry R) → find id g ≡ none → status id g ≡ err missing
  unfolding status
  status_missing id g e = rw (e, status) refl

  result_missing : (id : JobId) (g : Registry R) → find id g ≡ none → result id g ≡ err missing
  unfolding result
  result_missing id g e = rw (e, result) refl

  pub IsMissing-unknown : (id : JobId) (g : Registry R) → known id g ≡ false → IsMissing id g
  unfolding cancel release
  IsMissing-unknown id g e =
      let absent = find_unknown id g e in
      (status_missing id g absent, result_missing id g absent, rw e refl, rw e refl)

  known-keep :
      (id : JobId) (g : Registry R) (test : ℕ → Bool) (jobs : List ℕ)
      → (member id.value jobs && test id.value) ≡ false
      → known id (record g { jobs = keep test jobs }) ≡ false
  unfolding known
  known-keep id g test jobs e = rw (member-keep test id.value jobs, e) (ground arith)

  -- A release that succeeds was of a terminal job, and right behind it every call with its id
  -- answers `NotFound`.
  pub release-IsMissing :
      (id : JobId) (g : Registry R)
      → (release id g).0 ≡ success
      → (terminal (g.records id.value).state ≡ true) × IsMissing id (release id g).1
  unfolding release
  release-IsMissing id g e = elim (Bool-cases (known id g)) [
    | inl found ↦ elim (Bool-cases (terminal (g.records id.value).state)) [
      | inl over ↦
          rw (found, over)
            (refl, IsMissing-unknown id _ (known-keep id g _ g.jobs (member-same id.value _)))
      | inr early ↦ absurd (k.invalid_argument-ne-ok (ap (λ s. s.code) (rw (found, early) at e)))
    ]
    | inr lost ↦ absurd (k.not_found-ne-ok (ap (λ s. s.code) (rw lost at e)))
  ]

  known-detach :
      (session : SessionId) (id : JobId) (g : Registry R)
      → belongs session (g.records id.value) ≡ true
      → known id (detach session g).1 ≡ false
  unfolding known detach
  known-detach session id g e =
      rw (member-keep (λ i. not (belongs session (g.records i))) id.value _, e) (ground arith)

  -- After a session's close has detached its jobs, every call with the id of one of them answers
  -- `NotFound`.
  pub detach-IsMissing :
      (session : SessionId) (id : JobId) (g : Registry R)
      → belongs session (g.records id.value) ≡ true
      → IsMissing id (detach session g).1
  detach-IsMissing session id g e = IsMissing-unknown id _ (known-detach session id g e)

  -- What a submission that answered with an id has done.
  record Admission (session : SessionId) (options : JobSubmitOptions) (g : Registry R) (id : JobId)
      : Type 0 where
    after : (submit session options g).1 ≡ publish session options g
    given : id ≡ fresh_id g
    positive : (g.next_id == 0) ≡ false
    absent : member g.next_id g.jobs ≡ false

  submit-Admission :
      (session : SessionId) (options : JobSubmitOptions) (g : Registry R) (id : JobId)
      → (submit session options g).0 ≡ ok id
      → Admission session options g id
  unfolding submit admit
  submit-Admission session options g id e =
      let facts : ((submit session options g).1 ≡ publish session options g)
          × (id ≡ fresh_id g)
          × ((g.next_id == 0) ≡ false)
          × (member g.next_id g.jobs ≡ false) =
        ground arith in
      record { after = facts.0; given = facts.1; positive = facts.2; absent = facts.3 }

  known-publish :
      (session : SessionId) (options : JobSubmitOptions) (g : Registry R) (id : JobId)
      → id.value ≢ g.next_id
      → known id (publish session options g) ≡ known id g
  unfolding known publish
  known-publish session options g id e = rw (member-append id.value g.next_id g.jobs) (ground arith)

  known-fresh_id :
      (session : SessionId) (options : JobSubmitOptions) (g : Registry R)
      → (g.next_id == 0) ≡ false
      → known (fresh_id g) (publish session options g) ≡ true
  unfolding known publish
  known-fresh_id session options g e = rw (member-append g.next_id g.next_id g.jobs) (ground arith)

  records-publish :
      (session : SessionId) (options : JobSubmitOptions) (g : Registry R)
      → (publish session options g).records
        ≡ store g.next_id (new_job (fresh_id g) session options) g.records
  unfolding publish
  records-publish session options g = refl

  find-publish :
      (session : SessionId) (options : JobSubmitOptions) (g : Registry R) (id : JobId)
      → id.value ≢ g.next_id
      → find id (publish session options g) ≡ find id g
  unfolding find
  find-publish session options g id e =
      rw
        (
          known-publish session options g id e,
          records-publish session options g,
          store_other g.next_id (new_job (fresh_id g) session options) g.records id.value e,
        )
        refl

  find-fresh_id :
      (session : SessionId) (options : JobSubmitOptions) (g : Registry R)
      → (g.next_id == 0) ≡ false
      → find (fresh_id g) (publish session options g) ≡ some (new_job (fresh_id g) session options)
  unfolding find
  find-fresh_id session options g e =
      rw
        (
          known-fresh_id session options g e,
          records-publish session options g,
          store_same g.next_id (new_job (fresh_id g) session options) g.records,
        )
        refl

  status-publish :
      (session : SessionId) (options : JobSubmitOptions) (g : Registry R)
      → (g.next_id == 0) ≡ false
      → status (fresh_id g) (publish session options g)
        ≡ ok (record {
          job_id = fresh_id g;
          session_id = session;
          state = queued;
          outcome = success;
        })
  unfolding new_job status
  status-publish session options g e = rw (find-fresh_id session options g e, status) refl

  find_absent : (g : Registry R) → member g.next_id g.jobs ≡ false → find (fresh_id g) g ≡ none
  unfolding known
  find_absent g e = find_unknown (fresh_id g) g (rw e (ground arith))

  -- A submission that answers with an id answers with one that no job had; the job's status is then
  -- queued, under its session and without failure, and every other job is found as before.
  pub status-submit :
      (session : SessionId) (options : JobSubmitOptions) (g : Registry R) (id : JobId)
      → (submit session options g).0 ≡ ok id
      → (find id g ≡ none)
        × (status id (submit session options g).1
            ≡ ok (record { job_id = id; session_id = session; state = queued; outcome = success }))
        × ((other : JobId)
            → other.value ≢ id.value
            → find other (submit session options g).1 ≡ find other g)
  status-submit session options g id e =
      let a = submit-Admission session options g id e in
      rw (a.after, a.given)
        (
          find_absent g a.absent,
          status-publish session options g a.positive,
          λ other apart. find-publish session options g other apart,
        )
