-- ===== src/Orchestration/Registry/Calls.antt =====
-- What each call of a client keeps of the registry's invariant.
use photospider_daemon.Base.{
  ℕ, ◌≡◌, refl, sym, ap, subst, ◌+◌, ◌%◌, ◌^◌, true, false, not, ◌&&◌, List, [], ◌∷◌, length,
  length-append, leb, ◌==◌, ==_iff, arith, Bool-cases, ◌⊎◌, inl, inr,
}
use photospider_daemon.Base.IdSets.{
  member, keep, store, member-append, member-keep, length-keep, Distinct-append,
}
use photospider_daemon.Kernel.{Kernel}
use photospider_daemon.Protocol.{SessionId, JobId, JobSubmitOptions}
use photospider_daemon.Orchestration.Job.{new_job, terminal, cancel_job}
use photospider_daemon.Orchestration.Registry.{
  Registry, publish, admit, submit, known, cancel, release,
}
use photospider_daemon.Orchestration.Registry.Invariant.{IsWellFormed, limit}

module _ ⦃k : Kernel⦄ {R : Type 0} (g : Registry R) (held : List ℕ) (w : IsWellFormed g held) where
  limit-positive : (g.next_id == 0) ≡ false → limit g.next_id ≡ g.next_id
  limit-positive positive = rw positive refl

  limit-next : (g.next_id == 0) ≡ false → limit ((g.next_id + 1) % 2 ^ 64) ≡ g.next_id + 1
  limit-next positive = ground (arith, w.next_range)

  -- The next id is in no container.
  pub fresh-jobs : (g.next_id == 0) ≡ false → member g.next_id g.jobs ≡ false
  fresh-jobs positive = elim (Bool-cases (member g.next_id g.jobs)) [
    | inl e ↦ absurd (omega (arith, w.issued g.next_id e, limit-positive positive))
    | inr e ↦ e
  ]

  fresh-queue : (g.next_id == 0) ≡ false → member g.next_id g.queue ≡ false
  fresh-queue positive = ground (arith, w.retained g.next_id, fresh-jobs positive)

  fresh-held : (g.next_id == 0) ≡ false → member g.next_id held ≡ false
  fresh-held positive = elim (Bool-cases (member g.next_id held)) [
    | inl e ↦ absurd (omega (arith, w.known_held g.next_id e, limit-positive positive))
    | inr e ↦ e
  ]

  publish-IsWellFormed :
      (session : SessionId) (options : JobSubmitOptions)
      → (g.next_id == 0) ≡ false
      → leb g.maximum_jobs (length g.jobs) ≡ false
      → IsWellFormed (publish session options g) held
  unfolding publish new_job store
  publish-IsWellFormed session options positive room =
      let below = limit-positive positive in
      let above = limit-next positive in
      record {
        bounded = ground (arith, length-append g.jobs (g.next_id ∷ []));
        next_range = omega arith;
        issued = λ i h.
            let placed = rw (member-append i g.next_id g.jobs) at h in
            ground (arith, placed, w.issued i, below, above, positive);
        own = λ i h.
            let placed = rw (member-append i g.next_id g.jobs) at h in
            ground (arith, placed, w.own i);
        retained = λ i h.
            let placed = rw (member-append i g.next_id g.queue) at h in
            rw (member-append i g.next_id g.jobs) (ground (arith, placed, w.retained i));
        waiting = λ i h.
            let placed = rw (member-append i g.next_id g.queue) at h in
            ground (arith, placed, w.waiting i);
        distinct = Distinct-append g.next_id g.queue (fresh-queue positive) w.distinct;
        apart = λ i h.
            rw (member-append i g.next_id g.queue)
              (ground (arith, w.apart i h, w.known_held i h, below));
        known_held = λ i h. ground (arith, w.known_held i h, below, above);
      }

  -- A submission leaves the registry, or takes the next id; the map never has that already.
  submit-after :
      (session : SessionId) (options : JobSubmitOptions)
      → ((submit session options g).1 ≡ g)
        ⊎ (((g.next_id == 0) ≡ false)
            × (leb g.maximum_jobs (length g.jobs) ≡ false)
            × ((submit session options g).1 ≡ publish session options g))
  unfolding submit admit
  submit-after session options = ground (arith, fresh-jobs)

  pub submit-IsWellFormed :
      (session : SessionId) (options : JobSubmitOptions)
      → IsWellFormed (submit session options g).1 held
  submit-IsWellFormed session options = elim (submit-after session options) [
    | inl e ↦ subst (λ h. IsWellFormed h held) (sym e) w
    | inr (positive, room, e) ↦
        subst (λ h. IsWellFormed h held) (sym e)
          (publish-IsWellFormed session options positive room)
  ]

  pub cancel-IsWellFormed : (id : JobId) → IsWellFormed (cancel id g).1 held
  unfolding cancel store cancel_job
  cancel-IsWellFormed id = elim (Bool-cases (known id g)) [
    | inl e ↦ rw e (record {
      bounded = w.bounded;
      next_range = w.next_range;
      issued = w.issued;
      own = λ i h. ground (arith, w.own i h);
      retained = w.retained;
      waiting = λ i h. ground (arith, w.waiting i h);
      distinct = w.distinct;
      apart = w.apart;
      known_held = w.known_held;
    })
    | inr e ↦ rw e w
  ]

  release-after :
      (id : JobId)
      → ((release id g).1 ≡ g)
        ⊎ ((terminal (g.records id.value).state ≡ true)
            × ((release id g).1 ≡ record g { jobs = keep (λ i. not (i == id.value)) g.jobs }))
  unfolding release
  release-after id = elim (Bool-cases (known id g)) [
    | inl e ↦ elim (Bool-cases (terminal (g.records id.value).state)) [
      | inl over ↦ inr (over, rw (e, over) refl)
      | inr early ↦ inl (rw (e, early) refl)
    ]
    | inr e ↦ inl (rw e refl)
  ]

  -- A queued record is not terminal, so that a release takes none from under the queue.
  released-IsWellFormed :
      (id : ℕ)
      → terminal (g.records id).state ≡ true
      → IsWellFormed (record g { jobs = keep (λ i. not (i == id)) g.jobs }) held
  released-IsWellFormed id over =
      let left : (i : ℕ)
          → member i (keep (λ j. not (j == id)) g.jobs) ≡ (member i g.jobs && not (i == id)) =
        λ i. member-keep (λ j. not (j == id)) i g.jobs in
      let kept : (i : ℕ) → member i g.queue ≡ true → (member i g.jobs && not (i == id)) ≡ true =
        λ i h. elim (Bool-cases (i == id)) [
          | inl e ↦ absurd (
              ground
                (arith, ap (λ j. terminal (g.records j).state) ((==_iff i id).0 e), w.waiting i h))
          | inr e ↦ rw (e, w.retained i h) refl
        ] in
      record {
        bounded = omega (arith, w.bounded, length-keep (λ i. not (i == id)) g.jobs);
        next_range = w.next_range;
        issued = λ i h. w.issued i (ground (arith, left i));
        own = λ i h. w.own i (ground (arith, left i));
        retained = λ i h. rw (left i) (kept i h);
        waiting = w.waiting;
        distinct = w.distinct;
        apart = w.apart;
        known_held = w.known_held;
      }

  pub release-IsWellFormed : (id : JobId) → IsWellFormed (release id g).1 held
  release-IsWellFormed id = elim (release-after id) [
    | inl e ↦ subst (λ h. IsWellFormed h held) (sym e) w
    | inr (over, e) ↦ subst (λ h. IsWellFormed h held) (sym e) (released-IsWellFormed id.value over)
  ]
