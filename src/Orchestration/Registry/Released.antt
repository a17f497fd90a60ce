-- ===== src/Orchestration/Registry/Released.antt =====
-- The id of a released job stays unknown, whatever calls, workers and closes follow.
use photospider_daemon.Base.{
  ℕ, ◌≡◌, ap, ◌∙◌, subst, ◌<◌, ◌^◌, true, false, not, ◌==◌, List, [], ◌∷◌, some, arith, Bool-cases,
  inl, inr,
}
use photospider_daemon.Base.IdSets.{member, keep, member-append, member-keep}
use photospider_daemon.Kernel.{Kernel, success}
use photospider_daemon.Protocol.{SessionId, JobId, JobSubmitOptions}
use photospider_daemon.Orchestration.Job.{terminal}
use photospider_daemon.Orchestration.Registry.{
  Registry, publish, admit, submit, cancel, known, release, belongs, detach, pop, pop_front, work,
}
use photospider_daemon.Orchestration.Registry.Invariant.{limit, some_of_else, IsWellFormed}
use photospider_daemon.Orchestration.Registry.Lookup.{
  IsMissing, IsMissing-unknown, release-IsMissing,
}
use photospider_daemon.Orchestration.Registry.Reach.{
  Step, submits, cancels, releases, detaches, pops, works, settles_queued, settles_running, Reach,
  here, then,
}

module _ {R : Type 0} where
  -- The number is no key of the map and is not to be given out.
  abbrev Spent : ℕ → Registry R → Type 0
  Spent i g = (member i g.jobs ≡ false) × (i < limit g.next_id) × (g.next_id < 2 ^ 64)

  detach-Spent :
      (i : ℕ) (session : SessionId) (g : Registry R) → Spent i g → Spent i (detach session g).1
  unfolding detach
  detach-Spent i session g h =
      let queued = keep (λ j. belongs session (g.records j)) g.queue in
      let popped = keep (λ j. not (member j queued)) g.jobs in
      (
        ground (
          arith,
          h,
          member-keep (λ j. not (belongs session (g.records j))) i popped,
          member-keep (λ j. not (member j queued)) i g.jobs,
        ),
        h.1,
        h.2,
      )

  pop_front-Spent :
      (i j : ℕ) (queue : List ℕ) (g after : Registry R)
      → pop_front queue g ≡ some (j, after)
      → Spent i g
      → Spent i after
  unfolding pop_front
  pop_front-Spent i j [] g after e h = cc
  pop_front-Spent i j (n ∷ rest) g after e h =
      let same : record g { queue = rest } ≡ after = cc in subst (Spent i) same h

module _ ⦃k : Kernel⦄ {R : Type 0} where
  submit-Spent :
      (i : ℕ) (session : SessionId) (options : JobSubmitOptions) (g : Registry R)
      → Spent i g
      → Spent i (submit session options g).1
  unfolding submit admit publish
  submit-Spent i session options g h = ground (arith, member-append i g.next_id g.jobs)

  Step-Spent : (i : ℕ) (a b : Registry R × List ℕ) → Step a b → Spent i a.0 → Spent i b.0
  unfolding cancel release pop work
  Step-Spent i _ _ (submits session options g held) h = submit-Spent i session options g h
  Step-Spent i _ _ (cancels id g held) h = ground arith
  Step-Spent i _ _ (releases id g held) h =
      ground (arith, member-keep (λ j. not (j == id.value)) i g.jobs)
  Step-Spent i _ _ (detaches session g held) h = detach-Spent i session g h
  Step-Spent i _ _ (pops j g after held e) h =
      pop_front-Spent i j g.queue g after (some_of_else g.stopping _ _ e) h
  Step-Spent i _ _ (works j answer phase g held e) h = h
  Step-Spent i _ _ (settles_queued j g held e) h = h
  Step-Spent i _ _ (settles_running j g held e) h = h

  Reach-Spent : (i : ℕ) (a b : Registry R × List ℕ) → Reach a b → Spent i a.0 → Spent i b.0
  Reach-Spent i a _ here h = h
  Reach-Spent i a _ (then b c path step) h = Step-Spent i b c step (Reach-Spent i a b path h)

  known-member : (id : JobId) (g : Registry R) → known id g ≡ true → member id.value g.jobs ≡ true
  unfolding known
  known-member id g e = ground arith

  Spent-released :
      (id : JobId) (g : Registry R) (held : List ℕ)
      → IsWellFormed g held
      → (release id g).0 ≡ success
      → Spent id.value (release id g).1
  unfolding release
  Spent-released id g held w e = elim (Bool-cases (known id g)) [
    | inr lost ↦ absurd (k.not_found-ne-ok (ap (λ s. s.code) (rw lost at e)))
    | inl found ↦ elim (Bool-cases (terminal (g.records id.value).state)) [
      | inr early ↦ absurd (k.invalid_argument-ne-ok (ap (λ s. s.code) (rw (found, early) at e)))
      | inl over ↦
          rw (found, over)
            (
              member-keep (λ i. not (i == id.value)) id.value g.jobs ∙ ground arith,
              (w.issued id.value (known-member id g found)).1,
              w.next_range,
            )
    ]
  ]

  -- A release that succeeds was of a terminal job, and from then on every call with its id answers
  -- `NotFound`, whatever calls of clients, workers and closes follow it: the id is not given out
  -- again. The registry is well-formed at the release.
  pub Reach-IsMissing :
      (id : JobId) (g : Registry R) (held : List ℕ) (b : Registry R × List ℕ)
      → IsWellFormed g held
      → (release id g).0 ≡ success
      → Reach ((release id g).1, held) b
      → (terminal (g.records id.value).state ≡ true) × IsMissing id b.0
  unfolding known
  Reach-IsMissing id g held b w e path =
      let gone =
        Reach-Spent id.value ((release id g).1, held) b path (Spent-released id g held w e) in
      ((release-IsMissing id g e).0, IsMissing-unknown id b.0 (rw gone.0 (ground arith)))
