-- ===== src/Orchestration/Service/Calls/Gone.antt =====
-- A session behind its close, through `dispatch`.
use photospider_daemon.Base.{
  ℕ, ◌≡◌, Bool, true, false, not, List, [], ◌∷◌, ◌==◌, ==_iff, if◌then◌else◌, Option, none, some,
  arith, All,
}
use photospider_daemon.Base.IdSets.{member, member-keep}
use photospider_daemon.Base.Outcome.{ok, err}
use photospider_daemon.Kernel.{Kernel, Result}
use photospider_daemon.Orchestration.Registry.{Registry, detach, pop}
use photospider_daemon.Orchestration.Sessions.{
  Sessions, finalize_close, reopen, roll_back, publish_session, reserve, begin_close,
}
use photospider_daemon.Orchestration.Sessions.Steps.{without}
use photospider_daemon.Orchestration.Service.{
  Impl, Event, reserves, fails, publishes, pops, submits, begins, detaches, reopens, finishes,
  cancels, releases, works, settles_queued, settles_running, with_reserved, with_begun,
  with_published, with_failed, with_finished, with_popped, own_session, step, run,
}
use photospider_daemon.Orchestration.Service.Housing.{owner, IsHoused}

-- The event is not the end of the close of session `i`.
abbrev pub Spares : {R : Type 0} → ℕ → Event R → Type 0
Spares i (finishes j) = (j == i) ≡ false
Spares i _ = Unit {0}

module _ {R : Type 0} (i : ℕ) where
  -- The close of `i` has detached its jobs and not ended.
  abbrev pub Waiting : Option (Impl R) → Type 0
  Waiting none = Unit {0}
  Waiting (some s) = member i s.detached ≡ true

  -- The session is in the map no more, and the registry retains no job of it.
  abbrev pub Gone : Option (Impl R) → Type 0
  Gone none = true ≡ false
  Gone (some s) =
      (member i s.sessions.sessions ≡ false)
      × ((j : ℕ) → member j s.jobs.jobs ≡ true → (owner s.jobs j == i) ≡ false)

  module _ (s : Impl R) (h : member i s.detached ≡ true) where
    failed-Waiting : (o : Option Sessions) → Waiting (with_failed s o)
    failed-Waiting none = _
    failed-Waiting (some after) = h

    published-Waiting : {A : Type 0} (o : Option (A × Sessions)) → Waiting (with_published s o)
    published-Waiting none = _
    published-Waiting (some (reply, after)) = h

    popped-Waiting : (o : Option (ℕ × Registry R)) → Waiting (some (with_popped s o))
    popped-Waiting none = h
    popped-Waiting (some (j, after)) = h

    finished-Waiting :
        (j : ℕ) (o : Option Sessions) → (j == i) ≡ false → Waiting (with_finished j s o)
    finished-Waiting j none other = _
    finished-Waiting j (some after) other =
        ground
          (arith, member-keep (λ x. not (x == j)) i s.detached, ==_iff i j, ==_iff j i, h, other)

    reserved-Waiting : ⦃k : Kernel⦄ (r : Result Sessions) → Waiting (some (with_reserved s r))
    reserved-Waiting (ok after) = h
    reserved-Waiting (err status) = h

    begun-Waiting : ⦃k : Kernel⦄ (j : ℕ) (r : Result Sessions) → Waiting (some (with_begun j s r))
    begun-Waiting j (ok after) = h
    begun-Waiting j (err status) = h

    test-Waiting : (b : Bool) (o : Option (Impl R)) → Waiting o → Waiting (if b then o else some s)
    test-Waiting true o w = w
    test-Waiting false o w = h

    none_left-Waiting :
        (b : Bool) (o : Option (Impl R)) → Waiting o → Waiting (if b then some s else o)
    none_left-Waiting true o w = h
    none_left-Waiting false o w = w

  module _ ⦃k : Kernel⦄ where
    step-Waiting :
        (event : Event R) (s : Impl R)
        → Spares i event
        → member i s.detached ≡ true
        → Waiting (step event s)
    unfolding step
    step-Waiting reserves s other h = reserved-Waiting s h (reserve s.sessions)
    step-Waiting fails s other h =
        none_left-Waiting s h (s.creating == 0) (with_failed s (roll_back s.sessions))
          (failed-Waiting s h (roll_back s.sessions))
    step-Waiting publishes s other h =
        none_left-Waiting s h (s.creating == 0) (with_published s (publish_session s.sessions))
          (published-Waiting s h (publish_session s.sessions))
    step-Waiting pops s other h = popped-Waiting s h (pop s.jobs)
    step-Waiting (submits id options) s other h = h
    step-Waiting (begins id) s other h = begun-Waiting s h id.value (begin_close id s.sessions)
    step-Waiting (detaches j) s other h =
        test-Waiting s h (member j s.begun)
          (some (record s {
            jobs = (detach (own_session j s) s.jobs).1;
            begun = without j s.begun;
            detached = j ∷ s.detached;
          }))
          (ground (arith, h))
    step-Waiting (reopens j) s other h =
        test-Waiting s h (member j s.begun)
          (some (record s { sessions = reopen j s.sessions; begun = without j s.begun })) h
    step-Waiting (finishes j) s other h =
        test-Waiting s h (member j s.detached) (with_finished j s (finalize_close j s.sessions))
          (finished-Waiting s h j (finalize_close j s.sessions) other)
    step-Waiting (cancels id) s other h = h
    step-Waiting (releases id) s other h = h
    step-Waiting (works j answer phase) s other h = h
    step-Waiting (settles_queued j) s other h = h
    step-Waiting (settles_running j) s other h = h

    pub onward-Waiting :
        (events : List (Event R)) (next : Option (Impl R))
        → ((s : Impl R) → member i s.detached ≡ true → Waiting (run events s))
        → Waiting next
        → Waiting (elim next [ none ↦ none | some s ↦ run events s ])
    onward-Waiting events none later w = _
    onward-Waiting events (some s) later w = later s w

    pub run-Waiting :
        (events : List (Event R)) (s : Impl R)
        → All (Spares i) events
        → member i s.detached ≡ true
        → Waiting (run events s)
    unfolding run
    run-Waiting [] s spared h = h
    run-Waiting (event ∷ events) s spared h =
        onward-Waiting events (step event s) (λ next w. run-Waiting events next spared.1 w)
          (step-Waiting event s spared.0 h)

    pub finishing-Gone :
        (s : Impl R) → IsHoused s → member i s.detached ≡ true → Gone (step (finishes i) s)
    unfolding step finalize_close
    finishing-Gone s h m =
        let known = h.closing_detached i m in
        simp (m, known.0, known.1)
          (
            ground (arith, member-keep (λ x. not (x == i)) i s.sessions.sessions, ==_iff i i),
            λ j e. h.vacant i j m e,
          )
