-- ===== src/Orchestration/Service/Housing.antt =====
-- Where the jobs of the service's registry belong, whatever its threads do.
pub mod Closes
use photospider_daemon.Base.{
  ℕ, ◌≡◌, refl, sym, ap, ◌∙◌, subst, ◌+◌, ◌-◌, true, false, not, ◌&&◌, ◌||◌, List, [], ◌∷◌, ◌++◌,
  ◌==◌, Bool, ==_iff, if◌then◌else◌, Option, none, some, arith, Bool-cases, ◌⊎◌, inl, inr, leb,
  length,
}
use photospider_daemon.Base.IdSets.{member, keep, store, member-append, member-keep}
use photospider_daemon.Base.Outcome.{ok, err}
use photospider_daemon.Kernel.{Kernel}
use photospider_daemon.Protocol.{SessionId, JobId, JobSubmitOptions}
use photospider_daemon.Orchestration.Job.{
  JobRecord, new_job, cancel_job, terminal, enter_running, finish_failure, finish_cancelled,
  finish_failure_safely, publish_result, settle_queued, settle_running,
}
use photospider_daemon.Orchestration.Worker.{Answer, Phase, worker_step}
use photospider_daemon.Orchestration.Registry.{
  Registry, publish, admit, submit, known, cancel, release, belongs, detach, pop_front, pop, work,
}
use photospider_daemon.Orchestration.Sessions.{
  Sessions, roll_back, finalize_close, reopen, is_open, reserve, publish_session, submit_to,
  begin_close,
}
use photospider_daemon.Orchestration.Sessions.Steps.{without}
use photospider_daemon.Orchestration.Service.{
  Impl, Event, reserves, fails, publishes, pops, submits, begins, detaches, reopens, finishes,
  cancels, releases, works, settles_queued, settles_running, own_session, step, run, fresh,
}

module _ {R : Type 0} where
  -- The session that a record names.
  abbrev pub owner : Registry R → ℕ → ℕ
  owner g j = (g.records j).session_id.value

  pub record IsHoused (s : Impl R) : Type 0 where
    pub reserved : s.sessions.pending ≡ s.creating
    pub native :
        (j : ℕ)
        → member j s.jobs.jobs ≡ true
        → (s.jobs.records j).session_id.instance_id ≡ s.sessions.instance_id
    pub housed :
        (j : ℕ) → member j s.jobs.jobs ≡ true → member (owner s.jobs j) s.sessions.sessions ≡ true
    pub closing_begun :
        (i : ℕ)
        → member i s.begun ≡ true
        → (member i s.sessions.sessions ≡ true)
          × (s.sessions.closing i ≡ true)
          × (member i s.detached ≡ false)
    pub closing_detached :
        (i : ℕ)
        → member i s.detached ≡ true
        → (member i s.sessions.sessions ≡ true) × (s.sessions.closing i ≡ true)
    pub vacant :
        (i j : ℕ)
        → member i s.detached ≡ true
        → member j s.jobs.jobs ≡ true
        → (owner s.jobs j == i) ≡ false

  -- The process goes on, with every job in its session.
  abbrev pub Housed : Option (Impl R) → Type 0
  Housed none = true ≡ false
  Housed (some s) = IsHoused s

  -- A registry that lost jobs, or whose records changed otherwise than in their sessions.
  pub narrow-IsHoused :
      (s : Impl R) (g : Registry R)
      → ((j : ℕ) → member j g.jobs ≡ true → member j s.jobs.jobs ≡ true)
      → ((j : ℕ) → (g.records j).session_id ≡ (s.jobs.records j).session_id)
      → IsHoused s
      → IsHoused (record s { jobs = g })
  narrow-IsHoused s g fewer same h = record {
    reserved = h.reserved;
    native = λ j m. ap (λ x. x.instance_id) (same j) ∙ h.native j (fewer j m);
    housed = λ j m. ap (λ x. member x.value s.sessions.sessions) (same j) ∙ h.housed j (fewer j m);
    closing_begun = h.closing_begun;
    closing_detached = h.closing_detached;
    vacant = λ i j d m. ap (λ x. x.value == i) (same j) ∙ h.vacant i j d (fewer j m);
  }

  pub work-IsHoused :
      (s : Impl R) (i : ℕ) (section : JobRecord R → JobRecord R)
      → ((r : JobRecord R) → (section r).session_id ≡ r.session_id)
      → IsHoused s
      → IsHoused (record s { jobs = work i section s.jobs })
  unfolding work store
  work-IsHoused s i section same h =
      narrow-IsHoused s (work i section s.jobs) (λ j m. m)
        (λ j. ground (arith, same (s.jobs.records i))) h

  -- A session that is not in the map yet.
  pub publish-IsHoused :
      (s : Impl R) (i next pending creating : ℕ)
      → member i s.sessions.sessions ≡ false
      → pending ≡ creating
      → IsHoused s
      → IsHoused (record s {
        sessions = record s.sessions {
          sessions = s.sessions.sessions ++ i ∷ [];
          closing = store i false s.sessions.closing;
          pending = pending;
          next_session_id = next;
        };
        creating = creating;
      })
  unfolding store
  publish-IsHoused s i next pending creating new count h =
      let grown : (j : ℕ)
          → member j s.sessions.sessions ≡ true
          → (member j (s.sessions.sessions ++ i ∷ []) ≡ true) × ((j == i) ≡ false) =
        λ j e. elim (Bool-cases (j == i)) [
          | inl same ↦
              absurd (ground (arith, ap (λ x. member x s.sessions.sessions) ((==_iff j i).0 same)))
          | inr other ↦ (rw (member-append j i s.sessions.sessions, e) refl, other)
        ] in
      record {
        reserved = count;
        native = h.native;
        housed = λ j e. (grown (owner s.jobs j) (h.housed j e)).0;
        closing_begun = λ j e.
            let known = h.closing_begun j e in
            let kept = grown j known.0 in (kept.0, rw kept.1 known.1, known.2);
        closing_detached = λ j e.
            let known = h.closing_detached j e in
            let kept = grown j known.0 in (kept.0, rw kept.1 known.1);
        vacant = h.vacant;
      }

  -- Only the counts of creations change.
  pub count-IsHoused :
      (s : Impl R) (pending creating : ℕ)
      → pending ≡ creating
      → IsHoused s
      → IsHoused
          (record s { sessions = record s.sessions { pending = pending }; creating = creating })
  count-IsHoused s pending creating count h = record {
    reserved = count;
    native = h.native;
    housed = h.housed;
    closing_begun = h.closing_begun;
    closing_detached = h.closing_detached;
    vacant = h.vacant;
  }

  module _ ⦃k : Kernel⦄ where
    -- A job that is admitted for an open session.
    pub submit-IsHoused :
        (s : Impl R) (session : SessionId) (options : JobSubmitOptions)
        → session.instance_id ≡ s.sessions.instance_id
        → member session.value s.sessions.sessions ≡ true
        → s.sessions.closing session.value ≡ false
        → IsHoused s
        → IsHoused (record s { jobs = publish session options s.jobs })
    unfolding publish new_job store
    submit-IsHoused s session options own there opened h =
        let was : (j : ℕ)
            → member j (s.jobs.jobs ++ s.jobs.next_id ∷ []) ≡ true
            → (j == s.jobs.next_id) ≡ false
            → member j s.jobs.jobs ≡ true =
          λ j e other. ground (
            arith,
            member-append j s.jobs.next_id s.jobs.jobs,
            ==_iff s.jobs.next_id j,
            ==_iff j s.jobs.next_id,
          ) in
        record {
          reserved = h.reserved;
          native = λ j e. ground (arith, own, h.native j, was j e);
          housed = λ j e. ground (arith, there, h.housed j, was j e);
          closing_begun = h.closing_begun;
          closing_detached = h.closing_detached;
          vacant = λ x j d e. ground (
            arith,
            opened,
            (h.closing_detached x d).1,
            h.vacant x j d,
            was j e,
            λ (hit : (session.value == x) ≡ true).
                ap s.sessions.closing ((==_iff session.value x).0 hit),
          );
        }
