-- ===== src/Orchestration/Service/Housing/Closes.antt =====
-- What the steps of a session's close keep of the housing of jobs.
use photospider_daemon.Base.{
  ℕ, ◌≡◌, refl, ap, subst, true, false, not, ◌&&◌, List, ◌∷◌, ◌==◌, Bool, ==_iff, arith, Bool-cases,
  inl, inr,
}
use photospider_daemon.Base.IdSets.{member, keep, store, member-keep}
use photospider_daemon.Orchestration.Registry.{belongs, detach}
use photospider_daemon.Orchestration.Sessions.{reopen}
use photospider_daemon.Orchestration.Sessions.Steps.{without}
use photospider_daemon.Orchestration.Service.{Impl, own_session}
use photospider_daemon.Orchestration.Service.Housing.{owner, IsHoused}

member-without : (i j : ℕ) (is : List ℕ) → member i (without j is) ≡ (member i is && not (i == j))
member-without i j is = member-keep (λ x. not (x == j)) i is

module _ {R : Type 0} where
  -- The jobs that a close detaches are those of its session.
  pub detach-IsHoused :
      (s : Impl R) (i : ℕ)
      → member i s.begun ≡ true
      → IsHoused s
      → IsHoused (record s {
        jobs = (detach (own_session i s) s.jobs).1;
        begun = without i s.begun;
        detached = i ∷ s.detached;
      })
  unfolding detach belongs
  detach-IsHoused s i m h =
      let mine : ℕ → Bool = λ j. belongs (own_session i s) (s.jobs.records j) in
      let taken = keep mine s.jobs.queue in
      let popped = keep (λ j. not (member j taken)) s.jobs.jobs in
      let left : (j : ℕ)
          → member j (keep (λ x. not (mine x)) popped) ≡ true
          → (member j s.jobs.jobs ≡ true) × (mine j ≡ false) =
        λ j e. ground (
          arith,
          member-keep (λ x. not (mine x)) j popped,
          member-keep (λ x. not (member x taken)) j s.jobs.jobs,
        ) in
      record {
        reserved = h.reserved;
        native = λ j e. h.native j (left j e).0;
        housed = λ j e. h.housed j (left j e).0;
        closing_begun =
            λ j e. ground (arith, member-without j i s.begun, h.closing_begun j, ==_iff i j);
        closing_detached = λ j e. elim (Bool-cases (i == j)) [
          | inl same ↦
              subst (λ x. (member x s.sessions.sessions ≡ true) × (s.sessions.closing x ≡ true))
                ((==_iff i j).0 same) ((h.closing_begun i m).0, (h.closing_begun i m).1)
          | inr other ↦ h.closing_detached j (ground arith)
        ];
        vacant = λ x j d e. elim (Bool-cases (i == x)) [
          | inl same ↦
              subst (λ y. (owner s.jobs j == y) ≡ false) ((==_iff i x).0 same)
                (ground (
                  arith,
                  h.native j (left j e).0,
                  (left j e).1,
                  ==_iff ((s.jobs.records j).session_id.instance_id) s.sessions.instance_id,
                ))
          | inr other ↦ h.vacant x j (ground arith) (left j e).0
        ];
      }

  -- The two ends of a close.
  pub reopen-IsHoused :
      (s : Impl R) (i : ℕ)
      → member i s.begun ≡ true
      → IsHoused s
      → IsHoused (record s { sessions = reopen i s.sessions; begun = without i s.begun })
  unfolding reopen store
  reopen-IsHoused s i m h = rw (h.closing_begun i m).0 (record {
    reserved = h.reserved;
    native = h.native;
    housed = h.housed;
    closing_begun = λ j e.
        ground (arith, member-without j i s.begun, h.closing_begun j, ==_iff i j, ==_iff j i);
    closing_detached = λ j e. elim (Bool-cases (j == i)) [
      | inl same ↦ absurd (
          ground
            (arith, (h.closing_begun i m).2, ap (λ x. member x s.detached) ((==_iff j i).0 same)))
      | inr other ↦ rw other (h.closing_detached j e)
    ];
    vacant = h.vacant;
  })

  pub finish-IsHoused :
      (s : Impl R) (i : ℕ)
      → member i s.detached ≡ true
      → IsHoused s
      → IsHoused (record s {
        sessions = record s.sessions { sessions = without i s.sessions.sessions };
        detached = without i s.detached;
      })
  finish-IsHoused s i m h = record {
    reserved = h.reserved;
    native = h.native;
    housed = λ j e.
        rw (member-without (owner s.jobs j) i s.sessions.sessions, h.housed j e, h.vacant i j m e)
          refl;
    closing_begun = λ j e. ground (
      arith,
      h.closing_begun j e,
      member-without j i s.detached,
      member-without j i s.sessions.sessions,
      λ (same : (j == i) ≡ true). ap (λ x. member x s.detached) ((==_iff j i).0 same),
    );
    closing_detached = λ j e. ground (
      arith,
      member-without j i s.detached,
      member-without j i s.sessions.sessions,
      h.closing_detached j,
    );
    vacant = λ x j d e. h.vacant x j (ground (arith, member-without x i s.detached)) e;
  }

  -- A session that begins to close.
  pub begin-IsHoused :
      (s : Impl R) (i : ℕ)
      → member i s.sessions.sessions ≡ true
      → s.sessions.closing i ≡ false
      → IsHoused s
      → IsHoused (record s {
        sessions = record s.sessions { closing = store i true s.sessions.closing };
        begun = i ∷ s.begun;
      })
  unfolding store
  begin-IsHoused s i there opened h = record {
    reserved = h.reserved;
    native = h.native;
    housed = h.housed;
    closing_begun = λ j e. elim (Bool-cases (i == j)) [
      | inl same ↦
          subst
            (λ x.
              (member x s.sessions.sessions ≡ true)
              × ((store i true s.sessions.closing x) ≡ true)
              × (member x s.detached ≡ false))
            ((==_iff i j).0 same) (there, ground arith, ground (arith, h.closing_detached i))
      | inr other ↦ ground (arith, h.closing_begun j, ==_iff i j, ==_iff j i)
    ];
    closing_detached = λ j e. ground (arith, h.closing_detached j e);
    vacant = h.vacant;
  }
