-- ===== src/Orchestration/Sessions/Capacity.antt =====
-- The bound on sessions and creations in flight, and that no internal check terminates the daemon.
use photospider_daemon.Base.{
  ℕ, ◌≡◌, ◌≢◌, refl, sym, ap, ◌∙◌, subst, ◌+◌, ◌-◌, ◌%◌, ◌^◌, Bool, true, false, not, ◌&&◌, ◌||◌,
  List, [], ◌∷◌, ◌++◌, length, length-append, leb, ◌==◌, ==_iff, Option, none, some, arith,
  Bool-cases, Option-cases, inl, inr,
}
use photospider_daemon.Base.IdSets.{
  member, keep, store, store_same, store_other, member-append, member-keep, length-keep,
}
use photospider_daemon.Kernel.{Kernel}
use photospider_daemon.Protocol.{SessionId}
use photospider_daemon.Orchestration.Sessions.{
  Sessions, roll_back, finalize_close, reopen, is_open, reserve, publish_session, begin_close,
}
use photospider_daemon.Orchestration.Sessions.Steps.{
  Event, reserves, fails, publishes, begins, reopens, finishes, State, start, without, step, run,
  IsBounded, GoesOn,
}

module _ ⦃k : Kernel⦄ (s : State) (w : IsBounded s) where
  abbrev g : Sessions
  g = s.registry

  reserves-GoesOn : GoesOn (step reserves s)
  unfolding step reserve
  reserves-GoesOn =
      elim (Bool-cases (
        leb g.maximum_sessions (length g.sessions)
        || leb (g.maximum_sessions - length g.sessions) g.pending)) [
          | inl full ↦ simp full w
          | inr room ↦ elim (Bool-cases (g.next_session_id == 0)) [
            | inl wrapped ↦ simp (room, wrapped) w
            | inr left ↦
                simp (room, left)
                  (record {
                    capacity = ground (arith, w.capacity);
                    reserved = omega (arith, w.reserved);
                    next_range = w.next_range;
                    issued = w.issued;
                    closed = w.closed;
                  })
          ]
        ]

  pending-positive : (s.creating == 0) ≡ false → (g.pending == 0) ≡ false
  pending-positive e = rw w.reserved e

  fails-GoesOn : GoesOn (step fails s)
  unfolding step roll_back
  fails-GoesOn = elim (Bool-cases (s.creating == 0)) [
    | inl idle ↦ simp idle w
    | inr busy ↦
        simp (busy, pending-positive busy)
          (record {
            capacity = omega (arith, w.capacity);
            reserved = omega (arith, w.reserved);
            next_range = w.next_range;
            issued = w.issued;
            closed = w.closed;
          })
  ]

  fresh-sessions : (g.next_session_id == 0) ≡ false → member g.next_session_id g.sessions ≡ false
  fresh-sessions left = elim (Bool-cases (member g.next_session_id g.sessions)) [
    | inl e ↦ absurd (ground (arith, w.issued g.next_session_id e))
    | inr e ↦ e
  ]

  published-IsBounded :
      (g.next_session_id == 0) ≡ false
      → (s.creating == 0) ≡ false
      → IsBounded (record s {
        registry = record g {
          sessions = g.sessions ++ g.next_session_id ∷ [];
          closing = store g.next_session_id false g.closing;
          pending = g.pending - 1;
          next_session_id = (g.next_session_id + 1) % 2 ^ 64;
        };
        creating = s.creating - 1;
      })
  unfolding store
  published-IsBounded left busy =
      let room = pending-positive busy in
      record {
        capacity =
            ground (arith, w.capacity, length-append g.sessions (g.next_session_id ∷ []), room);
        reserved = omega (arith, w.reserved);
        next_range = omega arith;
        issued = λ i h.
            let placed = rw (member-append i g.next_session_id g.sessions) at h in
            ground (arith, placed, w.issued i, w.next_range, left);
        closed = λ i h.
            let was = w.closed i h in
            (
              rw (member-append i g.next_session_id g.sessions) (ground (arith, was.0)),
              ground (arith, was.0, was.1, w.issued i was.0, left),
            );
      }

  publishes-GoesOn : GoesOn (step publishes s)
  unfolding step publish_session roll_back
  publishes-GoesOn = elim (Bool-cases (s.creating == 0)) [
    | inl idle ↦ simp idle w
    | inr busy ↦ elim (Bool-cases (g.next_session_id == 0)) [
      | inl wrapped ↦
          simp (busy, wrapped, pending-positive busy)
            (record {
              capacity = omega (arith, w.capacity);
              reserved = omega (arith, w.reserved);
              next_range = w.next_range;
              issued = w.issued;
              closed = w.closed;
            })
      | inr left ↦
          simp (busy, left, fresh-sessions left, pending-positive busy)
            (published-IsBounded left busy)
    ]
  ]

  member_open : (id : SessionId) → is_open id g ≡ true → member id.value g.sessions ≡ true
  unfolding is_open
  member_open id e = ground arith

  begins-GoesOn : (id : SessionId) → GoesOn (step (begins id) s)
  unfolding step begin_close
  begins-GoesOn id = elim (Bool-cases (is_open id g)) [
    | inl e ↦ simp e (record {
      capacity = w.capacity;
      reserved = w.reserved;
      next_range = w.next_range;
      issued = w.issued;
      closed = λ i h. elim (Bool-cases (id.value == i)) [
        | inl same ↦ (
          subst (λ j. member j g.sessions ≡ true) ((==_iff id.value i).0 same) (member_open id e),
          subst (λ j. store id.value true g.closing j ≡ true) ((==_iff id.value i).0 same)
              (store_same id.value true g.closing),
        )
        | inr other ↦ (
          (w.closed i (ground arith)).0,
          store_other id.value true g.closing i (λ q. ground arith) ∙ (w.closed i (ground arith)).1,
        )
      ];
    })
    | inr e ↦ simp e w
  ]

  in_closers :
      (i j : ℕ) → member j (without i s.closers) ≡ true → (member j s.closers ≡ true) × (j ≢ i)
  in_closers i j h = ground (arith, member-keep (λ x. not (x == i)) j s.closers)

  reopens-GoesOn : (i : ℕ) → GoesOn (step (reopens i) s)
  unfolding step reopen
  reopens-GoesOn i = elim (Bool-cases (member i s.closers)) [
    | inl e ↦
        simp (e, (w.closed i e).0)
          (record {
            capacity = w.capacity;
            reserved = w.reserved;
            next_range = w.next_range;
            issued = w.issued;
            closed = λ j h.
                let left = in_closers i j h in
                let was = w.closed j left.0 in
                (was.0, store_other i false g.closing j left.1 ∙ was.1);
          })
    | inr e ↦ simp e w
  ]

  in_sessions :
      (i j : ℕ)
      → member j (keep (λ x. not (x == i)) g.sessions) ≡ (member j g.sessions && not (j == i))
  in_sessions i j = member-keep (λ x. not (x == i)) j g.sessions

  finishes-GoesOn : (i : ℕ) → GoesOn (step (finishes i) s)
  unfolding step finalize_close
  finishes-GoesOn i = elim (Bool-cases (member i s.closers)) [
    | inl e ↦
        simp (e, (w.closed i e).0, (w.closed i e).1)
          (record {
            capacity = omega (arith, w.capacity, length-keep (λ x. not (x == i)) g.sessions);
            reserved = w.reserved;
            next_range = w.next_range;
            issued = λ j h. w.issued j (ground (arith, in_sessions i j));
            closed = λ j h.
                let left = in_closers i j h in
                let was = w.closed j left.0 in
                (in_sessions i j ∙ ground (arith, was.0, left.1), was.1);
          })
    | inr e ↦ simp e w
  ]

module _ ⦃k : Kernel⦄ where
  pub step-GoesOn : (event : Event) (s : State) → IsBounded s → GoesOn (step event s)
  step-GoesOn reserves s w = reserves-GoesOn s w
  step-GoesOn fails s w = fails-GoesOn s w
  step-GoesOn publishes s w = publishes-GoesOn s w
  step-GoesOn (begins id) s w = begins-GoesOn s w id
  step-GoesOn (reopens i) s w = reopens-GoesOn s w i
  step-GoesOn (finishes i) s w = finishes-GoesOn s w i

  start-IsBounded :
      (maximum_sessions instance_id : ℕ) (closing : ℕ → Bool)
      → IsBounded (start maximum_sessions instance_id closing)
  start-IsBounded maximum_sessions instance_id closing = record {
    capacity = omega arith;
    reserved = refl;
    next_range = omega arith;
    issued = λ i h. ground arith;
    closed = λ i h. ground arith;
  }

  pub run-GoesOn : (events : List Event) (s : State) → IsBounded s → GoesOn (run events s)
  unfolding run
  run-GoesOn [] s w = w
  run-GoesOn (event ∷ events) s w = elim (Option-cases (step event s)) [
    | inl e ↦ let never : true ≡ false = subst GoesOn e (step-GoesOn event s w) in cc
    | inr (next, e) ↦
        subst GoesOn
          (sym
            (ap (λ (o : Option State). elim o [ none ↦ none | some after ↦ run events after ]) e))
          (run-GoesOn events next (subst GoesOn e (step-GoesOn event s w)))
  ]

  -- Whatever creations, failures and closes interleave from the start on, no check of a session's
  -- reservation or close terminates the daemon, and afterwards sessions and reservations together
  -- are at most `maximum_sessions`, as many reservations are pending as creations are in flight,
  -- every session's id is below the next one, and every session whose close has begun is still
  -- there and closing.
  pub run-start-GoesOn :
      (maximum_sessions instance_id : ℕ) (closing : ℕ → Bool) (events : List Event)
      → GoesOn (run events (start maximum_sessions instance_id closing))
  run-start-GoesOn maximum_sessions instance_id closing events =
      run-GoesOn events _ (start-IsBounded maximum_sessions instance_id closing)
