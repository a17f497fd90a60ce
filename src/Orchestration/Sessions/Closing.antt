-- ===== src/Orchestration/Sessions/Closing.antt =====
-- A session is closed to its clients from the first section of its close on, unless the close fails
-- and reopens it.
use photospider_daemon.Base.{
  ℕ, ◌≡◌, refl, ◌<◌, ◌^◌, ◌==◌, Bool, true, false, not, List, [], ◌∷◌, Option, none, some, arith,
  All,
}
use photospider_daemon.Base.IdSets.{store, store_same}
use photospider_daemon.Base.Outcome.{ok, err}
use photospider_daemon.Kernel.{Kernel}
use photospider_daemon.Protocol.{SessionId, JobSubmitOptions}
use photospider_daemon.Orchestration.Registry.{Registry}
use photospider_daemon.Orchestration.Registry.Invariant.{limit}
use photospider_daemon.Orchestration.Sessions.{
  Sessions, roll_back, finalize_close, reopen, is_open, reserve, publish_session, begin_close,
  submit_to, no_session_status,
}
use photospider_daemon.Orchestration.Sessions.Steps.{
  Event, reserves, fails, publishes, begins, reopens, finishes, State, step, run, IsBounded, GoesOn,
}
use photospider_daemon.Orchestration.Sessions.Capacity.{run-GoesOn}

module _ ⦃k : Kernel⦄ where
  closing_not_open :
      (id : SessionId) (g : Sessions) → g.closing id.value ≡ true → is_open id g ≡ false
  unfolding is_open
  closing_not_open id g e = ground arith

  -- A session whose close has begun, and whose number is not to be given out again.
  abbrev Begun : ℕ → Sessions → Type 0
  Begun i g = (g.closing i ≡ true) × (i < limit g.next_session_id) × (g.next_session_id < 2 ^ 64)

  abbrev BegunState : ℕ → Option State → Type 0
  BegunState i none = Unit {0}
  BegunState i (some s) = Begun i s.registry

  -- Any section but the reopening of the session.
  abbrev pub leaves_closed : ℕ → Event → Bool
  leaves_closed i (reopens j) = not (j == i)
  leaves_closed i _ = true

  step-Begun :
      (i : ℕ) (event : Event) (s : State)
      → leaves_closed i event ≡ true
      → Begun i s.registry
      → BegunState i (step event s)
  unfolding step reserve roll_back publish_session finalize_close reopen begin_close store
  step-Begun i reserves s e h = ground arith
  step-Begun i fails s e h = ground arith
  step-Begun i publishes s e h = ground arith
  step-Begun i (begins id) s e h = ground arith
  step-Begun i (reopens j) s e h = ground arith
  step-Begun i (finishes j) s e h = ground arith

  onward-Begun :
      (i : ℕ) (events : List Event) (o : Option State)
      → ((s : State) → Begun i s.registry → BegunState i (run events s))
      → BegunState i o
      → BegunState i (elim o [ none ↦ none | some next ↦ run events next ])
  onward-Begun i events none later h = _
  onward-Begun i events (some s) later h = later s h

  run-Begun :
      (i : ℕ) (events : List Event) (s : State)
      → All (λ event. leaves_closed i event ≡ true) events
      → Begun i s.registry
      → BegunState i (run events s)
  unfolding run
  run-Begun i [] s e h = h
  run-Begun i (event ∷ events) s e h =
      onward-Begun i events (step event s) (λ after. run-Begun i events after e.1)
        (step-Begun i event s e.0 h)

  begin_close-Begun :
      (id : SessionId) (s : State) (after : Sessions)
      → IsBounded s
      → begin_close id s.registry ≡ ok after
      → BegunState id.value (step (begins id) s)
  unfolding step begin_close is_open
  begin_close-Begun id s after w e =
      ground (arith, w.issued id.value, w.next_range, store_same id.value true s.registry.closing)

  refused :
      {R : Type 0} (id : SessionId) (options : JobSubmitOptions) (g : Sessions) (jobs : Registry R)
      → Begun id.value g
      → (submit_to id options g jobs ≡ (err no_session_status, jobs))
        × (begin_close id g ≡ err no_session_status)
  unfolding submit_to begin_close
  refused id options g jobs h =
      let shut = closing_not_open id g h.0 in (simp shut refl, simp shut refl)

  survived :
      (i : ℕ) (o : Option State)
      → GoesOn o
      → BegunState i o
      → (t : State) × (o ≡ some t) × Begun i t.registry
  survived i none g h = absurd (cc)
  survived i (some t) g h = (t, refl, h)

  -- From the first section of a session's close on, whatever sections of creations and closes
  -- follow, its finish included, and as long as a failed close does not reopen it, a submission to
  -- the session is answered with `NotFound` and admits nothing, and a further close is answered with
  -- `NotFound`. No check terminates the daemon meanwhile. The sessions are bounded at first.
  pub begin_close-submit_to :
      {R : Type 0} (id : SessionId) (options : JobSubmitOptions) (s : State) (after : Sessions)
      (events : List Event) (jobs : Registry R)
      → IsBounded s
      → begin_close id s.registry ≡ ok after
      → All (λ event. leaves_closed id.value event ≡ true) events
      → (t : State) × (run (begins id ∷ events) s ≡ some t)
        × (submit_to id options t.registry jobs ≡ (err no_session_status, jobs))
        × (begin_close id t.registry ≡ err no_session_status)
  unfolding run
  begin_close-submit_to id options s after events jobs w e closed =
      let begun = begin_close-Begun id s after w e in
      let onward =
        onward-Begun id.value events (step (begins id) s)
          (λ next. run-Begun id.value events next closed) begun in
      let (t, ends, h) =
        survived id.value (run (begins id ∷ events) s) (run-GoesOn (begins id ∷ events) s w)
          onward in
      let no = refused id options t.registry jobs h in (t, ends, no.0, no.1)
