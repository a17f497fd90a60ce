-- ===== src/Orchestration/Sessions/Steps.antt =====
-- Creations and closes of sessions as interleaved sections.
use photospider_daemon.Base.{
  ℕ, ◌≡◌, ◌≤◌, ◌<◌, ◌+◌, ◌-◌, ◌^◌, Bool, true, false, not, List, [], ◌∷◌, length, ◌==◌, Option,
  none, some, if◌then◌else◌,
}
use photospider_daemon.Base.IdSets.{member, keep}
use photospider_daemon.Base.Outcome.{ok, err}
use photospider_daemon.Kernel.{Kernel, Result}
use photospider_daemon.Protocol.{SessionId}
use photospider_daemon.Orchestration.Registry.Invariant.{limit}
use photospider_daemon.Orchestration.Sessions.{
  Sessions, roll_back, finalize_close, reopen, reserve, publish_session, begin_close,
}

-- A section of `create_session` or `close_session` in some thread; `fails` is a creation whose
-- document is rejected, or which throws.
pub data Event : Type 0 where
  reserves fails publishes : Event
  begins : SessionId → Event
  reopens finishes : ℕ → Event

-- The registry, the number of creations that hold a reservation, and the closes that have begun.
pub record State : Type 0 where
  pub registry : Sessions
  pub creating : ℕ
  pub closers : List ℕ

abbrev pub start : ℕ → ℕ → (ℕ → Bool) → State
start maximum_sessions instance_id closing = record {
  registry = record {
    maximum_sessions = maximum_sessions;
    instance_id = instance_id;
    sessions = [];
    closing = closing;
    pending = 0;
    next_session_id = 1;
  };
  creating = 0;
  closers = [];
}

abbrev pub without : ℕ → List ℕ → List ℕ
without i is = keep (λ j. not (j == i)) is

abbrev pub onward : {A : Type 0} → (A → State) → Option A → Option State
onward f none = none
onward f (some a) = some (f a)

module _ ⦃k : Kernel⦄ where
  abbrev pub reserved_state : State → Result Sessions → State
  reserved_state s (ok after) = record s { registry = after; creating = s.creating + 1 }
  reserved_state s (err e) = s

  abbrev pub begun_state : ℕ → State → Result Sessions → State
  begun_state i s (ok after) = record s { registry = after; closers = i ∷ s.closers }
  begun_state i s (err e) = s

  -- An event of a creation or a close that is not in flight does nothing.
  unfoldable pub step : Event → State → Option State
  step reserves s = some (reserved_state s (reserve s.registry))
  step fails s =
      if s.creating == 0
      then some s
      else onward (λ after. record s { registry = after; creating = s.creating - 1 })
          (roll_back s.registry)
  step publishes s =
      if s.creating == 0
      then some s
      else onward (λ done. record s { registry = done.1; creating = s.creating - 1 })
          (publish_session s.registry)
  step (begins id) s = some (begun_state id.value s (begin_close id s.registry))
  step (reopens i) s =
      if member i s.closers
      then some (record s { registry = reopen i s.registry; closers = without i s.closers })
      else some s
  step (finishes i) s =
      if member i s.closers
      then onward (λ after. record s { registry = after; closers = without i s.closers })
          (finalize_close i s.registry)
      else some s

pub record IsBounded (s : State) : Type 0 where
  pub capacity : length s.registry.sessions + s.registry.pending ≤ s.registry.maximum_sessions
  pub reserved : s.registry.pending ≡ s.creating
  pub next_range : s.registry.next_session_id < 2 ^ 64
  pub issued : (i : ℕ) → member i s.registry.sessions ≡ true → i < limit s.registry.next_session_id
  pub closed :
      (i : ℕ)
      → member i s.closers ≡ true
      → (member i s.registry.sessions ≡ true) × (s.registry.closing i ≡ true)

-- The daemon goes on, in a bounded state.
abbrev pub GoesOn : Option State → Type 0
GoesOn none = true ≡ false
GoesOn (some s) = IsBounded s

module _ ⦃k : Kernel⦄ where
  -- The events one after the other, up to a `std::terminate`.
  unfoldable pub run : List Event → State → Option State
  run [] s = some s
  run (event ∷ events) s = elim (step event s) [ none ↦ none | some next ↦ run events next ]
