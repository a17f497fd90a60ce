-- ===== src/Server/Interruption/Swept.antt =====
-- No handler is left waiting for its peer behind `stop`.
use photospider_daemon.Base.{
  ℕ, ◌≡◌, refl, Bool, true, false, ◌&&◌, not, List, [], ◌∷◌, arith, Bool-cases, inl, inr,
}
use photospider_daemon.Base.IdSets.{store}
use photospider_daemon.Server.Interruption.{
  Place, starting, registered, reading, leaving, ended, Floor, Event, registers, refuses, tests,
  serves, breaks, erases, raises, sweeps, register_at, refuse_at, test_at, serve_at, break_at,
  erase_at, step, run, quiet_floor,
}

abbrev pub is_reading : Place → Bool
is_reading reading = true
is_reading _ = false

-- A handler that has registered its connection and not yet erased it.
abbrev pub is_listed : Place → Bool
is_listed starting = false
is_listed registered = true
is_listed reading = true
is_listed leaving = true
is_listed ended = false

pub record IsSwept (s : Floor) : Type 0 where
  pub listed : (i : ℕ) → s.active_connections i ≡ is_listed (s.place i)
  pub ordered : s.swept ≡ true → s.stopping ≡ true
  pub cut : (i : ℕ) → s.swept ≡ true → is_reading (s.place i) ≡ true → s.interrupted i ≡ true

register_at-IsSwept :
    (i : ℕ) (p : Place) (s : Floor) → s.place i ≡ p → IsSwept s → IsSwept (register_at i p s)
unfolding store
register_at-IsSwept i starting s e h = record {
  listed = λ j. ground (arith, h.listed j, e);
  ordered = h.ordered;
  cut = λ j swept r. ground (arith, h.cut j, h.ordered);
}
register_at-IsSwept i registered s e h = h
register_at-IsSwept i reading s e h = h
register_at-IsSwept i leaving s e h = h
register_at-IsSwept i ended s e h = h

refuse_at-IsSwept :
    (i : ℕ) (p : Place) (s : Floor) → s.place i ≡ p → IsSwept s → IsSwept (refuse_at i p s)
unfolding store
refuse_at-IsSwept i starting s e h = record {
  listed = λ j. ground (arith, h.listed j, e);
  ordered = h.ordered;
  cut = λ j swept r. ground (arith, h.cut j, h.ordered);
}
refuse_at-IsSwept i registered s e h = h
refuse_at-IsSwept i reading s e h = h
refuse_at-IsSwept i leaving s e h = h
refuse_at-IsSwept i ended s e h = h

test_at-IsSwept :
    (i : ℕ) (p : Place) (s : Floor) → s.place i ≡ p → IsSwept s → IsSwept (test_at i p s)
unfolding store
test_at-IsSwept i starting s e h = h
test_at-IsSwept i registered s e h = record {
  listed = λ j. ground (arith, h.listed j, e);
  ordered = h.ordered;
  cut = λ j swept r. ground (arith, h.cut j, h.ordered);
}
test_at-IsSwept i reading s e h = h
test_at-IsSwept i leaving s e h = h
test_at-IsSwept i ended s e h = h

serve_at-IsSwept :
    (i : ℕ) (p : Place) (s : Floor) → s.place i ≡ p → IsSwept s → IsSwept (serve_at i p s)
unfolding store
serve_at-IsSwept i starting s e h = h
serve_at-IsSwept i registered s e h = h
serve_at-IsSwept i reading s e h = record {
  listed = λ j. ground (arith, h.listed j, e);
  ordered = h.ordered;
  cut = λ j swept r. ground (arith, h.cut j, h.ordered);
}
serve_at-IsSwept i leaving s e h = h
serve_at-IsSwept i ended s e h = h

break_at-IsSwept :
    (i : ℕ) (p : Place) (s : Floor) → s.place i ≡ p → IsSwept s → IsSwept (break_at i p s)
unfolding store
break_at-IsSwept i starting s e h = h
break_at-IsSwept i registered s e h = h
break_at-IsSwept i reading s e h = record {
  listed = λ j. ground (arith, h.listed j, e);
  ordered = h.ordered;
  cut = λ j swept r. ground (arith, h.cut j, h.ordered);
}
break_at-IsSwept i leaving s e h = h
break_at-IsSwept i ended s e h = h

erase_at-IsSwept :
    (i : ℕ) (p : Place) (s : Floor) → s.place i ≡ p → IsSwept s → IsSwept (erase_at i p s)
unfolding store
erase_at-IsSwept i starting s e h = h
erase_at-IsSwept i registered s e h = h
erase_at-IsSwept i reading s e h = h
erase_at-IsSwept i leaving s e h = record {
  listed = λ j. ground (arith, h.listed j, e);
  ordered = h.ordered;
  cut = λ j swept r. ground (arith, h.cut j, h.ordered);
}
erase_at-IsSwept i ended s e h = h

step-IsSwept : (event : Event) (s : Floor) → IsSwept s → IsSwept (step event s)
unfolding step
step-IsSwept (registers i) s h = register_at-IsSwept i (s.place i) s refl h
step-IsSwept (refuses i) s h = refuse_at-IsSwept i (s.place i) s refl h
step-IsSwept (tests i) s h = test_at-IsSwept i (s.place i) s refl h
step-IsSwept (serves i) s h = serve_at-IsSwept i (s.place i) s refl h
step-IsSwept (breaks i) s h = break_at-IsSwept i (s.place i) s refl h
step-IsSwept (erases i) s h = erase_at-IsSwept i (s.place i) s refl h
step-IsSwept raises s h = record { listed = h.listed; ordered = λ swept. refl; cut = h.cut }
step-IsSwept sweeps s h = elim (Bool-cases (s.stopping && not s.swept)) [
  | inr idle ↦ rw idle h
  | inl first ↦ rw first (record {
    listed = h.listed;
    ordered = λ swept. ground arith;
    cut = λ i swept r. ground (arith, h.listed i);
  })
]

from-IsSwept : (events : List Event) (s : Floor) → IsSwept s → IsSwept (run events s)
unfolding run
from-IsSwept [] s h = h
from-IsSwept (event ∷ events) s h = from-IsSwept events (step event s) (step-IsSwept event s h)

-- However handlers and `stop` interleave, the inventory holds exactly the connections whose handlers
-- are between registration and erasure, so that `stop` shuts no descriptor that its handler has
-- closed; and once `stop` has gone through it, every handler that still reads a frame has had its
-- connection interrupted, those included that registered or tested the flag meanwhile.
pub run-IsSwept : (events : List Event) → IsSwept (run events quiet_floor)
run-IsSwept events =
    from-IsSwept events quiet_floor (record {
      listed = λ i. refl;
      ordered = λ swept. absurd (cc);
      cut = λ i swept r. absurd (cc);
    })
