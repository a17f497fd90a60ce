-- ===== src/Tests/Signals.antt =====
-- The guard of the signal mask, with SIGTERM and another signal pending and SIGINT to arrive.
use photospider_daemon.Base.{◌≡◌, refl, true, false, [], ◌∷◌, some, arith}
use photospider_daemon.Base.Outcome.{Outcome, ok}
use photospider_daemon.Daemon.Signals.{
  Signal, interrupt, terminate, unmanaged, is_managed, Signals, Fault, Round, quiet, Course,
  guarded,
}
use photospider_daemon.Daemon.Signals.Guarded.{Restored, guarded-Restored}

abbrev sample_signals : Signals
sample_signals = record { blocked = λ signal. false; pending = [] }

abbrev sample_course : Course
sample_course = record {
  thrown = false;
  pending = terminate ∷ unmanaged 1 ∷ [];
  rounds = quiet ∷ record { arrivals = interrupt ∷ []; inspected = true; waited = true } ∷ [];
  masked = true;
  masked_at_exit = true;
}

sample_run :
    guarded 4 true true sample_course sample_signals
    ≡ some (ok tt, record sample_signals { pending = unmanaged 1 ∷ [] })
unfolding guarded photospider_daemon.Daemon.Signals.block_signals
    photospider_daemon.Daemon.Signals.restore photospider_daemon.Daemon.Signals.drain
    photospider_daemon.Daemon.Signals.restore_noexcept
sample_run = refl

guarded-Restored_example :
    (x : Outcome Fault (Unit {0}) × Signals) × (guarded 4 true true sample_course sample_signals
      ≡ some x)
    × Restored sample_signals (terminate ∷ unmanaged 1 ∷ []) x
guarded-Restored_example =
    guarded-Restored 4 true true sample_course sample_signals (omega arith) refl
