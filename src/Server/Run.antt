-- ===== src/Server/Run.antt =====
-- src/lib/server/server.cpp: `Server::run` from its first `accept` to its return, and the teardown of
-- `Server::Impl`, on the server of Server/Accept.
pub mod Ended
use photospider_daemon.Base.{
  ℕ, zero, suc, ◌+◌, ◌-◌, Bool, true, false, not, List, [], ◌∷◌, leb, ◌==◌, if◌then◌else◌, Option,
  none, some,
}
use photospider_daemon.Base.Outcome.{Outcome, ok, err}
use photospider_daemon.Kernel.{Kernel, Status, success}
use photospider_daemon.Orchestration.Dispatch.{Raised}
use photospider_daemon.Socket.{SocketNodeGuard, Observed, remove}
use photospider_daemon.Socket.Descriptors.Streams.{
  AcceptDisposition, accepted, peer_rejected, fatal_failure,
}
use photospider_daemon.Server.Accept.{
  Stage, runs, published, released, accepting, Server, reap_finished_handlers, admit, stop,
  register,
}
use photospider_daemon.Server.Accept.Bounds.{slots_held}

-- `active_connections.erase`.
abbrev pub without_connection : ℕ → List (ℕ × Bool) → List (ℕ × Bool)
without_connection descriptor [] = []
without_connection descriptor ((other, shut) ∷ rest) =
    if other == descriptor
    then without_connection descriptor rest
    else (other, shut) ∷ without_connection descriptor rest

-- A handler's next act: it publishes its completion, then it releases its slot.
abbrev pub advanced : ℕ → List Stage → List Stage
advanced n [] = []
advanced zero (runs ∷ rest) = published ∷ rest
advanced zero (published ∷ rest) = released ∷ rest
advanced zero (released ∷ rest) = released ∷ rest
advanced (suc n) (stage ∷ rest) = stage ∷ advanced n rest

abbrev pub freed : ℕ → List Stage → ℕ
freed n [] = 0
freed zero (runs ∷ rest) = 0
freed zero (published ∷ rest) = 1
freed zero (released ∷ rest) = 0
freed (suc n) (stage ∷ rest) = freed n rest

-- What a handler does: it registers its connection, it takes the connection out again, or the one
-- at a place goes on to its next act.
pub data Act : Type 0 where
  registers erases proceeds : ℕ → Act

unfoldable pub act : Act → Server → Server
act (registers descriptor) s = register descriptor s
act (erases descriptor) s = record s {
  active_connections = without_connection descriptor s.active_connections;
}
act (proceeds n) s = record s {
  handlers = advanced n s.handlers;
  active_handlers = s.active_handlers - freed n s.handlers;
}

unfoldable pub acts : List Act → Server → Server
acts [] s = s
acts (a ∷ rest) s = acts rest (act a s)

-- One round of the loop: what handlers do while it waits for a peer, whether another thread stops
-- the server meanwhile, what `accept_same_user` returns, and the exception of a handler that cannot
-- be started, with whether its slot was reserved.
pub record Turn : Type 0 where
  pub meanwhile : List Act
  pub interrupted : Bool
  pub disposition : AcceptDisposition
  pub status : Status
  pub failure : Option (Bool × Raised)

-- The loop goes on, or it is left with a status to return or an exception to pass on.
pub data Progress : Type 0 where
  goes_on : Server → Progress
  leaves : Outcome Raised Status → Server → Progress

-- The slot of a handler that could not be started: taken, and given back.
abbrev pub roll_back : Bool → Server → Server
roll_back true s = record s { active_handlers = s.active_handlers + 1 - 1 }
roll_back false s = s

-- An accepted stream, behind the reaping.
unfoldable pub start_handler : Option (Bool × Raised) → Server → Progress
start_handler none s = goes_on (admit s)
start_handler (some (reserved, raised)) s =
    if leb s.maximum_active_connections s.active_handlers
    then goes_on (admit s)
    else leaves (err raised) (roll_back reserved s)

module _ ⦃k : Kernel⦄ where
  unfoldable pub judge : AcceptDisposition → Turn → Server → Progress
  unfolding start_handler
  judge accepted t s = start_handler t.failure (reap_finished_handlers s)
  judge peer_rejected t s = goes_on s
  judge fatal_failure t s = leaves (ok t.status) (stop s)

  unfoldable pub turn : Turn → Server → Progress
  unfolding judge
  turn t s =
      if s.stopping
      then leaves (ok success) s
      else if not s.listener_open
      then leaves (ok success) s
      else if t.interrupted
      then leaves (ok success) (stop (acts t.meanwhile s))
      else judge t.disposition t (acts t.meanwhile s)

-- Each handler is joined, behind which it has erased its connection and released its slot.
unfoldable pub join_handlers : Server → Server
join_handlers s = record s {
  handlers = [];
  active_connections = [];
  active_handlers = s.active_handlers - slots_held s.handlers;
}

-- The server as the joins begin and behind them, its guard, and whether the guard has unlinked the
-- socket's node.
pub record Exit : Type 0 where
  pub outcome : Outcome Raised Status
  pub joining : Server
  pub server : Server
  pub guard : SocketNodeGuard
  pub unlinked : Bool

-- What follows the loop on every way out, and is the destructor of `Impl` too.
unfoldable pub tear_down : Observed → SocketNodeGuard → Outcome Raised Status → Server → Exit
unfolding join_handlers
tear_down o g outcome s = record {
  outcome = outcome;
  joining = stop s;
  server = join_handlers (stop s);
  guard = (remove o g).1;
  unlinked = (remove o g).0;
}

module _ ⦃k : Kernel⦄ where
  -- The loop; behind its last turn another thread has stopped the server.
  unfoldable pub run_loop : Observed → SocketNodeGuard → List Turn → Server → Exit
  unfolding tear_down turn
  run_loop o g [] s = tear_down o g (ok success) (stop s)
  run_loop o g (t ∷ ts) s = elim (turn t s) [
    | goes_on after ↦ run_loop o g ts after
    | leaves outcome after ↦ tear_down o g outcome after
  ]

  -- `Server::run`: a server that was stopped before is left as it is.
  unfoldable pub run : Observed → SocketNodeGuard → List Turn → Server → Exit
  unfolding run_loop
  run o g turns s =
      if s.stopping
      then record { outcome = ok success; joining = s; server = s; guard = g; unlinked = false }
      else run_loop o g turns s
