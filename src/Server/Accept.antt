-- ===== src/Server/Accept.antt =====
-- src/lib/server/server.cpp: the accept loop of `Server::run`, the handlers that it starts and
-- joins, and the stop of the server. A step is one atomic act of one thread.
pub mod Bounds
use photospider_daemon.Base.{
  ℕ, ◌+◌, ◌-◌, ◌<◌, Bool, true, false, List, [], ◌∷◌, ◌++◌, leb, if◌then◌else◌, Option, none, some,
  ◌≡◌, map,
}

-- What a handler's thread has done: it runs, it has published its completion, it has released its
-- slot as well.
pub data Stage : Type 0 where
  runs published released : Stage

-- Where the accept loop stands: before `reap_finished_handlers`, or behind it.
pub data Phase : Type 0 where
  accepting reaped : Phase

pub record Server : Type 0 where
  pub maximum_active_connections : ℕ
  pub handlers : List Stage
  pub active_handlers : ℕ
  pub phase : Phase
  pub stopping : Bool
  pub listener_open : Bool
  -- The descriptors of `active_connections`, each with whether `stop` has shut it down.
  pub active_connections : List (ℕ × Bool)

-- The records that stay, and the slots that the joins of the others release: a join returns once
-- its thread has ended.
abbrev pub still_running : List Stage → List Stage
still_running [] = []
still_running (runs ∷ rest) = runs ∷ still_running rest
still_running (published ∷ rest) = still_running rest
still_running (released ∷ rest) = still_running rest

abbrev pub slots_joined : List Stage → ℕ
slots_joined [] = 0
slots_joined (runs ∷ rest) = slots_joined rest
slots_joined (published ∷ rest) = slots_joined rest + 1
slots_joined (released ∷ rest) = slots_joined rest

unfoldable pub reap_finished_handlers : Server → Server
reap_finished_handlers s = record s {
  handlers = still_running s.handlers;
  active_handlers = s.active_handlers - slots_joined s.handlers;
  phase = reaped;
}

-- The admission of an accepted connection: a handler is started, or the connection is refused.
unfoldable pub admit : Server → Server
admit s =
    if leb s.maximum_active_connections s.active_handlers
    then record s { phase = accepting }
    else record s {
      handlers = s.handlers ++ runs ∷ [];
      active_handlers = s.active_handlers + 1;
      phase = accepting;
    }

abbrev pub shut_down : ℕ × Bool → ℕ × Bool
shut_down (descriptor, shut) = (descriptor, true)

unfoldable pub stop : Server → Server
stop s = if s.stopping then s else record s {
  stopping = true;
  listener_open = false;
  active_connections = map shut_down s.active_connections;
}

-- The two acts of `~HandlerCompletion` on the record behind `before`.
abbrev pub publish : List Stage → List Stage → Server → Server
publish before behind s = record s { handlers = before ++ published ∷ behind }

abbrev pub release : List Stage → List Stage → Server → Server
release before behind s = record s {
  handlers = before ++ released ∷ behind;
  active_handlers = s.active_handlers - 1;
}

abbrev pub register : ℕ → Server → Server
register descriptor s = record s {
  active_connections = s.active_connections ++ (descriptor, false) ∷ [];
}

pub data Step : Server → Server → Type 0 where
  reaping : (s : Server) → s.phase ≡ accepting → Step s (reap_finished_handlers s)
  admitting : (s : Server) → s.phase ≡ reaped → Step s (admit s)
  stopping : (s : Server) → Step s (stop s)
  publishing :
      (s : Server) (before behind : List Stage)
      → s.handlers ≡ before ++ runs ∷ behind
      → Step s (publish before behind s)
  releasing :
      (s : Server) (before behind : List Stage)
      → s.handlers ≡ before ++ published ∷ behind
      → Step s (release before behind s)
  registering : (s : Server) (descriptor : ℕ) → Step s (register descriptor s)

-- What the server can come to from a state.
pub data Reach (s : Server) : Server → Type 0 where
  here : Reach s s
  there : (t u : Server) → Reach s t → Step t u → Reach s u
