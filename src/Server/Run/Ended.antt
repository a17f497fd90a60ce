-- ===== src/Server/Run/Ended.antt =====
-- What `Server::run` leaves behind.
use photospider_daemon.Base.{ℕ, ◌≡◌, Bool, true, false, All}
use photospider_daemon.Base.Outcome.{Outcome}
use photospider_daemon.Kernel.{Kernel}
use photospider_daemon.Server.Accept.{Server}
use photospider_daemon.Server.Accept.Bounds.{slots_held}
use photospider_daemon.Server.Run.{Progress, goes_on, leaves, Exit}

abbrev pub IsShut : ℕ × Bool → Type 0
IsShut (descriptor, shut) = shut ≡ true

-- The slots are counted, and a stopped server has closed its listener and interrupted every
-- connection.
pub record IsCounted (s : Server) : Type 0 where
  pub counted : s.active_handlers ≡ slots_held s.handlers
  pub closed : s.stopping ≡ true → s.listener_open ≡ false
  pub shut : s.stopping ≡ true → All IsShut s.active_connections

pub record IsEnded (e : Exit) : Type 0 where
  pub stopped : e.joining.stopping ≡ true
  pub listener_closed : e.joining.listener_open ≡ false
  pub interrupted : All IsShut e.joining.active_connections
  pub freed_slots : e.server.active_handlers ≡ 0

abbrev Continues : Progress → Type 0
Continues (goes_on after) = IsCounted after
Continues (leaves outcome after) = IsCounted after
