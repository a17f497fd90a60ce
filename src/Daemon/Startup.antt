-- ===== src/Daemon/Startup.antt =====
-- apps/photospiderd/main.cpp and the constructor of `Server` in src/lib/server/server.cpp: from the
-- command line to the listener, and the exit code. Signals and the help text are left out.
use photospider_daemon.Base.{
  ℕ, ◌≤◌, Bool, false, not, ◌||◌, List, Bytes, ltb, ◌==◌, if◌then◌else◌, bytes_of, ◌≡◌, arith,
}
use photospider_daemon.Base.Outcome.{Outcome, ok, err}
use photospider_daemon.Kernel.{Kernel, Status}
use photospider_daemon.Codec.Status.{is_empty}
use photospider_daemon.Socket.{validate_unix_socket_path, SocketNodeGuard}
use photospider_daemon.Socket.Listening.{Answers, create_unix_listener}
use photospider_daemon.Daemon.{
  Options, Thrown, invalid_argument, out_of_range, Stoull, parse_options,
}
use photospider_daemon.Daemon.Bounds.{parse_options-IsOptions}

-- `ServerConfig` with its `ServiceConfig`.
pub record ServerConfig : Type 0 where
  pub socket_path : Bytes
  pub maximum_concurrency : ℕ
  pub maximum_jobs : ℕ
  pub maximum_sessions : ℕ
  pub gpu_enabled : Bool
  pub listen_backlog : ℕ
  pub maximum_active_connections : ℕ

-- The configuration that `main` makes of the options.
abbrev pub config_of : Options → ServerConfig
config_of o = record {
  socket_path = o.socket_path;
  maximum_concurrency = o.maximum_concurrency;
  maximum_jobs = o.maximum_jobs;
  maximum_sessions = o.maximum_sessions;
  gpu_enabled = o.gpu_enabled;
  listen_backlog = 32;
  maximum_active_connections = o.maximum_connections;
}

-- The first test of the constructor.
unfoldable pub config_invalid : ServerConfig → Bool
config_invalid c =
    is_empty c.socket_path
    || (c.listen_backlog == 0
        || (c.maximum_concurrency == 0
            || (c.maximum_jobs == 0
                || (c.maximum_sessions == 0
                    || (c.maximum_active_connections == 0
                        || ltb 4096 c.maximum_active_connections)))))

-- `std::invalid_argument` and `std::runtime_error` of the constructor.
pub data Refusal : Type 0 where
  refused_argument refused_listener : Bytes → Refusal

module _ ⦃k : Kernel⦄ where
  -- `Server::Server`, with the listener that it owns. `capacity` is the size of `sun_path`.
  unfoldable pub construct : ℕ → ServerConfig → Answers → Outcome Refusal SocketNodeGuard
  construct capacity c answers =
      let checked = validate_unix_socket_path capacity c.socket_path in
      if config_invalid c
      then err (refused_argument (bytes_of "local server configuration is invalid"))
      else if not (k.status_ok checked)
      then err (refused_argument checked.message)
      else elim (create_unix_listener capacity c.socket_path (not (c.listen_backlog == 0))
          answers).result [ err status ↦ err (refused_listener status.message) | ok g ↦ ok g ]

  abbrev pub run_code : Status → Outcome Refusal SocketNodeGuard → ℕ
  run_code finished (err (refused_argument text)) = 2
  run_code finished (err (refused_listener text)) = 1
  run_code finished (ok g) = if k.status_ok finished then 0 else 1

  abbrev pub code_of : ℕ → Answers → Status → Outcome Thrown Options → ℕ
  code_of capacity answers finished (err (invalid_argument text)) = 2
  code_of capacity answers finished (err out_of_range) = 1
  code_of capacity answers finished (ok o) =
      if o.help then 0 else run_code finished (construct capacity (config_of o) answers)

  -- The exit code of `main`, where `finished` is what `Server::run` returns.
  unfoldable pub exit_code : Stoull → ℕ → Answers → Status → List Bytes → ℕ
  exit_code stoull capacity answers finished arguments =
      code_of capacity answers finished (parse_options stoull arguments)

  -- The configuration of parsed options passes the constructor's test, where they do not ask for
  -- help and allow 4096 connections at most. So only the socket path and the listener can then keep
  -- the server from starting.
  pub config_invalid-parse_options :
      (stoull : Stoull) (arguments : List Bytes) (o : Options)
      → parse_options stoull arguments ≡ ok o
      → o.help ≡ false
      → o.maximum_connections ≤ 4096
      → config_invalid (config_of o) ≡ false
  unfolding config_invalid
  config_invalid-parse_options stoull arguments o e wanted few =
      let h = parse_options-IsOptions stoull arguments o e in
      ground (
        arith, h.concurrency_range, h.jobs_range, h.sessions_range, h.connections_range,
        h.reachable, wanted, few,
      )
