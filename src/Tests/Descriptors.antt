-- ===== src/Tests/Descriptors.antt =====
-- The daemon's streams on a sample of system calls, and the end of its accept loop.
use photospider_daemon.Base.{ℕ, ◌≡◌, refl, true, false, List, [], ◌∷◌, Bytes, none, some, arith}
use photospider_daemon.Base.Outcome.{ok, err}
use photospider_daemon.Socket.{SocketNodeGuard, make_guard, SocketPathParts, Observed}
use photospider_daemon.Orchestration.Dispatch.{no_memory}
use photospider_daemon.Kernel.{success}
use photospider_daemon.Socket.Descriptors.{
  interrupted, unsupported, returned, failing, Reply, World, obtain, own_flagged, obtain_plain,
  own_plain, set_close_on_exec, read_flags, write_flags, retry, retry_from, call, close,
}
use photospider_daemon.Socket.Descriptors.Ending.{Ends}
use photospider_daemon.Socket.Descriptors.Streams.{
  Platform, accepted, peer_rejected, connect_unix_socket, accept_same_user, create_stream_socket,
  prepare_stream, configure_no_sigpipe,
}
use photospider_daemon.Socket.Descriptors.Settling.{Settled}
use photospider_daemon.Socket.Descriptors.Acceptance.{Admitted, Platform-Settled}
use photospider_daemon.Server.Accept.{Server, runs, published, accepting}
use photospider_daemon.Server.Run.{registers, erases, proceeds, Turn, run}
use photospider_daemon.Tests.Fixtures.{test_kernel}

abbrev linux : Platform
linux = record { socket_flag = true; accept_flag = true; no_sigpipe_option = false }

-- The flag is not supported; the next calls are interrupted once and then answer.
abbrev sample_script : List Reply
sample_script =
    failing unsupported []
    ∷ failing interrupted []
    ∷ returned 7
    ∷ returned 1
    ∷ returned 0
    ∷ returned 0
    ∷ returned 0
    ∷ []

abbrev sample_world : World
sample_world = record { table = (3, true) ∷ []; error = []; script = sample_script }

abbrev short_path : Bytes
short_path = 47 ∷ 120 ∷ []

Platform-Settled_example :
    ((capacity : ℕ) (path : Bytes)
      → Ends 0 (Settled ((3, true) ∷ [])) (connect_unix_socket linux capacity path sample_world))
    × ((peer_uid euid : ℕ)
        → Ends 0
            (Admitted peer_uid euid ((3, true) ∷ []))
            (accept_same_user linux peer_uid euid sample_world))
Platform-Settled_example = Platform-Settled linux sample_world (omega arith)

sample_connected :
    connect_unix_socket linux 104 short_path sample_world
    ≡ some
        (ok 7, record { table = (7, true) ∷ (3, true) ∷ []; error = []; script = returned 0 ∷ [] })
unfolding connect_unix_socket photospider_daemon.Socket.validate_unix_socket_path
    photospider_daemon.Socket.has_zero create_stream_socket prepare_stream configure_no_sigpipe
    obtain own_flagged obtain_plain own_plain set_close_on_exec read_flags write_flags retry
    retry_from call close
sample_connected = refl

abbrev busy_server : Server
busy_server = record {
  maximum_active_connections = 2;
  handlers = runs ∷ published ∷ [];
  active_handlers = 2;
  phase = accepting;
  stopping = false;
  listener_open = true;
  active_connections = (9, false) ∷ (10, false) ∷ [];
}

abbrev nothing_seen : Observed
nothing_seen = record { fixed_parent = none; parent_path = none; leaf = none }

abbrev fresh_guard : SocketNodeGuard
fresh_guard =
    make_guard true (record { parent_path = 47 ∷ []; leaf_name = 120 ∷ [] })
      (record { device = 1; inode = 2 })

-- A peer of another user, then one whose handler cannot be started.
abbrev sample_turns : List Turn
sample_turns =
    record {
      meanwhile = [];
      interrupted = false;
      disposition = peer_rejected;
      status = success;
      failure = none;
    }
    ∷ record {
      meanwhile = registers 11 ∷ erases 9 ∷ proceeds 1 ∷ proceeds 0 ∷ [];
      interrupted = false;
      disposition = accepted;
      status = success;
      failure = some (true, no_memory);
    }
    ∷ []

-- It stops with what the first handler's start has thrown.
sample_ended : (run nothing_seen fresh_guard sample_turns busy_server).outcome ≡ err no_memory
unfolding run photospider_daemon.Server.Run.run_loop photospider_daemon.Server.Run.turn
    photospider_daemon.Server.Run.judge photospider_daemon.Server.Run.start_handler
    photospider_daemon.Server.Run.acts photospider_daemon.Server.Run.act
    photospider_daemon.Server.Run.tear_down photospider_daemon.Server.Accept.reap_finished_handlers
sample_ended = refl
