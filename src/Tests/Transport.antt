-- ===== src/Tests/Transport.antt =====
-- The theorems on frames, sockets, the accept loop and the command line, on sample data.
use photospider_daemon.Base.{
  ◌++◌, zero, suc, ◌^◌, ap, ℕ, true, false, [], ◌∷◌, Bytes, List, length, ltb, if◌then◌else◌, none,
  some, ◌≡◌, ◌≤◌, refl, arith,
}
use photospider_daemon.Base.Outcome.{ok, err}
use photospider_daemon.Kernel.{success}
use photospider_daemon.Frame.{
  Pace, up_to, interrupted, broken, Input, Acceptance, takes, signalled, read_frame, write_frame,
  size_allowed,
}
use photospider_daemon.Frame.Stream.{is_steady, Yields}
use photospider_daemon.Frame.Payload.{kept}
use photospider_daemon.Frame.Framing.{frame_of, read_frame-frame_of}
use photospider_daemon.Frame.Termination.{Returns, read_frame-Returns}
use photospider_daemon.Frame.RoundTrip.{is_willing, read_frame-write_frame}
use photospider_daemon.Server.Accept.{
  Server, accepting, reap_finished_handlers, admit, reaping, admitting, Reach, here, there,
}
use photospider_daemon.Server.Accept.Bounds.{IsBounded, Reach-IsBounded}
use photospider_daemon.Socket.{
  empty, SocketPathParts, SocketNodeIdentity, Stat, SocketNodeGuard, prepared, Observed,
}
use photospider_daemon.Server.Interruption.{
  reading, leaving, Event, registers, tests, raises, sweeps, quiet_floor, run,
}
use photospider_daemon.Server.Interruption.Swept.{IsSwept, run-IsSwept}
use photospider_daemon.Socket.Guarding.{
  GuardStep, arming, removing, moving, Guards, Single, removals, removals-le,
}
use photospider_daemon.Socket.Listening.{Answers, absent, create_unix_listener}
use photospider_daemon.Socket.Listening.Ownership.{IsOwn, create_unix_listener-IsOwn}
use photospider_daemon.Daemon.Startup.{config_of, config_invalid, config_invalid-parse_options}
use photospider_daemon.Daemon.{Options, default_options, Stoull, out_of_range, parse_options}
use photospider_daemon.Daemon.CommandLine.{
  IsOptions, Spells, arguments_of, parse_options-arguments_of,
}
use photospider_daemon.Daemon.Bounds.{parse_options-IsOptions}
use photospider_daemon.Tests.Fixtures.{test_kernel}

abbrev sample_paces : List Pace
sample_paces = up_to 0 ∷ interrupted ∷ up_to 1 ∷ []

abbrev sample_input : Input
sample_input = record { incoming = 0 ∷ 0 ∷ 0 ∷ 2 ∷ 7 ∷ 8 ∷ 9 ∷ []; paces = sample_paces }

abbrev broken_input : Input
broken_input = record sample_input { paces = up_to 4 ∷ broken [] ∷ [] }

abbrev sample_acceptances : List Acceptance
sample_acceptances = takes 1 ∷ signalled ∷ takes 3 ∷ []

sample_steady : is_steady sample_paces ≡ true
unfolding is_steady
sample_steady = refl

sample_willing : is_willing sample_acceptances ≡ true
unfolding is_willing
sample_willing = refl

sample_sized : size_allowed 2 ≡ true
unfolding size_allowed
sample_sized = refl

read_frame-frame_of_example :
    Yields
      (read_frame sample_input)
      (frame_of sample_input.incoming).0
      (frame_of sample_input.incoming).1
read_frame-frame_of_example = read_frame-frame_of sample_input sample_steady

read_frame-Returns_example : Returns (read_frame broken_input)
read_frame-Returns_example = read_frame-Returns broken_input

read_frame-write_frame_example :
    let written =
      write_frame (7 ∷ 8 ∷ []) (record { acceptances = sample_acceptances; sent = [] }) in
    (written.0 ≡ success)
    × Yields
        (read_frame (record { incoming = written.1.sent ++ 9 ∷ []; paces = sample_paces }))
        (ok (7 ∷ 8 ∷ []), kept (7 ∷ 8 ∷ []))
        (9 ∷ [])
read_frame-write_frame_example =
    read_frame-write_frame (7 ∷ 8 ∷ []) (9 ∷ []) sample_acceptances sample_paces sample_sized
      sample_willing sample_steady

abbrev fresh_server : Server
fresh_server = record {
  maximum_active_connections = 1;
  handlers = [];
  active_handlers = 0;
  phase = accepting;
  stopping = false;
  listener_open = true;
  active_connections = [];
}

fresh_server-IsBounded : IsBounded fresh_server
fresh_server-IsBounded = record { counted = refl; admitted = omega arith; retained = omega arith }

sample_admission : Reach fresh_server (admit (reap_finished_handlers fresh_server))
unfolding reap_finished_handlers
sample_admission =
    there (reap_finished_handlers fresh_server) (admit (reap_finished_handlers fresh_server))
      (there fresh_server (reap_finished_handlers fresh_server) here (reaping fresh_server refl))
      (admitting (reap_finished_handlers fresh_server) refl)

Reach-IsBounded_example : IsBounded (admit (reap_finished_handlers fresh_server))
Reach-IsBounded_example = Reach-IsBounded fresh_server-IsBounded sample_admission

abbrev sample_parent : Stat
sample_parent = record {
  is_directory = true;
  is_socket = false;
  identity = record { device = 1; inode = 2 };
}

abbrev sample_node : Stat
sample_node = record {
  is_directory = false;
  is_socket = true;
  identity = record { device = 1; inode = 3 };
}

abbrev sample_observed : Observed
sample_observed = record {
  fixed_parent = some sample_parent;
  parent_path = some sample_parent;
  leaf = some sample_node;
}

-- The socket is bound, and then `listen` fails.
abbrev sample_answers : Answers
sample_answers = record {
  open_parent = none;
  parent_state = ok sample_parent;
  parent_path = some sample_parent;
  existing = absent;
  create_socket = none;
  bind = none;
  node = some sample_node;
  parent_path_again = some sample_parent;
  listen = some [];
  observed = sample_observed;
}

abbrev sample_path : Bytes
sample_path = 47 ∷ 116 ∷ 47 ∷ 115 ∷ []

create_unix_listener-IsOwn_example :
    IsOwn sample_answers (create_unix_listener 108 sample_path true sample_answers)
create_unix_listener-IsOwn_example = create_unix_listener-IsOwn sample_answers 108 sample_path true

abbrev sample_guard : SocketNodeGuard
sample_guard = record {
  parent_valid = true;
  parts = record { parent_path = 47 ∷ []; leaf_name = 115 ∷ [] };
  parent_identity = record { device = 1; inode = 2 };
  node_identity = record { device = 0; inode = 0 };
  state = prepared;
}

-- A guard and any number of empty ones.
abbrev sample_guards : Guards
sample_guards zero = sample_guard
sample_guards (suc n) = record sample_guard { parent_valid = false; state = empty }

-- The guard is armed, moved and destroyed, and so is the one that it was moved from.
abbrev sample_steps : List GuardStep
sample_steps =
    arming 0 (record { device = 1; inode = 3 })
    ∷ moving 3 0 sample_observed
    ∷ removing 0 sample_observed
    ∷ removing 3 sample_observed
    ∷ removing 3 sample_observed
    ∷ []

sample_removals : removals sample_steps sample_guards ≡ 1
unfolding removals photospider_daemon.Socket.Guarding.step photospider_daemon.Socket.arm
    photospider_daemon.Socket.remove photospider_daemon.Socket.move_to
    photospider_daemon.Base.IdSets.store
sample_removals = refl

sample_guards-Single : Single sample_guards
sample_guards-Single zero zero h1 h2 = refl
sample_guards-Single zero (suc j) h1 h2 = absurd (cc)
sample_guards-Single (suc i) j h1 h2 = absurd (cc)

removals-le_example : removals sample_steps sample_guards ≤ 1
removals-le_example = removals-le sample_steps sample_guards sample_guards-Single

-- Numbers are spelled in unary, and below 2^64.
abbrev unary : ℕ → Bytes
unary zero = []
unary (suc n) = 49 ∷ unary n

abbrev read_unary : Stoull
read_unary text =
    if ltb (length text) (2 ^ 64) then ok (length text, length text) else err out_of_range

length-unary : (n : ℕ) → length (unary n) ≡ n
length-unary zero = refl
length-unary (suc n) = ap suc (length-unary n)

read_unary-Spells : Spells read_unary unary
read_unary-Spells n below =
    let long = length-unary n in
    let fits : ltb (length (unary n)) (2 ^ 64) ≡ true = ground (arith, long) in
    rw fits (ap (λ m. ok (m, length (unary n))) long)

abbrev sample_options : Options
sample_options = record default_options {
  socket_path = sample_path;
  maximum_jobs = 3;
  gpu_enabled = true;
}

sample_options-IsOptions : IsOptions sample_options
sample_options-IsOptions = record {
  concurrency_range = (omega arith, omega arith);
  jobs_range = (omega arith, omega arith);
  sessions_range = (omega arith, omega arith);
  connections_range = (omega arith, omega arith);
  reachable = refl;
}

parse_options-arguments_of_example :
    parse_options read_unary (arguments_of read_unary unary sample_options) ≡ ok sample_options
parse_options-arguments_of_example =
    parse_options-arguments_of read_unary unary read_unary-Spells sample_options
      sample_options-IsOptions

parse_options-IsOptions_example : IsOptions sample_options
parse_options-IsOptions_example =
    parse_options-IsOptions read_unary (arguments_of read_unary unary sample_options) sample_options
      (parse_options-arguments_of read_unary unary read_unary-Spells sample_options
        sample_options-IsOptions)

config_invalid-parse_options_example : config_invalid (config_of sample_options) ≡ false
config_invalid-parse_options_example =
    config_invalid-parse_options read_unary (arguments_of read_unary unary sample_options)
      sample_options
      (parse_options-arguments_of read_unary unary read_unary-Spells sample_options
        sample_options-IsOptions)
      refl (omega arith)

-- A handler reads and another registers while the server is being stopped.
abbrev sample_events : List Event
sample_events =
    registers 1 ∷ tests 1 ∷ raises ∷ registers 2 ∷ sweeps ∷ tests 2 ∷ registers 3 ∷ tests 3 ∷ []

run-IsSwept_example : IsSwept (run sample_events quiet_floor)
run-IsSwept_example = run-IsSwept sample_events

-- The first handler still reads, and is interrupted; the second leaves.
sample_floor :
    ((run sample_events quiet_floor).place 1 ≡ reading)
    × ((run sample_events quiet_floor).interrupted 1 ≡ true)
    × ((run sample_events quiet_floor).place 2 ≡ leaving)
unfolding run photospider_daemon.Server.Interruption.step photospider_daemon.Base.IdSets.store
sample_floor = (refl, refl, refl)
