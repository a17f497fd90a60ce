-- ===== src/Socket/Listening.antt =====
-- src/lib/ipc/unix_socket.cpp: `create_unix_listener`, by the answers of its system calls.
pub mod Ownership
use photospider_daemon.Base.{
  ℕ, Bool, true, false, not, ◌&&◌, [], ◌++◌, Bytes, ◌==◌, if◌then◌else◌, Option, none, some,
  bytes_of, String,
}
use photospider_daemon.Base.Outcome.{Outcome, ok, err}
use photospider_daemon.Kernel.{Kernel, Status, Result, success, failure}
use photospider_daemon.Socket.{
  validate_unix_socket_path, split_socket_path, SocketPathParts, SocketNodeIdentity, Stat,
  directory_matches, SocketNodeGuard, make_guard, arm, abandon_unverified_bind, Observed, remove,
}

-- `fstatat` of the leaf before the bind: a node, `ENOENT`, or another error.
pub data Existing : Type 0 where
  present absent : Existing
  unreadable : Bytes → Existing

-- What the calls of one creation answer: an error is its text, and `none` is no error. The status
-- of `create_stream_socket` is given whole.
pub record Answers : Type 0 where
  pub open_parent : Option Bytes
  pub parent_state : Outcome Bytes Stat
  pub parent_path : Option Stat
  pub existing : Existing
  pub create_socket : Option Status
  pub bind : Option Bytes
  pub node : Option Stat
  pub parent_path_again : Option Stat
  pub listen : Option Bytes
  -- What the guard's destructor observes after a failure.
  pub observed : Observed

-- The result, and whether a node was bound and one unlinked.
pub record Listening : Type 0 where
  pub result : Result SocketNodeGuard
  pub bound : Bool
  pub unlinked : Bool

module _ ⦃k : Kernel⦄ where
  abbrev pub errno_status : String → Bytes → Status
  errno_status action text = failure k.internal (bytes_of action ++ bytes_of ": " ++ text)

  abbrev pub early : Status → Listening
  early status = record { result = err status; bound = false; unlinked = false }

  -- A failure behind the guard, whose destructor runs.
  abbrev pub give_up : Status → Bool → SocketNodeGuard → Answers → Listening
  give_up status bound g answers = record {
    result = err status;
    bound = bound;
    unlinked = (remove answers.observed g).0;
  }

  unfoldable pub start_listening : SocketNodeGuard → Answers → Listening
  start_listening g answers = elim answers.listen [
    | some text ↦ give_up (errno_status "could not listen locally" text) true g answers
    | none ↦ record { result = ok g; bound = true; unlinked = false }
  ]

  abbrev pub unverified : SocketNodeGuard → Answers → Listening
  unverified g answers =
      give_up (failure k.internal (bytes_of "could not prove the bound socket pathname generation"))
        true (abandon_unverified_bind g) answers

  unfoldable pub capture_node : SocketNodeGuard → Answers → Listening
  capture_node g answers = elim answers.node [
    | none ↦ unverified g answers
    | some node ↦
        if node.is_socket && directory_matches answers.parent_path_again g.parent_identity
        then start_listening (arm node.identity g) answers
        else unverified g answers
  ]

  unfoldable pub bind_socket : SocketNodeGuard → Answers → Listening
  bind_socket g answers = elim answers.create_socket [
    | some status ↦ give_up status false g answers
    | none ↦ elim answers.bind [
      | some text ↦ give_up (errno_status "could not bind local socket" text) false g answers
      | none ↦ capture_node g answers
    ]
  ]

  unfoldable pub check_existing : SocketPathParts → Stat → Answers → Listening
  check_existing parts parent answers = elim answers.existing [
    | present ↦ early (failure k.invalid_argument (bytes_of "listener path already exists"))
    | unreadable text ↦ early (errno_status "could not inspect socket path" text)
    | absent ↦ bind_socket (make_guard true parts parent.identity) answers
  ]

  unfoldable pub check_parent : SocketPathParts → Stat → Answers → Listening
  check_parent parts parent answers =
      if not parent.is_directory
      then early (failure k.invalid_argument (bytes_of "socket parent is not a directory"))
      else if not (directory_matches answers.parent_path parent.identity)
      then early
          (failure k.invalid_argument (bytes_of "socket parent directory identity is not stable"))
      else check_existing parts parent answers

  unfoldable pub open_parent_directory : SocketPathParts → Answers → Listening
  open_parent_directory parts answers = elim answers.open_parent [
    | some text ↦ early (errno_status "could not open socket parent directory" text)
    | none ↦ elim answers.parent_state [
      | err text ↦ early (errno_status "could not inspect socket parent directory" text)
      | ok parent ↦ check_parent parts parent answers
    ]
  ]

  -- `create_unix_listener` of a path, and of a backlog that is positive or not.
  unfoldable pub create_unix_listener : ℕ → Bytes → Bool → Answers → Listening
  create_unix_listener capacity path positive answers =
      let checked = validate_unix_socket_path capacity path in
      if not (k.status_ok checked)
      then early checked
      else if not positive
      then early
          (failure k.invalid_argument (bytes_of "Unix-domain listener backlog must be positive"))
      else elim (split_socket_path path) [
        | err status ↦ early status
        | ok parts ↦ open_parent_directory parts answers
      ]
