-- ===== src/Socket/Descriptors/Streams.antt =====
-- src/lib/ipc/unix_socket.cpp: the streams of clients and of the listener, by the system calls that
-- make them.
use photospider_daemon.Base.{
  ℕ, zero, Bool, not, Bytes, ◌==◌, if◌then◌else◌, Option, none, some, bytes_of, String,
}
use photospider_daemon.Base.Outcome.{ok, err}
use photospider_daemon.Kernel.{Kernel, Status, Result, success, failure}
use photospider_daemon.Socket.{validate_unix_socket_path}
use photospider_daemon.Socket.Descriptors.{
  Reply, returned, M, pure, ◌>>=◌, ◌>>◌, call, close, errno_status, keep_if_ok, obtain,
}

-- What the build of the platform has: SOCK_CLOEXEC at `socket` and at `accept4`, SO_NOSIGPIPE.
pub record Platform : Type 0 where
  pub socket_flag : Bool
  pub accept_flag : Bool
  pub no_sigpipe_option : Bool

pub data AcceptDisposition : Type 0 where
  accepted peer_rejected fatal_failure : AcceptDisposition

-- What the owner of the listener gets: a stream only where it is accepted.
pub record SameUserAcceptResult : Type 0 where
  pub disposition : AcceptDisposition
  pub descriptor : Option ℕ
  pub status : Status

abbrev pub without_stream : AcceptDisposition → Status → SameUserAcceptResult
without_stream disposition status = record {
  disposition = disposition;
  descriptor = none;
  status = status;
}

module _ ⦃k : Kernel⦄ where
  abbrev pub suppressed : Reply → M Status
  suppressed (returned zero) = pure success
  suppressed _ = errno_status "could not suppress local socket SIGPIPE"

  -- `connect_unix_socket` behind the socket, which it owns.
  abbrev pub connected : ℕ → Reply → M (Result ℕ)
  connected d (returned zero) = pure (ok d)
  connected d _ = do
    status ← errno_status "could not connect local socket"
    close d
    pure (err status)

  abbrev pub connect_prepared : Result ℕ → M (Result ℕ)
  connect_prepared (err status) = pure (err status)
  connect_prepared (ok d) = call >>= connected d

  -- `verify_same_user` on Linux, where the peer's user id is read by a call.
  unfoldable pub verify_same_user : (peer_uid euid : ℕ) → Reply → M (AcceptDisposition × Status)
  verify_same_user peer_uid euid (returned zero) =
      if not (peer_uid == euid)
      then pure (
        peer_rejected,
        failure k.invalid_argument (bytes_of "local peer uid does not match daemon uid"),
      )
      else pure (accepted, success)
  verify_same_user peer_uid euid _ = do
    status ← errno_status "could not read local peer identity"
    pure (fatal_failure, status)

  abbrev pub judged : ℕ → AcceptDisposition × Status → M SameUserAcceptResult
  judged d (accepted, status) =
      pure (record { disposition = accepted; descriptor = some d; status = success })
  judged d (disposition, status) = close d >> pure (without_stream disposition status)

  abbrev pub judge_prepared : (peer_uid euid : ℕ) → Result ℕ → M SameUserAcceptResult
  judge_prepared peer_uid euid (err status) = pure (without_stream fatal_failure status)
  judge_prepared peer_uid euid (ok d) = call >>= verify_same_user peer_uid euid >>= judged d

  module _ (platform : Platform) where
    unfoldable pub create_stream_socket : String → M (Result ℕ)
    unfolding obtain
    create_stream_socket action = obtain platform.socket_flag action

    unfoldable pub accept_stream : M (Result ℕ)
    unfolding obtain
    accept_stream = obtain platform.accept_flag "local accept failed"

    unfoldable pub configure_no_sigpipe : M Status
    configure_no_sigpipe = if platform.no_sigpipe_option then call >>= suppressed else pure success

    unfoldable pub prepare_stream : ℕ → M (Result ℕ)
    unfolding configure_no_sigpipe
    prepare_stream d = configure_no_sigpipe >>= keep_if_ok d

    abbrev pub connect_created : Result ℕ → M (Result ℕ)
    connect_created (err status) = pure (err status)
    connect_created (ok d) = prepare_stream d >>= connect_prepared

    -- `socket_address`: the path's status decides.
    unfoldable pub connect_unix_socket : ℕ → Bytes → M (Result ℕ)
    connect_unix_socket capacity path =
        let checked = validate_unix_socket_path capacity path in
        if k.status_ok checked
        then create_stream_socket "could not create local socket" >>= connect_created
        else pure (err checked)

    abbrev pub prepare_accepted : (peer_uid euid : ℕ) → Result ℕ → M SameUserAcceptResult
    prepare_accepted peer_uid euid (err status) = pure (without_stream fatal_failure status)
    prepare_accepted peer_uid euid (ok d) = prepare_stream d >>= judge_prepared peer_uid euid

    unfoldable pub accept_same_user : (peer_uid euid : ℕ) → M SameUserAcceptResult
    accept_same_user peer_uid euid = accept_stream >>= prepare_accepted peer_uid euid
