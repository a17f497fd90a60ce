-- ===== src/Socket/Descriptors.antt =====
-- src/lib/ipc/unix_socket.cpp: descriptors and who closes them. A `UniqueDescriptor` is closed by
-- its destructor, which is written out where one runs.
pub mod Streams
pub mod Ending
pub mod Settling
pub mod Acceptance
use photospider_daemon.Base.{
  ℕ, zero, suc, ◌+◌, Bool, true, false, not, List, [], ◌∷◌, ◌++◌, Bytes, ◌==◌, if◌then◌else◌,
  Option, none, some, bytes_of, String,
}
use photospider_daemon.Base.Outcome.{Outcome, ok, err}
use photospider_daemon.Kernel.{Kernel, Status, Result, success, failure}
use photospider_daemon.Socket.{validate_unix_socket_path}

-- The errors that the code tells apart: EINTR, those by which a system call refuses a flag that
-- it does not know, and the others.
pub data Errno : Type 0 where
  interrupted unsupported other : Errno

-- The answer of a system call: its value, or -1 with `errno` and its text.
pub data Reply : Type 0 where
  returned : ℕ → Reply
  failing : Errno → Bytes → Reply

-- The open descriptors, each with its close-on-exec flag, the text of `errno`, and the answers to
-- come.
pub record World : Type 0 where
  pub table : List (ℕ × Bool)
  pub error : Bytes
  pub script : List Reply

-- `none` is a call that goes on for ever.
abbrev pub M : Type 0 → Type 0
M A = World → Option (A × World)

abbrev pub pure : {A : Type 0} → A → M A
pure a w = some (a, w)

infixl 5 ◌>>=◌ ◌>>◌
abbrev pub ◌>>=◌ : {A B : Type 0} → M A → (A → M B) → M B
◌>>=◌ m f w = elim (m w) [ none ↦ none | some (a, after) ↦ f a after ]

abbrev pub ◌>>◌ : {A B : Type 0} → M A → M B → M B
m >> n = m >>= λ _. n

-- The first reply, or the first that is not EINTR, with the text of `errno` behind it.
abbrev pub settled : Reply → List Reply → World → World
settled (returned n) rest w = record w { script = rest }
settled (failing errno text) rest w = record w { script = rest; error = text }

abbrev pub reply_of : List Reply → M Reply
reply_of [] w = none
reply_of (reply ∷ rest) w = some (reply, settled reply rest w)

-- A system call.
unfoldable pub call : M Reply
call w = reply_of w.script w

unfoldable pub retry_from : List Reply → M Reply
retry_from [] w = none
retry_from (returned n ∷ rest) w = some (returned n, settled (returned n) rest w)
retry_from (failing interrupted text ∷ rest) w =
    retry_from rest (settled (failing interrupted text) rest w)
retry_from (failing unsupported text ∷ rest) w =
    some (failing unsupported text, settled (failing unsupported text) rest w)
retry_from (failing other text ∷ rest) w =
    some (failing other text, settled (failing other text) rest w)

-- A system call in a loop while it is interrupted.
unfoldable pub retry : M Reply
retry w = retry_from w.script w

-- `::close`, and what a call does to the table that makes a descriptor or sets its flag.
abbrev pub without : ℕ → List (ℕ × Bool) → List (ℕ × Bool)
without d [] = []
without d ((e, flag) ∷ rest) = if e == d then rest else (e, flag) ∷ without d rest

abbrev pub flagged : ℕ → List (ℕ × Bool) → List (ℕ × Bool)
flagged d [] = []
flagged d ((e, flag) ∷ rest) = if e == d then (e, true) ∷ rest else (e, flag) ∷ flagged d rest

unfoldable pub close : ℕ → M (Unit {0})
close d w = some (tt, record w { table = without d w.table })

abbrev pub opened : ℕ → Bool → M (Unit {0})
opened d flag w = some (tt, record w { table = (d, flag) ∷ w.table })

abbrev pub set_flag : ℕ → M (Unit {0})
set_flag d w = some (tt, record w { table = flagged d w.table })

module _ ⦃k : Kernel⦄ where
  -- `errno_status`.
  abbrev pub errno_status : String → M Status
  errno_status action w = some (failure k.internal (bytes_of action ++ bytes_of ": " ++ w.error), w)

  abbrev pub refuse : {A : Type 0} → String → M (Result A)
  refuse action = do status ← errno_status action; pure (err status)

  -- A result with the owner of `d`, which closes it unless the result is success.
  abbrev pub keep_if_ok : ℕ → Status → M (Result ℕ)
  keep_if_ok d status = if k.status_ok status then pure (ok d) else close d >> pure (err status)

  -- The second call of `set_close_on_exec`, where the first has read the flags.
  unfoldable pub write_flags : ℕ → Reply → M Status
  write_flags d (failing errno text) = errno_status "could not set local socket close-on-exec"
  write_flags d (returned zero) = set_flag d >> pure success
  write_flags d (returned (suc n)) = errno_status "could not set local socket close-on-exec"

  unfoldable pub read_flags : ℕ → Reply → M Status
  unfolding write_flags
  read_flags d (failing errno text) = errno_status "could not read local socket descriptor flags"
  read_flags d (returned flags) = retry >>= write_flags d

  unfoldable pub set_close_on_exec : ℕ → M Status
  unfolding read_flags
  set_close_on_exec d = retry >>= read_flags d

  -- The creation of a stream without the flag.
  unfoldable pub own_plain : String → Reply → M (Result ℕ)
  own_plain action (failing errno text) = refuse action
  own_plain action (returned d) = opened d false >> (set_close_on_exec d >>= keep_if_ok d)

  unfoldable pub obtain_plain : String → M (Result ℕ)
  unfolding own_plain
  obtain_plain action = retry >>= own_plain action

  -- And with it: without again, only where the flag is not supported.
  unfoldable pub own_flagged : String → Reply → M (Result ℕ)
  unfolding obtain_plain
  own_flagged action (returned d) = opened d true >> pure (ok d)
  own_flagged action (failing unsupported text) = obtain_plain action
  own_flagged action (failing _ text) = refuse action

  unfoldable pub obtain : Bool → String → M (Result ℕ)
  unfolding own_flagged obtain_plain
  obtain true action = retry >>= own_flagged action
  obtain false action = obtain_plain action
