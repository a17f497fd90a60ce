-- ===== src/Codec/Method.antt =====
-- Method codes: the enumeration of src/lib/ipc/codec.hpp, and `valid_method`, `decode_method`,
-- `method_name` and `method_inventory` of src/lib/ipc/codec.cpp.
use photospider_daemon.Base.{
  ℕ, Bool, ◌&&◌, ◌||◌, List, [], ◌∷◌, Bytes, leb, ltb, ◌==◌, if◌then◌else◌, bytes_of,
}
use photospider_daemon.Base.SortedMap.{bytes_lt}
use photospider_daemon.Base.Outcome.{ok, err}
use photospider_daemon.Kernel.{Kernel}
use photospider_daemon.Protocol.{
  Method, session_create, session_close, job_submit, job_status, job_cancel, job_result,
  job_release, daemon_info, daemon_shutdown, JobState, queued, running, succeeded, failed,
  cancelled,
}
use photospider_daemon.Codec.Failure.{Codec, invalid}

abbrev pub method_code : Method → ℕ
method_code session_create = 1
method_code session_close = 2
method_code job_submit = 3
method_code job_status = 4
method_code job_cancel = 5
method_code job_result = 6
method_code job_release = 7
method_code daemon_info = 8
method_code daemon_shutdown = 9

-- The enumerator of a code in range.
abbrev pub method_of : ℕ → Method
method_of raw =
    if raw == 1
    then session_create
    else if raw == 2
    then session_close
    else if raw == 3
    then job_submit
    else if raw == 4
    then job_status
    else if raw == 5
    then job_cancel
    else if raw == 6
    then job_result
    else if raw == 7
    then job_release
    else if raw == 8
    then daemon_info
    else daemon_shutdown

-- On the underlying number, which a cast can take out of the enumeration.
unfoldable pub valid_method : ℕ → Bool
valid_method raw = leb (method_code session_create) raw && leb raw (method_code daemon_shutdown)

abbrev pub job_state_code : JobState → ℕ
job_state_code queued = 1
job_state_code running = 2
job_state_code succeeded = 3
job_state_code failed = 4
job_state_code cancelled = 5

abbrev job_state_of : ℕ → JobState
job_state_of raw =
    if raw == 1
    then queued
    else if raw == 2
    then running
    else if raw == 3
    then succeeded
    else if raw == 4
    then failed
    else cancelled

module _ ⦃k : Kernel⦄ where
  unfoldable pub decode_method : ℕ → Codec Method
  decode_method raw =
      if ltb raw (method_code session_create) || ltb (method_code daemon_shutdown) raw
      then err (invalid "wire method code is unknown")
      else ok (method_of raw)

  unfoldable pub decode_job_state : ℕ → Codec JobState
  decode_job_state raw =
      if ltb raw (job_state_code queued) || ltb (job_state_code cancelled) raw
      then err (invalid "wire job state is unknown")
      else ok (job_state_of raw)

unfoldable pub method_name : Method → Bytes
method_name session_create = bytes_of "session.create"
method_name session_close = bytes_of "session.close"
method_name job_submit = bytes_of "job.submit"
method_name job_status = bytes_of "job.status"
method_name job_cancel = bytes_of "job.cancel"
method_name job_result = bytes_of "job.result"
method_name job_release = bytes_of "job.release"
method_name daemon_info = bytes_of "daemon.info"
method_name daemon_shutdown = bytes_of "daemon.shutdown"

-- `std::sort` on strings.
insert_name : Bytes → List Bytes → List Bytes
insert_name name [] = name ∷ []
insert_name name (x ∷ xs) = if bytes_lt x name then x ∷ insert_name name xs else name ∷ x ∷ xs

sort_names : List Bytes → List Bytes
unfolding insert_name
sort_names [] = []
sort_names (x ∷ xs) = insert_name x (sort_names xs)

unfoldable pub method_inventory : List Bytes
unfolding sort_names method_name bytes_lt bytes_of
method_inventory = sort_names (
    method_name daemon_info
    ∷ method_name daemon_shutdown
    ∷ method_name job_cancel
    ∷ method_name job_release
    ∷ method_name job_result
    ∷ method_name job_status
    ∷ method_name job_submit
    ∷ method_name session_close
    ∷ method_name session_create
    ∷ [])
