-- ===== src/Orchestration/Sessions.antt =====
-- The sessions of `Service::Impl` in src/lib/orchestration/service.cpp: the map, the reservations
-- of creations in flight, and the two steps of a close. A shared pointer is the number of the
-- session's id. `none` is `std::terminate`.
pub mod Steps
pub mod Capacity
pub mod Closing
use photospider_daemon.Base.{
  ℕ, ◌+◌, ◌-◌, ◌%◌, ◌^◌, Bool, true, false, not, ◌&&◌, ◌||◌, List, [], ◌∷◌, ◌++◌, length, leb, ◌==◌,
  if◌then◌else◌, Option, none, some, bytes_of, String,
}
use photospider_daemon.Base.IdSets.{member, keep, store}
use photospider_daemon.Base.Outcome.{ok, err}
use photospider_daemon.Kernel.{Kernel, Status, Result, failure}
use photospider_daemon.Protocol.{SessionId, JobId, JobSubmitOptions}
use photospider_daemon.Orchestration.Registry
use photospider_daemon.Orchestration.Registry.{Registry}

pub record Sessions : Type 0 where
  pub maximum_sessions : ℕ
  pub instance_id : ℕ
  -- The keys of the map in order; a new key is greater than all before.
  pub sessions : List ℕ
  -- `SessionRecord::closing`.
  pub closing : ℕ → Bool
  pub pending : ℕ
  pub next_session_id : ℕ

-- The destructor of an active reservation.
unfoldable pub roll_back : Sessions → Option Sessions
roll_back g = if g.pending == 0 then none else some (record g { pending = g.pending - 1 })

-- `finalize_session_close`.
unfoldable pub finalize_close : ℕ → Sessions → Option Sessions
finalize_close i g =
    if not (member i g.sessions) || not (g.closing i)
    then none
    else some (record g { sessions = keep (λ j. not (j == i)) g.sessions })

-- The handler of a close whose snapshot failed.
unfoldable pub reopen : ℕ → Sessions → Sessions
reopen i g = if member i g.sessions then record g { closing = store i false g.closing } else g

-- The session exists and no close has begun.
unfoldable pub is_open : SessionId → Sessions → Bool
is_open id g = not (
    not (id.instance_id == g.instance_id)
    || (id.value == 0 || (not (member id.value g.sessions) || g.closing id.value)))

module _ ⦃k : Kernel⦄ where
  -- The first section of `create_session`.
  unfoldable pub reserve : Sessions → Result Sessions
  reserve g =
      if leb g.maximum_sessions (length g.sessions)
        || leb (g.maximum_sessions - length g.sessions) g.pending
      then err (failure k.resource_exhausted [])
      else if g.next_session_id == 0
      then err (failure k.resource_exhausted (bytes_of "ephemeral namespace id exhausted"))
      else ok (record g { pending = g.pending + 1 })

  -- A failure while the reservation is active.
  abbrev pub fail_create : ℕ → Option Sessions → String → Option (Result SessionId × Sessions)
  fail_create code none text = none
  fail_create code (some after) text = some (err (failure code (bytes_of text)), after)

  -- The second section: the session goes into the map, and the reservation is committed or, on a
  -- failure, rolled back.
  unfoldable pub publish_session : Sessions → Option (Result SessionId × Sessions)
  publish_session g =
      if g.next_session_id == 0
      then fail_create k.resource_exhausted (roll_back g) "ephemeral namespace id exhausted"
      else if member g.next_session_id g.sessions
      then fail_create k.internal (roll_back g) "ephemeral namespace id was duplicated"
      else if g.pending == 0
      then none
      else some (
        ok (record { instance_id = g.instance_id; value = g.next_session_id }),
        record g {
          sessions = g.sessions ++ g.next_session_id ∷ [];
          closing = store g.next_session_id false g.closing;
          pending = g.pending - 1;
          next_session_id = (g.next_session_id + 1) % 2 ^ 64;
        },
      )

  abbrev pub no_session_status : Status
  no_session_status = failure k.not_found (bytes_of "ephemeral namespace does not exist")

  -- `Impl::submit`, under the lifecycle lock.
  unfoldable pub submit_to :
      {R : Type 0}
      → SessionId
      → JobSubmitOptions
      → Sessions
      → Registry R
      → Result JobId × Registry R
  submit_to id options g jobs =
      if is_open id g then Registry.submit id options jobs else (err no_session_status, jobs)

  -- The first section of `close_session`.
  unfoldable pub begin_close : SessionId → Sessions → Result Sessions
  begin_close id g =
      if is_open id g
      then ok (record g { closing = store id.value true g.closing })
      else err no_session_status
