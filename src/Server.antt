-- ===== src/Server.antt =====
-- src/lib/server/server.cpp: one connection's handler, from its frames to its responses. Requests
-- go to a `Handler`, as to `Service::dispatch`.
pub mod Rounds
pub mod Exchange
pub mod Accept
pub mod Run
pub mod Interruption
use photospider_daemon.Base.{
  ℕ, Bool, true, false, not, ◌&&◌, List, [], ◌∷◌, Bytes, ◌==◌, if◌then◌else◌, Option, none, some,
  bytes_of,
}
use photospider_daemon.Base.Outcome.{ok, err}
use photospider_daemon.Kernel.{Kernel, Status, Result, success, failure}
use photospider_daemon.Execution.{Values}
use photospider_daemon.Codec.Request.{Request, decode_request}
use photospider_daemon.Codec.Response.{Response, encode_response}
use photospider_daemon.Codec.Correlation.{encode_protocol_error}
use photospider_daemon.Orchestration.Dispatch.{Raised, no_memory, standard, nonstandard}
use photospider_daemon.Frame.{Input, Output, Progress, Reads, read_frame, write_frame}

-- `Service::dispatch` as its caller sees it.
pub record Handler (S Value : Type 0) : Type 0 where
  pub dispatch : Request → S → Response Value × S

-- A round of the loop, behind the registration of the connection: nothing is thrown, or an exception while the request is decoded, or one
-- while the response is encoded or written. A second exception may keep the diagnostic from being
-- built.
pub data Round : Type 0 where
  quiet : Round
  throws_early throws_late : Raised → Bool → Round

-- A connection, the service behind it, and whether a shutdown was accepted on it.
pub record Connection (S : Type 0) : Type 0 where
  pub state : S
  pub input : Input
  pub output : Output
  pub accepted : Bool

module _ ⦃k : Kernel⦄ where
  abbrev pub send_failure : Result Bytes → Output → Output
  send_failure (err e) out = out
  send_failure (ok bytes) out = (write_frame bytes out).1

  -- The bytes that a failure takes its correlation from: the whole payload, or the prefix of it.
  abbrev pub correlation_source : Option Bytes → Progress → Option Bytes
  correlation_source (some payload) progress = some payload
  correlation_source none [] = none
  correlation_source none (b ∷ bs) = some (b ∷ bs)

  unfoldable pub write_protocol_failure : Status → Option Bytes → Progress → Output → Output
  write_protocol_failure status payload progress out =
      send_failure (encode_protocol_error status (correlation_source payload progress)) out

  -- `set_failure_without_allocation`.
  abbrev pub bare_failure : ℕ → Status
  bare_failure code = failure (if code == k.ok_code then k.internal else code) []

  -- `write_handler_failure`.
  unfoldable pub write_handler_failure : Bool → ℕ → Bytes → Progress → Output → Output
  write_handler_failure built code diagnostic progress out =
      write_protocol_failure (if built then failure code diagnostic else bare_failure code) none
        progress out

  -- The handlers of `serve_connection`.
  unfoldable pub catch_raised : Raised → Bool → Progress → Output → Output
  catch_raised no_memory built =
      write_handler_failure built k.resource_exhausted
        (bytes_of "connection handler allocation failed")
  catch_raised (standard none) built = write_handler_failure built k.internal []
  catch_raised (standard (some what)) built = write_handler_failure built k.internal what
  catch_raised nonstandard built =
      write_handler_failure built k.internal (bytes_of "connection handler raised an exception")

  -- The write of an encoded response, and whether the loop goes on.
  abbrev pub written : {S : Type 0} → Connection S → Status × Output → Bool × Connection S
  written c (status, out) = (k.status_ok status && not c.accepted, record c { output = out })

  module _ {S Value : Type 0} ⦃vs : Values Value⦄ where
    -- The response of `dispatch` is encoded and written.
    unfoldable pub respond :
        Round → Bytes → Progress → Response Value → Connection S → Bool × Connection S
    respond (throws_late raised built) frame progress r c =
        (false, record c { output = catch_raised raised built progress c.output })
    respond _ frame progress r c = elim (encode_response r) [
      | err status ↦
          (false, record c { output = write_protocol_failure status (some frame) [] c.output })
      | ok bytes ↦ written c (write_frame bytes c.output)
    ]

    abbrev pub dispatched :
        Round → Bytes → Progress → Connection S → Response Value × S → Bool × Connection S
    dispatched round frame progress c (r, after) =
        respond round frame progress r
          (record c { state = after; accepted = k.status_ok r.status && r.shutdown_after_write })

  module _ {S Value : Type 0} ⦃vs : Values Value⦄ (h : Handler S Value) where
    -- A frame that was read: whether the loop goes on, and the connection.
    unfoldable pub serve_frame : Round → Bytes → Progress → Connection S → Bool × Connection S
    serve_frame (throws_early raised built) frame progress c =
        (false, record c { output = catch_raised raised built progress c.output })
    serve_frame round frame progress c = elim (decode_request frame) [
      | err status ↦
          (false, record c { output = write_protocol_failure status (some frame) [] c.output })
      | ok q ↦ dispatched round frame progress c (h.dispatch q c.state)
    ]

    -- The loop of `serve_connection`, a round for each entry; then another thread has stopped the
    -- server. `none` is a read out of fuel.
    unfoldable pub serve : List Round → Connection S → Option (Connection S)
    serve [] c = some c
    serve (round ∷ rounds) c = elim (read_frame c.input) [
      | none ↦ none
      | some ((err status, progress), after) ↦ some (record c {
        input = after;
        output =
            if status.code == k.not_found
            then c.output
            else write_protocol_failure status none progress c.output;
      })
      | some ((ok frame, progress), after) ↦
          let (more, next) = serve_frame round frame progress (record c { input = after }) in
          elim more [ true ↦ serve rounds next | false ↦ some next ]
    ]
