-- ===== src/Client.antt =====
-- `Client` of src/lib/ipc/client.cpp: its connection and request ids, one correlated call, and the
-- nine remote procedures.
pub mod Calls
pub mod Framed
use photospider_daemon.Base.{
  ℕ, ◌+◌, ◌%◌, ◌^◌, Bool, true, false, not, ◌&&◌, List, [], Bytes, ◌==◌, if◌then◌else◌, Option,
  none, some, bytes_of,
}
use photospider_daemon.Base.Outcome.{ok, err}
use photospider_daemon.Kernel.{Kernel, Status, Result, success, failure}
use photospider_daemon.Protocol.{
  SessionId, JobId, JobStatus, JobSubmitOptions, DaemonInfo, Method, session_create, session_close,
  job_submit, job_status, job_cancel, job_result, job_release, daemon_info, daemon_shutdown,
}
use photospider_daemon.Workflow.{WorkflowDocument}
use photospider_daemon.Execution.{ExecutionResult, Values}
use photospider_daemon.Codec.Method.{method_code}
use photospider_daemon.Codec.Request.{Request, blank_request, encode_request}
use photospider_daemon.Codec.Response.{Response, decode_response}
use photospider_daemon.Codec.Correlation.{decode_protocol_error}
use photospider_daemon.Frame.{
  Pace, Input, Acceptance, Output, Progress, Reads, read_frame, write_frame,
}

-- `Client::Impl`: whether the descriptor is valid, and the next id.
pub record Connection : Type 0 where
  pub valid : Bool
  pub next_request_id : ℕ

-- A client; `none` is one that was moved from.
abbrev pub Client : Type 0
Client = Option Connection

-- The local stream during one call: what `send` accepts, what the peer answers to the bytes that
-- were sent until it closes, and how `recv` doles it out.
pub record Link : Type 0 where
  pub acceptances : List Acceptance
  pub reply : Bytes → Bytes
  pub paces : List Pace

-- `descriptor.reset()`.
abbrev pub reset : Connection → Connection
reset c = record c { valid = false }

abbrev pub is_daemon_info : Method → Bool
is_daemon_info method = method_code method == method_code daemon_info

abbrev pub disconnect : Client → Client
disconnect none = none
disconnect (some c) = some (reset c)

-- `Client::connected`.
unfoldable pub is_connected : Client → Bool
is_connected none = false
is_connected (some c) = c.valid

abbrev pub impl : Client → Connection
impl none = record { valid = false; next_request_id = 1 }
impl (some c) = c

module _ ⦃k : Kernel⦄ where
  -- `Client::connect`, where `connect_unix_socket` fails with a status or connects.
  unfoldable pub connect : Option Status → Client → Status × Client
  connect (some status) client = (status, some (impl client))
  connect none client = (success, some (record { valid = true; next_request_id = 1 }))

-- A whole call: `none` is a loop out of fuel.
abbrev pub Called : Type 0 → Type 0
Called Value = Option (Result (Response Value) × Connection)

module _ ⦃k : Kernel⦄ where
  abbrev pub moved_from : Status
  moved_from = failure k.invalid_argument (bytes_of "client is moved from")

  abbrev pub unknown_outcome : Status
  unknown_outcome =
      failure k.internal
        (bytes_of "local peer closed before a response; request outcome is unknown")

module _ ⦃k : Kernel⦄ {Value : Type 0} where
  -- The failure of a frame that is no response to the request: the status of a protocol error
  -- without correlation, or the decoder's.
  abbrev pub refusal : Status → Result (Response Value) → Result (Response Value)
  refusal status (err e) = err status
  refusal status (ok e) =
      if (e.request_id == 0) && is_daemon_info e.method then err e.status else err status

  module _ ⦃vs : Values Value⦄ where
    unfoldable pub understand : Request → Bytes → Connection → Result (Response Value) × Connection
    understand q frame c = elim (decode_response frame q.method q.request_id) [
      | ok r ↦ (ok r, c)
      | err status ↦ (refusal status (decode_protocol_error frame), reset c)
    ]

    -- What is done with the frame that was read. No prefix of it is kept.
    unfoldable pub answered : Request → Connection → Reads (Result Bytes × Progress) → Called Value
    answered q c none = none
    answered q c (some ((err status, progress), after)) =
        some (err (if status.code == k.not_found then unknown_outcome else status), reset c)
    answered q c (some ((ok frame, progress), after)) = some (understand q frame c)

    abbrev pub await : Request → Connection → Link → Status × Output → Called Value
    await q c link (status, out) =
        if k.status_ok status
        then answered q c
            (read_frame (record { incoming = link.reply out.sent; paces = link.paces }))
        else some (err status, reset c)

    unfoldable pub exchange : Request → Link → Connection → Called Value
    exchange q link c = elim (encode_request q) [
      | err status ↦ some (err status, c)
      | ok payload ↦
          await q c link
            (write_frame payload (record { acceptances = link.acceptances; sent = [] }))
    ]

    -- `Client::Impl::call`.
    unfoldable pub call : Request → Link → Connection → Called Value
    call q link c =
        if not c.valid
        then some (err (failure k.invalid_argument (bytes_of "client is not connected")), c)
        else if c.next_request_id == 0
        then some
            (err (failure k.resource_exhausted (bytes_of "client request id exhausted")), reset c)
        else exchange (record q { request_id = c.next_request_id }) link
            (record c { next_request_id = (c.next_request_id + 1) % 2 ^ 64 })

  -- `Result<A>` of a procedure, and its `Status`.
  abbrev pub value_of : {A : Type 0} → (Response Value → A) → Result (Response Value) → Result A
  value_of get (err status) = err status
  value_of get (ok r) = if k.status_ok r.status then ok (get r) else err r.status

  abbrev pub status_of : Result (Response Value) → Status
  status_of (err status) = status
  status_of (ok r) = r.status

  abbrev pub returned :
      {A : Type 0} → (Result (Response Value) → A) → Called Value → Option (A × Client)
  returned read none = none
  returned read (some (r, c)) = some (read r, some c)

-- The procedures. A client that was moved from is left so.
module _ ⦃k : Kernel⦄ (Value : Type 0) ⦃vs : Values Value⦄ (link : Link) where
  abbrev value_call :
      {A : Type 0} → Request → (Response Value → A) → Client → Option (Result A × Client)
  value_call q get none = some (err moved_from, none)
  value_call q get (some c) = returned (value_of get) (call q link c)

  abbrev status_call : Request → Client → Option (Status × Client)
  status_call q none = some (moved_from, none)
  status_call q (some c) = returned {Value = Value} status_of (call q link c)

  unfoldable pub create_session : WorkflowDocument → Client → Option (Result SessionId × Client)
  create_session document =
      value_call (record (blank_request 0 session_create) { document = document })
        (λ r. r.session_id)

  unfoldable pub close_session : SessionId → Client → Option (Status × Client)
  close_session id = status_call (record (blank_request 0 session_close) { session_id = id })

  unfoldable pub submit_job : SessionId → JobSubmitOptions → Client → Option (Result JobId × Client)
  submit_job id options =
      value_call (record (blank_request 0 job_submit) { session_id = id; submit_options = options })
        (λ r. r.job_id)

  unfoldable pub read_status : JobId → Client → Option (Result JobStatus × Client)
  read_status id =
      value_call (record (blank_request 0 job_status) { job_id = id }) (λ r. r.job_snapshot)

  unfoldable pub cancel_job : JobId → Client → Option (Status × Client)
  cancel_job id = status_call (record (blank_request 0 job_cancel) { job_id = id })

  unfoldable pub read_result : JobId → Client → Option (Result (ExecutionResult Value) × Client)
  read_result id =
      value_call (record (blank_request 0 job_result) { job_id = id }) (λ r. r.execution_result)

  unfoldable pub release_job : JobId → Client → Option (Status × Client)
  release_job id = status_call (record (blank_request 0 job_release) { job_id = id })

  unfoldable pub read_info : Client → Option (Result DaemonInfo × Client)
  read_info = value_call (blank_request 0 daemon_info) (λ r. r.info)

  -- The connection goes whatever the daemon answers.
  unfoldable pub shut_down : Client → Option (Status × Client)
  shut_down c = elim (status_call (blank_request 0 daemon_shutdown) c) [
    | none ↦ none
    | some (status, after) ↦ some (status, disconnect after)
  ]
