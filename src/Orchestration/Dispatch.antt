-- ===== src/Orchestration/Dispatch.antt =====
-- `Service::dispatch` of src/lib/orchestration/service.cpp: the routing of a request, behind the
-- exception fence. The calls on the service's parts are an interface, and so is an exception that
-- they throw.
pub mod Correlation
pub mod Shutdown
pub mod Fence
use photospider_daemon.Base.{
  ℕ, Bool, true, false, not, ◌&&◌, [], Bytes, ◌==◌, if◌then◌else◌, Option, none, some, bytes_of,
}
use photospider_daemon.Base.Outcome.{Outcome, ok, err}
use photospider_daemon.Kernel.{Kernel, Status, Result, success, failure}
use photospider_daemon.Protocol.{
  protocol_version, SessionId, JobId, JobStatus, JobSubmitOptions, DaemonInfo, Method,
  session_create, session_close, job_submit, job_status, job_cancel, job_result, job_release,
  daemon_info, daemon_shutdown,
}
use photospider_daemon.Workflow.{WorkflowDocument}
use photospider_daemon.Execution.{ExecutionResult}
use photospider_daemon.Codec.Method.{method_inventory}
use photospider_daemon.Codec.Request.{Request, no_session, no_job}
use photospider_daemon.Codec.Response.{Response, blank_response, no_result, no_info, no_job_status}

-- `std::bad_alloc`, a `std::exception` with its `what()` (`none` is a null pointer), another.
pub data Raised : Type 0 where
  no_memory : Raised
  standard : Option Bytes → Raised
  nonstandard : Raised

-- What `dispatch` calls: the members of `Service::Impl` and of its `JobRegistry`. Each may throw.
pub record Calls (S Value : Type 0) : Type 0 where
  pub create_session : WorkflowDocument → S → Outcome Raised (Result SessionId) × S
  pub close_session : SessionId → S → Outcome Raised Status × S
  pub submit : SessionId → JobSubmitOptions → S → Outcome Raised (Result JobId) × S
  pub status : JobId → S → Outcome Raised (Result JobStatus) × S
  pub cancel : JobId → S → Outcome Raised Status × S
  pub result : JobId → S → Outcome Raised (Result (ExecutionResult Value)) × S
  pub release : JobId → S → Outcome Raised Status × S
  pub session_count : S → ℕ
  pub size : S → ℕ

-- `Service::Impl`: the sessions and jobs, the configuration, and the fence that shutdown raises.
pub record Service (S : Type 0) : Type 0 where
  pub inner : S
  pub instance_id : ℕ
  pub service_version : Bytes
  pub maximum_concurrency : ℕ
  pub maximum_sessions : ℕ
  pub shutting_down : Bool

abbrev pub is_shutdown : Method → Bool
is_shutdown daemon_shutdown = true
is_shutdown _ = false

module _ {S : Type 0} where
  -- The answer to daemon.info, from the two live counts.
  abbrev pub current_info : ℕ → ℕ → Service S → DaemonInfo
  current_info sessions jobs service = record {
    version = protocol_version;
    instance_id = service.instance_id;
    service_version = service.service_version;
    transport = bytes_of "unix-domain";
    methods = method_inventory;
    active_sessions = sessions;
    active_jobs = jobs;
    maximum_concurrency = service.maximum_concurrency;
    maximum_sessions = service.maximum_sessions;
  }

module _ ⦃k : Kernel⦄ {Value : Type 0} where
  -- `fail_response_without_allocation`.
  unfoldable pub failed_response : ℕ → Response Value → Response Value
  failed_response code r = record r {
    status = failure (if code == k.ok_code then k.internal else code) [];
    session_id = no_session;
    job_id = no_job;
    job_snapshot = no_job_status;
    execution_result = no_result;
    info = no_info 0;
    shutdown_after_write = false;
  }

  -- A handler of `dispatch`: the failure with its diagnostic, or without where that throws.
  unfoldable pub fail_with : Bool → ℕ → Bytes → Response Value → Response Value
  fail_with true code diagnostic r = record (failed_response code r) {
    status = failure code diagnostic;
  }
  fail_with false code diagnostic r = failed_response code (failed_response code r)

  unfoldable pub fence : Bool → Raised → Response Value → Response Value
  fence built no_memory r =
      fail_with built k.resource_exhausted (bytes_of "daemon orchestration allocation failed") r
  fence built (standard none) r = fail_with built k.internal [] r
  fence built (standard (some what)) r = fail_with built k.internal what r
  fence built nonstandard r =
      fail_with built k.internal (bytes_of "daemon orchestration raised a nonstandard exception") r

  abbrev pub put_session : SessionId → Response Value → Response Value
  put_session id r = record r { session_id = id }

  abbrev pub put_job : JobId → Response Value → Response Value
  put_job id r = record r { job_id = id }

  abbrev pub put_snapshot : JobStatus → Response Value → Response Value
  put_snapshot s r = record r { job_snapshot = s }

  abbrev pub put_execution : ExecutionResult Value → Response Value → Response Value
  put_execution x r = record r { execution_result = x }

  -- The status of a result, and its value where there is one.
  abbrev pub answer :
      {A : Type 0}
      → (A → Response Value → Response Value)
      → Response Value
      → Result A
      → Response Value
  answer put r (ok a) = put a (record r { status = success })
  answer put r (err status) = record r { status = status }

  abbrev pub answered :
      {A S : Type 0}
      → (A → Response Value)
      → Outcome Raised A × S
      → Outcome Raised (Response Value) × S
  answered f (ok a, s) = (ok (f a), s)
  answered f (err raised, s) = (err raised, s)

  module _ {S : Type 0} ⦃calls : Calls S Value⦄ where
    -- The `switch` of `dispatch` on a response with the request's correlation.
    unfoldable pub route :
        Method → Request → Response Value → Service S → Outcome Raised (Response Value) × S
    route session_create q r service =
        answered (answer put_session r) (calls.create_session q.document service.inner)
    route session_close q r service =
        answered (λ status. record r { status = status })
          (calls.close_session q.session_id service.inner)
    route job_submit q r service =
        answered (answer put_job r) (calls.submit q.session_id q.submit_options service.inner)
    route job_status q r service =
        answered (answer put_snapshot r) (calls.status q.job_id service.inner)
    route job_cancel q r service =
        answered (λ status. record r { status = status }) (calls.cancel q.job_id service.inner)
    route job_result q r service =
        answered (answer put_execution r) (calls.result q.job_id service.inner)
    route job_release q r service =
        answered (λ status. record r { status = status }) (calls.release q.job_id service.inner)
    route daemon_info q r service =
        let info =
          current_info (calls.session_count service.inner) (calls.size service.inner) service in
        (ok (record r { status = success; info = info }), service.inner)
    route daemon_shutdown q r service = (ok (record r { status = success }), service.inner)

  -- The commit of a shutdown.
  abbrev pub accept :
      {S : Type 0} → Method → Response Value → Service S → Response Value × Service S
  accept method r service =
      if is_shutdown method
      then (record r { shutdown_after_write = true }, record service { shutting_down = true })
      else (r, service)

  -- Behind the `switch`: `late` is an exception once the payload is there.
  abbrev pub settle :
      {S : Type 0}
      → Option Raised
      → Bool
      → Method
      → Response Value
      → Outcome Raised (Response Value) × S
      → Service S
      → Response Value × Service S
  settle late built method blank (err raised, after) service =
      (fence built raised blank, record service { inner = after })
  settle (some raised) built method blank (ok r, after) service =
      (fence built raised r, record service { inner = after })
  settle none built method blank (ok r, after) service =
      accept method r (record service { inner = after })

  -- `dispatch`. `built` holds where a handler can build its diagnostic.
  unfoldable pub dispatch :
      {S : Type 0} ⦃calls : Calls S Value⦄
      → Option Raised
      → Bool
      → Request
      → Service S
      → Response Value × Service S
  dispatch late built q service =
      let blank : Response Value = blank_response q.request_id q.method success in
      if not (is_shutdown q.method) && service.shutting_down
      then (
        record blank {
          status = failure k.cancelled (bytes_of "daemon orchestration is shutting down");
        },
        service,
      )
      else settle late built q.method blank (route q.method q blank service) service
