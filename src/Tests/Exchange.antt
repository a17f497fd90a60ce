-- ===== src/Tests/Exchange.antt =====
-- The theorems on dispatch, the client and the server's connections, on sample data.
use photospider_daemon.Base.{
  ℕ, ◌+◌, true, false, [], ◌∷◌, Bytes, List, none, some, ◌≡◌, refl, arith,
}
use photospider_daemon.Base.Outcome.{ok, err}
use photospider_daemon.Kernel.{success}
use photospider_daemon.Protocol.{daemon_shutdown}
use photospider_daemon.Execution.{ValueParts}
use photospider_daemon.Codec.Encoder
use photospider_daemon.Codec.Request.{Request, IsRequest, blank_request, selected, encode_request}
use photospider_daemon.Codec.Response.{Response, blank_response, no_result, encode_response}
use photospider_daemon.Codec.Response.Agreement.{IsResponse, received}
use photospider_daemon.Orchestration.Dispatch.{
  Raised, no_memory, standard, Calls, Service, dispatch,
}
use photospider_daemon.Orchestration.Dispatch.Correlation.{Answers, dispatch-Answers}
use photospider_daemon.Orchestration.Dispatch.Shutdown.{Commits, dispatch-Commits}
use photospider_daemon.Orchestration.Dispatch.Fence.{Incoming}
use photospider_daemon.Frame.{Pace, up_to, interrupted, Acceptance, takes, signalled}
use photospider_daemon.Frame.Stream.{is_steady}
use photospider_daemon.Frame.RoundTrip.{is_willing}
use photospider_daemon.Client
use photospider_daemon.Client.{Link, reset, unknown_outcome, call}
use photospider_daemon.Client.Calls.{Settles, numbered, call-Settles}
use photospider_daemon.Client.Framed.{IsReady, advanced, call-closed}
use photospider_daemon.Server.{Handler, quiet, Connection}
use photospider_daemon.Server.Exchange.{opened, peer, service_handler, call-dispatch}
use photospider_daemon.Tests.Fixtures.{
  test_kernel, test_values, test_request, test_session, test_response,
}

-- A service that counts its sessions and jobs in one number.
instance abbrev test_calls : Calls ℕ ValueParts
test_calls = record {
  create_session = λ d n. (ok (ok test_session), n + 1);
  close_session = λ id n. (ok success, n);
  submit = λ id options n. (err no_memory, n);
  status = λ id n. (ok (ok test_response.job_snapshot), n);
  cancel = λ id n. (ok success, n);
  result = λ id n. (ok (ok no_result), n);
  release = λ id n. (ok success, n);
  session_count = λ n. n;
  size = λ n. n;
}

abbrev test_service : Service ℕ
test_service = record {
  inner = 4;
  instance_id = 5;
  service_version = 48 ∷ [];
  maximum_concurrency = 1;
  maximum_sessions = 8;
  shutting_down = false;
}

abbrev shutdown_request : Request
shutdown_request = blank_request 0 daemon_shutdown

dispatch-Answers_example :
    Answers test_request
      (dispatch {Value = ValueParts} (some no_memory) false test_request test_service).0
dispatch-Answers_example = dispatch-Answers (some no_memory) false test_request test_service

dispatch-Commits_example :
    Commits daemon_shutdown test_service
      (dispatch {Value = ValueParts} none true shutdown_request test_service)
dispatch-Commits_example = dispatch-Commits none true shutdown_request test_service

-- A shutdown, then another and a request that fails.
abbrev later_dispatches : List Incoming
later_dispatches = (none, (true, shutdown_request)) ∷ (some no_memory, (false, test_request)) ∷ []

abbrev sample_paces : List Pace
sample_paces = up_to 0 ∷ interrupted ∷ up_to 1 ∷ []

abbrev sample_acceptances : List Acceptance
sample_acceptances = takes 1 ∷ signalled ∷ takes 3 ∷ []

sample_steady : is_steady sample_paces ≡ true
unfolding is_steady
sample_steady = refl

sample_willing : is_willing sample_acceptances ≡ true
unfolding is_willing
sample_willing = refl

abbrev client_connection : Client.Connection
client_connection = record { valid = true; next_request_id = 9 }

-- A peer that closes.
abbrev silent_link : Link
silent_link = record { acceptances = sample_acceptances; reply = λ sent. []; paces = sample_paces }

call-Settles_example :
    Settles {Value = ValueParts} test_request client_connection
      (call test_request silent_link client_connection)
call-Settles_example = call-Settles test_request silent_link client_connection

abbrev shutdown_payload : Bytes
shutdown_payload = 3 ∷ 0 ∷ 9 ∷ 0 ∷ 0 ∷ 0 ∷ 0 ∷ 0 ∷ 0 ∷ 0 ∷ 9 ∷ []

shutdown_sent : encode_request (numbered shutdown_request client_connection) ≡ ok shutdown_payload
unfolding encode_request photospider_daemon.Codec.Request.encode_request_payload
    photospider_daemon.Codec.Request.encode_header Encoder.ensure
    photospider_daemon.Codec.Method.valid_method Encoder.u16 Encoder.little_endian Encoder.u8
    Encoder.append Encoder.u64 photospider_daemon.Codec.Request.encode_arguments
shutdown_sent = refl

shutdown_request-IsRequest : IsRequest (numbered shutdown_request client_connection)
shutdown_request-IsRequest = record {
  id_range = omega arith;
  document_ranges = record { schema_range = omega arith; node_ranges = _; output_ranges = _ };
  session_instance = omega arith;
  session_value = omega arith;
  job_instance = omega arith;
  job_value = omega arith;
  parallelism_range = omega arith;
}

silent_link-IsReady : IsReady shutdown_request silent_link client_connection shutdown_payload
silent_link-IsReady = record {
  connected = refl;
  has_id = λ e. omega arith;
  ranges = shutdown_request-IsRequest;
  encoded = shutdown_sent;
  willing = sample_willing;
  steady = sample_steady;
}

call-closed_example :
    call {Value = ValueParts} shutdown_request silent_link client_connection
    ≡ some (err unknown_outcome, reset (advanced client_connection))
call-closed_example =
    call-closed shutdown_request silent_link client_connection shutdown_payload silent_link-IsReady
      refl

abbrev test_handler : Handler (Service ℕ) ValueParts
test_handler = service_handler none true

abbrev test_connection : Connection (Service ℕ)
test_connection = opened test_service sample_paces sample_acceptances (0 ∷ 0 ∷ 0 ∷ 1 ∷ 3 ∷ [])

-- The handler of a connection on its own streams.
abbrev peer_link : Link
peer_link =
    peer test_handler test_service (quiet ∷ []) sample_paces sample_acceptances sample_acceptances
      sample_paces

peer_link-IsReady : IsReady shutdown_request peer_link client_connection shutdown_payload
peer_link-IsReady = record {
  connected = refl;
  has_id = λ e. omega arith;
  ranges = shutdown_request-IsRequest;
  encoded = shutdown_sent;
  willing = sample_willing;
  steady = sample_steady;
}

abbrev shutdown_response : Response ValueParts
shutdown_response =
    (dispatch none true (selected (numbered shutdown_request client_connection)) test_service).0

shutdown_response-IsResponse : IsResponse shutdown_response
unfolding dispatch photospider_daemon.Orchestration.Dispatch.route
shutdown_response-IsResponse = record {
  id_range = omega arith;
  session_instance = omega arith;
  session_value = omega arith;
  job_instance = omega arith;
  job_value = omega arith;
  snapshot_ranges = record {
    job_instance = omega arith;
    job_value = omega arith;
    session_instance = omega arith;
    session_value = omega arith;
  };
  result_ranges = record {
    value_ranges = _;
    value_order = _;
    diagnostic_ranges = record {
      execute_range = omega arith;
      backend_ids = _;
      backend_order = _;
      count_range = omega arith;
      transferred_range = omega arith;
      peak_range = omega arith;
      timing_ranges = _;
    };
  };
  info_ranges = record {
    version_range = omega arith;
    instance_range = omega arith;
    sessions_range = omega arith;
    jobs_range = omega arith;
    concurrency_range = omega arith;
    capacity_range = omega arith;
  };
}

abbrev shutdown_answer : Bytes
shutdown_answer = 3 ∷ 0 ∷ 9 ∷ 0 ∷ 0 ∷ 0 ∷ 0 ∷ 0 ∷ 0 ∷ 0 ∷ 9 ∷ 0 ∷ 0 ∷ 0 ∷ 0 ∷ 0 ∷ []

shutdown_answered : encode_response shutdown_response ≡ ok shutdown_answer
unfolding encode_response photospider_daemon.Codec.Response.encode_response_payload Encoder.ensure
    dispatch photospider_daemon.Orchestration.Dispatch.route
    photospider_daemon.Codec.Method.valid_method Encoder.u16 Encoder.little_endian Encoder.u8
    Encoder.append Encoder.u64 photospider_daemon.Codec.Status.encode_status Encoder.text
    photospider_daemon.Codec.Utf8.valid_utf8 Encoder.u32
    photospider_daemon.Codec.Response.encode_success
    photospider_daemon.Codec.Response.encode_payload
shutdown_answered = refl

call-dispatch_example :
    call shutdown_request peer_link client_connection
    ≡ some (ok (received shutdown_response), advanced client_connection)
call-dispatch_example =
    call-dispatch none true test_service (quiet ∷ []) sample_paces sample_acceptances
      shutdown_request client_connection shutdown_payload shutdown_answer sample_acceptances
      sample_paces peer_link-IsReady sample_steady sample_willing shutdown_response-IsResponse
      shutdown_answered
