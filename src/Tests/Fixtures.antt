-- ===== src/Tests/Fixtures.antt =====
-- A kernel, its Values, and sample messages on which the theorems are tried.
use photospider_daemon.Base.{refl, true, false, [], ◌∷◌, ◌==◌, arith}
use photospider_daemon.Base.Outcome.{ok}
use photospider_daemon.Kernel.{Kernel, success}
use photospider_daemon.Protocol.{
  session_create, job_status, SessionId, JobId, JobSubmitOptions, running,
}
use photospider_daemon.Workflow.{WorkflowDocument, integer, boolean, node_output}
use photospider_daemon.Base.SortedMap.{bytes_lt}
use photospider_daemon.Execution.{ValueParts, Values}
use photospider_daemon.Codec.Request.{Request, IsRequest, blank_request}
use photospider_daemon.Codec.Response.{Response, blank_response}
use photospider_daemon.Codec.Response.Agreement.{IsResponse}

instance abbrev pub test_kernel : Kernel
test_kernel = record {
  ok_code = 0;
  invalid_argument = 1;
  not_found = 2;
  resource_exhausted = 3;
  cancelled = 4;
  internal = 5;
  backend_cpu = 0;
  backend_gpu = 1;
  type_uint8 = 0;
  type_float32 = 1;
  type_float64 = 2;
  default_schema_version = 1;
  status_ok = λ s. s.code == 0;
  status_ok_lem = λ s. refl;
  ok-le = omega arith;
  invalid_argument-le = omega arith;
  not_found-le = omega arith;
  resource_exhausted-le = omega arith;
  cancelled-le = omega arith;
  internal-lt = omega arith;
  invalid_argument-ne-ok = λ e. omega arith;
  not_found-ne-ok = λ e. omega arith;
  resource_exhausted-ne-ok = λ e. omega arith;
  cancelled-ne-ok = λ e. omega arith;
  internal-ne-ok = λ e. omega arith;
  not_found-ne-invalid_argument = λ e. omega arith;
  internal-ne-cancelled = λ e. omega arith;
  resource_exhausted-ne-cancelled = λ e. omega arith;
  not_found-ne-internal = λ e. omega arith;
  backend_cpu-lt = omega arith;
  backend_gpu-lt = omega arith;
}

-- Values that are their parts.
instance abbrev pub test_values : Values ValueParts
test_values = record { valid = λ v. true; parts = λ v. v; origin = λ v. []; create = λ p. ok p }

abbrev pub test_document : WorkflowDocument
test_document = record {
  schema_version = 2;
  declared_inputs = 0;
  nodes =
      record {
        id = 1;
        operation = 97 ∷ [];
        inputs = node_output 1 (98 ∷ []) ∷ [];
        parameters = (99 ∷ [], integer 7) ∷ (100 ∷ [], boolean true) ∷ [];
      }
      ∷ [];
  outputs = record { name = 111 ∷ []; node_id = 1; port = 112 ∷ [] } ∷ [];
}

abbrev pub test_request : Request
test_request = record (blank_request 9 session_create) { document = test_document }

pub test_request-IsRequest : IsRequest test_request
unfolding bytes_lt
test_request-IsRequest = record {
  id_range = omega arith;
  document_ranges = record {
    schema_range = omega arith;
    node_ranges = (
      record {
        id_range = omega arith;
        input_ranges = (omega arith, _);
        parameter_ranges = (omega arith, _);
        parameter_order = ((refl, _), (_, _));
      },
      _,
    );
    output_ranges = (omega arith, _);
  };
  session_instance = omega arith;
  session_value = omega arith;
  job_instance = omega arith;
  job_value = omega arith;
  parallelism_range = omega arith;
}

abbrev pub test_job : JobId
test_job = record { instance_id = 5; value = 6 }

abbrev pub test_session : SessionId
test_session = record { instance_id = 5; value = 1 }

abbrev pub test_options : JobSubmitOptions
test_options = record { allow_gpu = false; maximum_parallelism = 2 }

abbrev pub test_response : Response ValueParts
test_response = record (blank_response 9 job_status success) {
  job_snapshot = record {
    job_id = test_job;
    session_id = test_session;
    state = running;
    outcome = success;
  };
}

pub test_response-IsResponse : IsResponse test_response
test_response-IsResponse = record {
  id_range = omega arith;
  session_instance = omega arith;
  session_value = omega arith;
  job_instance = omega arith;
  job_value = omega arith;
  snapshot_ranges = record {
    job_instance = omega arith;
    job_value = omega arith;
    session_instance = omega arith;
    session_value = omega arith;
  };
  result_ranges = record {
    value_ranges = _;
    value_order = _;
    diagnostic_ranges = record {
      execute_range = omega arith;
      backend_ids = _;
      backend_order = _;
      count_range = omega arith;
      transferred_range = omega arith;
      peak_range = omega arith;
      timing_ranges = _;
    };
  };
  info_ranges = record {
    version_range = omega arith;
    instance_range = omega arith;
    sessions_range = omega arith;
    jobs_range = omega arith;
    concurrency_range = omega arith;
    capacity_range = omega arith;
  };
}
