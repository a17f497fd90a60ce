-- ===== src/Tests/Codec.antt =====
-- The codec on sample messages.
use photospider_daemon.Base.{
  ℕ, ◌+◌, ◌*◌, ◌≤◌, ◌≡◌, ◌↔◌, refl, true, false, [], ◌∷◌, ◌++◌, Bytes, Option, none, some, arith,
}
use photospider_daemon.Base.Outcome.{ok}
use photospider_daemon.Kernel.{Status, success}
use photospider_daemon.Protocol.{job_status, job_result}
use photospider_daemon.Execution.{ValueParts}
use photospider_daemon.Codec.Utf8.Agreement.{IsUtf8, valid_utf8-IsUtf8}
use photospider_daemon.Codec.Encoder
use photospider_daemon.Codec.Utf8.{valid_utf8}
use photospider_daemon.Codec.Document.{workflow_nodes_contract}
use photospider_daemon.Codec.Request.{
  encode_request, decode_request, decode_header, encode_header, selected,
}
use photospider_daemon.Codec.Request.Agreement.{decode_request-encode_request}
use photospider_daemon.Codec.Response.{
  Response, encode_response, decode_response, blank_response, no_result,
}
use photospider_daemon.Codec.Response.Agreement.{IsResponse, decode_response-encode_response}
use photospider_daemon.Codec.Correlation.{
  recover_correlation, encode_protocol_error, decode_protocol_error,
}
use photospider_daemon.Codec.Correlation.Recovery.{
  recover_correlation-decode_header, correlation_of,
}
use photospider_daemon.Codec.Correlation.Agreement.{
  IsPayload, recover_correlation-encode_header, decode_protocol_error-encode_protocol_error,
}
use photospider_daemon.Tests.Fixtures.{
  test_kernel, test_values, test_request, test_request-IsRequest, test_response-IsResponse,
}

abbrev sample_header : Bytes
sample_header = 3 ∷ 0 ∷ 9 ∷ 0 ∷ 0 ∷ 0 ∷ 0 ∷ 0 ∷ 0 ∷ 0 ∷ 4 ∷ []

recover_correlation-decode_header_example :
    recover_correlation (some sample_header) ≡ correlation_of (decode_header sample_header)
recover_correlation-decode_header_example = recover_correlation-decode_header sample_header

header_bytes : encode_header 9 job_status [] ≡ ok sample_header
unfolding encode_header Encoder.ensure photospider_daemon.Codec.Method.valid_method Encoder.u16
    Encoder.little_endian Encoder.u8 Encoder.append Encoder.u64
header_bytes = refl

recover_correlation-encode_header_example :
    recover_correlation (some (sample_header ++ 255 ∷ []))
    ≡ record { request_id = 9; method = job_status }
recover_correlation-encode_header_example =
    recover_correlation-encode_header 9 job_status sample_header (255 ∷ []) (omega arith)
      header_bytes

abbrev sent_bytes : Bytes
sent_bytes =
    3 ∷ 0 ∷ 9 ∷ 0 ∷ 0 ∷ 0 ∷ 0 ∷ 0 ∷ 0 ∷ 0 ∷ 1 ∷ 2 ∷ 0 ∷ 0 ∷ 0 ∷ 1 ∷ 0 ∷ 0 ∷ 0 ∷ 1 ∷ 0 ∷ 0 ∷ 0 ∷ 0
    ∷ 0 ∷ 0 ∷ 0 ∷ 1 ∷ 0 ∷ 0 ∷ 0 ∷ 97 ∷ 1 ∷ 0 ∷ 0 ∷ 0 ∷ 1 ∷ 0 ∷ 0 ∷ 0 ∷ 0 ∷ 0 ∷ 0 ∷ 0 ∷ 1 ∷ 0 ∷ 0 ∷ 0
    ∷ 98 ∷ 2 ∷ 0 ∷ 0 ∷ 0 ∷ 1 ∷ 0 ∷ 0 ∷ 0 ∷ 99 ∷ 1 ∷ 7 ∷ 0 ∷ 0 ∷ 0 ∷ 0 ∷ 0 ∷ 0 ∷ 0 ∷ 1 ∷ 0 ∷ 0 ∷ 0
    ∷ 100 ∷ 3 ∷ 1 ∷ 1 ∷ 0 ∷ 0 ∷ 0 ∷ 1 ∷ 0 ∷ 0 ∷ 0 ∷ 111 ∷ 1 ∷ 0 ∷ 0 ∷ 0 ∷ 0 ∷ 0 ∷ 0 ∷ 0 ∷ 1 ∷ 0 ∷ 0
    ∷ 0 ∷ 112 ∷ []

abbrev replied_bytes : Bytes
replied_bytes =
    3 ∷ 0 ∷ 9 ∷ 0 ∷ 0 ∷ 0 ∷ 0 ∷ 0 ∷ 0 ∷ 0 ∷ 6 ∷ 0 ∷ 0 ∷ 0 ∷ 0 ∷ 0 ∷ 1 ∷ 0 ∷ 0 ∷ 0 ∷ 1 ∷ 0 ∷ 0 ∷ 0
    ∷ 118 ∷ 0 ∷ 0 ∷ 0 ∷ 0 ∷ 1 ∷ 1 ∷ 0 ∷ 0 ∷ 0 ∷ 0 ∷ 0 ∷ 0 ∷ 0 ∷ 0 ∷ 0 ∷ 0 ∷ 0 ∷ 0 ∷ 0 ∷ 0 ∷ 0 ∷ 1
    ∷ 0 ∷ 0 ∷ 0 ∷ 0 ∷ 0 ∷ 0 ∷ 0 ∷ 0 ∷ 0 ∷ 0 ∷ 0 ∷ 0 ∷ 0 ∷ 0 ∷ 0 ∷ 1 ∷ 0 ∷ 0 ∷ 0 ∷ 0 ∷ 0 ∷ 0 ∷ 0 ∷ 1
    ∷ 1 ∷ 0 ∷ 0 ∷ 0 ∷ 102 ∷ 1 ∷ 0 ∷ 0 ∷ 0 ∷ 1 ∷ 0 ∷ 0 ∷ 0 ∷ 7 ∷ 1 ∷ 0 ∷ 0 ∷ 0 ∷ 42 ∷ 0 ∷ 0 ∷ 0 ∷ 0
    ∷ 0 ∷ 0 ∷ 0 ∷ 0 ∷ 0 ∷ 0 ∷ 0 ∷ 0 ∷ 0 ∷ 0 ∷ 0 ∷ 0 ∷ 0 ∷ 0 ∷ 0 ∷ 0 ∷ 0 ∷ 0 ∷ 0 ∷ 0 ∷ 0 ∷ 0 ∷ 0 ∷ 0
    ∷ 0 ∷ 0 ∷ 0 ∷ 0 ∷ 0 ∷ 0 ∷ 0 ∷ 0 ∷ 0 ∷ 0 ∷ 0 ∷ 0 ∷ 0 ∷ 0 ∷ 0 ∷ 0 ∷ 0 ∷ 0 ∷ 0 ∷ 0 ∷ 0 ∷ 0 ∷ 0 ∷ 0
    ∷ []

abbrev refused_bytes : Bytes
refused_bytes = 3 ∷ 0 ∷ 9 ∷ 0 ∷ 0 ∷ 0 ∷ 0 ∷ 0 ∷ 0 ∷ 0 ∷ 4 ∷ 1 ∷ 2 ∷ 0 ∷ 0 ∷ 0 ∷ 104 ∷ 105 ∷ []

abbrev bad_input : Status
bad_input = record { code = 1; message = 104 ∷ 105 ∷ [] }

request_sent : encode_request test_request ≡ ok sent_bytes
unfolding encode_request photospider_daemon.Codec.Request.encode_request_payload encode_header
    Encoder.ensure photospider_daemon.Codec.Method.valid_method Encoder.u16 Encoder.little_endian
    Encoder.u8 Encoder.append Encoder.u64 photospider_daemon.Codec.Request.encode_arguments
    photospider_daemon.Codec.Document.encode_document Encoder.u32 Encoder.each
    photospider_daemon.Codec.Document.encode_node Encoder.text valid_utf8
    photospider_daemon.Codec.Document.encode_input photospider_daemon.Base.bytes_of
    photospider_daemon.Codec.Document.encode_entry photospider_daemon.Codec.Document.encode_output
    photospider_daemon.Codec.Document.encode_parameter Encoder.boolean Encoder.f64 Encoder.i64
    Encoder.validate photospider_daemon.Codec.Request.encode_job_id
    photospider_daemon.Codec.Request.encode_session_id
    photospider_daemon.Codec.Status.require_job_id
    photospider_daemon.Codec.Status.require_session_id photospider_daemon.Codec.Utf8.classify_lead
    photospider_daemon.Codec.Utf8.continue_scalar photospider_daemon.Codec.Utf8.multi_byte
    photospider_daemon.Codec.Utf8.scalar_allowed photospider_daemon.Codec.Utf8.valid_utf8_loop
request_sent = refl

decode_request-encode_request_example : decode_request sent_bytes ≡ ok test_request
decode_request-encode_request_example =
    decode_request-encode_request test_request sent_bytes test_request-IsRequest request_sent

-- A job's result with one Value and one facet.
abbrev valued_response : Response ValueParts
valued_response = record (blank_response 9 job_result success) {
  execution_result = record no_result {
    values =
        (
          118 ∷ [],
          record {
            element_type = 0;
            shape = 1 ∷ [];
            dimensions = record { offset = 0; extent = 1 } ∷ [];
            byte_offset = 0;
            byte_strides = 1 ∷ [];
            bytes = 42 ∷ [];
            facets = record { key = 102 ∷ []; version = 1; payload = 7 ∷ [] } ∷ [];
          },
        )
        ∷ [];
  };
}

valued_response-IsResponse : IsResponse valued_response
valued_response-IsResponse =
    let h = test_response-IsResponse in
    record {
      id_range = h.id_range;
      session_instance = h.session_instance;
      session_value = h.session_value;
      job_instance = h.job_instance;
      job_value = h.job_value;
      snapshot_ranges = record {
        job_instance = omega arith;
        job_value = omega arith;
        session_instance = omega arith;
        session_value = omega arith;
      };
      result_ranges = record {
        value_ranges = (
          record {
            recreated = refl;
            ranked = omega arith;
            region_rank = refl;
            stride_rank = refl;
            type_low = omega arith;
            type_high = omega arith;
            type_range = omega arith;
            extents = (omega arith, _);
            regions = ((omega arith, omega arith), _);
            offset_range = omega arith;
            strides = (omega arith, _);
            facet_ranges = ((omega arith, omega arith), _);
            bytes_fit = omega arith;
          },
          _,
        );
        value_order = (_, _);
        diagnostic_ranges = h.result_ranges.diagnostic_ranges;
      };
      info_ranges = h.info_ranges;
    }

response_sent : encode_response valued_response ≡ ok replied_bytes
unfolding encode_response photospider_daemon.Codec.Response.encode_response_payload Encoder.ensure
    photospider_daemon.Codec.Method.valid_method Encoder.u16 Encoder.little_endian Encoder.u8
    Encoder.append Encoder.u64 photospider_daemon.Codec.Status.encode_status Encoder.text valid_utf8
    Encoder.u32 photospider_daemon.Codec.Response.encode_success
    photospider_daemon.Codec.Response.encode_payload Encoder.validate
    photospider_daemon.Codec.Status.validate_job_status
    photospider_daemon.Codec.Response.encode_job_status photospider_daemon.Base.bytes_of
    photospider_daemon.Base.SortedMap.bytes_lt photospider_daemon.Codec.Diagnostics.encode_backend
    photospider_daemon.Codec.Diagnostics.encode_diagnostics
    photospider_daemon.Codec.Diagnostics.encode_execution_result
    photospider_daemon.Codec.Diagnostics.encode_named_value
    photospider_daemon.Codec.Diagnostics.encode_reason
    photospider_daemon.Codec.Diagnostics.encode_timing Encoder.bytes Encoder.each Encoder.i64
    photospider_daemon.Codec.Info.bytes_eq photospider_daemon.Codec.Info.encode_capabilities
    photospider_daemon.Codec.Info.encode_daemon_info photospider_daemon.Codec.Info.encode_name
    photospider_daemon.Codec.Info.names_eq photospider_daemon.Codec.Info.validate_daemon_info
    photospider_daemon.Codec.Method.method_inventory photospider_daemon.Codec.Method.method_name
    photospider_daemon.Codec.Request.encode_job_id
    photospider_daemon.Codec.Request.encode_session_id
    photospider_daemon.Codec.Status.require_job_id
    photospider_daemon.Codec.Status.require_session_id
    photospider_daemon.Codec.Status.validate_outcome photospider_daemon.Codec.Utf8.classify_lead
    photospider_daemon.Codec.Utf8.continue_scalar photospider_daemon.Codec.Utf8.multi_byte
    photospider_daemon.Codec.Utf8.scalar_allowed photospider_daemon.Codec.Utf8.valid_utf8_loop
    photospider_daemon.Codec.Value.any_nonzero photospider_daemon.Codec.Value.encode_axes
    photospider_daemon.Codec.Value.encode_contents photospider_daemon.Codec.Value.encode_dimension
    photospider_daemon.Codec.Value.encode_facet photospider_daemon.Codec.Value.encode_value
response_sent = refl

decode_response-encode_response_example :
    decode_response replied_bytes job_result 9 ≡ ok valued_response
decode_response-encode_response_example =
    decode_response-encode_response valued_response replied_bytes valued_response-IsResponse
      response_sent

refusal_sent : encode_protocol_error bad_input (some sample_header) ≡ ok refused_bytes
unfolding encode_protocol_error Encoder.ensure
    photospider_daemon.Codec.Correlation.encode_error_payload Encoder.u16 Encoder.little_endian
    Encoder.u8 Encoder.append Encoder.u64 photospider_daemon.Codec.Status.encode_status Encoder.text
    valid_utf8 Encoder.u32 recover_correlation photospider_daemon.Codec.Correlation.byte_at
    photospider_daemon.Codec.Correlation.header_id photospider_daemon.Codec.Method.valid_method
refusal_sent = refl

sample_header-IsPayload : IsPayload (some sample_header)
sample_header-IsPayload = ground arith

decode_protocol_error-encode_protocol_error_example :
    decode_protocol_error {Value = ValueParts} refused_bytes
    ≡ ok (
        blank_response
          (recover_correlation (some sample_header)).request_id
          (recover_correlation (some sample_header)).method
          bad_input)
decode_protocol_error-encode_protocol_error_example =
    decode_protocol_error-encode_protocol_error bad_input (some sample_header) refused_bytes
      sample_header-IsPayload refusal_sent

-- An e with an acute accent, a euro sign and a G clef.
abbrev sample_text : Bytes
sample_text = 0xc3 ∷ 0xa9 ∷ 0xe2 ∷ 0x82 ∷ 0xac ∷ 0xf0 ∷ 0x9d ∷ 0x84 ∷ 0x9e ∷ []

valid_utf8-IsUtf8_example : (valid_utf8 sample_text ≡ true) ↔ IsUtf8 sample_text
valid_utf8-IsUtf8_example = valid_utf8-IsUtf8 sample_text (omega arith)
