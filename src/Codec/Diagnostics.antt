-- ===== src/Codec/Diagnostics.antt =====
-- Execution diagnostics and results of src/lib/ipc/codec.cpp: `encode_diagnostics`,
-- `decode_diagnostics`, `encode_execution_result` and `decode_execution_result`.
pub mod Agreement
use photospider_daemon.Base.{ℕ, Bool, not, ◌&&◌, ◌||◌, List, [], Bytes, length, ltb, leb, ◌==◌}
use photospider_daemon.Base.SortedMap.{bytes_lt}
use photospider_daemon.Kernel.{Kernel}
use photospider_daemon.Execution.{OperationTiming, ExecutionDiagnostics, ExecutionResult, Values}
use photospider_daemon.Codec.Failure.{invalid, exhausted}
use photospider_daemon.Codec.Encoder
use photospider_daemon.Codec.Encoder.{Encode, ◌>>◌, ensure, each}
use photospider_daemon.Codec.Decoder
use photospider_daemon.Codec.Decoder.{
  Decode, ◌>>=◌, pure, require, repeat, require_count_fits, CountContract,
}
use photospider_daemon.Codec.Document.{fill}
use photospider_daemon.Codec.Value.{encode_value, decode_value}

abbrev pub diagnostic_backends_contract : CountContract
diagnostic_backends_contract = record { minimum_entry_bytes = 9; required_suffix_bytes = 40 }

abbrev pub diagnostic_reasons_contract : CountContract
diagnostic_reasons_contract = record { minimum_entry_bytes = 4; required_suffix_bytes = 12 }

abbrev pub diagnostic_timings_contract : CountContract
diagnostic_timings_contract = record { minimum_entry_bytes = 18; required_suffix_bytes = 8 }

abbrev pub result_values_contract : CountContract
result_values_contract = record { minimum_entry_bytes = 54; required_suffix_bytes = 52 }

module _ ⦃k : Kernel⦄ where
  abbrev pub known_backend : ℕ → Bool
  known_backend backend = backend == k.backend_cpu || backend == k.backend_gpu

  unfoldable pub encode_backend : ℕ × ℕ → Encode
  encode_backend (node_id, backend) =
      ensure (not (node_id == 0 || not (known_backend backend)))
        (invalid "execution backend diagnostic is invalid")
      >> (Encoder.u64 node_id >> Encoder.u8 backend)

  unfoldable pub decode_backend : Decode (ℕ × ℕ)
  decode_backend = do
    node_id ← Decoder.u64
    raw_backend ← Decoder.u8
    _ ←
        require (not (node_id == 0 || not (known_backend raw_backend)))
          (invalid "wire diagnostics backend map is malformed")
    pure (node_id, raw_backend)

  unfoldable pub encode_reason : Bytes → Encode
  encode_reason reason = Encoder.text reason 4096

  unfoldable pub encode_timing : OperationTiming → Encode
  encode_timing t =
      ensure (not (t.node_id == 0 || (not (known_backend t.backend) || ltb k.internal t.outcome)))
        (invalid "execution timing diagnostic is invalid")
      >> (Encoder.u64 t.node_id
          >> (Encoder.u8 t.backend >> (Encoder.u64 t.duration_us >> Encoder.u8 t.outcome)))

  unfoldable pub decode_timing : Decode OperationTiming
  decode_timing = do
    node_id ← Decoder.u64
    raw_backend ← Decoder.u8
    _ ←
        require (not (node_id == 0 || not (known_backend raw_backend)))
          (invalid "wire timing backend is unknown")
    duration_us ← Decoder.u64
    raw_outcome ← Decoder.u8
    _ ← require (not (ltb k.internal raw_outcome)) (invalid "wire timing outcome is unknown")
    pure (record {
      node_id = node_id;
      backend = raw_backend;
      duration_us = duration_us;
      outcome = raw_outcome;
    })

  -- The timings and the digests.
  encode_timings : ExecutionDiagnostics → Encode
  encode_timings d =
      Encoder.u32 (length d.operation_timings)
      >> (each encode_timing d.operation_timings
          >> (Encoder.text d.plan_digest 128 >> Encoder.text d.result_digest 128))

  decode_timings :
      (List OperationTiming → Bytes → Bytes → ExecutionDiagnostics) → Decode ExecutionDiagnostics
  decode_timings complete = do
    timing_count ← Decoder.u32
    _ ←
        require (not (ltb 131072 timing_count))
          (invalid "wire diagnostics have too many operation timings")
    _ ← require_count_fits timing_count diagnostic_timings_contract
    timings ← repeat timing_count decode_timing
    plan_digest ← Decoder.text 128
    result_digest ← Decoder.text 128
    pure (complete timings plan_digest result_digest)

  -- The transfer scalars, the fallback reasons and what follows.
  encode_transfers : ExecutionDiagnostics → Encode
  encode_transfers d =
      Encoder.u64 d.transfer_count
      >> (Encoder.u64 d.transfer_bytes
          >> (Encoder.u64 d.peak_live_bytes
              >> (Encoder.u32 (length d.fallback_reasons)
                  >> (each encode_reason d.fallback_reasons >> encode_timings d))))

  decode_transfers : ℕ → List (ℕ × ℕ) → Decode ExecutionDiagnostics
  decode_transfers execute_us backends = do
    transfer_count ← Decoder.u64
    transfer_bytes ← Decoder.u64
    peak_live_bytes ← Decoder.u64
    reason_count ← Decoder.u32
    _ ←
        require (not (ltb 65536 reason_count))
          (invalid "wire diagnostics have too many fallback reasons")
    _ ← require_count_fits reason_count diagnostic_reasons_contract
    reasons ← repeat reason_count (Decoder.text 4096)
    decode_timings λ timings plan_digest result_digest. record {
      execute_us = execute_us;
      selected_backends = backends;
      transfer_count = transfer_count;
      transfer_bytes = transfer_bytes;
      peak_live_bytes = peak_live_bytes;
      fallback_reasons = reasons;
      operation_timings = timings;
      plan_digest = plan_digest;
      result_digest = result_digest;
    }

  unfoldable pub encode_diagnostics : ExecutionDiagnostics → Encode
  unfolding encode_transfers encode_timings
  encode_diagnostics d =
      ensure
        (not (
          ltb 65536 (length d.selected_backends)
          || (ltb 131072 (length d.operation_timings) || ltb 65536 (length d.fallback_reasons))))
        (exhausted "execution diagnostics exceed wire bounds")
      >> (Encoder.u64 d.execute_us
          >> (Encoder.u32 (length d.selected_backends)
              >> (each encode_backend d.selected_backends >> encode_transfers d)))

  unfoldable pub decode_diagnostics : Decode ExecutionDiagnostics
  unfolding decode_transfers decode_timings
  decode_diagnostics = do
    execute_us ← Decoder.u64
    backend_count ← Decoder.u32
    _ ← require (not (ltb 65536 backend_count)) (invalid "wire diagnostics have too many backends")
    _ ← require_count_fits backend_count diagnostic_backends_contract
    backends ←
        fill ltb (invalid "wire diagnostics backend map is malformed") backend_count decode_backend
          []
    decode_transfers execute_us backends

  module _ {Value : Type 0} ⦃vs : Values Value⦄ where
    unfoldable pub encode_named_value : Bytes × Value → Encode
    encode_named_value (name, value) = Encoder.text name 1024 >> encode_value value

    unfoldable pub decode_named_value : Decode (Bytes × Value)
    decode_named_value = do name ← Decoder.text 1024; value ← decode_value; pure (name, value)

    unfoldable pub encode_execution_result : ExecutionResult Value → Encode
    encode_execution_result result =
        ensure (not (ltb 4096 (length result.values)))
          (exhausted "execution result has too many named Values")
        >> (Encoder.u32 (length result.values)
            >> (each encode_named_value result.values >> encode_diagnostics result.diagnostics))

    unfoldable pub decode_execution_result : Decode (ExecutionResult Value)
    decode_execution_result = do
      value_count ← Decoder.u32
      _ ← require (not (ltb 4096 value_count)) (invalid "wire result has too many named Values")
      _ ← require_count_fits value_count result_values_contract
      values ←
          fill bytes_lt (invalid "wire result duplicates a Value name") value_count
            decode_named_value []
      diagnostics ← decode_diagnostics
      pure (record { values = values; diagnostics = diagnostics })
