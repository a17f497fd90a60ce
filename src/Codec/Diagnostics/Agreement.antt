-- ===== src/Codec/Diagnostics/Agreement.antt =====
-- `decode_execution_result` reads back what `encode_execution_result` wrote.
use photospider_daemon.Base.{
  ℕ, ◌^◌, ◌≤◌, ◌<◌, ◌≡◌, true, false, List, [], ◌∷◌, Bytes, length, ltb, arith, All,
}
use photospider_daemon.Base.SortedMap.{bytes_lt, bytes_lt_asymm}
use photospider_daemon.Kernel.{Kernel}
use photospider_daemon.Execution.{
  OperationTiming, ExecutionDiagnostics, ExecutionResult, Values, IsWireValue, IsDiagnostics,
  IsExecutionResult,
}
use photospider_daemon.Codec.Decoder
use photospider_daemon.Codec.RoundTrip.Compose.{
  RoundTrip, RoundTrip-bind, RoundTrip-last, RoundTrip-then, RoundTrip-weaken, RoundTrip-require,
  RoundTrip-ensure, RoundTrip-each, RoundTrip-fence,
}
use photospider_daemon.Codec.RoundTrip.Scalars.{
  u8-RoundTrip, u32-RoundTrip, u64-RoundTrip, text-RoundTrip,
}
use photospider_daemon.Codec.Document.Agreement.{RoundTrip-fill}
use photospider_daemon.Codec.Value.Agreement.{value-RoundTrip}
use photospider_daemon.Codec.Diagnostics.{
  encode_backend, decode_backend, encode_reason, encode_timing, decode_timing, encode_timings,
  decode_timings, encode_transfers, decode_transfers, encode_diagnostics, decode_diagnostics,
  encode_named_value, decode_named_value, encode_execution_result, decode_execution_result,
}

ltb_asymm : (a b : ℕ) → ltb a b ≡ true → ltb b a ≡ false
ltb_asymm a b h = ground arith

pub All-units : (xs : List Bytes) → All (λ _. Unit {0}) xs
All-units [] = tt
All-units (x ∷ xs) = (tt, All-units xs)

module _ ⦃k : Kernel⦄ where
  backend-RoundTrip :
      (entry : ℕ × ℕ) → entry.0 < 2 ^ 64 → RoundTrip (encode_backend entry) decode_backend entry 9 0
  unfolding encode_backend decode_backend Decoder.require
  backend-RoundTrip (node_id, backend) h = RoundTrip-ensure _ _ λ known.
      RoundTrip-bind _ (u64-RoundTrip node_id h)
        (RoundTrip-then _ (u8-RoundTrip backend) (λ rest. rw known)) (omega arith)

  reason-RoundTrip :
      (reason : Bytes) → Unit {0} → RoundTrip (encode_reason reason) (Decoder.text 4096) reason 4 0
  unfolding encode_reason
  reason-RoundTrip reason _ = text-RoundTrip reason 4096

  timing-RoundTrip :
      (t : OperationTiming)
      → (t.node_id < 2 ^ 64) × (t.duration_us < 2 ^ 64)
      → RoundTrip (encode_timing t) decode_timing t 18 0
  unfolding encode_timing decode_timing
  timing-RoundTrip t (h, h') = RoundTrip-ensure _ _ λ known.
      RoundTrip-bind _ (u64-RoundTrip t.node_id h)
        (RoundTrip-bind _ (u8-RoundTrip t.backend)
          (RoundTrip-require _ _ _ (ground arith) (
            RoundTrip-bind _ (u64-RoundTrip t.duration_us h')
              (RoundTrip-then _ (u8-RoundTrip t.outcome)
                (λ rest. unfold Decoder.require in ground arith))
              (omega arith)))
          (omega arith))
        (omega arith)

  timings-RoundTrip :
      (d : ExecutionDiagnostics)
      (complete : List OperationTiming → Bytes → Bytes → ExecutionDiagnostics)
      → length d.operation_timings ≤ 131072
      → IsDiagnostics d
      → RoundTrip
          (encode_timings d)
          (decode_timings complete)
          (complete d.operation_timings d.plan_digest d.result_digest)
          12
          0
  unfolding encode_timings decode_timings
  timings-RoundTrip d complete few h = RoundTrip-weaken _ _ (omega arith) (omega arith) (
      RoundTrip-bind _ (u32-RoundTrip (length d.operation_timings) (omega arith))
        (RoundTrip-require _ _ _ (ground arith) (
          RoundTrip-fence _ _ _ (omega arith) (omega arith) (
            RoundTrip-bind _
              (RoundTrip-each encode_timing decode_timing
                (λ t. (t.node_id < 2 ^ 64) × (t.duration_us < 2 ^ 64)) 18 0 timing-RoundTrip
                d.operation_timings h.timing_ranges)
              (RoundTrip-bind _ (text-RoundTrip d.plan_digest 128)
                (RoundTrip-last _ (text-RoundTrip d.result_digest 128)) (omega arith))
              (omega arith))))
        (omega arith))

  -- What the decoder has read before the transfer scalars.
  transfers-RoundTrip :
      (d : ExecutionDiagnostics)
      → length d.operation_timings ≤ 131072
      → length d.fallback_reasons ≤ 65536
      → IsDiagnostics d
      → RoundTrip (encode_transfers d) (decode_transfers d.execute_us d.selected_backends) d 40 0
  unfolding encode_transfers decode_transfers
  transfers-RoundTrip d few few' h = RoundTrip-weaken _ _ (omega arith) (omega arith) (
      RoundTrip-bind _ (u64-RoundTrip d.transfer_count h.count_range)
        (RoundTrip-bind _ (u64-RoundTrip d.transfer_bytes h.transferred_range)
          (RoundTrip-bind _ (u64-RoundTrip d.peak_live_bytes h.peak_range)
            (RoundTrip-bind _ (u32-RoundTrip (length d.fallback_reasons) (omega arith))
              (RoundTrip-require _ _ _ (ground arith) (
                RoundTrip-fence _ _ _ (omega arith) (omega arith) (
                  RoundTrip-bind _
                    (RoundTrip-each encode_reason (Decoder.text 4096) (λ _. Unit {0}) 4 0
                      reason-RoundTrip d.fallback_reasons (All-units d.fallback_reasons))
                    (timings-RoundTrip d _ few h) (omega arith))))
              (omega arith))
            (omega arith))
          (omega arith))
        (omega arith))

  diagnostics-RoundTrip :
      (d : ExecutionDiagnostics)
      → IsDiagnostics d
      → RoundTrip (encode_diagnostics d) decode_diagnostics d 52 0
  unfolding encode_diagnostics decode_diagnostics
  diagnostics-RoundTrip d h = RoundTrip-ensure _ _ λ few.
      let backends : length d.selected_backends ≤ 65536 = ground arith in
      let timings : length d.operation_timings ≤ 131072 = ground arith in
      let reasons : length d.fallback_reasons ≤ 65536 = ground arith in
      RoundTrip-weaken _ _ (omega arith) (omega arith) (
        RoundTrip-bind _ (u64-RoundTrip d.execute_us h.execute_range)
          (RoundTrip-bind _ (u32-RoundTrip (length d.selected_backends) (omega arith))
            (RoundTrip-require _ _ _ (ground arith) (
              RoundTrip-fence _ _ _ (omega arith) (omega arith) (
                RoundTrip-bind _
                  (RoundTrip-fill ltb _ encode_backend decode_backend _ 9 0 ltb_asymm
                    backend-RoundTrip d.selected_backends [] h.backend_ids h.backend_order)
                  (transfers-RoundTrip d timings reasons h) (omega arith))))
            (omega arith))
          (omega arith))

  module _ {Value : Type 0} ⦃vs : Values Value⦄ where
    named_value-RoundTrip :
        (entry : Bytes × Value)
        → IsWireValue entry.1
        → RoundTrip (encode_named_value entry) decode_named_value entry 54 52
    unfolding encode_named_value decode_named_value
    named_value-RoundTrip (name, value) h =
        RoundTrip-bind _ (text-RoundTrip name 1024) (RoundTrip-last _ (value-RoundTrip value h))
          (omega arith)

    pub execution_result-RoundTrip :
        (r : ExecutionResult Value)
        → IsExecutionResult r
        → RoundTrip (encode_execution_result r) decode_execution_result r 56 0
    unfolding encode_execution_result decode_execution_result
    execution_result-RoundTrip r h = RoundTrip-ensure _ _ λ few.
        let named : length r.values ≤ 4096 = ground arith in
        RoundTrip-weaken _ _ (omega arith) (omega arith) (
          RoundTrip-bind _ (u32-RoundTrip (length r.values) (omega arith))
            (RoundTrip-require _ _ _ (ground arith) (
              RoundTrip-fence _ _ _ (omega arith) (omega arith) (
                RoundTrip-bind _
                  (RoundTrip-fill bytes_lt _ encode_named_value decode_named_value _ 54 52
                    bytes_lt_asymm named_value-RoundTrip r.values [] h.value_ranges h.value_order)
                  (RoundTrip-last _ (diagnostics-RoundTrip r.diagnostics h.diagnostic_ranges))
                  (omega arith))))
            (omega arith))
