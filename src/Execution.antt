-- ===== src/Execution.antt =====
-- The kernel's values and execution results (photospider/execution/execution.hpp), by the members
-- that the daemon reads and writes. `Value` itself is a parameter.
use photospider_daemon.Base.{ℕ, ◌^◌, ◌≤◌, ◌<◌, ◌≡◌, Bool, List, Bytes, All, length, ltb}
use photospider_daemon.Base.SortedMap.{IsSorted, bytes_lt}
use photospider_daemon.Base.Outcome.{ok}
use photospider_daemon.Kernel.{Kernel, Result}

pub record RegionDimension : Type 0 where
  pub offset : ℕ
  pub extent : ℕ

pub record ValueFacet : Type 0 where
  pub key : Bytes
  pub version : ℕ
  pub payload : Bytes

-- The arguments of `Value::create`, which are also what the accessors of a Value return.
pub record ValueParts : Type 0 where
  pub element_type : ℕ
  pub shape : List ℕ
  pub dimensions : List RegionDimension
  pub byte_offset : ℕ
  pub byte_strides : List ℕ
  pub bytes : Bytes
  pub facets : List ValueFacet

pub record OperationTiming : Type 0 where
  pub node_id : ℕ
  pub backend : ℕ
  pub duration_us : ℕ
  pub outcome : ℕ

pub record ExecutionDiagnostics : Type 0 where
  pub execute_us : ℕ
  pub selected_backends : List (ℕ × ℕ)
  pub transfer_count : ℕ
  pub transfer_bytes : ℕ
  pub peak_live_bytes : ℕ
  pub fallback_reasons : List Bytes
  pub operation_timings : List OperationTiming
  pub plan_digest : Bytes
  pub result_digest : Bytes

pub record ExecutionResult (Value : Type 0) : Type 0 where
  pub values : List (Bytes × Value)
  pub diagnostics : ExecutionDiagnostics

-- The kernel's interface to its Values.
pub record Values (Value : Type 0) : Type 0 where
  pub valid : Value → Bool
  pub parts : Value → ValueParts
  pub origin : Value → List ℕ
  pub create : ValueParts → Result Value

-- A Value in the range of the wire: the kernel accepts its own parts again, every axis has its
-- region and stride, and the decoder's limits on rank, type and facet payloads hold.
pub record IsWireValue {Value : Type 0} ⦃k : Kernel⦄ ⦃vs : Values Value⦄ (v : Value) : Type 0 where
  pub recreated : vs.create (vs.parts v) ≡ ok v
  pub ranked : 0 < length (vs.parts v).shape
  pub region_rank : length (vs.parts v).dimensions ≡ length (vs.parts v).shape
  pub stride_rank : length (vs.parts v).byte_strides ≡ length (vs.parts v).shape
  pub type_low : k.type_uint8 ≤ (vs.parts v).element_type
  pub type_high : (vs.parts v).element_type ≤ k.type_float64
  pub type_range : (vs.parts v).element_type < 2 ^ 32
  pub extents : All (λ extent. extent < 2 ^ 64) (vs.parts v).shape
  pub regions : All (λ d. (d.offset < 2 ^ 64) × (d.extent < 2 ^ 64)) (vs.parts v).dimensions
  pub offset_range : (vs.parts v).byte_offset < 2 ^ 64
  pub strides : All (λ stride. stride < 2 ^ 64) (vs.parts v).byte_strides
  pub facet_ranges :
      All (λ f. (f.version < 2 ^ 32) × (length f.payload ≤ 65536)) (vs.parts v).facets
  pub bytes_fit : length (vs.parts v).bytes ≤ 4194304

pub record IsDiagnostics (d : ExecutionDiagnostics) : Type 0 where
  pub execute_range : d.execute_us < 2 ^ 64
  pub backend_ids : All (λ entry. entry.0 < 2 ^ 64) d.selected_backends
  pub backend_order : IsSorted ltb d.selected_backends
  pub count_range : d.transfer_count < 2 ^ 64
  pub transferred_range : d.transfer_bytes < 2 ^ 64
  pub peak_range : d.peak_live_bytes < 2 ^ 64
  pub timing_ranges : All (λ t. (t.node_id < 2 ^ 64) × (t.duration_us < 2 ^ 64)) d.operation_timings

pub record IsExecutionResult {Value : Type 0} ⦃k : Kernel⦄ ⦃vs : Values Value⦄
    (r : ExecutionResult Value) : Type 0 where
  pub value_ranges : All (λ entry. IsWireValue entry.1) r.values
  pub value_order : IsSorted bytes_lt r.values
  pub diagnostic_ranges : IsDiagnostics r.diagnostics
