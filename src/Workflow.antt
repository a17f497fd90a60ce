-- ===== src/Workflow.antt =====
-- The kernel's source document (photospider/compiler/workflow_document.hpp), by the members that
-- the codec reads and writes. Signed integers and doubles are their 64-bit patterns; the only
-- thing read of the declared inputs is whether there are any.
use photospider_daemon.Base.{ℕ, ◌^◌, ◌<◌, Bool, List, Bytes, All}
use photospider_daemon.Base.SortedMap.{IsSorted, bytes_lt}

pub data ParameterValue : Type 0 where
  integer : ℕ → ParameterValue
  floating : ℕ → ParameterValue
  boolean : Bool → ParameterValue
  string : Bytes → ParameterValue

-- `other_source` is any alternative of the variant but `WorkflowNodeOutput`.
pub data WorkflowInput : Type 0 where
  node_output : ℕ → Bytes → WorkflowInput
  other_source : WorkflowInput

abbrev pub Parameters : Type 0
Parameters = List (Bytes × ParameterValue)

pub record WorkflowNode : Type 0 where
  pub id : ℕ
  pub operation : Bytes
  pub inputs : List WorkflowInput
  pub parameters : Parameters

pub record WorkflowOutput : Type 0 where
  pub name : Bytes
  pub node_id : ℕ
  pub port : Bytes

pub record WorkflowDocument : Type 0 where
  pub schema_version : ℕ
  pub declared_inputs : ℕ
  pub nodes : List WorkflowNode
  pub outputs : List WorkflowOutput

-- The ranges of the C++ members, and the order of a `std::map`.
abbrev pub IsParameterValue : ParameterValue → Type 0
IsParameterValue (integer bits) = bits < 2 ^ 64
IsParameterValue (floating bits) = bits < 2 ^ 64
IsParameterValue (boolean b) = Unit {0}
IsParameterValue (string s) = Unit {0}

abbrev pub IsWorkflowInput : WorkflowInput → Type 0
IsWorkflowInput (node_output source_node source_port) = source_node < 2 ^ 64
IsWorkflowInput other_source = Unit {0}

pub record IsWorkflowNode (node : WorkflowNode) : Type 0 where
  pub id_range : node.id < 2 ^ 64
  pub input_ranges : All IsWorkflowInput node.inputs
  pub parameter_ranges : All (λ entry. IsParameterValue entry.1) node.parameters
  pub parameter_order : IsSorted bytes_lt node.parameters

pub record IsWorkflowDocument (document : WorkflowDocument) : Type 0 where
  pub schema_range : document.schema_version < 2 ^ 32
  pub node_ranges : All IsWorkflowNode document.nodes
  pub output_ranges : All (λ output. output.node_id < 2 ^ 64) document.outputs
