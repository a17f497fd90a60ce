-- ===== src/Codec/Document.antt =====
-- The workflow document of src/lib/ipc/codec.cpp: `encode_parameter`, `decode_parameter`,
-- `encode_document` and `decode_document`.
pub mod Agreement
use photospider_daemon.Base.{
  ℕ, zero, suc, Bool, not, ◌||◌, List, [], ◌∷◌, Bytes, length, ltb, ◌==◌, if◌then◌else◌, Option,
  none, some,
}
use photospider_daemon.Base.SortedMap.{bytes_lt, emplace}
use photospider_daemon.Base.Outcome.{ok, err}
use photospider_daemon.Kernel.{Kernel}
use photospider_daemon.Workflow.{
  ParameterValue, integer, floating, boolean, string, Parameters, WorkflowInput, node_output,
  other_source, WorkflowNode, WorkflowOutput, WorkflowDocument,
}
use photospider_daemon.Codec.Failure.{CodecFailure, invalid}
use photospider_daemon.Codec.Encoder
use photospider_daemon.Codec.Encoder.{Encode, ◌>>◌, ensure, each, refuse}
use photospider_daemon.Codec.Decoder
use photospider_daemon.Codec.Decoder.{
  Decode, ◌>>=◌, pure, throw, require, repeat, require_count_fits, CountContract,
}

abbrev pub workflow_nodes_contract : CountContract
workflow_nodes_contract = record { minimum_entry_bytes = 20; required_suffix_bytes = 4 }

abbrev pub workflow_inputs_contract : CountContract
workflow_inputs_contract = record { minimum_entry_bytes = 12; required_suffix_bytes = 8 }

abbrev pub workflow_parameters_contract : CountContract
workflow_parameters_contract = record { minimum_entry_bytes = 6; required_suffix_bytes = 4 }

abbrev pub workflow_outputs_contract : CountContract
workflow_outputs_contract = record { minimum_entry_bytes = 16; required_suffix_bytes = 0 }

-- A loop that reads an entry and emplaces it, and throws on a key that is there.
unfoldable pub published :
    {K V : Type 0} → CodecFailure → Option (List (K × V)) → Decode (List (K × V))
published duplicate none = throw duplicate
published duplicate (some entries) = pure entries

unfoldable pub fill :
    {K V : Type 0}
    → (K → K → Bool)
    → CodecFailure
    → ℕ
    → Decode (K × V)
    → List (K × V)
    → Decode (List (K × V))
fill lt duplicate zero get entries = pure entries
fill lt duplicate (suc count) get entries = do
  entry ← get
  more ← published duplicate (emplace lt entry.0 entry.1 entries)
  fill lt duplicate count get more

module _ ⦃k : Kernel⦄ where
  unfoldable pub encode_parameter : ParameterValue → Encode
  encode_parameter (integer bits) = Encoder.u8 1 >> Encoder.i64 bits
  encode_parameter (floating bits) = Encoder.u8 2 >> Encoder.f64 bits
  encode_parameter (boolean b) = Encoder.u8 3 >> Encoder.boolean b
  encode_parameter (string s) = Encoder.u8 4 >> Encoder.text s 8192

  -- The alternative of a tag.
  unfoldable pub decode_alternative : ℕ → Decode ParameterValue
  decode_alternative tag =
      if tag == 1
      then (Decoder.i64 >>= λ bits. pure (integer bits))
      else if tag == 2
      then (Decoder.f64 >>= λ bits. pure (floating bits))
      else if tag == 3
      then (Decoder.boolean >>= λ b. pure (boolean b))
      else if tag == 4
      then (Decoder.text 8192 >>= λ s. pure (string s))
      else throw (invalid "wire parameter tag is unknown")

  unfoldable pub decode_parameter : Decode ParameterValue
  decode_parameter = Decoder.u8 >>= decode_alternative

  unfoldable pub encode_input : WorkflowInput → Encode
  encode_input (node_output source_node source_port) =
      Encoder.u64 source_node >> Encoder.text source_port 64
  encode_input other_source = refuse (invalid "IPC v3 accepts only node-output edges")

  unfoldable pub decode_input : Decode WorkflowInput
  decode_input = do
    source_node ← Decoder.u64
    source_port ← Decoder.text 64
    pure (node_output source_node source_port)

  unfoldable pub encode_entry : Bytes × ParameterValue → Encode
  encode_entry (key, value) = Encoder.text key 1024 >> encode_parameter value

  unfoldable pub decode_entry : Decode (Bytes × ParameterValue)
  decode_entry = do key ← Decoder.text 1024; value ← decode_parameter; pure (key, value)

  unfoldable pub encode_node : WorkflowNode → Encode
  encode_node node =
      ensure (not (ltb 1024 (length node.inputs) || ltb 1024 (length node.parameters)))
        (invalid "workflow node count exceeds wire bounds")
      >> (Encoder.u64 node.id
          >> (Encoder.text node.operation 1024
              >> (Encoder.u32 (length node.inputs)
                  >> (each encode_input node.inputs
                      >> (Encoder.u32 (length node.parameters)
                          >> each encode_entry node.parameters)))))

  -- The rest of a node, behind its inputs.
  unfoldable pub decode_parameters : ℕ → Bytes → List WorkflowInput → Decode WorkflowNode
  decode_parameters id operation inputs = do
    parameter_count ← Decoder.u32
    _ ← require (not (ltb 1024 parameter_count)) (invalid "wire workflow has too many parameters")
    _ ← require_count_fits parameter_count workflow_parameters_contract
    parameters ←
        fill bytes_lt (invalid "wire workflow duplicates a parameter key") parameter_count
          decode_entry []
    pure (record { id = id; operation = operation; inputs = inputs; parameters = parameters })

  unfoldable pub decode_node : Decode WorkflowNode
  decode_node = do
    id ← Decoder.u64
    operation ← Decoder.text 1024
    input_count ← Decoder.u32
    _ ← require (not (ltb 1024 input_count)) (invalid "wire workflow has too many inputs")
    _ ← require_count_fits input_count workflow_inputs_contract
    inputs ← repeat input_count decode_input
    decode_parameters id operation inputs

  unfoldable pub encode_output : WorkflowOutput → Encode
  encode_output output =
      Encoder.text output.name 1024 >> (Encoder.u64 output.node_id >> Encoder.text output.port 64)

  unfoldable pub decode_output : Decode WorkflowOutput
  decode_output = do
    name ← Decoder.text 1024
    node_id ← Decoder.u64
    port ← Decoder.text 64
    pure (record { name = name; node_id = node_id; port = port })

  unfoldable pub encode_document : WorkflowDocument → Encode
  encode_document document =
      ensure (not (ltb 65536 (length document.nodes) || ltb 4096 (length document.outputs)))
        (invalid "workflow document count exceeds wire bounds")
      >> (ensure (document.declared_inputs == 0)
            (invalid "IPC v3 does not carry workflow input declarations")
          >> (Encoder.u32 document.schema_version
              >> (Encoder.u32 (length document.nodes)
                  >> (each encode_node document.nodes
                      >> (Encoder.u32 (length document.outputs)
                          >> each encode_output document.outputs)))))

  -- The rest of a document, behind its nodes.
  unfoldable pub decode_outputs : ℕ → List WorkflowNode → Decode WorkflowDocument
  decode_outputs schema_version nodes = do
    output_count ← Decoder.u32
    _ ← require (not (ltb 4096 output_count)) (invalid "wire workflow has too many outputs")
    _ ← require_count_fits output_count workflow_outputs_contract
    outputs ← repeat output_count decode_output
    pure (record {
      schema_version = schema_version;
      declared_inputs = 0;
      nodes = nodes;
      outputs = outputs;
    })

  unfoldable pub decode_document : Decode WorkflowDocument
  decode_document = do
    schema_version ← Decoder.u32
    node_count ← Decoder.u32
    _ ← require (not (ltb 65536 node_count)) (invalid "wire workflow has too many nodes")
    _ ← require_count_fits node_count workflow_nodes_contract
    nodes ← repeat node_count decode_node
    decode_outputs schema_version nodes
