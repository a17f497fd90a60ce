-- ===== src/Codec/Document/Agreement.antt =====
-- The decoder of workflow documents reads back what their encoder wrote.
use photospider_daemon.Base.{
  ℕ, ◌+◌, ◌*◌, ◌^◌, ◌≤◌, ◌<◌, ◌≡◌, sym, Bool, true, false, List, [], ◌∷◌, ◌++◌, Bytes, length,
  arith, All, subst, Option, some, append_assoc, append-nil,
}
use photospider_daemon.Base.SortedMap.{bytes_lt, bytes_lt_asymm, emplace_last, IsSorted}
use photospider_daemon.Kernel.{Kernel}
use photospider_daemon.Workflow.{
  ParameterValue, integer, floating, boolean, string, Parameters, WorkflowInput, node_output,
  other_source, WorkflowNode, WorkflowOutput, WorkflowDocument, IsParameterValue, IsWorkflowInput,
  IsWorkflowNode, IsWorkflowDocument,
}
use photospider_daemon.Codec.Failure.{CodecFailure}
use photospider_daemon.Codec.Encoder.{Encode, each, ◌>>◌}
use photospider_daemon.Codec.Encoder
use photospider_daemon.Codec.Decoder.{Decode, ◌>>=◌}
use photospider_daemon.Codec.RoundTrip.Compose.{
  RoundTrip, RoundTrip-bind, RoundTrip-pure, RoundTrip-last, RoundTrip-weaken, RoundTrip-require,
  RoundTrip-ensure, RoundTrip-each, RoundTrip-fence,
}
use photospider_daemon.Codec.RoundTrip.Scalars.{
  u8-RoundTrip, u32-RoundTrip, u64-RoundTrip, i64-RoundTrip, f64-RoundTrip, boolean-RoundTrip,
  text-RoundTrip,
}
use photospider_daemon.Codec.Document.{
  published, fill, encode_parameter, decode_alternative, decode_parameter, encode_input,
  decode_input, encode_entry, decode_entry, encode_node, decode_parameters, decode_node,
  decode_outputs, encode_output, decode_output, encode_document, decode_document,
}

RoundTrip-published :
    {K V B : Type 0} {e : Encode} {b : B} {m s : ℕ} (duplicate : CodecFailure)
    (o : Option (List (K × V))) (f : List (K × V) → Decode B) (entries : List (K × V))
    → o ≡ some entries
    → RoundTrip e (f entries) b m s
    → RoundTrip e (published duplicate o >>= f) b m s
unfolding published
RoundTrip-published {e = e} {b = b} {m = m} {s = s} duplicate o f entries eq x =
    subst (λ r. RoundTrip e (published duplicate r >>= f) b m s) (sym eq) x

-- The loop that emplaces a sorted map's entries appends them.
pub RoundTrip-fill :
    {K V : Type 0} (lt : K → K → Bool) (duplicate : CodecFailure) (put : K × V → Encode)
    (get : Decode (K × V)) (P : K × V → Type 0) (m t : ℕ)
    → ((a b : K) → lt a b ≡ true → lt b a ≡ false)
    → ((entry : K × V) → P entry → RoundTrip (put entry) get entry m t)
    → (entries before : List (K × V)) → All P entries
    → IsSorted lt (before ++ entries)
    → RoundTrip
        (each put entries)
        (fill lt duplicate (length entries) get before)
        (before ++ entries)
        (length entries * m)
        t
unfolding each fill
RoundTrip-fill lt duplicate put get P m t asymm entry [] before h sorted =
    rw (append-nil before) (RoundTrip-weaken _ _ (omega arith) (omega arith) RoundTrip-pure)
RoundTrip-fill lt duplicate put get P m t asymm entry ((key, value) ∷ entries) before (h, hs)
      sorted =
    let here = append_assoc before ((key, value) ∷ []) entries in
    let rest =
      RoundTrip-fill lt duplicate put get P m t asymm entry entries (before ++ (key, value) ∷ []) hs
        (subst (IsSorted lt) (sym here) sorted) in
    RoundTrip-weaken _ _ (omega arith) (omega arith) (
      RoundTrip-bind _ (entry (key, value) h)
        (RoundTrip-published duplicate _ _ _ (emplace_last lt asymm before key value entries sorted)
          (subst
            (λ r.
              RoundTrip (each put entries)
                (fill lt duplicate (length entries) get (before ++ (key, value) ∷ [])) r
                (length entries * m) t)
            here rest))
        (omega arith))

module _ ⦃k : Kernel⦄ where
  parameter-RoundTrip :
      (p : ParameterValue)
      → IsParameterValue p
      → RoundTrip (encode_parameter p) decode_parameter p 2 0
  unfolding encode_parameter decode_parameter decode_alternative
  parameter-RoundTrip (integer bits) h = RoundTrip-weaken _ _ (omega arith) (omega arith) (
      RoundTrip-bind _ (u8-RoundTrip 1) (RoundTrip-last integer (i64-RoundTrip bits h))
        (omega arith))
  parameter-RoundTrip (floating bits) h = RoundTrip-weaken _ _ (omega arith) (omega arith) (
      RoundTrip-bind _ (u8-RoundTrip 2) (RoundTrip-last floating (f64-RoundTrip bits h))
        (omega arith))
  parameter-RoundTrip (boolean b) h =
      RoundTrip-bind _ (u8-RoundTrip 3) (RoundTrip-last boolean (boolean-RoundTrip b)) (omega arith)
  parameter-RoundTrip (string s) h = RoundTrip-weaken _ _ (omega arith) (omega arith) (
      RoundTrip-bind _ (u8-RoundTrip 4) (RoundTrip-last string (text-RoundTrip s 8192))
        (omega arith))

  input-RoundTrip :
      (i : WorkflowInput) → IsWorkflowInput i → RoundTrip (encode_input i) decode_input i 12 0
  unfolding encode_input decode_input
  input-RoundTrip (node_output source_node source_port) h =
      RoundTrip-bind _ (u64-RoundTrip source_node h)
        (RoundTrip-last (node_output source_node) (text-RoundTrip source_port 64)) (omega arith)
  input-RoundTrip other_source h = record { run = λ p q e. absurd (cc) }

  entry-RoundTrip :
      (entry : Bytes × ParameterValue)
      → IsParameterValue entry.1
      → RoundTrip (encode_entry entry) decode_entry entry 6 4
  unfolding encode_entry decode_entry
  entry-RoundTrip (key, value) h = RoundTrip-weaken _ _ (omega arith) (omega arith) (
      RoundTrip-bind _ (text-RoundTrip key 1024)
        (RoundTrip-last (λ v. (key, v)) (parameter-RoundTrip value h)) (omega arith))

  -- The parameters of a node, behind their count.
  parameters-RoundTrip :
      (id : ℕ) (operation : Bytes) (inputs : List WorkflowInput) (parameters : Parameters)
      → length parameters ≤ 1024
      → All (λ entry. IsParameterValue entry.1) parameters
      → IsSorted bytes_lt parameters
      → RoundTrip
          (Encoder.u32 (length parameters) >> each encode_entry parameters)
          (decode_parameters id operation inputs)
          (record { id = id; operation = operation; inputs = inputs; parameters = parameters })
          (4 + length parameters * 6)
          4
  unfolding decode_parameters
  parameters-RoundTrip id operation inputs parameters few h sorted =
      RoundTrip-bind _ (u32-RoundTrip (length parameters) (omega arith))
        (RoundTrip-require _ _ _ (ground arith) (
          RoundTrip-fence _ _ _ (omega arith) (omega arith) (
            RoundTrip-last _ (
              RoundTrip-fill bytes_lt _ encode_entry decode_entry _ 6 4 bytes_lt_asymm
                entry-RoundTrip parameters [] h sorted))))
        (omega arith)

  node-RoundTrip :
      (node : WorkflowNode)
      → IsWorkflowNode node
      → RoundTrip (encode_node node) decode_node node 20 4
  unfolding encode_node decode_node
  node-RoundTrip node h = RoundTrip-ensure _ _ λ passes.
      let few : length node.inputs ≤ 1024 = ground arith in
      let few' : length node.parameters ≤ 1024 = ground arith in
      RoundTrip-weaken _ _ (omega arith) (omega arith) (
        RoundTrip-bind _ (u64-RoundTrip node.id h.id_range)
          (RoundTrip-bind _ (text-RoundTrip node.operation 1024)
            (RoundTrip-bind _ (u32-RoundTrip (length node.inputs) (omega arith))
              (RoundTrip-require _ _ _ (ground arith) (
                RoundTrip-fence _ _ _ (omega arith) (omega arith) (
                  RoundTrip-bind _
                    (RoundTrip-each encode_input decode_input IsWorkflowInput 12 0 input-RoundTrip
                      node.inputs h.input_ranges)
                    (parameters-RoundTrip node.id node.operation node.inputs node.parameters few'
                      h.parameter_ranges h.parameter_order)
                    (omega arith))))
              (omega arith))
            (omega arith))
          (omega arith))

  output-RoundTrip :
      (output : WorkflowOutput)
      → output.node_id < 2 ^ 64
      → RoundTrip (encode_output output) decode_output output 16 0
  unfolding encode_output decode_output
  output-RoundTrip output h =
      RoundTrip-bind _ (text-RoundTrip output.name 1024)
        (RoundTrip-bind _ (u64-RoundTrip output.node_id h)
          (RoundTrip-last _ (text-RoundTrip output.port 64)) (omega arith))
        (omega arith)

  -- The outputs of a document, behind their count; the declared inputs are none.
  outputs-RoundTrip :
      (schema_version declared_inputs : ℕ) (nodes : List WorkflowNode)
      (outputs : List WorkflowOutput)
      → declared_inputs ≡ 0
      → length outputs ≤ 4096
      → All (λ output. output.node_id < 2 ^ 64) outputs
      → RoundTrip
          (Encoder.u32 (length outputs) >> each encode_output outputs)
          (decode_outputs schema_version nodes)
          (record {
            schema_version = schema_version;
            declared_inputs = declared_inputs;
            nodes = nodes;
            outputs = outputs;
          })
          (4 + length outputs * 16)
          0
  unfolding decode_outputs
  outputs-RoundTrip schema_version declared_inputs nodes outputs undeclared few h = rw undeclared (
      RoundTrip-bind _ (u32-RoundTrip (length outputs) (omega arith))
        (RoundTrip-require _ _ _ (ground arith) (
          RoundTrip-fence _ _ _ (omega arith) (omega arith) (
            RoundTrip-last _ (
              RoundTrip-each encode_output decode_output (λ output. output.node_id < 2 ^ 64) 16 0
                output-RoundTrip outputs h))))
        (omega arith))

  pub document-RoundTrip :
      (document : WorkflowDocument)
      → IsWorkflowDocument document
      → RoundTrip (encode_document document) decode_document document 12 0
  unfolding encode_document decode_document
  document-RoundTrip document h = RoundTrip-ensure _ _ λ passes.
      let few : length document.nodes ≤ 65536 = ground arith in
      let few' : length document.outputs ≤ 4096 = ground arith in
      RoundTrip-ensure _ _ λ undeclared.
        let none_declared : document.declared_inputs ≡ 0 = ground arith in
        RoundTrip-weaken _ _ (omega arith) (omega arith) (
          RoundTrip-bind _ (u32-RoundTrip document.schema_version h.schema_range)
            (RoundTrip-bind _ (u32-RoundTrip (length document.nodes) (omega arith))
              (RoundTrip-require _ _ _ (ground arith) (
                RoundTrip-fence _ _ _ (omega arith) (omega arith) (
                  RoundTrip-bind _
                    (RoundTrip-each encode_node decode_node IsWorkflowNode 20 4 node-RoundTrip
                      document.nodes h.node_ranges)
                    (outputs-RoundTrip document.schema_version document.declared_inputs
                      document.nodes document.outputs none_declared few' h.output_ranges)
                    (omega arith))))
              (omega arith))
            (omega arith))
