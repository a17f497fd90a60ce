-- ===== src/Codec/Value.antt =====
-- Values of src/lib/ipc/codec.cpp: `encode_value` and `decode_value`.
pub mod Agreement
use photospider_daemon.Base.{
  ℕ, ◌+◌, ◌*◌, Bool, true, false, not, ◌&&◌, ◌||◌, List, [], ◌∷◌, Bytes, length, ltb, leb, ◌==◌,
  if◌then◌else◌,
}
use photospider_daemon.Base.Outcome.{Outcome, ok, err}
use photospider_daemon.Kernel.{Kernel, Result}
use photospider_daemon.Protocol.{maximum_frame_payload_bytes}
use photospider_daemon.Execution.{RegionDimension, ValueFacet, ValueParts, Values}
use photospider_daemon.Codec.Failure.{Codec, invalid, exhausted}
use photospider_daemon.Codec.Encoder
use photospider_daemon.Codec.Encoder.{Encode, ◌>>◌, ensure, each}
use photospider_daemon.Codec.Decoder
use photospider_daemon.Codec.Decoder.{
  Decode, ◌>>=◌, pure, require, repeat, lift, require_count_fits, CountContract,
}

abbrev pub value_axes_contract : CountContract
value_axes_contract = record { minimum_entry_bytes = 32; required_suffix_bytes = 65 }

abbrev pub value_facets_contract : CountContract
value_facets_contract = record { minimum_entry_bytes = 12; required_suffix_bytes = 56 }

-- `std::any_of(origin.begin(), origin.end(), origin != 0)`
unfoldable pub any_nonzero : List ℕ → Bool
any_nonzero [] = false
any_nonzero (origin ∷ rest) = not (origin == 0) || any_nonzero rest

-- `throw CodecFailure(result.status().code, result.status().message)`
unfoldable pub throw_failure : {A : Type 0} → Result A → Codec A
throw_failure (ok a) = ok a
throw_failure (err s) = err (record { code = s.code; what = s.message })

module _ ⦃k : Kernel⦄ where
  unfoldable pub encode_dimension : RegionDimension → Encode
  encode_dimension d = Encoder.u64 d.offset >> Encoder.u64 d.extent

  unfoldable pub decode_dimension : Decode RegionDimension
  decode_dimension = do
    offset ← Decoder.u64
    extent ← Decoder.u64
    pure (record { offset = offset; extent = extent })

  unfoldable pub encode_facet : ValueFacet → Encode
  encode_facet f = Encoder.text f.key 256 >> (Encoder.u32 f.version >> Encoder.bytes f.payload)

  unfoldable pub decode_facet : Decode ValueFacet
  decode_facet = do
    key ← Decoder.text 256
    version ← Decoder.u32
    payload ← Decoder.bytes (64 * 1024)
    pure (record { key = key; version = version; payload = payload })

  -- The facets and the bytes.
  unfoldable pub encode_contents : List ValueFacet → Bytes → Encode
  encode_contents facets bytes =
      ensure (not (ltb 64 (length facets))) (exhausted "result Value has too many facets")
      >> (Encoder.u8 (length facets) >> (each encode_facet facets >> Encoder.bytes bytes))

  unfoldable pub decode_contents : Decode (List ValueFacet × Bytes)
  decode_contents = do
    facet_count ← Decoder.u8
    _ ← require (not (ltb 64 facet_count)) (invalid "wire Value has too many facets")
    _ ← require_count_fits facet_count value_facets_contract
    facets ← repeat facet_count decode_facet
    bytes ← Decoder.bytes maximum_frame_payload_bytes
    pure (facets, bytes)

  -- The axes, the layout and the contents of a Value of a type and a rank.
  unfoldable pub encode_axes : ValueParts → Encode
  encode_axes p =
      each Encoder.u64 p.shape
      >> (each encode_dimension p.dimensions
          >> (Encoder.u64 p.byte_offset
              >> (each Encoder.i64 p.byte_strides >> encode_contents p.facets p.bytes)))

  unfoldable pub decode_axes : ℕ → ℕ → Decode ValueParts
  decode_axes element_type rank = do
    shape ← repeat rank Decoder.u64
    dimensions ← repeat rank decode_dimension
    offset ← Decoder.u64
    strides ← repeat rank Decoder.i64
    contents ← decode_contents
    pure (record {
      element_type = element_type;
      shape = shape;
      dimensions = dimensions;
      byte_offset = offset;
      byte_strides = strides;
      bytes = contents.1;
      facets = contents.0;
    })

  module _ {Value : Type 0} ⦃vs : Values Value⦄ where
    unfoldable pub encode_value : Value → Encode
    encode_value value =
        ensure (vs.valid value && not (ltb 8 (length (vs.parts value).shape)))
          (invalid "result contains an invalid Value")
        >> (ensure
              (not
                ((vs.parts value).element_type == k.type_float32 || any_nonzero (vs.origin value)))
              (invalid "Value type or storage origin is not supported by IPC v3")
            >> (Encoder.u32 (vs.parts value).element_type
                >> (Encoder.u8 (length (vs.parts value).shape) >> encode_axes (vs.parts value))))

    unfoldable pub decode_value : Decode Value
    decode_value = do
      raw_type ← Decoder.u32
      _ ←
          require (not (ltb raw_type k.type_uint8 || ltb k.type_float64 raw_type))
            (invalid "wire Value element type is unknown")
      rank ← Decoder.u8
      _ ← require (not (rank == 0 || ltb 8 rank)) (invalid "wire Value rank is outside 1..8")
      _ ← require_count_fits rank value_axes_contract
      parts ← decode_axes raw_type rank
      lift (throw_failure (vs.create parts))
