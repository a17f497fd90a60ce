-- ===== src/Codec/Value/Agreement.antt =====
-- `decode_value` reads back what `encode_value` wrote.
use photospider_daemon.Base.{
  ℕ, ◌+◌, ◌*◌, ◌^◌, ◌≤◌, ◌<◌, ◌≡◌, refl, List, Bytes, length, arith, All, subst,
}
use photospider_daemon.Kernel.{Kernel}
use photospider_daemon.Execution.{RegionDimension, ValueFacet, Values, IsWireValue}
use photospider_daemon.Codec.Encoder.{Encode, each}
use photospider_daemon.Codec.Decoder
use photospider_daemon.Codec.Decoder.{Decode, repeat}
use photospider_daemon.Codec.RoundTrip.Compose.{
  RoundTrip, RoundTrip-bind, RoundTrip-last, RoundTrip-then, RoundTrip-weaken, RoundTrip-require,
  RoundTrip-ensure, RoundTrip-each, RoundTrip-fence,
}
use photospider_daemon.Codec.RoundTrip.Scalars.{
  u8-RoundTrip, u32-RoundTrip, u64-RoundTrip, i64-RoundTrip, text-RoundTrip, bytes-RoundTrip,
}
use photospider_daemon.Codec.Value.{
  encode_dimension, decode_dimension, encode_facet, decode_facet, encode_contents, decode_contents,
  encode_axes, decode_axes, encode_value, decode_value, throw_failure,
}

-- A loop whose count was read elsewhere.
counted-RoundTrip :
    {A : Type 0} (put : A → Encode) (get : Decode A) (P : A → Type 0) (m n : ℕ)
    → ((x : A) → P x → RoundTrip (put x) get x m 0)
    → (xs : List A) → length xs ≡ n
    → All P xs
    → RoundTrip (each put xs) (repeat n get) xs (n * m) 0
counted-RoundTrip put get P m n entry xs e h =
    subst (λ c. RoundTrip (each put xs) (repeat c get) xs (c * m) 0) e
      (RoundTrip-each put get P m 0 entry xs h)

module _ ⦃k : Kernel⦄ where
  dimension-RoundTrip :
      (d : RegionDimension)
      → (d.offset < 2 ^ 64) × (d.extent < 2 ^ 64)
      → RoundTrip (encode_dimension d) decode_dimension d 16 0
  unfolding encode_dimension decode_dimension
  dimension-RoundTrip d (h, h') =
      RoundTrip-bind _ (u64-RoundTrip d.offset h) (RoundTrip-last _ (u64-RoundTrip d.extent h'))
        (omega arith)

  facet-RoundTrip :
      (f : ValueFacet)
      → (f.version < 2 ^ 32) × (length f.payload ≤ 65536)
      → RoundTrip (encode_facet f) decode_facet f 12 0
  unfolding encode_facet decode_facet
  facet-RoundTrip f (h, h') =
      RoundTrip-bind _ (text-RoundTrip f.key 256)
        (RoundTrip-bind _ (u32-RoundTrip f.version h)
          (RoundTrip-last _ (bytes-RoundTrip f.payload (64 * 1024) h')) (omega arith))
        (omega arith)

  -- Behind the contents stand the diagnostics, of 52 bytes at least.
  contents-RoundTrip :
      (facets : List ValueFacet) (bytes : Bytes)
      → All (λ f. (f.version < 2 ^ 32) × (length f.payload ≤ 65536)) facets
      → length bytes ≤ 4194304
      → RoundTrip (encode_contents facets bytes) decode_contents (facets, bytes) 5 52
  unfolding encode_contents decode_contents
  contents-RoundTrip facets bytes h fit = RoundTrip-ensure _ _ λ few.
      let few' : length facets ≤ 64 = ground arith in
      RoundTrip-weaken _ _ (omega arith) (omega arith) (
        RoundTrip-bind _ (u8-RoundTrip (length facets))
          (RoundTrip-require _ _ _ (ground arith) (
            RoundTrip-fence _ _ _ (omega arith) (omega arith) (
              RoundTrip-weaken (length facets * 12 + 4) 52 (omega arith) (omega arith) (
                RoundTrip-bind _
                  (RoundTrip-each encode_facet decode_facet
                    (λ f. (f.version < 2 ^ 32) × (length f.payload ≤ 65536)) 12 0 facet-RoundTrip
                    facets h)
                  (RoundTrip-last _ (bytes-RoundTrip bytes 4194304 fit)) (omega arith)))))
          (omega arith))

  module _ {Value : Type 0} ⦃vs : Values Value⦄ where
    axes-RoundTrip :
        (v : Value) (rank : ℕ)
        → length (vs.parts v).shape ≡ rank
        → IsWireValue v
        → RoundTrip
            (encode_axes (vs.parts v))
            (decode_axes (vs.parts v).element_type rank)
            (vs.parts v)
            (rank * 32 + 13)
            52
    unfolding encode_axes decode_axes
    axes-RoundTrip v rank e h = RoundTrip-weaken _ _ (omega arith) (omega arith) (
        RoundTrip-bind _
          (counted-RoundTrip _ _ _ 8 rank u64-RoundTrip (vs.parts v).shape e h.extents)
          (RoundTrip-bind _
            (counted-RoundTrip _ _ _ 16 rank dimension-RoundTrip (vs.parts v).dimensions
              (omega (arith, h.region_rank)) h.regions)
            (RoundTrip-bind _ (u64-RoundTrip (vs.parts v).byte_offset h.offset_range)
              (RoundTrip-bind _
                (counted-RoundTrip _ _ _ 8 rank i64-RoundTrip (vs.parts v).byte_strides
                  (omega (arith, h.stride_rank)) h.strides)
                (RoundTrip-last _ (
                  contents-RoundTrip (vs.parts v).facets (vs.parts v).bytes h.facet_ranges
                    h.bytes_fit))
                (omega arith))
              (omega arith))
            (omega arith))
          (omega arith))

    pub value-RoundTrip :
        (v : Value) → IsWireValue v → RoundTrip (encode_value v) decode_value v 50 52
    unfolding encode_value decode_value Decoder.lift throw_failure
    value-RoundTrip v h = RoundTrip-ensure _ _ λ accepted. RoundTrip-ensure _ _ λ supported.
        let low : length (vs.parts v).shape ≤ 8 = ground arith in
        let ranked = h.ranked in
        RoundTrip-weaken _ _ (omega arith) (omega arith) (
          RoundTrip-bind _ (u32-RoundTrip (vs.parts v).element_type h.type_range)
            (RoundTrip-require _ _ _ (ground (arith, h.type_low, h.type_high)) (
              RoundTrip-bind _ (u8-RoundTrip (length (vs.parts v).shape))
                (RoundTrip-require _ _ _ (ground (arith, ranked)) (
                  RoundTrip-fence _ _ _ (omega arith) (omega arith) (
                    RoundTrip-then _ (axes-RoundTrip v (length (vs.parts v).shape) refl h)
                      (λ rest. rw h.recreated))))
                (omega arith)))
            (omega arith))
