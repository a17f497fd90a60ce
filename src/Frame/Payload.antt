-- ===== src/Frame/Payload.antt =====
-- src/lib/ipc/frame.cpp: the payload of a frame, and the prefix of it that is kept for a reply.
use photospider_daemon.Base.{
  ℕ, zero, suc, ◌-◌, ◌≤◌, ◌<◌, true, [], ◌++◌, Bytes, length, take, drop, min, ltb, some, arith,
  ◌≡◌, sym, ap, ◌∙◌, take-min, take_append, length-take, drop_nil, take_nil, append-nil, Bool-cases,
  inl, inr,
}
use photospider_daemon.Base.Outcome.{ok, err}
use photospider_daemon.Kernel.{Kernel, Result}
use photospider_daemon.Frame.{
  Input, recv, closed_early, correlation_prefix_bytes, read_chunk_bytes, Progress, capture,
  read_payload,
}
use photospider_daemon.Frame.Stream.{
  is_steady, measure, waits, ends, gives, breaks, call_of, Yields, Yields-eq, whole_of, whole-more,
  exact_of, exact_full, exact_end, exact-more, within_size, rest-more, rest_full,
}

-- The prefix that is kept of a payload.
abbrev pub kept : Bytes → Progress
kept payload = take correlation_prefix_bytes payload

-- The prefix grows with the payload.
capture-kept : (payload chunk : Bytes) → capture chunk (kept payload) ≡ kept (payload ++ chunk)
capture-kept payload chunk =
    let size = correlation_prefix_bytes in
    let measured : length (kept payload) ≡ min size (length payload) = length-take size payload in
    elim (Bool-cases (ltb (length (kept payload)) size)) [
      | inl short ↦
          let wanted : min (length chunk) (size - length (kept payload))
              ≡ min (size - length payload) (length chunk) =
            ground (arith, measured) in
          rw (short, wanted)
            (ap (kept payload ++◌) (take-min (size - length payload) chunk)
              ∙ sym (take_append size payload chunk))
      | inr full ↦
          let none_left : size - length payload ≡ 0 = ground (arith, measured) in
          rw full (
            sym (append-nil (kept payload))
            ∙ ap (λ n. kept payload ++ take n chunk) (sym none_left)
            ∙ sym (take_append size payload chunk))
    ]

module _ ⦃k : Kernel⦄ where
  abbrev pub payload_of : ℕ → Bytes → Bytes → Result Bytes × Progress
  payload_of size payload c =
      (exact_of (λ n. closed_early) size payload c, kept (whole_of size payload c))

  payload_full :
      (size : ℕ) (payload c : Bytes)
      → length payload ≡ size
      → payload_of size payload c ≡ (ok payload, kept payload)
  payload_full size payload c h =
      let none_left : size - length payload ≡ 0 = omega arith in
      let whole : whole_of size payload c ≡ payload = rw none_left (append-nil payload) in
      ap (λ r. (r, kept (whole_of size payload c)))
        (exact_full (λ n. closed_early) size payload c h)
      ∙ ap (λ w. (ok payload, kept w)) whole

  payload_end :
      (size : ℕ) (payload : Bytes)
      → length payload < size
      → payload_of size payload [] ≡ (err closed_early, kept payload)
  payload_end size payload h =
      let whole : whole_of size payload [] ≡ payload =
        ap (payload ++◌) (take_nil (size - length payload)) ∙ append-nil payload in
      ap (λ r. (r, kept (whole_of size payload []))) (exact_end (λ n. closed_early) size payload h)
      ∙ ap (λ w. (err closed_early, kept w)) whole

  payload-more :
      (size m : ℕ) (payload c : Bytes)
      → m ≤ size - length payload
      → m ≤ length c
      → payload_of size (payload ++ take m c) (drop m c) ≡ payload_of size payload c
  payload-more size m payload c at_most within =
      ap (λ r. (r, kept (whole_of size (payload ++ take m c) (drop m c))))
        (exact-more (λ n. closed_early) size m payload c at_most within)
      ∙ ap (λ w. (exact_of (λ n. closed_early) size payload c, kept w))
          (whole-more size m payload c at_most within)

  pub read_payload-run :
      (fuel size : ℕ) (payload : Bytes) (s : Input)
      → length payload ≤ size
      → measure s < fuel
      → is_steady s.paces ≡ true
      → Yields
          (read_payload fuel size payload (kept payload) s)
          (payload_of size payload s.incoming)
          (drop (size - length payload) s.incoming)
  unfolding read_payload
  read_payload-run zero size payload s within enough steady = absurd (omega arith)
  read_payload-run (suc fuel) size payload s within enough steady =
      let rest = size - length payload in
      let requested = min rest read_chunk_bytes in
      let after = (recv requested s).1 in
      elim (Bool-cases (ltb (length payload) size)) [
        | inr full ↦
            rw (full, read_payload)
              (record {
                after = s;
                returns =
                    ap (λ r. some (r, s))
                      (sym (payload_full size payload s.incoming (ground arith)));
                leaves = sym (rest_full size payload s.incoming (ground arith));
                stays = steady;
              })
        | inl short ↦
            rw (short, read_payload)
              (elim (call_of requested s (ground arith)) [
                | waits e same less stay ↦ rw e (
                    Yields-eq _
                      (read_payload-run fuel size payload after within (omega arith) (stay steady))
                      (ap (payload_of size payload) same) (ap (drop rest) same))
                | ends e empty same stay ↦ rw e (record {
                  after = after;
                  returns =
                      ap (λ r. some (r, after))
                        (sym (payload_end size payload (ground arith))
                          ∙ ap (payload_of size payload) (sym empty));
                  leaves = same ∙ sym (drop_nil rest) ∙ ap (drop rest) (sym empty);
                  stays = stay steady;
                })
                | gives m e left at_most at_least less stay ↦
                    let payload' = payload ++ take m s.incoming in
                    rw (e, capture-kept payload (take m s.incoming))
                      (Yields-eq _
                        (read_payload-run fuel size payload' after
                          (within_size size m payload s.incoming (omega arith) at_least within)
                          (omega arith) (stay steady))
                        (ap (payload_of size payload') left
                          ∙ payload-more size m payload s.incoming (omega arith) at_least)
                        (ap (drop (size - length payload')) left
                          ∙ rest-more size m payload s.incoming (omega arith) at_least))
                | breaks text e bad ↦ absurd (cc)
              ])
      ]
