-- ===== src/Frame/Termination.antt =====
-- src/lib/ipc/frame.cpp: the loops of `read_frame` end on every stream, failing calls included.
use photospider_daemon.Base.{
  ℕ, zero, suc, ◌-◌, ◌<◌, [], ◌++◌, Bytes, length, take, min, ltb, none, some, arith, ◌≡◌, refl,
  Bool-cases, inl, inr,
}
use photospider_daemon.Base.Outcome.{ok, err}
use photospider_daemon.Kernel.{Kernel, Result}
use photospider_daemon.Frame.{
  Input, recv, Reads, read_exact, read_chunk_bytes, Progress, capture, read_payload, rounds,
  header_size, size_allowed, read_body, read_frame,
}
use photospider_daemon.Frame.Stream.{measure, waits, ends, gives, breaks, call_of}

-- The loop has ended within its fuel.
abbrev pub Returns : {A : Type 0} → Reads A → Type 0
Returns {A} r = (x : A × Input) × (r ≡ some x)

module _ ⦃k : Kernel⦄ where
  read_exact-Returns :
      (fuel size : ℕ) (bytes : Bytes) (s : Input)
      → measure s < fuel
      → Returns (read_exact fuel size bytes s)
  unfolding read_exact
  read_exact-Returns zero size bytes s enough = absurd (omega arith)
  read_exact-Returns (suc fuel) size bytes s enough =
      let rest = size - length bytes in
      let after = (recv rest s).1 in
      elim (Bool-cases (ltb (length bytes) size)) [
        | inr full ↦ rw (full, read_exact) (_, refl)
        | inl short ↦
            rw (short, read_exact)
              (elim (call_of rest s (ground arith)) [
                | waits e same less stay ↦
                    rw e (read_exact-Returns fuel size bytes after (omega arith))
                | ends e empty same stay ↦ rw e (_, refl)
                | gives m e left at_most at_least less stay ↦
                    rw e (
                      read_exact-Returns fuel size (bytes ++ take m s.incoming) after (omega arith))
                | breaks text e bad ↦ rw e (_, refl)
              ])
      ]

  read_payload-Returns :
      (fuel size : ℕ) (payload : Bytes) (progress : Progress) (s : Input)
      → measure s < fuel
      → Returns (read_payload fuel size payload progress s)
  unfolding read_payload
  read_payload-Returns zero size payload progress s enough = absurd (omega arith)
  read_payload-Returns (suc fuel) size payload progress s enough =
      let requested = min (size - length payload) read_chunk_bytes in
      let after = (recv requested s).1 in
      elim (Bool-cases (ltb (length payload) size)) [
        | inr full ↦ rw (full, read_payload) (_, refl)
        | inl short ↦
            rw (short, read_payload)
              (elim (call_of requested s (ground arith)) [
                | waits e same less stay ↦
                    rw e (read_payload-Returns fuel size payload progress after (omega arith))
                | ends e empty same stay ↦ rw e (_, refl)
                | gives m e left at_most at_least less stay ↦
                    let chunk = take m s.incoming in
                    rw e (
                      read_payload-Returns fuel size (payload ++ chunk) (capture chunk progress)
                        after (omega arith))
                | breaks text e bad ↦ rw e (_, refl)
              ])
      ]

  read_body-Returns : (header : Bytes) (s : Input) → Returns (read_body header s)
  unfolding read_body
  read_body-Returns header s = elim (Bool-cases (size_allowed (header_size header))) [
    | inl good ↦
        rw good (read_payload-Returns (rounds s) (header_size header) [] [] s (omega arith))
    | inr bad ↦ rw bad (_, refl)
  ]

  behind_header :
      (r : Reads (Result Bytes))
      → Returns r
      → Returns {A = Result Bytes × Progress} (elim r [
        | none ↦ none
        | some (err status, after) ↦ some ((err status, []), after)
        | some (ok header, after) ↦ read_body header after
      ])
  behind_header r ((ok header, after), e) = rw e (read_body-Returns header after)
  behind_header r ((err status, after), e) = rw e (_, refl)

  -- `read_frame` ends: on every stream, however `recv` doles it out, interrupts it or fails, each
  -- of the two loops ends within a round for each byte and each call to come, and one more.
  pub read_frame-Returns : (s : Input) → Returns (read_frame s)
  unfolding read_frame
  read_frame-Returns s =
      behind_header (read_exact (rounds s) 4 [] s)
        (read_exact-Returns (rounds s) 4 [] s (omega arith))
