-- ===== src/Frame/Framing.antt =====
-- src/lib/ipc/frame.cpp: `read_frame` ends, and reads what the peer sends.
use photospider_daemon.Base.{
  ℕ, ◌+◌, true, false, [], Bytes, length, take, drop, ltb, leb, ◌==◌, if◌then◌else◌, arith, ◌≡◌,
  refl, sym, ap, ◌∙◌, drop_all, minus_zero, zero-add, bytes_of, Bool-cases, inl, inr,
}
use photospider_daemon.Base.Outcome.{ok, err}
use photospider_daemon.Kernel.{Kernel, Result, failure}
use photospider_daemon.Frame.{
  Input, closed_early, closed_cleanly, Progress, rounds, header_size, size_allowed, read_body,
  read_frame,
}
use photospider_daemon.Frame.Stream.{
  is_steady, Yields, Yields-eq, exact_of, exact_end_status, read_exact-run,
}
use photospider_daemon.Frame.Payload.{kept, payload_of, read_payload-run}

module _ ⦃k : Kernel⦄ where
  -- The frame whose size was read, out of the bytes behind its header.
  unfoldable pub frame_behind : ℕ → Bytes → (Result Bytes × Progress) × Bytes
  frame_behind size c =
      if size_allowed size
      then (
        (if leb size (length c) then ok (take size c) else err closed_early, kept (take size c)),
        drop size c,
      )
      else (
        (err (failure k.invalid_argument (bytes_of "frame payload length is outside bounds")), []),
        c,
      )

  -- The frame at the front of the bytes that a peer sends until it closes, the prefix that is kept
  -- of it, and the bytes that are left.
  unfoldable pub frame_of : Bytes → (Result Bytes × Progress) × Bytes
  frame_of c =
      if length c == 0
      then ((err closed_cleanly, []), [])
      else if ltb (length c) 4
      then ((err closed_early, []), [])
      else frame_behind (header_size (take 4 c)) (drop 4 c)

  payload_of_nil :
      (size : ℕ) (c : Bytes)
      → payload_of size [] c
        ≡ (if leb size (length c) then ok (take size c) else err closed_early, kept (take size c))
  payload_of_nil size c =
      ap
        (λ n.
          (if leb size (0 + length c) then ok (take n c) else err closed_early, kept (take n c)))
        (sym (minus_zero size))
      ∙ ap (λ n. (if leb size n then ok (take size c) else err closed_early, kept (take size c)))
          (zero-add (length c))

  read_body-run :
      (header : Bytes) (s : Input)
      → is_steady s.paces ≡ true
      → Yields
          (read_body header s)
          (frame_behind (header_size header) s.incoming).0
          (frame_behind (header_size header) s.incoming).1
  unfolding read_body frame_behind
  read_body-run header s steady = elim (Bool-cases (size_allowed (header_size header))) [
    | inl good ↦ rw good (
        Yields-eq _
          (read_payload-run (rounds s) (header_size header) [] s (omega arith) (omega arith) steady)
          (payload_of_nil (header_size header) s.incoming)
          (ap (λ n. drop n s.incoming) (sym (minus_zero (header_size header)))))
    | inr bad ↦ rw bad (record { after = s; returns = refl; leaves = refl; stays = steady })
  ]

  -- `read_frame` refines reading from the whole of the bytes that a peer sends: with no call of
  -- `recv` failing, however the calls split and interrupt the bytes, it ends, its result and the
  -- prefix that it keeps are those of `frame_of`, and it leaves the bytes behind the frame.
  pub read_frame-frame_of :
      (s : Input)
      → is_steady s.paces ≡ true
      → Yields (read_frame s) (frame_of s.incoming).0 (frame_of s.incoming).1
  unfolding read_frame frame_of
  read_frame-frame_of s steady =
      let c = s.incoming in
      let header = read_exact-run (rounds s) 4 [] s (omega arith) (omega arith) steady in
      elim (Bool-cases (length c == 0)) [
        | inl empty ↦
            let short : leb 4 (0 + length c) ≡ false = ground arith in
            let none_there : ((0 + length c) == 0) ≡ true = ground arith in
            let exact : exact_of exact_end_status 4 [] c ≡ err closed_cleanly =
              rw (short, none_there) refl in
            rw (empty, header.returns, exact, read_frame)
              (record {
                after = header.after;
                returns = refl;
                leaves = header.leaves ∙ drop_all 4 c (ground arith);
                stays = header.stays;
              })
        | inr some_there ↦ elim (Bool-cases (ltb (length c) 4)) [
          | inl few ↦
              let short : leb 4 (0 + length c) ≡ false = ground arith in
              let not_none : ((0 + length c) == 0) ≡ false = ground arith in
              let exact : exact_of exact_end_status 4 [] c ≡ err closed_early =
                rw (short, not_none) refl in
              rw (some_there, few, header.returns, exact, read_frame)
                (record {
                  after = header.after;
                  returns = refl;
                  leaves = header.leaves ∙ drop_all 4 c (ground arith);
                  stays = header.stays;
                })
          | inr enough ↦
              let long : leb 4 (0 + length c) ≡ true = ground arith in
              let exact : exact_of exact_end_status 4 [] c ≡ ok (take 4 c) = rw long refl in
              rw (some_there, enough, header.returns, exact, sym header.leaves, read_frame)
                (read_body-run (take 4 c) header.after header.stays)
        ]
      ]
