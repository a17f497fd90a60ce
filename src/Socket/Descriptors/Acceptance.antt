-- ===== src/Socket/Descriptors/Acceptance.antt =====
-- Whose streams the listener's owner gets.
use photospider_daemon.Base.{
  ℕ, zero, suc, ◌≤◌, ◌≡◌, ◌≢◌, refl, ◌∙◌, Bool, true, List, ◌∷◌, Bytes, ◌==◌, some, none, arith,
  Bool-cases, inl, inr,
}
use photospider_daemon.Base.Outcome.{ok, err}
use photospider_daemon.Kernel.{Kernel, Status, Result}
use photospider_daemon.Socket.Descriptors.{
  Reply, returned, failing, World, ◌>>=◌, call, close, obtain,
}
use photospider_daemon.Socket.Descriptors.Ending.{spare, Ends, >>=-Ends, call-Ends}
use photospider_daemon.Socket.Descriptors.Streams.{
  Platform, AcceptDisposition, accepted, peer_rejected, fatal_failure, SameUserAcceptResult,
  accept_stream, prepare_stream, verify_same_user, judged, judge_prepared, prepare_accepted,
  accept_same_user, connect_unix_socket,
}
use photospider_daemon.Socket.Descriptors.Settling.{
  Settled, obtain-Ends, prepare_stream-Ends, connect_unix_socket-Settled,
}

module _ (peer_uid euid : ℕ) (base : List (ℕ × Bool)) where
  -- What a disposition says of the peer, of the stream that is handed over and of the table.
  abbrev pub Judged : AcceptDisposition → SameUserAcceptResult → List (ℕ × Bool) → Type 0
  Judged accepted r t =
      (peer_uid ≡ euid) × (d : ℕ) × (r.descriptor ≡ some d) × (t ≡ (d, true) ∷ base)
  Judged peer_rejected r t = (peer_uid ≢ euid) × (r.descriptor ≡ none) × (t ≡ base)
  Judged fatal_failure r t = (r.descriptor ≡ none) × (t ≡ base)

  abbrev pub Admitted : SameUserAcceptResult → List (ℕ × Bool) → Type 0
  Admitted r = Judged r.disposition r

  module _ ⦃k : Kernel⦄ where
    -- A verdict on the peer, before the stream of a peer that is not accepted is closed.
    abbrev Verdict : AcceptDisposition × Status → Type 0
    Verdict (accepted, status) = peer_uid ≡ euid
    Verdict (peer_rejected, status) = peer_uid ≢ euid
    Verdict (fatal_failure, status) = Unit {0}

    verify-Ends :
        (n d : ℕ) (reply : Reply) (w : World)
        → n ≤ spare w.script
        → w.table ≡ (d, true) ∷ base
        → Ends n
            (λ v t. Verdict v × (t ≡ (d, true) ∷ base))
            (verify_same_user peer_uid euid reply w)
    unfolding verify_same_user
    verify-Ends n d (returned zero) w h e = elim (Bool-cases (peer_uid == euid)) [
      | inl same ↦ rw same (h, (ground arith, e))
      | inr apart ↦ rw apart (h, (λ same. ground arith, e))
    ]
    verify-Ends n d (returned (suc v)) w h e = (h, (_, e))
    verify-Ends n d (failing errno text) w h e = (h, (_, e))

    judged-Ends :
        (n d : ℕ) (v : AcceptDisposition × Status) (w : World)
        → n ≤ spare w.script
        → Verdict v
        → w.table ≡ (d, true) ∷ base
        → Ends n Admitted (judged d v w)
    unfolding close
    judged-Ends n d (accepted, status) w h verdict e = (h, (verdict, d, refl, e))
    judged-Ends n d (peer_rejected, status) w h verdict e =
        (h, (verdict, refl, rw e (ground arith)))
    judged-Ends n d (fatal_failure, status) w h verdict e = (h, (refl, rw e (ground arith)))

    judge_prepared-Ends :
        (n : ℕ) (r : Result ℕ) (w : World)
        → suc n ≤ spare w.script
        → Settled base r w.table
        → Ends n Admitted (judge_prepared peer_uid euid r w)
    judge_prepared-Ends n (err status) w h e = (omega arith, (refl, e))
    judge_prepared-Ends n (ok d) w h e =
        >>=-Ends n n (λ v t. Verdict v × (t ≡ (d, true) ∷ base)) Admitted
          (call >>= verify_same_user peer_uid euid) (judged d) w
          (>>=-Ends n n _ _ call (verify_same_user peer_uid euid) w (call-Ends n w h)
            (λ reply after left same. verify-Ends n d reply after left (same ∙ e)))
          (λ v after left known. judged-Ends n d v after left known.0 known.1)

    prepare_accepted-Ends :
        (platform : Platform) (n : ℕ) (r : Result ℕ) (w : World)
        → suc (suc n) ≤ spare w.script
        → Settled base r w.table
        → Ends n Admitted (prepare_accepted platform peer_uid euid r w)
    prepare_accepted-Ends platform n (err status) w h e = (omega arith, (refl, e))
    prepare_accepted-Ends platform n (ok d) w h e =
        >>=-Ends (suc n) n _ _ (prepare_stream platform d) (judge_prepared peer_uid euid) w
          (prepare_stream-Ends platform (suc n) d base w h e)
          (λ r after left settled. judge_prepared-Ends n r after left settled)

module _ ⦃k : Kernel⦄ where
  accept_same_user-Admitted :
      (platform : Platform) (peer_uid euid : ℕ) (w : World)
      → 6 ≤ spare w.script
      → Ends 0 (Admitted peer_uid euid w.table) (accept_same_user platform peer_uid euid w)
  unfolding accept_same_user accept_stream
  accept_same_user-Admitted platform peer_uid euid w h =
      >>=-Ends 2 0 _ _ (obtain platform.accept_flag "local accept failed")
        (prepare_accepted platform peer_uid euid) w (obtain-Ends 2 _ _ w h)
        (λ r after left settled.
          prepare_accepted-Ends peer_uid euid w.table platform 0 r after left settled)

  -- On every platform, `connect_unix_socket` and `accept_same_user` end once six of the answers to
  -- their system calls are not EINTR, however often the calls that they repeat are interrupted. A
  -- connection leaves exactly one descriptor more open, its own, which is close-on-exec, and a
  -- failure to connect has closed all that was opened. An acceptance is only of a peer of the
  -- daemon's own user, and leaves exactly that peer's stream open in addition, close-on-exec; only a
  -- peer of another user is rejected; and a rejection or a failure hands over no stream and has
  -- closed all that was opened.
  pub Platform-Settled :
      (platform : Platform) (w : World)
      → 6 ≤ spare w.script
      → ((capacity : ℕ) (path : Bytes)
          → Ends 0 (Settled w.table) (connect_unix_socket platform capacity path w))
        × ((peer_uid euid : ℕ)
            → Ends 0 (Admitted peer_uid euid w.table) (accept_same_user platform peer_uid euid w))
  Platform-Settled platform w h = (
    λ capacity path. connect_unix_socket-Settled platform capacity path w h,
    λ peer_uid euid. accept_same_user-Admitted platform peer_uid euid w h,
  )
