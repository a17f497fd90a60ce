-- ===== src/Client/Framed.antt =====
-- src/lib/ipc/client.cpp: a call over a stream whose calls do not fail, by what the peer answers.
use photospider_daemon.Base.{
  ◌+◌, ◌%◌, ◌^◌, true, false, [], Bytes, length, ◌==◌, if◌then◌else◌, some, ◌≡◌, ◌≢◌, refl, sym, ap,
  ◌∙◌, arith,
}
use photospider_daemon.Base.Outcome.{ok, err}
use photospider_daemon.Kernel.{Kernel, Status, success, status_ok-success}
use photospider_daemon.Execution.{Values}
use photospider_daemon.Codec.Request.{Request, IsRequest, encode_request}
use photospider_daemon.Codec.Request.Agreement.{length-encode_request}
use photospider_daemon.Frame.{Input, Output, Progress, read_frame, write_frame, closed_cleanly}
use photospider_daemon.Frame.Stream.{is_steady}
use photospider_daemon.Frame.Framing.{frame_of, read_frame-frame_of}
use photospider_daemon.Frame.RoundTrip.{
  is_willing, write_frame-Sends, frame_bytes, size_allowed_lem,
}
use photospider_daemon.Client.{
  Connection, Link, reset, unknown_outcome, understand, answered, await, exchange, call,
}
use photospider_daemon.Client.Calls.{numbered, exchange_sent}

-- The connection behind the choice of an id.
abbrev pub advanced : Connection → Connection
advanced c = record { valid = true; next_request_id = (c.next_request_id + 1) % 2 ^ 64 }

-- What a peer answers to this payload.
abbrev answer_input : Link → Bytes → Input
answer_input link payload = record {
  incoming = link.reply (frame_bytes payload);
  paces = link.paces;
}

module _ ⦃k : Kernel⦄ where
  -- A call that is about to be sent as these bytes, over a stream whose calls do not fail.
  pub record IsReady (q : Request) (link : Link) (c : Connection) (payload : Bytes) : Type 0 where
    pub connected : c.valid ≡ true
    pub has_id : c.next_request_id ≢ 0
    pub ranges : IsRequest (numbered q c)
    pub encoded : encode_request (numbered q c) ≡ ok payload
    pub willing : is_willing link.acceptances ≡ true
    pub steady : is_steady link.paces ≡ true

module _ ⦃k : Kernel⦄ {Value : Type 0} ⦃vs : Values Value⦄ where
  call-exchange :
      (q : Request) (link : Link) (c : Connection)
      → c.valid ≡ true
      → c.next_request_id ≢ 0
      → call {Value = Value} q link c ≡ exchange (numbered q c) link (advanced c)
  unfolding call
  call-exchange q link c there positive =
      let more : (c.next_request_id == 0) ≡ false = ground (arith, positive) in
      rw (more, there) refl

  await_sent :
      (q : Request) (c : Connection) (link : Link) (written : Status × Output) (sent : Bytes)
      → written.0 ≡ success
      → written.1.sent ≡ sent
      → await {Value = Value} q c link written
        ≡ answered q c (read_frame (record { incoming = link.reply sent; paces = link.paces }))
  await_sent q c link written sent done same = rw (done, status_ok-success, sym same) refl

  module _ (q : Request) (link : Link) (c : Connection) (payload : Bytes)
      (ready : IsReady q link c payload) where
    call-framed :
        call {Value = Value} q link c
        ≡ answered (numbered q c) (advanced c) (read_frame (answer_input link payload))
    call-framed =
        let allowed =
          size_allowed_lem (length payload)
            (length-encode_request (numbered q c) payload ready.ranges ready.encoded) in
        let out : Output = record { acceptances = link.acceptances; sent = [] } in
        let w = write_frame-Sends payload out allowed ready.willing in
        call-exchange q link c ready.connected ready.has_id
        ∙ exchange_sent (numbered q c) link (advanced c) payload ready.encoded
        ∙ await_sent (numbered q c) (advanced c) link (write_frame payload out)
            (frame_bytes payload) w.succeeds w.sends

    -- A frame is understood, whatever follows it.
    pub call-frame :
        (frame : Bytes) (progress : Progress) (rest : Bytes)
        → frame_of (link.reply (frame_bytes payload)) ≡ ((ok frame, progress), rest)
        → call {Value = Value} q link c ≡ some (understand (numbered q c) frame (advanced c))
    unfolding answered
    call-frame frame progress rest e =
        let y = read_frame-frame_of (answer_input link payload) ready.steady in
        call-framed
        ∙ ap (answered (numbered q c) (advanced c)) (y.returns ∙ ap (λ f. some (f.0, y.after)) e)

    call-failed :
        (status : Status) (progress : Progress) (rest : Bytes)
        → frame_of (link.reply (frame_bytes payload)) ≡ ((err status, progress), rest)
        → call {Value = Value} q link c
          ≡ some (
            err (if status.code == k.not_found then unknown_outcome else status),
            reset (advanced c),
          )
    unfolding answered
    call-failed status progress rest e =
        let y = read_frame-frame_of (answer_input link payload) ready.steady in
        call-framed
        ∙ ap (answered (numbered q c) (advanced c)) (y.returns ∙ ap (λ f. some (f.0, y.after)) e)

    -- A peer that closes behind the request with no byte of a response leaves its outcome unknown:
    -- the call fails with `Internal`, not with the `NotFound` of a clean end, and the connection is
    -- lost. The request is in the ranges of its C++ members, it is encoded, and no call on the
    -- stream fails.
    pub call-closed :
        link.reply (frame_bytes payload) ≡ []
        → call {Value = Value} q link c ≡ some (err unknown_outcome, reset (advanced c))
    unfolding frame_of
    call-closed e =
        let same : (k.not_found == k.not_found) ≡ true = ground arith in
        call-failed closed_cleanly [] [] (ap frame_of e)
        ∙ ap (λ b. some (err (if b then unknown_outcome else closed_cleanly), reset (advanced c)))
            same
