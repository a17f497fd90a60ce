-- ===== src/Server/Exchange.antt =====
-- src/lib/ipc/client.cpp and src/lib/server/server.cpp: a call of the client against the handler
-- of its connection.
use photospider_daemon.Base.{
  Bool, true, false, not, ◌&&◌, List, [], ◌∷◌, Bytes, length, Option, none, some, ◌≡◌, refl, sym,
  ap, ◌∙◌, subst, Bool-cases, inl, inr, append-nil,
}
use photospider_daemon.Base.Outcome.{ok}
use photospider_daemon.Kernel.{Kernel, Status, status_ok-success}
use photospider_daemon.Execution.{Values}
use photospider_daemon.Codec.Request.{Request, selected, keep_selected, decode_request}
use photospider_daemon.Codec.Request.Agreement.{
  decode_request-encode_request, length-encode_request,
}
use photospider_daemon.Codec.Response.{Response, encode_response, decode_response}
use photospider_daemon.Codec.Response.Agreement.{
  IsResponse, received, decode_response-encode_response, length-encode_response,
}
use photospider_daemon.Frame.{
  Pace, Acceptance, Input, Output, read_frame, write_frame, size_allowed,
}
use photospider_daemon.Frame.Stream.{is_steady}
use photospider_daemon.Frame.Payload.{kept}
use photospider_daemon.Frame.Framing.{frame_of, read_frame-frame_of}
use photospider_daemon.Frame.RoundTrip.{
  is_willing, write_frame-Sends, Sends, frame_bytes, frame_of-frame_bytes, size_allowed_lem,
}
use photospider_daemon.Server.{Handler, Round, quiet, Connection, written, serve}
use photospider_daemon.Client
use photospider_daemon.Client.{Link, understand, call}
use photospider_daemon.Client.Calls.{numbered}
use photospider_daemon.Client.Framed.{IsReady, advanced, call-frame}
use photospider_daemon.Orchestration.Dispatch.{Raised, Calls, Service, dispatch}
use photospider_daemon.Orchestration.Dispatch.Correlation.{dispatch-Answers}
use photospider_daemon.Protocol.{
  Method, session_create, session_close, job_submit, job_status, job_cancel, job_result,
  job_release, daemon_info, daemon_shutdown,
}
use photospider_daemon.Server.Rounds.{serve-closed, answering, serve_frame_lem}

-- A connection whose peer sends these bytes and closes.
abbrev pub opened : {S : Type 0} → S → List Pace → List Acceptance → Bytes → Connection S
opened s paces acceptances incoming = record {
  state = s;
  input = record { incoming = incoming; paces = paces };
  output = record { acceptances = acceptances; sent = [] };
  accepted = false;
}

module _ ⦃k : Kernel⦄ {S Value : Type 0} ⦃vs : Values Value⦄ (h : Handler S Value) where
  -- What the handler of a connection leaves of it.
  pub record Serves (called : Option (Connection S)) (answer : Bytes) (state : S) (accepted : Bool)
      : Type 0 where
    pub after : Connection S
    pub returns : called ≡ some after
    pub answers : after.output.sent ≡ answer
    pub dispatches : after.state ≡ state
    pub accepts : after.accepted ≡ accepted

  -- The loop behind a round.
  abbrev goes_on : List Round → Bool × Connection S → Option (Connection S)
  goes_on rounds step = elim step.0 [ true ↦ serve h rounds step.1 | false ↦ some step.1 ]

  written-Serves :
      (rounds : List Round) (c : Connection S) (w : Status × Output) (answer : Bytes)
      → Sends w answer
      → is_steady c.input.paces ≡ true
      → c.input.incoming ≡ []
      → Serves (goes_on rounds (written c w)) answer c.state c.accepted
  written-Serves rounds c w answer sends steady empty = elim (Bool-cases c.accepted) [
    | inl last ↦
        let stops : (k.status_ok w.0 && not c.accepted) ≡ false =
          rw (sends.succeeds, status_ok-success, last) refl in
        rw stops (record {
          after = (written c w).1;
          returns = refl;
          answers = sends.sends;
          dispatches = refl;
          accepts = refl;
        })
    | inr more ↦
        let proceeds : (k.status_ok w.0 && not c.accepted) ≡ true =
          rw (sends.succeeds, status_ok-success, more) refl in
        let z = serve-closed h rounds (written c w).1 steady empty in
        rw proceeds (record {
          after = z.0;
          returns = z.1;
          answers = ap (λ out. out.sent) z.2 ∙ sends.sends;
          dispatches = z.3;
          accepts = z.4;
        })
  ]

  serve-Serves :
      (rounds : List Round) (s : S) (paces : List Pace) (acceptances : List Acceptance)
      (q : Request) (payload answer : Bytes)
      → size_allowed (length payload) ≡ true
      → size_allowed (length answer) ≡ true
      → decode_request payload ≡ ok q
      → encode_response (h.dispatch q s).0 ≡ ok answer
      → is_steady paces ≡ true
      → is_willing acceptances ≡ true
      → let r = (h.dispatch q s).0 in
        Serves
          (serve h (quiet ∷ rounds) (opened s paces acceptances (frame_bytes payload)))
          (frame_bytes answer)
          (h.dispatch q s).1
          (k.status_ok r.status && r.shutdown_after_write)
  unfolding serve
  serve-Serves rounds s paces acceptances q payload answer sized fits d e steady willing =
      let input : Input = record { incoming = frame_bytes payload; paces = paces } in
      let out : Output = record { acceptances = acceptances; sent = [] } in
      let y = read_frame-frame_of input steady in
      let frame : frame_of (frame_bytes payload) ≡ ((ok payload, kept payload), []) =
        ap frame_of (sym (append-nil (frame_bytes payload)))
        ∙ frame_of-frame_bytes payload [] sized in
      let read : read_frame input ≡ some ((ok payload, kept payload), y.after) =
        y.returns ∙ ap (λ f. some (f.0, y.after)) frame in
      let c : Connection S = record {
        state = s;
        input = y.after;
        output = out;
        accepted = false;
      } in
      rw (read, serve)
        (subst
          (λ step.
            Serves (goes_on rounds step) (frame_bytes answer) (h.dispatch q s).1
              (k.status_ok (h.dispatch q s).0.status && (h.dispatch q s).0.shutdown_after_write))
          (sym (serve_frame_lem h q payload answer (kept payload) c d e))
          (written-Serves rounds (answering h q c y.after out) (write_frame answer out)
            (frame_bytes answer) (write_frame-Sends answer out fits willing) y.stays
            (y.leaves ∙ ap (λ f. f.1) frame)))

-- What was sent on a connection.
abbrev pub sent_by : {S : Type 0} → Option (Connection S) → Bytes
sent_by none = []
sent_by (some c) = c.output.sent

abbrev pub service_handler :
    {S Value : Type 0} ⦃k : Kernel⦄ ⦃calls : Calls S Value⦄
    → Option Raised
    → Bool
    → Handler (Service S) Value
service_handler late built = record { dispatch = dispatch late built }

selected-correlation :
    ⦃k : Kernel⦄ (m : Method) (q : Request)
    → ((keep_selected m q).request_id ≡ q.request_id) × ((keep_selected m q).method ≡ q.method)
selected-correlation session_create q = (refl, refl)
selected-correlation session_close q = (refl, refl)
selected-correlation job_submit q = (refl, refl)
selected-correlation job_status q = (refl, refl)
selected-correlation job_cancel q = (refl, refl)
selected-correlation job_result q = (refl, refl)
selected-correlation job_release q = (refl, refl)
selected-correlation daemon_info q = (refl, refl)
selected-correlation daemon_shutdown q = (refl, refl)

module _ ⦃k : Kernel⦄ {S Value : Type 0} ⦃vs : Values Value⦄ (h : Handler S Value) (s : S)
    (rounds : List Round) (paces : List Pace) (acceptances : List Acceptance) where
  -- The handler of a connection that receives these bytes, and is not stopped before them.
  abbrev pub served : Bytes → Option (Connection S)
  served incoming = serve h (quiet ∷ rounds) (opened s paces acceptances incoming)

  -- That handler as the peer of a client.
  abbrev pub peer : List Acceptance → List Pace → Link
  peer accepted given = record {
    acceptances = accepted;
    reply = λ sent. sent_by (served sent);
    paces = given;
  }

module _ ⦃k : Kernel⦄ {Value : Type 0} ⦃vs : Values Value⦄ where
  understand-received :
      (q : Request) (c : Client.Connection) (answer : Bytes) (r : Response Value)
      → r.request_id ≡ q.request_id
      → r.method ≡ q.method
      → IsResponse r
      → encode_response r ≡ ok answer
      → understand q answer c ≡ (ok (received r), c)
  unfolding understand
  understand-received q c answer r id method ranges e =
      let read : decode_response answer q.method q.request_id ≡ ok (received r) =
        subst (λ id. decode_response answer q.method id ≡ ok (received r)) id
          (subst (λ m. decode_response answer m r.request_id ≡ ok (received r)) method
            (decode_response-encode_response r answer ranges e)) in
      rw (read, understand) refl

  module _ {S : Type 0} ⦃calls : Calls S Value⦄ (late : Option Raised) (built : Bool)
      (service : Service S) (rounds : List Round) (paces : List Pace)
      (acceptances : List Acceptance) where
    -- A call of the client against the handler of its connection gives what `dispatch` answers to
    -- the request: the client ends with the response as it is received, its connection is kept, and
    -- the next id is taken. No call on the two streams fails or takes nothing, however they split or
    -- interrupt the frames, and the server is not stopped before the request. The client is
    -- connected and has an id, the request and the response are in the ranges of their C++ members
    -- with their maps in key order, and both are encoded. The kernel makes each Value of the response
    -- again from its parts, which have an axis at least, a known element type and facets of at most
    -- 64 KiB.
    pub call-dispatch :
        (q : Request) (c : Client.Connection) (payload answer : Bytes) (accepted : List Acceptance)
        (given : List Pace)
        → let h : Handler (Service S) Value = service_handler late built in
          let link = peer h service rounds paces acceptances accepted given in
          let r : Response Value = (dispatch late built (selected (numbered q c)) service).0 in
          IsReady q link c payload
          → is_steady paces ≡ true
          → is_willing acceptances ≡ true
          → IsResponse r
          → encode_response r ≡ ok answer
          → call q link c ≡ some (ok (received r), advanced c)
    call-dispatch q c payload answer accepted given ready steady willing ranges e =
        let h : Handler (Service S) Value = service_handler late built in
        let link = peer h service rounds paces acceptances accepted given in
        let q' = numbered q c in
        let x =
          serve-Serves h rounds service paces acceptances (selected q') payload answer
            (size_allowed_lem (length payload)
              (length-encode_request q' payload ready.ranges ready.encoded))
            (size_allowed_lem (length answer) (length-encode_response _ answer ranges e))
            (decode_request-encode_request q' payload ready.ranges ready.encoded) e steady
            willing in
        let replies : link.reply (frame_bytes payload) ≡ frame_bytes answer =
          ap sent_by x.returns ∙ x.answers in
        let frame : frame_of (link.reply (frame_bytes payload)) ≡ ((ok answer, kept answer), []) =
          ap frame_of (replies ∙ sym (append-nil (frame_bytes answer)))
          ∙ frame_of-frame_bytes answer []
              (size_allowed_lem (length answer) (length-encode_response _ answer ranges e)) in
        let a = dispatch-Answers late built (selected q') service in
        let correlation = selected-correlation q'.method q' in
        call-frame q link c payload ready answer (kept answer) [] frame
        ∙ ap some (
            understand-received q' (advanced c) answer _ (a.same_id ∙ correlation.0)
              (a.same_method ∙ correlation.1) ranges e)
