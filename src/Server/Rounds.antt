-- ===== src/Server/Rounds.antt =====
-- src/lib/server/server.cpp: what a connection is answered, for a frame and for its end.
use photospider_daemon.Base.{
  true, ◌&&◌, List, [], ◌∷◌, Bytes, ◌==◌, some, ◌≡◌, refl, ap, ◌∙◌, arith, inl, inr, ◌⊎◌,
}
use photospider_daemon.Base.Outcome.{ok, err}
use photospider_daemon.Kernel.{Kernel, Status, Result}
use photospider_daemon.Execution.{Values}
use photospider_daemon.Codec.Request.{Request, decode_request}
use photospider_daemon.Codec.Response.{encode_response}
use photospider_daemon.Frame.{
  Input, Output, Progress, Reads, read_frame, write_frame, closed_cleanly,
}
use photospider_daemon.Frame.Stream.{is_steady}
use photospider_daemon.Frame.Framing.{frame_of, read_frame-frame_of}
use photospider_daemon.Frame.Termination.{Returns}
use photospider_daemon.Server.{
  Handler, Round, quiet, Connection, written, respond, serve_frame, serve,
}

-- A frame was read, or not.
read_cases :
    (r : Reads (Result Bytes × Progress))
    → Returns r
    → ((status : Status) × (progress : Progress) × (after : Input) × (r
          ≡ some ((err status, progress), after)))
      ⊎ ((frame : Bytes) × (progress : Progress) × (after : Input) × (r
            ≡ some ((ok frame, progress), after)))
read_cases r (((err status, progress), after), e) = inl (status, progress, after, e)
read_cases r (((ok frame, progress), after), e) = inr (frame, progress, after, e)

module _ ⦃k : Kernel⦄ {S Value : Type 0} ⦃vs : Values Value⦄ (h : Handler S Value) where
  -- A peer that has closed is answered nothing.
  pub serve-closed :
      (rounds : List Round) (c : Connection S)
      → is_steady c.input.paces ≡ true
      → c.input.incoming ≡ []
      → (x : Connection S) × (serve h rounds c ≡ some x)
        × (x.output ≡ c.output)
        × (x.state ≡ c.state)
        × (x.accepted ≡ c.accepted)
  unfolding serve frame_of
  serve-closed [] c steady e = (c, refl, refl, refl, refl)
  serve-closed (round ∷ rounds) c steady e =
      let y = read_frame-frame_of c.input steady in
      let end : read_frame c.input ≡ some ((err closed_cleanly, []), y.after) =
        y.returns ∙ ap (λ i. some ((frame_of i).0, y.after)) e in
      let same : (k.not_found == k.not_found) ≡ true = ground arith in
      rw (end, same, serve) (_, refl, refl, refl, refl)

  -- The connection behind the response to `q`.
  abbrev pub answering : Request → Connection S → Input → Output → Connection S
  answering q c input out =
      let (r, after) = h.dispatch q c.state in
      record {
        state = after;
        input = input;
        output = out;
        accepted = k.status_ok r.status && r.shutdown_after_write;
      }

  -- A request that is decoded is dispatched once, and its response is written.
  pub serve_frame_lem :
      (q : Request) (frame answer : Bytes) (progress : Progress) (c : Connection S)
      → decode_request frame ≡ ok q
      → encode_response (h.dispatch q c.state).0 ≡ ok answer
      → serve_frame h quiet frame progress c
        ≡ written (answering q c c.input c.output) (write_frame answer c.output)
  unfolding serve_frame respond
  serve_frame_lem q frame answer progress c d e = rw (d, e, serve_frame, respond) refl
