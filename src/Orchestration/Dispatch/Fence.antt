-- ===== src/Orchestration/Dispatch/Fence.antt =====
-- src/lib/orchestration/service.cpp: the fence of an accepted shutdown, over any later dispatches.
use photospider_daemon.Base.{Bool, List, [], ◌∷◌, Option, ◌≡◌, bytes_of}
use photospider_daemon.Kernel.{Kernel, failure}
use photospider_daemon.Codec.Request.{Request}
use photospider_daemon.Codec.Response.{Response, blank_response}
use photospider_daemon.Orchestration.Dispatch.{Raised, Calls, Service, dispatch}

-- One dispatch: whether an exception comes behind its calls, whether a diagnostic can be built,
-- and the request.
abbrev pub Incoming : Type 0
Incoming = Option Raised × (Bool × Request)

module _ ⦃k : Kernel⦄ (Value : Type 0) {S : Type 0} where
  -- A request that is answered with a cancellation.
  pub record Fenced (q : Request) (service : Service S) (after : Response Value × Service S)
      : Type 0 where
    pub cancelled :
        after.0
        ≡ blank_response q.request_id q.method
            (failure k.cancelled (bytes_of "daemon orchestration is shutting down"))
    pub unchanged : after.1 ≡ service

module _ ⦃k : Kernel⦄ (Value : Type 0) {S : Type 0} ⦃calls : Calls S Value⦄ where
  -- What the dispatches leave, one after the other.
  unfoldable pub dispatch_all : List Incoming → Service S → Service S
  dispatch_all [] service = service
  dispatch_all ((late, (built, q)) ∷ rest) service =
      dispatch_all rest (dispatch {Value = Value} late built q service).1
