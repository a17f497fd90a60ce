-- ===== src/Orchestration/Service/Calls/Closed.antt =====
-- What a client that has closed a session can rely on.
use photospider_daemon.Base.{
  ℕ, ◌≡◌, ◌≢◌, refl, sym, ap, subst, ◌∙◌, Bool, true, false, not, ◌&&◌, List, [], ◌∷◌, ◌++◌, ◌==◌,
  if◌then◌else◌, Option, none, some, arith, Bool-cases, inl, inr, map, All, bytes_of, Bytes,
}
use photospider_daemon.Base.IdSets.{member}
use photospider_daemon.Base.Outcome.{Outcome, ok, err}
use photospider_daemon.Kernel.{Kernel, Status, Result, success, status_ok-failure}
use photospider_daemon.Protocol.{SessionId, Method, session_close}
use photospider_daemon.Execution.{ExecutionResult}
use photospider_daemon.Codec.Request.{Request}
use photospider_daemon.Codec.Response.{Response, blank_response}
use photospider_daemon.Orchestration.Dispatch.{
  Raised, no_memory, standard, nonstandard, Service, is_shutdown, failed_response, fail_with, fence,
  settle, route, answered, dispatch,
}
use photospider_daemon.Orchestration.Dispatch.Correlation.{ok_inj}
use photospider_daemon.Orchestration.Registry.{detach}
use photospider_daemon.Orchestration.Sessions.{Sessions, begin_close, is_open, no_session_status}
use photospider_daemon.Orchestration.Service.{
  Impl, begins, detaches, settles_queued, settles_running, own_session, with_begun, step, run,
}
use photospider_daemon.Orchestration.Service.Housing.{IsHoused, Housed}
use photospider_daemon.Orchestration.Service.Runs.{step-Housed, run-Housed}
use photospider_daemon.Orchestration.Service.Calls.{
  Environment, Reply, settling, closed, close_begun, begun, close_session, alive, service_calls,
}
use photospider_daemon.Orchestration.Service.Calls.Gone.{
  Spares, Waiting, Gone, onward-Waiting, run-Waiting, finishing-Gone,
}

All-append_both {ℓ κ} :
    {A : Type ℓ} (P : A → Type κ) (xs ys : List A) → All P xs → All P ys → All P (xs ++ ys)
All-append_both P [] ys hx hy = hy
All-append_both P (x ∷ xs) ys hx hy = (hx.0, All-append_both P xs ys hx.1 hy)

All-map_each :
    {A B : Type 0} (P : B → Type 0) (f : A → B)
    → ((a : A) → P (f a))
    → (xs : List A) → All P (map f xs)
All-map_each P f each [] = _
All-map_each P f each (x ∷ xs) = (each x, All-map_each P f each xs)

err_inj : {A E : Type 0} {x y : E} → ◌≡◌ {A = Outcome E A} (err x) (err y) → x ≡ y
err_inj e = cc

module _ ⦃k : Kernel⦄ where
  refusal_same :
      (id : SessionId) (g : Sessions) (status : Status)
      → is_open id g ≡ false
      → begin_close id g ≡ err status
      → status ≡ no_session_status
  unfolding begin_close
  refusal_same id g status shut e = err_inj (sym e ∙ rw shut refl)

  refusal_fails :
      (id : SessionId) (g : Sessions) (status : Status)
      → begin_close id g ≡ err status
      → k.status_ok status ≡ false
  unfolding begin_close
  refusal_fails id g status e = elim (Bool-cases (is_open id g)) [
    | inl opened ↦ absurd (ground (arith, opened, e))
    | inr shut ↦
        ap k.status_ok (refusal_same id g status shut e)
        ∙ status_ok-failure k.not_found _ k.not_found-ne-ok
  ]

-- No other thread ends a close that it has not begun.
abbrev pub IsApart : ⦃k : Kernel⦄ {R : Type 0} → Environment R → Type 0
IsApart {R} env = (i : ℕ) (s : Impl R) → All (Spares i) (env.while_waiting i s)

module _ ⦃k : Kernel⦄ {R : Type 0} (env : Environment R) (apart : IsApart env) where
  -- A close that reports success has ended.
  abbrev Closes : ℕ → Reply R Status → Type 0
  Closes i reply =
      (status : Status) → reply.0 ≡ ok status → k.status_ok status ≡ true → Gone i reply.1

  settling-Waiting :
      (i : ℕ) (s : Impl R) → member i s.begun ≡ true → Waiting i (run (settling env i s) s)
  unfolding run step
  settling-Waiting i s m =
      let taken = (detach (own_session i s) s.jobs).0 in
      let queued = map settles_queued taken.0 in
      let running = map settles_running taken.1 in
      let others = env.while_waiting i s in
      onward-Waiting i (queued ++ running ++ others) (step (detaches i) s)
        (λ next w.
          run-Waiting i (queued ++ running ++ others) next
            (All-append_both (Spares i) (queued ++ running) others
              (All-append_both (Spares i) queued running
                (All-map_each (Spares i) settles_queued (λ j. tt) taken.0)
                (All-map_each (Spares i) settles_running (λ j. tt) taken.1))
              (apart i s))
            w)
        (rw m (ground arith))

  closed-Closes : (i : ℕ) (o : Option (Impl R)) → Housed o → Waiting i o → Closes i (closed i o)
  closed-Closes i none h w status e good = absurd (cc)
  closed-Closes i (some s) h w status e good = finishing-Gone i s h w

  close_begun-Closes :
      (id : SessionId) (s : Impl R) (snapshot : Option Raised)
      → IsHoused s
      → member id.value s.begun ≡ true
      → Closes id.value (close_begun env id s snapshot)
  close_begun-Closes id s (some raised) h m status e good = absurd (cc)
  close_begun-Closes id s none h m status e good =
      closed-Closes id.value (run (settling env id.value s) s)
        (run-Housed (settling env id.value s) s h) (settling-Waiting id.value s m) status e good

  begun-Closes :
      (id : SessionId) (s : Impl R) (r : Result Sessions)
      → ((status : Status) → r ≡ err status → k.status_ok status ≡ false)
      → IsHoused (with_begun id.value s r)
      → Closes id.value (begun env id s r)
  begun-Closes id s (err refusal) bad h status e good =
      absurd (ground (arith, bad refusal refl, good, ap k.status_ok (ok_inj e)))
  begun-Closes id s (ok after) bad h status e good =
      close_begun-Closes id (record s { sessions = after; begun = id.value ∷ s.begun })
        (env.snapshot id) h (ground arith) status e good

  close_session-Closes :
      (id : SessionId) (s : Impl R) → IsHoused s → Closes id.value (close_session env id s)
  unfolding close_session step
  close_session-Closes id s h =
      begun-Closes id s (begin_close id s.sessions) (refusal_fails id s.sessions)
        (step-Housed (begins id) s h)

  alive-Closes :
      (id : SessionId) (o : Option (Impl R))
      → Housed o
      → Closes id.value (alive (close_session env id) o)
  alive-Closes id none h status e good = absurd (cc)
  alive-Closes id (some s) h status e good = close_session-Closes id s h status e good

module _ ⦃k : Kernel⦄ {Value : Type 0} where
  fail_with-fails :
      (built : Bool) (code : ℕ) (text : Bytes) (r : Response Value)
      → code ≢ k.ok_code
      → k.status_ok (fail_with built code text r).status ≡ false
  unfolding fail_with failed_response
  fail_with-fails true code text r bad = status_ok-failure code text bad
  fail_with-fails false code text r bad =
      let kept : (code == k.ok_code) ≡ false = ground (arith, bad) in
      rw kept (status_ok-failure code [] bad)

  fence-fails :
      (built : Bool) (raised : Raised) (r : Response Value)
      → k.status_ok (fence built raised r).status ≡ false
  unfolding fence
  fence-fails built no_memory r = fail_with-fails built _ _ r k.resource_exhausted-ne-ok
  fence-fails built (standard none) r = fail_with-fails built _ _ r k.internal-ne-ok
  fence-fails built (standard (some what)) r = fail_with-fails built _ _ r k.internal-ne-ok
  fence-fails built nonstandard r = fail_with-fails built _ _ r k.internal-ne-ok

  settle-Gone :
      {R : Type 0} (i : ℕ) (late : Option Raised) (built : Bool) (method : Method)
      (blank : Response Value) (o : Outcome Raised (Response Value) × Option (Impl R))
      (service : Service (Option (Impl R)))
      → is_shutdown method ≡ false
      → ((r : Response Value) → o.0 ≡ ok r → k.status_ok r.status ≡ true → Gone i o.1)
      → k.status_ok (settle late built method blank o service).0.status ≡ true
      → Gone i (settle late built method blank o service).1.inner
  settle-Gone i late built method blank (err raised, after) service e each good =
      absurd (ground (arith, good, fence-fails built raised blank))
  settle-Gone i (some raised) built method blank (ok r, after) service e each good =
      absurd (ground (arith, good, fence-fails built raised r))
  settle-Gone i none built method blank (ok r, after) service e each good =
      rw e (each r refl (ap k.status_ok (rw e refl) ∙ good))

  answered-Gone :
      {R : Type 0} (i : ℕ) (r : Response Value) (reply : Reply R Status)
      → ((status : Status) → reply.0 ≡ ok status → k.status_ok status ≡ true → Gone i reply.1)
      → (x : Response Value) → (answered (λ status. record r { status = status }) reply).0 ≡ ok x
      → k.status_ok x.status ≡ true
      → Gone i (answered (λ status. record r { status = status }) reply).1
  answered-Gone i r (ok status, after) each x e good =
      each status refl (ap (λ y. k.status_ok y.status) (ok_inj e) ∙ good)
  answered-Gone i r (err raised, after) each x e good = absurd (cc)

  -- A response of success says that the session is gone.
  abbrev Tells : {R : Type 0} → ℕ → Response Value × Service (Option (Impl R)) → Type 0
  Tells i out = k.status_ok out.0.status ≡ true → Gone i out.1.inner

  branch-Tells :
      {R : Type 0} (i : ℕ) (b : Bool) (x y : Response Value × Service (Option (Impl R)))
      → Tells i x
      → Tells i y
      → Tells i (if b then x else y)
  branch-Tells i true x y hx hy = hx
  branch-Tells i false x y hx hy = hy

  routed-Tells :
      (env : Environment (ExecutionResult Value))
      → IsApart env
      → (late : Option Raised) (built : Bool) (q : Request) (blank : Response Value)
        (service : Service (Option (Impl (ExecutionResult Value))))
      → Housed service.inner
      → (method : Method) → session_close ≡ method
      → Tells q.session_id.value (
          settle late built method blank
            (route ⦃calls = service_calls env⦄ method q blank service)
            service)
  unfolding route
  routed-Tells env apart late built q blank service h method e =
      subst
        (λ m.
          Tells q.session_id.value (
            settle late built m blank (route ⦃calls = service_calls env⦄ m q blank service)
              service))
        e
        (settle-Gone q.session_id.value late built session_close blank
          (answered (λ status. record blank { status = status })
            (alive (close_session env q.session_id) service.inner))
          service refl
          (answered-Gone q.session_id.value blank
            (alive (close_session env q.session_id) service.inner)
            (alive-Closes env apart q.session_id service.inner h)))

  -- Over the service's own sessions and jobs, a session.close that is answered with success has
  -- ended the session: it is in the map no more and no job of it is retained, whatever the other
  -- threads did while the close waited, and whatever workers still hold. The service kept every job
  -- in a session of the map before, and no other thread ends a close that it has not begun.
  pub dispatch-Gone :
      (env : Environment (ExecutionResult Value))
      → IsApart env
      → (late : Option Raised) (built : Bool) (q : Request)
        (service : Service (Option (Impl (ExecutionResult Value))))
      → Housed service.inner
      → q.method ≡ session_close
      → k.status_ok (dispatch ⦃calls = service_calls env⦄ late built q service).0.status ≡ true
      → Gone q.session_id.value (dispatch ⦃calls = service_calls env⦄ late built q service).1.inner
  unfolding dispatch
  dispatch-Gone env apart late built q service h closes good =
      let blank = blank_response q.request_id q.method success in
      branch-Tells q.session_id.value (not (is_shutdown q.method) && service.shutting_down) _ _
        (λ lie. absurd (
          ground (
            arith,
            lie,
            status_ok-failure k.cancelled (bytes_of "daemon orchestration is shutting down")
                k.cancelled-ne-ok,
          )))
        (routed-Tells env apart late built q blank service h q.method (sym closes)) good
