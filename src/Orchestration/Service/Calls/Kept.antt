-- ===== src/Orchestration/Service/Calls/Kept.antt =====
-- What a dispatch over the service's own calls keeps.
use photospider_daemon.Base.{
  ℕ, ◌+◌, ◌<◌, ◌≡◌, refl, sym, subst, Bool, false, not, ◌&&◌, ◌∷◌, ◌==◌, Option, none, some, arith,
  Bool-cases, inl, inr,
}
use photospider_daemon.Base.Outcome.{Outcome, ok, err}
use photospider_daemon.Kernel.{Kernel, Status, Result, success}
use photospider_daemon.Protocol.{
  SessionId, JobId, JobSubmitOptions, Method, session_create, session_close, job_submit, job_status,
  job_cancel, job_result, job_release, daemon_info, daemon_shutdown,
}
use photospider_daemon.Workflow.{WorkflowDocument}
use photospider_daemon.Execution.{ExecutionResult}
use photospider_daemon.Codec.Request.{Request}
use photospider_daemon.Codec.Response.{Response, blank_response}
use photospider_daemon.Orchestration.Dispatch.{
  Raised, Calls, Service, is_shutdown, settle, route, answered, dispatch,
}
use photospider_daemon.Orchestration.Registry
use photospider_daemon.Orchestration.Registry.{cancel, release}
use photospider_daemon.Orchestration.Sessions.{
  Sessions, reserve, publish_session, begin_close, submit_to,
}
use photospider_daemon.Orchestration.Service.{
  Impl, publishes, fails, submits, cancels, releases, reserves, begins, reopens, finishes,
  with_reserved, with_begun, with_published, step, run,
}
use photospider_daemon.Orchestration.Service.Housing.{IsHoused, Housed}
use photospider_daemon.Orchestration.Service.Runs.{step-Housed, run-Housed}
use photospider_daemon.Orchestration.Service.Calls.{
  Environment, Reply, published_session, compiled, resumed, reserved, create_session, settling,
  closed, close_begun, begun, close_session, alive, with_jobs, service_calls,
}

-- The threads that run during a creation leave it its reservation.
abbrev pub IsFair : ⦃k : Kernel⦄ {R : Type 0} → Environment R → Type 0
IsFair {R} env =
    (s later : Impl R)
    → run (env.while_compiling s) s ≡ some later
    → 0 < s.creating
    → 0 < later.creating

module _ ⦃k : Kernel⦄ {R : Type 0} (env : Environment R) where
  published-Housed :
      (s : Impl R) (o : Option (Result SessionId × Sessions))
      → Housed (with_published s o)
      → Housed (published_session s o).1
  published-Housed s none h = h
  published-Housed s (some (reply, after)) h = h

  publishing-Housed :
      (s : Impl R)
      → IsHoused s
      → 0 < s.creating
      → Housed (published_session s (publish_session s.sessions)).1
  unfolding step
  publishing-Housed s h busy =
      let held : (s.creating == 0) ≡ false = ground (arith, busy) in
      published-Housed s (publish_session s.sessions) (rw held at (step-Housed publishes s h))

  compiled-Housed :
      (s : Impl R) (c : Outcome Raised (Option Status))
      → IsHoused s
      → 0 < s.creating
      → Housed (compiled s c).1
  compiled-Housed s (err raised) h busy = step-Housed fails s h
  compiled-Housed s (ok (some status)) h busy = step-Housed fails s h
  compiled-Housed s (ok none) h busy = publishing-Housed s h busy

  resumed-Housed :
      (o : Option (Impl R)) (c : Outcome Raised (Option Status))
      → Housed o
      → ((later : Impl R) → o ≡ some later → 0 < later.creating)
      → Housed (resumed c o).1
  resumed-Housed none c h busy = h
  resumed-Housed (some later) c h busy = compiled-Housed later c h (busy later refl)

  reserved-Housed :
      IsFair env
      → (document : WorkflowDocument) (s : Impl R) (r : Result Sessions) → IsHoused s
      → IsHoused (with_reserved s r)
      → Housed (reserved env document s r).1
  reserved-Housed fair document s (err status) h with_ = h
  reserved-Housed fair document s (ok after) h with_ =
      let held : Impl R = record s { sessions = after; creating = s.creating + 1 } in
      resumed-Housed (run (env.while_compiling held) held) (env.compile document)
        (run-Housed (env.while_compiling held) held with_)
        (λ later e. fair held later e (omega arith))

  create_session-Housed :
      IsFair env
      → (document : WorkflowDocument) (s : Impl R) → IsHoused s
      → Housed (create_session env document s).1
  unfolding create_session step
  create_session-Housed fair document s h =
      reserved-Housed fair document s (reserve s.sessions) h (step-Housed reserves s h)

  closed-Housed : (i : ℕ) (o : Option (Impl R)) → Housed o → Housed (closed i o).1
  closed-Housed i none h = h
  closed-Housed i (some s) h = step-Housed (finishes i) s h

  close_begun-Housed :
      (id : SessionId) (s : Impl R) (snapshot : Option Raised)
      → IsHoused s
      → Housed (close_begun env id s snapshot).1
  close_begun-Housed id s (some raised) h = step-Housed (reopens id.value) s h
  close_begun-Housed id s none h =
      closed-Housed id.value (run (settling env id.value s) s)
        (run-Housed (settling env id.value s) s h)

  begun-Housed :
      (id : SessionId) (s : Impl R) (r : Result Sessions)
      → IsHoused s
      → IsHoused (with_begun id.value s r)
      → Housed (begun env id s r).1
  begun-Housed id s (err status) h with_ = h
  begun-Housed id s (ok after) h with_ =
      close_begun-Housed id (record s { sessions = after; begun = id.value ∷ s.begun })
        (env.snapshot id) with_

  close_session-Housed :
      (id : SessionId) (s : Impl R) → IsHoused s → Housed (close_session env id s).1
  unfolding close_session step
  close_session-Housed id s h =
      begun-Housed id s (begin_close id s.sessions) h (step-Housed (begins id) s h)

  -- The calls that are one section.
  submits-alive :
      (id : SessionId) (options : JobSubmitOptions) (o : Option (Impl R))
      → Housed o
      → Housed (alive (λ s. with_jobs s (submit_to id options s.sessions s.jobs)) o).1
  unfolding step
  submits-alive id options none h = h
  submits-alive id options (some s) h = step-Housed (submits id options) s h

  cancels-alive :
      (id : JobId) (o : Option (Impl R))
      → Housed o
      → Housed (alive (λ s. with_jobs s (cancel id s.jobs)) o).1
  unfolding step
  cancels-alive id none h = h
  cancels-alive id (some s) h = step-Housed (cancels id) s h

  releases-alive :
      (id : JobId) (o : Option (Impl R))
      → Housed o
      → Housed (alive (λ s. with_jobs s (release id s.jobs)) o).1
  unfolding step
  releases-alive id none h = h
  releases-alive id (some s) h = step-Housed (releases id) s h

  reads-alive :
      {A : Type 0} (f : Impl R → A) (o : Option (Impl R))
      → Housed o
      → Housed (alive (λ s. (ok (f s), some s)) o).1
  reads-alive f none h = h
  reads-alive f (some s) h = h

  alive-Housed :
      {A : Type 0} (f : Impl R → Reply R A) (o : Option (Impl R))
      → ((s : Impl R) → IsHoused s → Housed (f s).1)
      → Housed o
      → Housed (alive f o).1
  alive-Housed f none each h = h
  alive-Housed f (some s) each h = each s h

answered-state :
    ⦃k : Kernel⦄ {Value A S : Type 0} (f : A → Response Value) (o : Outcome Raised A × S)
    → (answered f o).1 ≡ o.1
answered-state f (ok a, s) = refl
answered-state f (err raised, s) = refl

settle-inner :
    ⦃k : Kernel⦄ {Value S : Type 0} (late : Option Raised) (built : Bool) (method : Method)
    (blank : Response Value) (o : Outcome Raised (Response Value) × S) (service : Service S)
    → (settle late built method blank o service).1.inner ≡ o.1
settle-inner late built method blank (err raised, after) service = refl
settle-inner (some raised) built method blank (ok r, after) service = refl
settle-inner none built method blank (ok r, after) service =
    elim (Bool-cases (is_shutdown method)) [ inl e ↦ rw e refl | inr e ↦ rw e refl ]

module _ ⦃k : Kernel⦄ {Value : Type 0} (env : Environment (ExecutionResult Value)) where
  abbrev own : Calls (Option (Impl (ExecutionResult Value))) Value
  own = service_calls env

  route-Housed :
      IsFair env
      → (method : Method) (q : Request) (r : Response Value)
        (service : Service (Option (Impl (ExecutionResult Value))))
      → Housed service.inner
      → Housed (route ⦃calls = own⦄ method q r service).1
  unfolding route
  route-Housed fair session_create q r service h =
      subst Housed (sym (answered-state _ (own.create_session q.document service.inner))) (
        alive-Housed env (create_session env q.document) service.inner
          (create_session-Housed env fair q.document) h)
  route-Housed fair session_close q r service h =
      subst Housed (sym (answered-state _ (own.close_session q.session_id service.inner))) (
        alive-Housed env (close_session env q.session_id) service.inner
          (close_session-Housed env q.session_id) h)
  route-Housed fair job_submit q r service h =
      subst Housed (sym (answered-state _ (own.submit q.session_id q.submit_options service.inner)))
        (submits-alive env q.session_id q.submit_options service.inner h)
  route-Housed fair job_status q r service h =
      subst Housed (sym (answered-state _ (own.status q.job_id service.inner)))
        (reads-alive env (λ s. Registry.status q.job_id s.jobs) service.inner h)
  route-Housed fair job_cancel q r service h =
      subst Housed (sym (answered-state _ (own.cancel q.job_id service.inner)))
        (cancels-alive env q.job_id service.inner h)
  route-Housed fair job_result q r service h =
      subst Housed (sym (answered-state _ (own.result q.job_id service.inner)))
        (reads-alive env (λ s. Registry.result q.job_id s.jobs) service.inner h)
  route-Housed fair job_release q r service h =
      subst Housed (sym (answered-state _ (own.release q.job_id service.inner)))
        (releases-alive env q.job_id service.inner h)
  route-Housed fair daemon_info q r service h = h
  route-Housed fair daemon_shutdown q r service h = h

  pub dispatch-Housed :
      IsFair env
      → (late : Option Raised) (built : Bool) (q : Request)
        (service : Service (Option (Impl (ExecutionResult Value))))
      → Housed service.inner
      → Housed (dispatch ⦃calls = own⦄ late built q service).1.inner
  unfolding dispatch
  dispatch-Housed fair late built q service h =
      elim (Bool-cases (not (is_shutdown q.method) && service.shutting_down)) [
        | inl fenced ↦ rw fenced h
        | inr admitted ↦ rw admitted (
            subst Housed
              (sym (
                settle-inner late built q.method _
                  (route ⦃calls = own⦄ q.method q (blank_response q.request_id q.method success)
                    service)
                  service))
              (route-Housed fair q.method q (blank_response q.request_id q.method success) service
                h))
      ]
