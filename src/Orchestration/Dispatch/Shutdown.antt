-- ===== src/Orchestration/Dispatch/Shutdown.antt =====
-- src/lib/orchestration/service.cpp: the commit of a shutdown, and the fence behind it.
use photospider_daemon.Base.{
  ℕ, Bool, true, false, not, ◌&&◌, ◌||◌, Bytes, Option, none, some, ◌≡◌, refl, sym, ap, ◌∙◌,
  Bool-cases, inl, inr, arith,
}
use photospider_daemon.Base.Outcome.{Outcome, ok, err}
use photospider_daemon.Kernel.{Kernel, Result, success}
use photospider_daemon.Protocol.{
  Method, session_create, session_close, job_submit, job_status, job_cancel, job_result,
  job_release, daemon_info, daemon_shutdown,
}
use photospider_daemon.Codec.Request.{Request}
use photospider_daemon.Codec.Response.{Response, blank_response}
use photospider_daemon.Orchestration.Dispatch.{
  Raised, no_memory, standard, nonstandard, Calls, Service, is_shutdown, failed_response, fail_with,
  fence, put_session, put_job, put_snapshot, put_execution, answer, answered, route, settle,
  dispatch,
}
use photospider_daemon.Orchestration.Dispatch.Correlation.{ok_inj}

module _ ⦃k : Kernel⦄ {Value : Type 0} where
  -- The response does not ask its server to shut down.
  abbrev Quiet : Response Value → Type 0
  Quiet r = r.shutdown_after_write ≡ false

  fail_with-Quiet :
      (built : Bool) (code : ℕ) (text : Bytes) (r : Response Value)
      → Quiet (fail_with built code text r)
  unfolding fail_with failed_response
  fail_with-Quiet true code text r = refl
  fail_with-Quiet false code text r = refl

  fence-Quiet : (built : Bool) (raised : Raised) (r : Response Value) → Quiet (fence built raised r)
  unfolding fence
  fence-Quiet built no_memory r = fail_with-Quiet built _ _ r
  fence-Quiet built (standard none) r = fail_with-Quiet built _ _ r
  fence-Quiet built (standard (some what)) r = fail_with-Quiet built _ _ r
  fence-Quiet built nonstandard r = fail_with-Quiet built _ _ r

  answered-Quiet :
      {A S : Type 0} (f : A → Response Value)
      → ((a : A) → Quiet (f a))
      → (x : Outcome Raised A × S) (r : Response Value) → (answered f x).0 ≡ ok r
      → Quiet r
  answered-Quiet f each (ok a, s) r e = sym (ap (λ r. r.shutdown_after_write) (ok_inj e)) ∙ each a
  answered-Quiet f each (err raised, s) r e = absurd (cc)

  answer-Quiet :
      {A : Type 0} (put : A → Response Value → Response Value) (blank : Response Value)
      → ((a : A) (r : Response Value) → (put a r).shutdown_after_write ≡ r.shutdown_after_write)
      → Quiet blank
      → (x : Result A) → Quiet (answer put blank x)
  answer-Quiet put blank each h (ok a) = each a (record blank { status = success }) ∙ h
  answer-Quiet put blank each h (err status) = h

  module _ {S : Type 0} ⦃calls : Calls S Value⦄ (q : Request) (service : Service S)
      (blank : Response Value) (h : Quiet blank) where
    route-Quiet :
        (method : Method) (r : Response Value) → (route method q blank service).0 ≡ ok r → Quiet r
    unfolding route
    route-Quiet session_create =
        answered-Quiet _ (answer-Quiet put_session blank (λ a r. refl) h)
          (calls.create_session q.document service.inner)
    route-Quiet session_close =
        answered-Quiet _ (λ status. h) (calls.close_session q.session_id service.inner)
    route-Quiet job_submit =
        answered-Quiet _ (answer-Quiet put_job blank (λ a r. refl) h)
          (calls.submit q.session_id q.submit_options service.inner)
    route-Quiet job_status =
        answered-Quiet _ (answer-Quiet put_snapshot blank (λ a r. refl) h)
          (calls.status q.job_id service.inner)
    route-Quiet job_cancel = answered-Quiet _ (λ status. h) (calls.cancel q.job_id service.inner)
    route-Quiet job_result =
        answered-Quiet _ (answer-Quiet put_execution blank (λ a r. refl) h)
          (calls.result q.job_id service.inner)
    route-Quiet job_release = answered-Quiet _ (λ status. h) (calls.release q.job_id service.inner)
    route-Quiet daemon_info = λ r e. sym (ap (λ r. r.shutdown_after_write) (ok_inj e)) ∙ h
    route-Quiet daemon_shutdown = λ r e. sym (ap (λ r. r.shutdown_after_write) (ok_inj e)) ∙ h

  -- The fence is up after a dispatch where it was up or the response asks for a shutdown.
  pub record Commits {S : Type 0} (method : Method) (service : Service S)
      (after : Response Value × Service S) : Type 0 where
    pub raised : after.1.shutting_down ≡ (service.shutting_down || after.0.shutdown_after_write)
    pub asked : after.0.shutdown_after_write ≡ true → is_shutdown method ≡ true

  Quiet-Commits :
      {S : Type 0} (method : Method) (service after : Service S) (r : Response Value)
      → after.shutting_down ≡ service.shutting_down
      → Quiet r
      → Commits method service (r, after)
  Quiet-Commits method service after r e h = record {
    raised = ground (arith, e, h);
    asked = λ t. absurd (cc);
  }

  settle-Commits :
      {S : Type 0} (late : Option Raised) (built : Bool) (method : Method) (blank : Response Value)
      (o : Outcome Raised (Response Value) × S) (service : Service S)
      → ((r : Response Value) → o.0 ≡ ok r → Quiet r)
      → Commits method service (settle late built method blank o service)
  settle-Commits late built method blank (err raised, after) service h =
      Quiet-Commits method service _ _ refl (fence-Quiet built raised blank)
  settle-Commits (some raised) built method blank (ok r, after) service h =
      Quiet-Commits method service _ _ refl (fence-Quiet built raised r)
  settle-Commits none built method blank (ok r, after) service h =
      elim (Bool-cases (is_shutdown method)) [
        | inl shutdown ↦ rw shutdown (record { raised = ground arith; asked = λ t. shutdown })
        | inr other ↦ rw other (Quiet-Commits method service _ _ refl (h r refl))
      ]

  module _ {S : Type 0} ⦃calls : Calls S Value⦄ where
    -- The fence is up after a dispatch exactly where it was up before or the response asks for a
    -- shutdown, and only the response to daemon.shutdown does. So an exception before the commit
    -- leaves the fence as it was, and no dispatch lowers it.
    pub dispatch-Commits :
        (late : Option Raised) (built : Bool) (q : Request) (service : Service S)
        → Commits q.method service (dispatch late built q service)
    unfolding dispatch
    dispatch-Commits late built q service =
        elim (Bool-cases (not (is_shutdown q.method) && service.shutting_down)) [
          | inl fenced ↦ rw fenced (Quiet-Commits q.method service service _ refl refl)
          | inr admitted ↦ rw admitted (
              settle-Commits late built q.method _ _ service (
                route-Quiet q service (blank_response q.request_id q.method success) refl q.method))
        ]
