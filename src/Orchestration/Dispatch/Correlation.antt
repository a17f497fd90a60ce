-- ===== src/Orchestration/Dispatch/Correlation.antt =====
-- src/lib/orchestration/service.cpp: what `dispatch` promises of every response, whatever the
-- calls behind it answer or throw.
use photospider_daemon.Base.{
  ℕ, Bool, true, false, not, ◌&&◌, Bytes, Option, none, some, ◌≡◌, refl, sym, ap, subst, Bool-cases,
  inl, inr, arith,
}
use photospider_daemon.Base.Outcome.{Outcome, ok, err}
use photospider_daemon.Kernel.{Kernel, Status, Result, success, status_ok-success}
use photospider_daemon.Protocol.{
  Method, session_create, session_close, job_submit, job_status, job_cancel, job_result,
  job_release, daemon_info, daemon_shutdown,
}
use photospider_daemon.Codec.Request.{Request}
use photospider_daemon.Codec.Response.{Response, blank_response, no_info}
use photospider_daemon.Orchestration.Dispatch.{
  Raised, no_memory, standard, nonstandard, Calls, Service, is_shutdown, failed_response, fail_with,
  fence, put_session, put_job, put_snapshot, put_execution, answer, answered, route, settle,
  dispatch,
}

pub ok_inj : {A : Type 0} {a b : A} → ◌≡◌ {A = Outcome Raised A} (ok a) (ok b) → a ≡ b
ok_inj e = cc

module _ ⦃k : Kernel⦄ {Value : Type 0} where
  -- The response is the default one but for its correlation, its status and its version.
  abbrev pub IsBlank : Response Value → Type 0
  IsBlank r =
      r ≡ record (blank_response r.request_id r.method r.status) { info = no_info r.info.version }

  -- A response to the request, and without a payload where it is a failure.
  pub record Answers (q : Request) (r : Response Value) : Type 0 where
    pub same_id : r.request_id ≡ q.request_id
    pub same_method : r.method ≡ q.method
    pub clean : k.status_ok r.status ≡ false → IsBlank r

  blank-Answers :
      (q : Request) (status : Status) → Answers q (blank_response q.request_id q.method status)
  blank-Answers q status = record { same_id = refl; same_method = refl; clean = λ h. refl }

  success-Answers :
      (q : Request) (r : Response Value)
      → r.request_id ≡ q.request_id
      → r.method ≡ q.method
      → r.status ≡ success
      → Answers q r
  success-Answers q r e m s = record {
    same_id = e;
    same_method = m;
    clean = λ h. absurd (ground (arith, status_ok-success ⦃k = k⦄, ap k.status_ok s));
  }

  fail_with-Answers :
      (built : Bool) (code : ℕ) (diagnostic : Bytes) (q : Request) (r : Response Value)
      → Answers q r
      → Answers q (fail_with built code diagnostic r)
  unfolding fail_with failed_response
  fail_with-Answers true code diagnostic q r a = record {
    same_id = a.same_id;
    same_method = a.same_method;
    clean = λ h. refl;
  }
  fail_with-Answers false code diagnostic q r a = record {
    same_id = a.same_id;
    same_method = a.same_method;
    clean = λ h. refl;
  }

  fence-Answers :
      (built : Bool) (raised : Raised) (q : Request) (r : Response Value)
      → Answers q r
      → Answers q (fence built raised r)
  unfolding fence
  fence-Answers built no_memory q r a = fail_with-Answers built _ _ q r a
  fence-Answers built (standard none) q r a = fail_with-Answers built _ _ q r a
  fence-Answers built (standard (some what)) q r a = fail_with-Answers built _ _ q r a
  fence-Answers built nonstandard q r a = fail_with-Answers built _ _ q r a

  -- What is answered, where nothing is thrown.
  abbrev Routed : {S : Type 0} → Request → Outcome Raised (Response Value) × S → Type 0
  Routed q o = (r : Response Value) → o.0 ≡ ok r → Answers q r

  answered-Routed :
      {A S : Type 0} (q : Request) (f : A → Response Value)
      → ((a : A) → Answers q (f a))
      → (x : Outcome Raised A × S) → Routed q (answered f x)
  answered-Routed q f each (ok a, s) r e = subst (Answers q) (ok_inj e) (each a)
  answered-Routed q f each (err raised, s) r e = absurd (cc)

  answer-Answers :
      {A : Type 0} (q : Request) (put : A → Response Value → Response Value)
      → ((a : A) (r : Response Value)
          → ((put a r).request_id ≡ r.request_id)
            × ((put a r).method ≡ r.method)
            × ((put a r).status ≡ r.status))
      → (x : Result A) → Answers q (answer put (blank_response q.request_id q.method success) x)
  answer-Answers q put each (ok a) =
      let e = each a (blank_response q.request_id q.method success) in
      success-Answers q (put a (blank_response q.request_id q.method success)) e.0 e.1 e.2
  answer-Answers q put each (err status) = blank-Answers q status

  module _ {S : Type 0} ⦃calls : Calls S Value⦄ where
    route-Answers :
        (q : Request) (service : Service S) (method : Method)
        → Routed q (route method q (blank_response q.request_id q.method success) service)
    unfolding route
    route-Answers q service session_create =
        answered-Routed q _ (answer-Answers q put_session (λ a r. (refl, refl, refl)))
          (calls.create_session q.document service.inner)
    route-Answers q service session_close =
        answered-Routed q _ (blank-Answers q) (calls.close_session q.session_id service.inner)
    route-Answers q service job_submit =
        answered-Routed q _ (answer-Answers q put_job (λ a r. (refl, refl, refl)))
          (calls.submit q.session_id q.submit_options service.inner)
    route-Answers q service job_status =
        answered-Routed q _ (answer-Answers q put_snapshot (λ a r. (refl, refl, refl)))
          (calls.status q.job_id service.inner)
    route-Answers q service job_cancel =
        answered-Routed q _ (blank-Answers q) (calls.cancel q.job_id service.inner)
    route-Answers q service job_result =
        answered-Routed q _ (answer-Answers q put_execution (λ a r. (refl, refl, refl)))
          (calls.result q.job_id service.inner)
    route-Answers q service job_release =
        answered-Routed q _ (blank-Answers q) (calls.release q.job_id service.inner)
    route-Answers q service daemon_info =
        λ r e. subst (Answers q) (ok_inj e) (success-Answers q _ refl refl refl)
    route-Answers q service daemon_shutdown =
        λ r e. subst (Answers q) (ok_inj e) (success-Answers q _ refl refl refl)

    route-shutdown :
        (q : Request) (service : Service S) (method : Method)
        → is_shutdown method ≡ true
        → (r : Response Value)
        → (route method q (blank_response q.request_id q.method success) service).0 ≡ ok r
        → r.status ≡ success
    unfolding route
    route-shutdown q service daemon_shutdown h r e = sym (ap (λ r. r.status) (ok_inj e))
    route-shutdown q service _ h r e = absurd (cc)

    settle-Answers :
        (late : Option Raised) (built : Bool) (q : Request) (method : Method)
        (o : Outcome Raised (Response Value) × S) (service : Service S)
        → Routed q o
        → (is_shutdown method ≡ true → (r : Response Value) → o.0 ≡ ok r → r.status ≡ success)
        → Answers q
            (settle late built method (blank_response q.request_id q.method success) o service).0
    settle-Answers late built q method (err raised, after) service h ready =
        fence-Answers built raised q _ (blank-Answers q success)
    settle-Answers (some raised) built q method (ok r, after) service h ready =
        fence-Answers built raised q r (h r refl)
    settle-Answers none built q method (ok r, after) service h ready =
        elim (Bool-cases (is_shutdown method)) [
          | inr other ↦ rw other (h r refl)
          | inl shutdown ↦
              let a = h r refl in
              rw shutdown (success-Answers q _ a.same_id a.same_method (ready shutdown r refl))
        ]

    -- Every response has the id and the method of its request, and one that fails has no payload
    -- and asks for no shutdown: whatever the calls behind `dispatch` answer or throw, also where an
    -- exception comes once the payload is there or while its diagnostic is built.
    pub dispatch-Answers :
        (late : Option Raised) (built : Bool) (q : Request) (service : Service S)
        → Answers q (dispatch late built q service).0
    unfolding dispatch
    dispatch-Answers late built q service =
        elim (Bool-cases (not (is_shutdown q.method) && service.shutting_down)) [
          | inl fenced ↦ rw fenced (blank-Answers q _)
          | inr admitted ↦ rw admitted (
              settle-Answers late built q q.method _ service (route-Answers q service q.method)
                (route-shutdown q service q.method))
        ]
