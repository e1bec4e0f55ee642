-- ===== src/Api/Audited.antt =====
-- What an answer of POST /agent/invoke says about the audit log.
use nobleport.Prelude.{
  ℕ, ◌≡◌, refl, ap, ◌⊎◌, inl, inr, true, Option, List, ◌∷◌, ◌++◌, arith, Bool-cases,
}
use nobleport.Python.Text.{Text, is_nonempty}
use nobleport.Python.Json.{Fields}
use nobleport.Schema.{has_audit}
use nobleport.World.{
  Env, Exn, audit_error, failure, cancelled, World, Effect, audited, Result, ok, raised,
}
use nobleport.World.Binds.{>>=-ok, then_pure-ok}
use nobleport.World.Respects.{Respects}
use nobleport.Db.Audit.Cases.{IsAuditFailure, OnlyAudit}
use nobleport.Agent.Runtime.{
  Supervisor, Outcome, InvokeResult, conclude, execute, audit_request, invoke,
}
use nobleport.Agent.Admission.{thread_of, request_of, admitted, invoke-eq-audited_run}
use nobleport.Agent.Isolation.{within}
use nobleport.Agent.AuditFirst.{AuditFirst, blocked, recorded, audit_first}
use nobleport.Api.{
  InvokeRequest, is_valid, Response, answer, http_error, aborted, respond_invoke, post_invoke,
}

-- What an answer of the route, to a request that began at `w`, says.
pub data Accounted (env : Env) (req : InvokeRequest) (w : World)
    (out : Response InvokeResult × World) : Type 0 where
  invalid : out ≡ (http_error 422, w) → Accounted env req w out
  refused :
      OnlyAudit (request_of env req.thread_id w) w out.1
      → (out.0 ≡ http_error 503) ⊎ (out.0 ≡ aborted)
      → Accounted env req w out
  on_record :
      (l : List Effect)
      → out.1.trace ≡ w.trace ++ audited (request_of env req.thread_id w) ∷ l
      → has_audit (request_of env req.thread_id w) out.1.tables.audit_log ≡ true
      → ((r : InvokeResult) → out.0 ≡ answer r → r.request_id ≡ request_of env req.thread_id w)
      → Accounted env req w out

module _ (env : Env) (sup : Supervisor) where
  conclude-request_id :
      (tid rid : Text) (o : Outcome × Fields) (w : World) (r : InvokeResult)
      → (conclude env sup tid rid o w).0 ≡ ok r
      → r.request_id ≡ rid
  unfolding conclude
  conclude-request_id tid rid (o, state) w r h =
      let (u, done, same, end) = then_pure-ok _ _ r w h in
      ap (λ (x : InvokeResult). x.request_id) same

  execute-request_id :
      (tid rid input : Text) (w : World) (r : InvokeResult)
      → (execute env sup tid rid input w).0 ≡ ok r
      → r.request_id ≡ rid
  unfolding execute
  execute-request_id tid rid input w r h =
      let (a1, e1, n1) = >>=-ok _ _ w r h in
      let h1 = rw n1 at h in
      let (a2, e2, n2) = >>=-ok _ _ _ r h1 in
      let h2 = rw n2 at h1 in
      let (a3, e3, n3) = >>=-ok _ _ _ r h2 in
      let h3 = rw n3 at h2 in
      let (a4, e4, n4) = >>=-ok _ _ _ r h3 in
      let h4 = rw n4 at h3 in conclude-request_id tid rid a4 _ r h4

  -- A request that returns reports the id under which it was audited.
  pub invoke-request_id :
      (given : Option Text) (input : Text) (metadata : Fields) (w : World) (r : InvokeResult)
      → (invoke env sup given input metadata w).0 ≡ ok r
      → r.request_id ≡ request_of env given w
  invoke-request_id given input metadata w r h =
      let h' = rw (invoke-eq-audited_run env sup input metadata) at h in
      let (u, e, n) =
        >>=-ok
          (audit_request env sup (thread_of env given w) (request_of env given w) input metadata) _
          (admitted given w) r h' in
      execute-request_id (thread_of env given w) (request_of env given w) input _ r (rw n at h')

  answered : (o : Result InvokeResult) (r : InvokeResult) → respond_invoke o ≡ answer r → o ≡ ok r
  answered (ok x) r h = ground (arith, h)
  answered (raised (audit_error m)) r h = absurd (ground (arith, h))
  answered (raised (failure k)) r h = absurd (ground (arith, h))
  answered (raised cancelled) r h = absurd (ground (arith, h))

  audit_status :
      (e : Exn)
      → IsAuditFailure e
      → (respond_invoke (raised e) ≡ http_error 503) ⊎ (respond_invoke (raised e) ≡ aborted)
  audit_status (audit_error m) f = inl refl
  audit_status cancelled f = inr refl
  audit_status (failure k) f = elim f [ ]

  module _ (req : InvokeRequest) (w : World) where
    abbrev run : Result InvokeResult × World
    run = invoke env sup req.thread_id req.input req.metadata w

    account :
        AuditFirst (request_of env req.thread_id w) w run
        → Accounted env req w (respond_invoke run.0, run.1)
    account (blocked e r f o) = refused o (rw r (audit_status e f))
    account (recorded l t a) =
        on_record l t a
          (λ r h. invoke-request_id req.thread_id req.input req.metadata w r (answered run.0 r h))

    -- Every answer of POST /agent/invoke is accounted for, however the calls end, if the step
    -- function stays within the thread and no id that uuid4 draws is empty. A request that is not valid gets status 422 and changes
    -- nothing. One whose audit failed gets status 503, or is aborted, and changes nothing but
    -- perhaps the audit log. Any other has its row in the audit log, inserted before all its other
    -- effects; if it is answered with a result, that is under the id which the result reports.
    pub post_invoke-Accounted :
        ((n : ℕ) → is_nonempty (env.uuid4 n) ≡ true)
        → ((state : Fields) → Respects (within (thread_of env req.thread_id w)) (sup.step_fn state))
        → Accounted env req w (post_invoke env sup req w)
    unfolding post_invoke
    post_invoke-Accounted ids step = elim (Bool-cases (is_valid req)) [
      | inl e ↦ rw e (account (audit_first env sup req.input req.metadata req.thread_id w ids step))
      | inr e ↦ rw e (invalid refl)
    ]
