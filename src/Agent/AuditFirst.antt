-- ===== src/Agent/AuditFirst.antt =====
-- The governance contract of app/agent/runtime.py: no request runs before its audit row is in.
use nobleport.Prelude.{
  ℕ, ◌≡◌, refl, ◌∙◌, Bool, true, false, Option, none, some, List, [], ◌∷◌, ◌++◌, append_assoc,
  arith, ap, subst, if◌then◌else◌,
}
use nobleport.Python.Text.{Text, codes, is_nonempty, text_eq_refl}
use nobleport.Python.Json.{Fields}
use nobleport.Schema.{AuditRow, has_audit}
use nobleport.World.{Env, Exn, World, Effect, audited, Result, raised, ◌>>=◌, tick}
use nobleport.World.Respects.{Respects}
use nobleport.Db.Audit.{insert_audit}
use nobleport.Db.Audit.Cases.{
  IsAuditFailure, OnlyAudit, InsertCases, inserted, insert_audit_cases, OnlyAudit-after_tick,
}
use nobleport.Agent.Runtime.{
  Supervisor, InvokeResult, audit_payload, audit_message, audit_request, invoke,
}
use nobleport.Agent.Admission.{thread_of, request_of, admitted, audited_run, invoke-eq-audited_run}
use nobleport.Agent.Isolation.{within}
use nobleport.Agent.Isolation.Requests.{execute-Within}

-- What a request that began at `w` has done: it was blocked by its audit, which is then all that
-- can have changed, or its audit row is in and the mark of the insert comes before every other
-- effect of the request.
module _ (rid : Text) (w : World) where
  pub data AuditFirst (out : Result InvokeResult × World) : Type 0 where
    blocked :
        (e : Exn) → out.0 ≡ raised e → IsAuditFailure e → OnlyAudit rid w out.1 → AuditFirst out
    recorded :
        (l : List Effect)
        → out.1.trace ≡ w.trace ++ audited rid ∷ l
        → has_audit rid out.1.tables.audit_log ≡ true
        → AuditFirst out

AuditFirst-after_tick :
    {rid : Text} {w : World} {out : Result InvokeResult × World}
    → AuditFirst rid (tick w) out
    → AuditFirst rid w out
AuditFirst-after_tick (blocked e r f o) = blocked e r f (OnlyAudit-after_tick o)
AuditFirst-after_tick (recorded l t a) = recorded l t a

AuditFirst-after_if :
    {rid : Text} {out : Result InvokeResult × World} (b : Bool) (w : World)
    → AuditFirst rid (if b then w else tick w) out
    → AuditFirst rid w out
AuditFirst-after_if true w a = a
AuditFirst-after_if false w a = AuditFirst-after_tick a

AuditFirst-admitted :
    {rid : Text} {out : Result InvokeResult × World} (given : Option Text) (w : World)
    → AuditFirst rid (admitted given w) out
    → AuditFirst rid w out
AuditFirst-admitted none w a = AuditFirst-after_tick (AuditFirst-after_tick a)
AuditFirst-admitted (some t) w a = AuditFirst-after_if (is_nonempty t) w (AuditFirst-after_tick a)

OnlyAudit-after_if :
    {rid : Text} {w' : World} (b : Bool) (w : World)
    → OnlyAudit rid (if b then w else tick w) w'
    → OnlyAudit rid w w'
OnlyAudit-after_if true w o = o
OnlyAudit-after_if false w o = OnlyAudit-after_tick o

OnlyAudit-admitted :
    {rid : Text} {w' : World} (given : Option Text) (w : World)
    → OnlyAudit rid (admitted given w) w'
    → OnlyAudit rid w w'
OnlyAudit-admitted none w o = OnlyAudit-after_tick (OnlyAudit-after_tick o)
OnlyAudit-admitted (some t) w o = OnlyAudit-after_if (is_nonempty t) w (OnlyAudit-after_tick o)

-- a row stays in a log that only grows
has_audit-append :
    (rid : Text) (rows l : List AuditRow) (row : AuditRow)
    → row.id ≡ rid
    → has_audit rid ((rows ++ row ∷ []) ++ l) ≡ true
unfolding has_audit
has_audit-append rid [] l row e = rw (e, text_eq_refl)
has_audit-append rid (r ∷ rows) l row e = ground (arith, has_audit-append rid rows l row e)

module _ (env : Env) (sup : Supervisor) (input : Text) (metadata : Fields) where
  module _ (tid rid : Text) (w : World) (rid_given : is_nonempty rid ≡ true)
      (step : (state : Fields) → Respects (within tid) (sup.step_fn state)) where
    after_insert :
        InsertCases rid w (
          insert_audit env
            (codes "agent.invoke.requested")
            (audit_payload rid input metadata)
            (some tid)
            (some (audit_message tid))
            (some rid)
            w)
        → AuditFirst rid w (audited_run env sup input metadata tid rid w)
    unfolding audit_request ◌>>=◌
    after_insert (InsertCases.blocked e r f o) = rw r (blocked e refl f o)
    after_insert (inserted row r i o log t) =
        let k =
          (execute-Within tid env sup step rid input).at
            (insert_audit env (codes "agent.invoke.requested") (audit_payload rid input metadata)
              (some tid) (some (audit_message tid)) (some rid) w).1 in
        rw r (
          recorded k.trace.0 (k.trace.1 ∙ ap (λ u. u ++ k.trace.0) t ∙ append_assoc w.trace _ _)
            (rw (k.audit.1, log) (has_audit-append rid w.tables.audit_log k.audit.0 row i)))

  module _ (tid rid : Text) (w : World) (e : Exn) where
    blocked_run :
        InsertCases rid w (
          insert_audit env
            (codes "agent.invoke.requested")
            (audit_payload rid input metadata)
            (some tid)
            (some (audit_message tid))
            (some rid)
            w)
        → (audit_request env sup tid rid input metadata w).0 ≡ raised e
        → ((audited_run env sup input metadata tid rid w).0 ≡ raised e)
          × IsAuditFailure e
          × OnlyAudit rid w (audited_run env sup input metadata tid rid w).1
    unfolding audit_request ◌>>=◌
    blocked_run (InsertCases.blocked x r f o) h =
        let same : x ≡ e = ground (arith, r, h) in
        rw r (ap raised same, subst IsAuditFailure same f, o)
    blocked_run (inserted row r i o log t) h = absurd (ground (arith, r, h))

  -- If no id that uuid4 draws is empty and the audit of a request raises, then the request raises
  -- that same error, which is an AuditError or the cancellation of the task, and at most the audit
  -- log has changed: no event is published, no metric, checkpoint or thread state is written, and
  -- no step is run.
  pub failed_audit-blocks :
      (given : Option Text) (w : World) (e : Exn)
      → ((n : ℕ) → is_nonempty (env.uuid4 n) ≡ true)
      → (audit_request env sup
          (thread_of env given w)
          (request_of env given w)
          input
          metadata
          (admitted given w)).0
        ≡ raised e
      → ((invoke env sup given input metadata w).0 ≡ raised e)
        × IsAuditFailure e
        × OnlyAudit (request_of env given w) w (invoke env sup given input metadata w).1
  failed_audit-blocks given w e ids h =
      let b =
        blocked_run (thread_of env given w) (request_of env given w) (admitted given w) e
          (insert_audit_cases env _ (admitted given w) _ _ _ _ (ids _)) h in
      rw (invoke-eq-audited_run env sup input metadata) (b.0, b.1, OnlyAudit-admitted given w b.2)

  -- If no id that uuid4 draws is empty, then, however its calls end, a request whose step function
  -- stays within its thread was either blocked by its audit, having changed nothing but perhaps
  -- the audit log, or has its row in the audit log and has made every other effect (status, event,
  -- step, checkpoint, metric) after the insert of that row.
  pub audit_first :
      (given : Option Text) (w : World)
      → ((n : ℕ) → is_nonempty (env.uuid4 n) ≡ true)
      → ((state : Fields) → Respects (within (thread_of env given w)) (sup.step_fn state))
      → AuditFirst (request_of env given w) w (invoke env sup given input metadata w)
  audit_first given w ids step = rw (invoke-eq-audited_run env sup input metadata) (
      AuditFirst-admitted given w (
        after_insert _ _ (admitted given w) (ids _) step
          (insert_audit_cases env _ (admitted given w) _ _ _ _ (ids _))))
