-- ===== src/Db/Audit/Cases.antt =====
-- How `insert_audit` ends: with the row in the table, or with an exception and no other change.
use nobleport.Prelude.{◌≡◌, refl, ◌⊎◌, inl, inr, true, Option, none, some, [], ◌∷◌, ◌++◌, arith}
use nobleport.Python.Text.{Text, is_nonempty}
use nobleport.Python.Json.{Json, Fields, dumps, obj}
use nobleport.Schema.{AuditRow, Tables, insert_audit_row}
use nobleport.World.{
  Env, Exn, audit_error, failure, cancelled, World, audited, Result, ok, raised, ◌>>=◌, tick, emit,
  reading,
}
use nobleport.Db.Connection.Outcomes.{written, execute_cases, done, failed, half_done, refused}
use nobleport.Db.Audit.{to_audit_error, insert_payload, insert_audit}

-- what the audit may raise: its own error, or the cancellation of the task
pub data IsAuditFailure : Exn → Type 0 where
  reported : (m : Text) → IsAuditFailure (audit_error m)
  interrupted : IsAuditFailure cancelled

to_audit_error-IsAuditFailure : (env : Env) (e : Exn) → IsAuditFailure (to_audit_error env e)
unfolding to_audit_error
to_audit_error-IsAuditFailure env (audit_error m) = reported _
to_audit_error-IsAuditFailure env (failure k) = reported _
to_audit_error-IsAuditFailure env cancelled = interrupted

-- `w'` differs from `w` at most in the audit log, and in an effect that says so
pub record OnlyAudit (rid : Text) (w w' : World) : Type 0 where
  pub metrics : w'.tables.agent_metrics ≡ w.tables.agent_metrics
  pub checkpoints : w'.tables.langgraph_checkpoints ≡ w.tables.langgraph_checkpoints
  pub threads : w'.tables.agent_thread_state ≡ w.tables.agent_thread_state
  pub events : w'.events ≡ w.events
  pub trace : (w'.trace ≡ w.trace) ⊎ (w'.trace ≡ w.trace ++ audited rid ∷ [])

module _ (rid : Text) (w : World) where
  OnlyAudit-refl : OnlyAudit rid w w
  OnlyAudit-refl = record {
    metrics = refl;
    checkpoints = refl;
    threads = refl;
    events = refl;
    trace = inl refl;
  }

  OnlyAudit-tick : OnlyAudit rid w (tick w)
  OnlyAudit-tick = record {
    metrics = refl;
    checkpoints = refl;
    threads = refl;
    events = refl;
    trace = inl refl;
  }

  OnlyAudit-written :
      (row : AuditRow) (t : Tables)
      → insert_audit_row row w.tables ≡ some t
      → OnlyAudit rid w (written (audited rid) w t)
  unfolding insert_audit_row emit
  OnlyAudit-written row t h = record {
    metrics = ground arith;
    checkpoints = ground arith;
    threads = ground arith;
    events = refl;
    trace = inr refl;
  }

  audit_log-written :
      (row : AuditRow) (t : Tables)
      → insert_audit_row row w.tables ≡ some t
      → t.audit_log ≡ w.tables.audit_log ++ row ∷ []
  unfolding insert_audit_row
  audit_log-written row t h = ground arith

  pub data InsertCases (out : Result AuditRow × World) : Type 0 where
    inserted :
        (row : AuditRow)
        → out.0 ≡ ok row
        → row.id ≡ rid
        → OnlyAudit rid w out.1
        → out.1.tables.audit_log ≡ w.tables.audit_log ++ row ∷ []
        → out.1.trace ≡ w.trace ++ audited rid ∷ []
        → InsertCases out
    blocked :
        (e : Exn) → out.0 ≡ raised e → IsAuditFailure e → OnlyAudit rid w out.1 → InsertCases out

-- a call that is only counted makes no difference
pub OnlyAudit-after_tick :
    {rid : Text} {w w' : World} → OnlyAudit rid (tick w) w' → OnlyAudit rid w w'
OnlyAudit-after_tick o = record {
  metrics = o.metrics;
  checkpoints = o.checkpoints;
  threads = o.threads;
  events = o.events;
  trace = o.trace;
}

InsertCases-after_tick :
    {rid : Text} {w : World} {out : Result AuditRow × World}
    → InsertCases rid (tick w) out
    → InsertCases rid w out
InsertCases-after_tick (inserted row e i o l t) = inserted row e i (OnlyAudit-after_tick o) l t
InsertCases-after_tick (blocked x e f o) = blocked x e f (OnlyAudit-after_tick o)

module _ (env : Env) (rid : Text) (w : World) where
  pub insert_payload_cases :
      (event_type : Text) (payload : Option Json) (thread_id message : Option Text) (now : Text)
      → InsertCases rid w (insert_payload env rid event_type payload thread_id message now w)
  unfolding insert_payload ◌>>=◌ emit
  insert_payload_cases event_type none thread_id message now =
      blocked _ refl (reported _) (OnlyAudit-refl rid w)
  insert_payload_cases event_type (some p) thread_id message now =
      let row : AuditRow = record {
        id = rid;
        event_type = event_type;
        payload = p;
        thread_id = thread_id;
        message = message;
        created_at = now;
      } in
      elim (execute_cases env (insert_audit_row row) (audited rid) w) [
        | done t st e ↦ rw e (
            inserted row refl refl (OnlyAudit-written rid w row t st)
              (audit_log-written rid w row t st) refl)
        | failed x e ↦
            rw e (blocked _ refl (to_audit_error-IsAuditFailure env x) (OnlyAudit-tick rid w))
        | half_done x t st e ↦ rw e (
            blocked _ refl (to_audit_error-IsAuditFailure env x) (OnlyAudit-written rid w row t st))
        | refused e ↦ rw e (blocked _ refl (reported _) (OnlyAudit-refl rid w))
      ]

-- `insert_audit` under a given id: the ways in which it ends
pub insert_audit_cases :
    (env : Env) (rid : Text) (w : World) (event_type : Text) (payload : Fields)
    (thread_id message : Option Text)
    → is_nonempty rid ≡ true
    → InsertCases rid w (insert_audit env event_type payload thread_id message (some rid) w)
unfolding insert_audit reading ◌>>=◌
insert_audit_cases env rid w event_type payload thread_id message h = rw h (
    InsertCases-after_tick (
      insert_payload_cases env rid (tick w) event_type (dumps (obj payload)) thread_id message
        (env.utcnow w.calls)))
