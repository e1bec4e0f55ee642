-- ===== src/Db/Audit.antt =====
-- app/db/audit.py: one row of `audit_log` for each request, inserted before the request runs.
pub mod Cases
pub mod Listing
use nobleport.Prelude.{Option, none, some, ◌++◌, if◌then◌else◌}
use nobleport.Python.Text.{Text, codes, is_nonempty}
use nobleport.Python.Json.{Json, Fields, obj, dumps}
use nobleport.Schema.{AuditRow, insert_audit_row}
use nobleport.World.{
  Env, Exn, audit_error, failure, cancelled, value_error, Exec, audited, raise, pure, ◌>>=◌, ◌>>◌,
  catch, reading,
}
use nobleport.Db.Connection.{execute}

-- `given or str(uuid.uuid4())`
unfoldable pub or_uuid : Env → Option Text → Exec Text
or_uuid env none = reading env.uuid4
or_uuid env (some t) = if is_nonempty t then pure t else reading env.uuid4

-- the `except Exception` around the insert: a cancellation goes through
unfoldable pub to_audit_error : Env → Exn → Exn
to_audit_error env cancelled = cancelled
to_audit_error env (failure k) =
    audit_error (codes "failed to insert audit record: " ++ env.str (failure k))
to_audit_error env (audit_error m) =
    audit_error (codes "failed to insert audit record: " ++ env.str (audit_error m))

abbrev insert_serialised : Env → AuditRow → Exec AuditRow
insert_serialised env row = do
  catch (execute env (insert_audit_row row) (audited row.id)) (λ e. raise (to_audit_error env e))
  pure row

-- `payload_text = json.dumps(…)`, then the insert of the row. The two dialects differ by a cast to
-- jsonb only.
unfoldable pub insert_payload :
    Env → Text → Text → Option Json → Option Text → Option Text → Text → Exec AuditRow
unfolding to_audit_error
insert_payload env rid event_type none thread_id message now = raise (
    audit_error (codes "audit payload is not JSON-serialisable: " ++ env.str (failure value_error)))
insert_payload env rid event_type (some payload_text) thread_id message now =
    insert_serialised env (record {
      id = rid;
      event_type = event_type;
      payload = payload_text;
      thread_id = thread_id;
      message = message;
      created_at = now;
    })

unfoldable pub insert_audit :
    Env → Text → Fields → Option Text → Option Text → Option Text → Exec AuditRow
unfolding insert_payload or_uuid
insert_audit env event_type payload thread_id message audit_id = do
  rid ← or_uuid env audit_id
  now ← reading env.utcnow
  insert_payload env rid event_type (dumps (obj payload)) thread_id message now
