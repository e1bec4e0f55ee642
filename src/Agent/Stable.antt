-- ===== src/Agent/Stable.antt =====
-- Changes that a request makes for one thread, whatever they are: if the statements that it runs
-- change the world by a relation, the whole request does.
pub mod Requests
use nobleport.Prelude.{ℕ, ◌≡◌, Option, none, some}
use nobleport.Python.Text.{Text}
use nobleport.Python.Json.{Json, Fields}
use nobleport.Schema.{
  AuditRow, MetricRow, Tables, insert_audit_row, insert_metric_row, insert_checkpoint_row,
}
use nobleport.World.{Env, World, reading, Effect, emit, Event, BusKind, null_bus, redis_bus}
use nobleport.World.Respects.{Change, Respects, respects_rules}
use nobleport.Db.Connection.Calls.{Respects-execute, Respects-fetch}
use nobleport.Db.Audit.{or_uuid, insert_payload, insert_audit}
use nobleport.Db.Metrics.{record_invoke_latency}
use nobleport.RedisBus.{
  append_event, note_event, take_message, null_publish, redis_send, redis_publish, publish_to,
  publish,
}
use nobleport.Agent.State.{set_thread_status, is_kill_requested}
use nobleport.Agent.Checkpoint.{put, put_serialised, get_latest}

-- the parts of a request for the thread `tid` that change more than the count of the calls, but for
-- the checkpoints
pub record IsStable (R : Change) (tid channel : Text) (env : Env) : Type 0 where
  pub audit :
      (r : AuditRow) (e : Effect) (w : World) (t : Tables)
      → insert_audit_row r w.tables ≡ some t
      → R.rel w (emit e (record w { tables = t }))
  pub metric :
      (r : MetricRow) (e : Effect) (w : World) (t : Tables)
      → insert_metric_row r w.tables ≡ some t
      → R.rel w (emit e (record w { tables = t }))
  pub thread :
      (status : Text) (last_event : Option Text)
      → Respects R (set_thread_status env tid status last_event)
  pub mark : (e : Effect) (w : World) → R.rel w (emit e w)
  pub event :
      (event : Event) (now : Text)
      → event.thread_id ≡ tid
      → Respects R (note_event channel event now)

-- the same for its checkpoints
pub record IsSaving (R : Change) (tid : Text) : Type 0 where
  pub checkpoint :
      (cid : Text) (parent : Option Text) (state : Fields) (e : Effect) (w : World) (t : Tables)
      → insert_checkpoint_row tid cid parent state w.tables ≡ some t
      → R.rel w (emit e (record w { tables = t }))

module _ {R : Change} (env : Env) where
  pub or_uuid-Respects : (given : Option Text) → Respects R (or_uuid env given)
  unfolding or_uuid
  or_uuid-Respects none = search respects_rules
  or_uuid-Respects (some t) = search respects_rules

module _ {R : Change} {tid : Text} (env : Env) (saving : IsSaving R tid) where
  put_serialised-Respects :
      (state : Fields) (parent : Option Text) (cid : Text) (stored : Option Fields)
      → Respects R (put_serialised env tid state parent cid stored)
  unfolding put_serialised
  put_serialised-Respects state parent cid none = search respects_rules
  put_serialised-Respects state parent cid (some s) =
      search (respects_rules, Respects-execute, saving.checkpoint) depth 8

  pub put-Respects :
      (state : Fields) (parent given : Option Text) → Respects R (put env tid state parent given)
  unfolding put
  put-Respects state parent given =
      search (respects_rules, or_uuid-Respects, put_serialised-Respects)

module _ {R : Change} {tid channel : Text} {env : Env} (stable : IsStable R tid channel env) where
  insert_payload-Respects :
      (rid event_type : Text) (payload : Option Json) (thread_id message : Option Text) (now : Text)
      → Respects R (insert_payload env rid event_type payload thread_id message now)
  unfolding insert_payload
  insert_payload-Respects rid event_type none thread_id message now = search respects_rules
  insert_payload-Respects rid event_type (some p) thread_id message now =
      search (respects_rules, Respects-execute, stable.audit) depth 8

  pub insert_audit-Respects :
      (event_type : Text) (payload : Fields) (thread_id message audit_id : Option Text)
      → Respects R (insert_audit env event_type payload thread_id message audit_id)
  unfolding insert_audit
  insert_audit-Respects event_type payload thread_id message audit_id =
      search (respects_rules, or_uuid-Respects, insert_payload-Respects)

  pub record_invoke_latency-Respects :
      (thread_id event_id : Option Text) (metric_ms : ℕ) (outcome metric_name : Text)
      → Respects R (record_invoke_latency env thread_id event_id metric_ms outcome metric_name)
  unfolding record_invoke_latency
  record_invoke_latency-Respects thread_id event_id metric_ms outcome metric_name =
      search (respects_rules, Respects-execute, stable.metric) depth 8

  pub is_kill_requested-Respects : (t : Text) → Respects R (is_kill_requested env t)
  unfolding is_kill_requested
  is_kill_requested-Respects t = search (respects_rules, Respects-fetch)

  pub get_latest-Respects : (t : Text) → Respects R (get_latest env t)
  unfolding get_latest
  get_latest-Respects t = search (respects_rules, Respects-fetch)

  append_event-Respects :
      (event : Event) (now : Text)
      → event.thread_id ≡ tid
      → Respects R (append_event channel event now)
  unfolding append_event
  append_event-Respects event now mine = record {
    at = λ w. R.rel_trans w _ _ ((stable.event event now mine).at w) (stable.mark _ _);
  }

  take_message-Respects : (event : Event) → Respects R (take_message env event)
  unfolding take_message reading
  take_message-Respects event = record {
    at = λ w. R.rel_trans w _ _ (stable.mark _ w) (R.rel_tick _);
  }

  null_publish-Respects :
      (event : Event) → event.thread_id ≡ tid → Respects R (null_publish env channel event)
  unfolding null_publish
  null_publish-Respects event mine = search (respects_rules, append_event-Respects)

  redis_send-Respects :
      (event : Event) (sent : Option Fields)
      → event.thread_id ≡ tid
      → Respects R (redis_send env channel event sent)
  unfolding redis_send
  redis_send-Respects event none mine = search respects_rules
  redis_send-Respects event (some s) mine =
      search (respects_rules, take_message-Respects, stable.event) depth 7

  publish_to-Respects :
      (kind : BusKind) (event : Event)
      → event.thread_id ≡ tid
      → Respects R (publish_to env kind channel event)
  unfolding publish_to redis_publish
  publish_to-Respects null_bus event mine = null_publish-Respects event mine
  publish_to-Respects redis_bus event mine = redis_send-Respects event _ mine

  pub publish-Respects :
      (event : Event) → event.thread_id ≡ tid → Respects R (publish env channel event)
  unfolding publish
  publish-Respects event mine = search (respects_rules, publish_to-Respects)

  pub set_thread_status-Respects :
      (status : Text) (last_event : Option Text)
      → Respects R (set_thread_status env tid status last_event)
  set_thread_status-Respects status last_event = stable.thread status last_event
