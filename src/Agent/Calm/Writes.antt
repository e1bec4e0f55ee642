-- ===== src/Agent/Calm/Writes.antt =====
-- Checkpoints, metrics and the audit in a calm environment.
use nobleport.Prelude.{
  ℕ, suc, ◌+◌, ◌≤◌, ◌≡◌, refl, ap, false, Option, none, some, [], ◌∷◌, ◌++◌, arith,
}
use nobleport.Python.Text.{Text, text_eq_refl}
use nobleport.Python.Json.{Json, Fields, obj, dumps, dumps_fields}
use nobleport.Schema.{
  AuditRow, MetricRow, CheckpointRow, Tables, has_audit, insert_audit_row, insert_metric_row,
  insert_checkpoint_row, new_checkpoint, latest_checkpoint,
}
use nobleport.Schema.Checkpoints.{latest_checkpoint-append}
use nobleport.World.{Env, World, audited, measured, checkpointed, ◌>>=◌, tick, emit, reading}
use nobleport.World.Runs.{Runs, Runs-pure, Runs-bind}
use nobleport.Db.Connection.Outcomes.{written, execute_calm}
use nobleport.Db.Audit.{insert_audit, insert_payload}
use nobleport.Db.Metrics.{record_invoke_latency}
use nobleport.Agent.Checkpoint.{CheckpointTuple, put, put_serialised, get_latest, to_tuple?}
use nobleport.Agent.Calm.{
  IsCalm, IsReady, has_audit-append, has_metric-append, has_checkpoint-append, text_eq-uuid4,
}
use nobleport.Agent.Calm.Operations.{fetch-Runs}

-- `w'` is calm, no thread state has changed, and the latest checkpoint of `tid` is the one put
pub record Saved (env : Env) (tid : Text) (stored : Fields) (cp : CheckpointTuple) (w w' : World)
    : Type 0 where
  pub ready : IsReady env w'
  pub threads : w'.tables.agent_thread_state ≡ w.tables.agent_thread_state
  pub row : CheckpointRow
  pub latest : latest_checkpoint tid w'.tables.langgraph_checkpoints ≡ some row
  pub stored_state : row.state ≡ stored
  pub stored_id : row.checkpoint_id ≡ cp.checkpoint_id

module _ (env : Env) (calm : IsCalm env) (w : World) (ready : IsReady env w) where
  checkpoint_table : (tid : Text) (parent : Option Text) (stored : Fields) → Tables
  checkpoint_table tid parent stored = record w.tables {
    langgraph_checkpoints =
        w.tables.langgraph_checkpoints
        ++ new_checkpoint tid (env.uuid4 w.calls) parent stored w.tables.next_seq ∷ [];
    next_seq = w.tables.next_seq + 1;
  }

  pub put-Runs :
      (tid : Text) (state stored : Fields) (parent : Option Text)
      → dumps_fields state ≡ some stored
      → Runs (put env tid state parent none) (λ cp w'. Saved env tid stored cp w w') w
  unfolding put put_serialised checkpoint_table insert_checkpoint_row reading emit ◌>>=◌
  put-Runs tid state stored parent h =
      let cid = env.uuid4 w.calls in
      let effect = checkpointed cid in
      let new = new_checkpoint tid cid parent stored w.tables.next_seq in
      record {
        value = record { thread_id = tid; checkpoint_id = cid; parent_id = parent; state = state };
        world = written effect (tick w) (checkpoint_table tid parent stored);
        runs = rw (
          h,
          execute_calm env (insert_checkpoint_row tid cid parent stored) effect (tick w)
              (checkpoint_table tid parent stored) (calm.faultless _) ready.connected
              (rw (ready.fresh_checkpoint w.calls tid (omega arith), insert_checkpoint_row)),
        );
        post = record {
          ready = record {
            connected = ready.connected;
            in_memory = ready.in_memory;
            fresh_audit = λ n k. ready.fresh_audit n (omega arith);
            fresh_metric = λ n k. ready.fresh_metric n (omega arith);
            fresh_checkpoint = λ n t k. ground (
              arith,
              has_checkpoint-append t (env.uuid4 n) w.tables.langgraph_checkpoints new,
              ready.fresh_checkpoint n t,
              text_eq-uuid4 calm w.calls n,
            );
          };
          threads = refl;
          row = new;
          latest = ground (
            arith,
            latest_checkpoint-append tid w.tables.langgraph_checkpoints new,
            text_eq_refl tid,
          );
          stored_state = refl;
          stored_id = refl;
        };
      }

  -- the row of a measurement
  abbrev pub measurement : Option Text → Option Text → ℕ → Text → Text → MetricRow
  measurement thread_id event_id ms outcome name = record {
    id = env.uuid4 w.calls;
    thread_id = thread_id;
    event_id = event_id;
    metric_name = name;
    metric_ms = ms;
    outcome = outcome;
  }

  pub record_invoke_latency-Runs :
      (thread_id event_id : Option Text) (ms : ℕ) (outcome name : Text)
      → Runs
          (record_invoke_latency env thread_id event_id ms outcome name)
          (λ _ w'.
            IsReady env w'
            × (w'.tables ≡ record w.tables {
              agent_metrics =
                  w.tables.agent_metrics ++ measurement thread_id event_id ms outcome name ∷ [];
            }))
          w
  unfolding record_invoke_latency insert_metric_row reading emit ◌>>=◌
  record_invoke_latency-Runs thread_id event_id ms outcome name =
      let mid = env.uuid4 w.calls in
      let new = measurement thread_id event_id ms outcome name in
      let t : Tables = record w.tables { agent_metrics = w.tables.agent_metrics ++ new ∷ [] } in
      record {
        value = mid;
        world = written (measured mid outcome) (tick w) t;
        runs = rw (
            execute_calm env (insert_metric_row new) (measured mid outcome) (tick w) t
              (calm.faultless _) ready.connected
              (rw (ready.fresh_metric w.calls (omega arith), insert_metric_row)));
        post = (
          record {
            connected = ready.connected;
            in_memory = ready.in_memory;
            fresh_audit = λ n k. ready.fresh_audit n (omega arith);
            fresh_metric = λ n k. ground (
              arith,
              has_metric-append (env.uuid4 n) w.tables.agent_metrics new,
              ready.fresh_metric n,
              text_eq-uuid4 calm w.calls n,
            );
            fresh_checkpoint = λ n t k. ready.fresh_checkpoint n t (omega arith);
          },
          refl,
        );
      }

  pub get_latest-Runs :
      (tid : Text)
      → Runs
          (get_latest env tid)
          (λ a w'.
            (a ≡ to_tuple? (latest_checkpoint tid w.tables.langgraph_checkpoints)) × (w' ≡ tick w))
          w
  unfolding get_latest
  get_latest-Runs tid =
      Runs-bind _ _ _ _ w
        (fetch-Runs env calm w ready (λ t. latest_checkpoint tid t.langgraph_checkpoints))
        (λ row w1 p. Runs-pure _ _ w1 (ap to_tuple? p.0, p.1))

  -- an audit under the id that was drawn as number `k`
  pub insert_audit-Runs :
      (k : ℕ) (event_type : Text) (payload : Fields) (stored : Json) (tid message : Option Text)
      → suc k ≤ w.calls
      → has_audit (env.uuid4 k) w.tables.audit_log ≡ false
      → dumps (obj payload) ≡ some stored
      → Runs
          (insert_audit env event_type payload tid message (some (env.uuid4 k)))
          (λ row w'.
            IsReady env w'
            × (row.id ≡ env.uuid4 k)
            × (w'.tables ≡ record w.tables { audit_log = w.tables.audit_log ++ row ∷ [] }))
          w
  unfolding insert_audit insert_payload insert_audit_row reading emit ◌>>=◌
  insert_audit-Runs k event_type payload stored tid message drawn fresh h =
      let rid = env.uuid4 k in
      let row : AuditRow = record {
        id = rid;
        event_type = event_type;
        payload = stored;
        thread_id = tid;
        message = message;
        created_at = env.utcnow w.calls;
      } in
      let t : Tables = record w.tables { audit_log = w.tables.audit_log ++ row ∷ [] } in
      record {
        value = row;
        world = written (audited rid) (tick w) t;
        runs = rw (
          calm.named k,
          h,
          execute_calm env (insert_audit_row row) (audited rid) (tick w) t (calm.faultless _)
              ready.connected (rw (fresh, insert_audit_row)),
        );
        post = (
          record {
            connected = ready.connected;
            in_memory = ready.in_memory;
            fresh_audit = λ n j. ground (
              arith,
              has_audit-append (env.uuid4 n) w.tables.audit_log row,
              ready.fresh_audit n,
              text_eq-uuid4 calm k n,
            );
            fresh_metric = λ n j. ready.fresh_metric n (omega arith);
            fresh_checkpoint = λ n c j. ready.fresh_checkpoint n c (omega arith);
          },
          refl,
          refl,
        );
      }
