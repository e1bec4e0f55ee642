-- ===== src/Schema/Ddl.antt =====
-- app/db/schema.py: the statements that create the tables and indexes, in both dialects.
use nobleport.Prelude.{List, [], ◌∷◌}
use nobleport.Python.Text.{Text, codes}

-- a column: its name and type; an `auto_key` is numbered by the database
pub data Column : Type 0 where
  key auto_key required optional : Text → Text → Column
  with_default : Text → Text → Text → Column

-- CREATE TABLE IF NOT EXISTS, with the columns of its UNIQUE constraint, and CREATE INDEX IF NOT
-- EXISTS, on a column of a table
pub data Ddl : Type 0 where
  create_table : Text → List Column → List Text → Ddl
  create_index : Text → Text → Text → Ddl

abbrev pub sqlite_schema : List Ddl
sqlite_schema =
    create_table (codes "audit_log")
      (key (codes "id") (codes "TEXT")
        ∷ required (codes "event_type") (codes "TEXT")
        ∷ required (codes "payload") (codes "TEXT")
        ∷ optional (codes "thread_id") (codes "TEXT")
        ∷ optional (codes "message") (codes "TEXT")
        ∷ with_default (codes "created_at") (codes "TEXT")
            (codes "(strftime('%Y-%m-%dT%H:%M:%fZ', 'now'))")
        ∷ [])
      []
    ∷ create_index (codes "idx_audit_log_thread") (codes "audit_log") (codes "thread_id")
    ∷ create_index (codes "idx_audit_log_created") (codes "audit_log") (codes "created_at")
    ∷ create_table (codes "agent_metrics")
        (key (codes "id") (codes "TEXT")
          ∷ optional (codes "thread_id") (codes "TEXT")
          ∷ optional (codes "event_id") (codes "TEXT")
          ∷ required (codes "metric_name") (codes "TEXT")
          ∷ required (codes "metric_ms") (codes "REAL")
          ∷ optional (codes "outcome") (codes "TEXT")
          ∷ with_default (codes "created_at") (codes "TEXT")
              (codes "(strftime('%Y-%m-%dT%H:%M:%fZ', 'now'))")
          ∷ [])
        []
    ∷ create_index (codes "idx_agent_metrics_thread") (codes "agent_metrics") (codes "thread_id")
    ∷ create_index (codes "idx_agent_metrics_name") (codes "agent_metrics") (codes "metric_name")
    ∷ create_table (codes "langgraph_checkpoints")
        (auto_key (codes "seq") (codes "INTEGER")
          ∷ required (codes "thread_id") (codes "TEXT")
          ∷ required (codes "checkpoint_id") (codes "TEXT")
          ∷ optional (codes "parent_id") (codes "TEXT")
          ∷ required (codes "state") (codes "TEXT")
          ∷ with_default (codes "created_at") (codes "TEXT")
              (codes "(strftime('%Y-%m-%dT%H:%M:%fZ', 'now'))")
          ∷ [])
        (codes "thread_id" ∷ codes "checkpoint_id" ∷ [])
    ∷ create_index (codes "idx_lgc_thread") (codes "langgraph_checkpoints") (codes "thread_id")
    ∷ create_table (codes "agent_thread_state")
        (key (codes "thread_id") (codes "TEXT")
          ∷ required (codes "status") (codes "TEXT")
          ∷ with_default (codes "kill_requested") (codes "INTEGER") (codes "0")
          ∷ optional (codes "last_event") (codes "TEXT")
          ∷ with_default (codes "updated_at") (codes "TEXT")
              (codes "(strftime('%Y-%m-%dT%H:%M:%fZ', 'now'))")
          ∷ [])
        []
    ∷ []

abbrev pub postgres_schema : List Ddl
postgres_schema =
    create_table (codes "audit_log")
      (key (codes "id") (codes "TEXT")
        ∷ required (codes "event_type") (codes "TEXT")
        ∷ required (codes "payload") (codes "JSONB")
        ∷ optional (codes "thread_id") (codes "TEXT")
        ∷ optional (codes "message") (codes "TEXT")
        ∷ with_default (codes "created_at") (codes "TIMESTAMPTZ") (codes "NOW()")
        ∷ [])
      []
    ∷ create_index (codes "idx_audit_log_thread") (codes "audit_log") (codes "thread_id")
    ∷ create_index (codes "idx_audit_log_created") (codes "audit_log") (codes "created_at")
    ∷ create_table (codes "agent_metrics")
        (key (codes "id") (codes "TEXT")
          ∷ optional (codes "thread_id") (codes "TEXT")
          ∷ optional (codes "event_id") (codes "TEXT")
          ∷ required (codes "metric_name") (codes "TEXT")
          ∷ required (codes "metric_ms") (codes "DOUBLE PRECISION")
          ∷ optional (codes "outcome") (codes "TEXT")
          ∷ with_default (codes "created_at") (codes "TIMESTAMPTZ") (codes "NOW()")
          ∷ [])
        []
    ∷ create_index (codes "idx_agent_metrics_thread") (codes "agent_metrics") (codes "thread_id")
    ∷ create_index (codes "idx_agent_metrics_name") (codes "agent_metrics") (codes "metric_name")
    ∷ create_table (codes "langgraph_checkpoints")
        (auto_key (codes "seq") (codes "BIGSERIAL")
          ∷ required (codes "thread_id") (codes "TEXT")
          ∷ required (codes "checkpoint_id") (codes "TEXT")
          ∷ optional (codes "parent_id") (codes "TEXT")
          ∷ required (codes "state") (codes "JSONB")
          ∷ with_default (codes "created_at") (codes "TIMESTAMPTZ") (codes "NOW()")
          ∷ [])
        (codes "thread_id" ∷ codes "checkpoint_id" ∷ [])
    ∷ create_index (codes "idx_lgc_thread") (codes "langgraph_checkpoints") (codes "thread_id")
    ∷ create_table (codes "agent_thread_state")
        (key (codes "thread_id") (codes "TEXT")
          ∷ required (codes "status") (codes "TEXT")
          ∷ with_default (codes "kill_requested") (codes "BOOLEAN") (codes "FALSE")
          ∷ optional (codes "last_event") (codes "TEXT")
          ∷ with_default (codes "updated_at") (codes "TIMESTAMPTZ") (codes "NOW()")
          ∷ [])
        []
    ∷ []
