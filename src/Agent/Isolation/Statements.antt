-- ===== src/Agent/Isolation/Statements.antt =====
-- The statements that a request runs stay within its thread.
use nobleport.Prelude.{sym, ◌≡◌, refl, true, Option, some, [], ◌∷◌, append-nil, arith}
use nobleport.Python.Text.{Text, text_eq_iff}
use nobleport.Python.Json.{Fields}
use nobleport.Schema.{
  to_bool, AuditRow, MetricRow, ThreadRow, Tables, thread_checkpoints, insert_audit_row,
  insert_metric_row, insert_checkpoint_row, new_checkpoint, insert_thread_row, update_thread_row,
}
use nobleport.Schema.Threads.{find_thread-append, find_thread-set_thread}
use nobleport.Schema.Checkpoints.{thread_checkpoints-append}
use nobleport.World.{World, Effect, emit}
use nobleport.Agent.Isolation.{Within, kill_flag}

-- a change of tables that makes one effect
abbrev written : World → Effect → Tables → World
written w effect t = emit effect (record w { tables = t })

module _ (tid : Text) (w : World) (effect : Effect) where
  pub insert_audit_row-Within :
      (r : AuditRow) (t : Tables)
      → insert_audit_row r w.tables ≡ some t
      → Within tid w (written w effect t)
  unfolding insert_audit_row emit
  insert_audit_row-Within r t h = record {
    audit = (r ∷ [], ground arith);
    trace = (effect ∷ [], refl);
    threads = λ u ne. ground arith;
    flags = λ u f. ground arith;
    checkpoints = λ u ne. ground arith;
    database = refl;
  }

  pub insert_metric_row-Within :
      (r : MetricRow) (t : Tables)
      → insert_metric_row r w.tables ≡ some t
      → Within tid w (written w effect t)
  unfolding insert_metric_row emit
  insert_metric_row-Within r t h = record {
    audit = ([], rw append-nil (ground arith));
    trace = (effect ∷ [], refl);
    threads = λ u ne. ground arith;
    flags = λ u f. ground arith;
    checkpoints = λ u ne. ground arith;
    database = refl;
  }

  pub insert_checkpoint_row-Within :
      (cid : Text) (parent : Option Text) (state : Fields) (t : Tables)
      → insert_checkpoint_row tid cid parent state w.tables ≡ some t
      → Within tid w (written w effect t)
  unfolding insert_checkpoint_row emit
  insert_checkpoint_row-Within cid parent state t h = record {
    audit = ([], rw append-nil (ground arith));
    trace = (effect ∷ [], refl);
    threads = λ u ne. ground arith;
    flags = λ u f. ground arith;
    checkpoints = λ u ne. ground (
      arith,
      text_eq_iff tid u,
      thread_checkpoints-append u w.tables.langgraph_checkpoints
          (new_checkpoint tid cid parent state w.tables.next_seq),
      append-nil (thread_checkpoints u w.tables.langgraph_checkpoints),
    );
    database = refl;
  }

  pub insert_thread_row-Within :
      (r : ThreadRow) (t : Tables)
      → r.thread_id ≡ tid
      → insert_thread_row r w.tables ≡ some t
      → Within tid w (written w effect t)
  unfolding insert_thread_row emit
  insert_thread_row-Within r t e h = record {
    audit = ([], rw append-nil (ground arith));
    trace = (effect ∷ [], refl);
    threads = λ u ne.
        ground
          (arith, text_eq_iff r.thread_id u, find_thread-append u w.tables.agent_thread_state r);
    flags = λ u f. ground (arith, find_thread-append u w.tables.agent_thread_state r);
    checkpoints = λ u ne. ground arith;
    database = refl;
  }

  -- an UPDATE of the thread's row that keeps a flag that is set
  pub update_thread_row-Within :
      (r : ThreadRow) (t : Tables)
      → r.thread_id ≡ tid
      → (kill_flag tid w.tables ≡ true → to_bool r.kill_requested ≡ true)
      → update_thread_row r w.tables ≡ some t
      → Within tid w (written w effect t)
  unfolding update_thread_row emit
  update_thread_row-Within r t e keep h = record {
    audit = ([], rw append-nil (ground arith));
    trace = (effect ∷ [], refl);
    threads = λ u ne.
        ground (
          arith,
          text_eq_iff r.thread_id u,
          find_thread-set_thread u r w.tables.agent_thread_state,
        );
    flags = λ u f.
        ground (
          arith,
          text_eq_iff r.thread_id u,
          find_thread-set_thread u r w.tables.agent_thread_state,
        );
    checkpoints = λ u ne. ground arith;
    database = refl;
  }

pub emit-Within : (tid : Text) (effect : Effect) (w : World) → Within tid w (emit effect w)
unfolding emit
emit-Within tid effect w = record {
  audit = ([], sym (append-nil _));
  trace = (effect ∷ [], refl);
  threads = λ u ne. refl;
  flags = λ u f. f;
  checkpoints = λ u ne. refl;
  database = refl;
}
