-- ===== src/Agent/Isolation.antt =====
-- What a request may change: its own thread, and nothing of the others. Every operation of the
-- supervisor keeps to this.
pub mod Statements
pub mod Operations
pub mod Requests
use nobleport.Prelude.{
  ◌≡◌, refl, sym, ◌∙◌, ap, subst, ◌≢◌, Bool, true, Option, none, some, List, [], ◌∷◌, ◌++◌,
  append-nil, append_assoc, arith, if◌then◌else◌,
}
use nobleport.Python.Text.{Text, codes, text_eq, text_eq_iff, text_eq_refl}
use nobleport.Schema.{
  Cell, to_bool, AuditRow, MetricRow, CheckpointRow, ThreadRow, Tables, thread_checkpoints,
  find_thread, insert_audit_row, insert_metric_row, insert_checkpoint_row, insert_thread_row,
  update_thread_row,
}
use nobleport.Schema.Threads.{find_thread-append, find_thread-set_thread, thread_id-find_thread}
use nobleport.Schema.Checkpoints.{thread_checkpoints-append}
use nobleport.World.{Env, Database, World, Effect, emit, tick}
use nobleport.World.Respects.{Change, Respects}
use nobleport.Agent.State.{flag_of}

abbrev pub kill_flag : Text → Tables → Bool
kill_flag tid t = flag_of (find_thread tid t.agent_thread_state)

-- `w` comes after `u` in a run for the thread `tid`: the audit log and the trace have only grown,
-- the rows of other threads are as they were, and no kill flag has been cleared.
pub record Within (tid : Text) (u w : World) : Type 0 where
  pub audit : (l : List AuditRow) × (w.tables.audit_log ≡ u.tables.audit_log ++ l)
  pub trace : (l : List Effect) × (w.trace ≡ u.trace ++ l)
  pub threads :
      (t : Text)
      → t ≢ tid
      → find_thread t w.tables.agent_thread_state ≡ find_thread t u.tables.agent_thread_state
  pub flags : (t : Text) → kill_flag t u.tables ≡ true → kill_flag t w.tables ≡ true
  pub checkpoints :
      (t : Text)
      → t ≢ tid
      → thread_checkpoints t w.tables.langgraph_checkpoints
        ≡ thread_checkpoints t u.tables.langgraph_checkpoints
  pub database : w.database ≡ u.database

module _ (tid : Text) where
  pub Within-refl : (w : World) → Within tid w w
  Within-refl w = record {
    audit = ([], sym (append-nil _));
    trace = ([], sym (append-nil _));
    threads = λ t ne. refl;
    flags = λ t h. h;
    checkpoints = λ t ne. refl;
    database = refl;
  }

  pub Within-trans : (u v w : World) → Within tid u v → Within tid v w → Within tid u w
  Within-trans u v w a b = record {
    audit = (a.audit.0 ++ b.audit.0, rw (b.audit.1, a.audit.1, append_assoc));
    trace = (a.trace.0 ++ b.trace.0, rw (b.trace.1, a.trace.1, append_assoc));
    threads = λ t ne. b.threads t ne ∙ a.threads t ne;
    flags = λ t h. b.flags t (a.flags t h);
    checkpoints = λ t ne. b.checkpoints t ne ∙ a.checkpoints t ne;
    database = b.database ∙ a.database;
  }

  pub Within-tick : (w : World) → Within tid w (tick w)
  Within-tick w = record {
    audit = ([], sym (append-nil _));
    trace = ([], sym (append-nil _));
    threads = λ t ne. refl;
    flags = λ t h. h;
    checkpoints = λ t ne. refl;
    database = refl;
  }

  abbrev pub within : Change
  within = record {
    rel = Within tid;
    rel_refl = Within-refl;
    rel_trans = Within-trans;
    rel_tick = Within-tick;
  }
