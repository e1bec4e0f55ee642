-- ===== src/Agent/Calm.antt =====
-- Requests in a calm environment: no call fails, ids do not repeat, and the in-memory bus is in
-- use. There the supervisor is total, and what it computes can be said in full.
pub mod Operations
pub mod Threads
pub mod Writes
pub mod Graph
pub mod Requests
pub mod Totality
pub mod Chat
use nobleport.Prelude.{
  ℕ, suc, ◌+◌, ◌≤◌, ◌≡◌, refl, ◌≢◌, Bool, true, false, ◌||◌, ◌&&◌, Option, none, some, List, [],
  ◌∷◌, ◌++◌, arith, if◌then◌else◌,
}
use nobleport.Python.Text.{Text, is_nonempty, text_eq, text_eq_iff}
use nobleport.Schema.{
  AuditRow, MetricRow, CheckpointRow, ThreadRow, Tables, has_audit, has_metric, has_checkpoint,
}
use nobleport.World.{Env, fine, World, BusKind, null_bus, tick}
use nobleport.Db.Connection.{is_connected}

pub record IsCalm (env : Env) : Type 0 where
  pub faultless : (n : ℕ) → env.fault n ≡ fine
  pub named : (n : ℕ) → is_nonempty (env.uuid4 n) ≡ true
  pub distinct : (m n : ℕ) → env.uuid4 m ≡ env.uuid4 n → m ≡ n

-- The database is connected, and no id that is still to be drawn is in use.
pub record IsReady (env : Env) (w : World) : Type 0 where
  pub connected : is_connected w.database ≡ true
  pub in_memory : w.bus_kind ≡ null_bus
  pub fresh_audit : (n : ℕ) → w.calls ≤ n → has_audit (env.uuid4 n) w.tables.audit_log ≡ false
  pub fresh_metric : (n : ℕ) → w.calls ≤ n → has_metric (env.uuid4 n) w.tables.agent_metrics ≡ false
  pub fresh_checkpoint :
      (n : ℕ) (tid : Text)
      → w.calls ≤ n
      → has_checkpoint tid (env.uuid4 n) w.tables.langgraph_checkpoints ≡ false

-- more calls do no harm
pub IsReady-tick : {env : Env} {w : World} → IsReady env w → IsReady env (tick w)
IsReady-tick r = record {
  connected = r.connected;
  in_memory = r.in_memory;
  fresh_audit = λ n h. r.fresh_audit n (omega arith);
  fresh_metric = λ n h. r.fresh_metric n (omega arith);
  fresh_checkpoint = λ n tid h. r.fresh_checkpoint n tid (omega arith);
}

pub has_audit-append :
    (i : Text) (rows : List AuditRow) (r : AuditRow)
    → has_audit i (rows ++ r ∷ []) ≡ (has_audit i rows || text_eq r.id i)
unfolding has_audit
has_audit-append i [] r = ground arith
has_audit-append i (s ∷ rows) r = ground (arith, has_audit-append i rows r)

pub has_metric-append :
    (i : Text) (rows : List MetricRow) (r : MetricRow)
    → has_metric i (rows ++ r ∷ []) ≡ (has_metric i rows || text_eq r.id i)
unfolding has_metric
has_metric-append i [] r = ground arith
has_metric-append i (s ∷ rows) r = ground (arith, has_metric-append i rows r)

pub has_checkpoint-append :
    (t c : Text) (rows : List CheckpointRow) (r : CheckpointRow)
    → has_checkpoint t c (rows ++ r ∷ [])
      ≡ (has_checkpoint t c rows || (text_eq r.thread_id t && text_eq r.checkpoint_id c))
unfolding has_checkpoint
has_checkpoint-append t c [] r = ground arith
has_checkpoint-append t c (s ∷ rows) r = ground (arith, has_checkpoint-append t c rows r)

-- ids drawn at different times differ
pub text_eq-uuid4 :
    {env : Env} → IsCalm env → (m n : ℕ) → suc m ≤ n → text_eq (env.uuid4 m) (env.uuid4 n) ≡ false
text_eq-uuid4 {env} calm m n h =
    ground (arith, text_eq_iff (env.uuid4 m) (env.uuid4 n), calm.distinct m n)
