-- ===== src/Schema.antt =====
-- The four tables of app/db/schema.py, their rows and the SQL statements that the program runs on
-- them. A statement that breaks a PRIMARY KEY or UNIQUE constraint gives `none`.
pub mod Threads
pub mod Checkpoints
pub mod Ddl
use nobleport.Prelude.{
  ℕ, ◌+◌, Bool, false, ◌||◌, ◌&&◌, Option, none, some, List, [], ◌∷◌, ◌++◌, map, ◌==◌, not,
  if◌then◌else◌,
}
use nobleport.Python.Text.{Text, text_eq}
use nobleport.Python.Json.{Json, Fields}

-- a value of the column `kill_requested`: INTEGER in SQLite, BOOLEAN in Postgres
pub data Cell : Type 0 where
  integer : ℕ → Cell
  boolean : Bool → Cell

-- `bool(cell)`
abbrev pub to_bool : Cell → Bool
to_bool (integer n) = not (n == 0)
to_bool (boolean b) = b

-- `payload` is the value that the stored JSON text stands for
pub record AuditRow : Type 0 where
  pub id : Text
  pub event_type : Text
  pub payload : Json
  pub thread_id : Option Text
  pub message : Option Text
  pub created_at : Text

-- `metric_ms` is in nanoseconds
pub record MetricRow : Type 0 where
  pub id : Text
  pub thread_id : Option Text
  pub event_id : Option Text
  pub metric_name : Text
  pub metric_ms : ℕ
  pub outcome : Text

-- `state` is the dict that the stored JSON text stands for
pub record CheckpointRow : Type 0 where
  pub seq : ℕ
  pub thread_id : Text
  pub checkpoint_id : Text
  pub parent_id : Option Text
  pub state : Fields

pub record ThreadRow : Type 0 where
  pub thread_id : Text
  pub status : Text
  pub kill_requested : Cell
  pub last_event : Option Text
  pub updated_at : Text

-- `next_seq` is the counter behind AUTOINCREMENT and BIGSERIAL.
pub record Tables : Type 0 where
  pub audit_log : List AuditRow
  pub agent_metrics : List MetricRow
  pub langgraph_checkpoints : List CheckpointRow
  pub next_seq : ℕ
  pub agent_thread_state : List ThreadRow

unfoldable pub has_audit : Text → List AuditRow → Bool
has_audit i [] = false
has_audit i (r ∷ rows) = text_eq r.id i || has_audit i rows

-- INSERT INTO audit_log
unfoldable pub insert_audit_row : AuditRow → Tables → Option Tables
insert_audit_row r t =
    if has_audit r.id t.audit_log
    then none
    else some (record t { audit_log = t.audit_log ++ r ∷ [] })

unfoldable pub has_metric : Text → List MetricRow → Bool
has_metric i [] = false
has_metric i (r ∷ rows) = text_eq r.id i || has_metric i rows

-- INSERT INTO agent_metrics
unfoldable pub insert_metric_row : MetricRow → Tables → Option Tables
insert_metric_row r t =
    if has_metric r.id t.agent_metrics
    then none
    else some (record t { agent_metrics = t.agent_metrics ++ r ∷ [] })

unfoldable pub has_checkpoint : Text → Text → List CheckpointRow → Bool
has_checkpoint t c [] = false
has_checkpoint t c (r ∷ rows) =
    (text_eq r.thread_id t && text_eq r.checkpoint_id c) || has_checkpoint t c rows

abbrev pub new_checkpoint : Text → Text → Option Text → Fields → ℕ → CheckpointRow
new_checkpoint tid cid parent state seq = record {
  seq = seq;
  thread_id = tid;
  checkpoint_id = cid;
  parent_id = parent;
  state = state;
}

-- INSERT INTO langgraph_checkpoints; the database gives the row its `seq`
unfoldable pub insert_checkpoint_row : Text → Text → Option Text → Fields → Tables → Option Tables
insert_checkpoint_row tid cid parent state t =
    if has_checkpoint tid cid t.langgraph_checkpoints
    then none
    else some (record t {
      langgraph_checkpoints =
          t.langgraph_checkpoints ++ new_checkpoint tid cid parent state t.next_seq ∷ [];
      next_seq = t.next_seq + 1;
    })

-- the rows WHERE thread_id = ? ORDER BY seq ASC; rows stand in the order of their `seq`
unfoldable pub thread_checkpoints : Text → List CheckpointRow → List CheckpointRow
thread_checkpoints tid [] = []
thread_checkpoints tid (r ∷ rows) =
    let rest = thread_checkpoints tid rows in if text_eq r.thread_id tid then r ∷ rest else rest

-- the row WHERE thread_id = ? ORDER BY seq DESC LIMIT 1
unfoldable pub latest_checkpoint : Text → List CheckpointRow → Option CheckpointRow
latest_checkpoint tid [] = none
latest_checkpoint tid (r ∷ rows) = elim (latest_checkpoint tid rows) [
  | some newer ↦ some newer
  | none ↦ if text_eq r.thread_id tid then some r else none
]

-- SELECT … FROM agent_thread_state WHERE thread_id = ?, first row
unfoldable pub find_thread : Text → List ThreadRow → Option ThreadRow
find_thread tid [] = none
find_thread tid (r ∷ rows) = if text_eq r.thread_id tid then some r else find_thread tid rows

-- INSERT INTO agent_thread_state
unfoldable pub insert_thread_row : ThreadRow → Tables → Option Tables
insert_thread_row r t = elim (find_thread r.thread_id t.agent_thread_state) [
  | some _ ↦ none
  | none ↦ some (record t { agent_thread_state = t.agent_thread_state ++ r ∷ [] })
]

-- UPDATE agent_thread_state SET … WHERE thread_id = ?
unfoldable pub set_thread : ThreadRow → List ThreadRow → List ThreadRow
set_thread r = map (λ s. if text_eq s.thread_id r.thread_id then r else s)

unfoldable pub update_thread_row : ThreadRow → Tables → Option Tables
unfolding set_thread
update_thread_row r t = some (record t { agent_thread_state = set_thread r t.agent_thread_state })
