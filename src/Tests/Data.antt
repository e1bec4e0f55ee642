-- ===== src/Tests/Data.antt =====
-- The data of the tests: an environment without faults, a database with one known thread, and a
-- supervisor with the default step function.
use nobleport.Prelude.{ℕ, ◌≡◌, refl, ap, true, false, none, [], ◌∷◌, arith}
use nobleport.Python.Text.{Text, codes, text_eq}
use nobleport.Python.Int.{pos}
use nobleport.Python.Json.{Fields, end, field, int, arr, nil, dumps_fields, get}
use nobleport.Schema.{
  integer, CheckpointRow, ThreadRow, Tables, has_audit, has_metric, has_checkpoint, find_thread,
  latest_checkpoint,
}
use nobleport.World.{Env, fine, before, error, sqlite, null_bus, Database, World}
use nobleport.Agent.Step.{Builtins}
use nobleport.Agent.Runtime.{Supervisor}
use nobleport.Agent.Isolation.{kill_flag}
use nobleport.Agent.Calm.{IsCalm, IsReady}
use nobleport.Agent.Calm.Chat.{default_supervisor, IsResumable, latest_state}

-- ids of one character, each once
abbrev pub calm_env : Env
calm_env = record {
  fault = λ n. fine;
  uuid4 = λ n. n ∷ [];
  utcnow = λ n. n ∷ [];
  perf_counter = λ n. n;
  receivers = λ n. 0;
  str = λ e. codes "error";
}

-- the database is down
abbrev pub broken_env : Env
broken_env = record calm_env { fault = λ n. before (error n) }

abbrev pub tid1 : Text
tid1 = codes "t1"

abbrev pub saved_state : Fields
saved_state = field (codes "messages") (arr nil) (field (codes "step") (int (pos 4)) end)

abbrev pub known_thread : ThreadRow
known_thread = record {
  thread_id = tid1;
  status = codes "completed";
  kill_requested = integer 0;
  last_event = none;
  updated_at = codes "now";
}

abbrev pub killed_thread : ThreadRow
killed_thread = record known_thread { kill_requested = integer 1 }

abbrev pub first_checkpoint : CheckpointRow
first_checkpoint = record {
  seq = 1;
  thread_id = tid1;
  checkpoint_id = codes "cp";
  parent_id = none;
  state = saved_state;
}

abbrev pub tables1 : Tables
tables1 = record {
  audit_log = [];
  agent_metrics = [];
  langgraph_checkpoints = first_checkpoint ∷ [];
  next_seq = 2;
  agent_thread_state = known_thread ∷ [];
}

abbrev pub sqlite_database : Database
sqlite_database = record { dialect = sqlite; sqlite_conn = true; pg_pool = false }

abbrev pub world1 : World
world1 = record {
  database = sqlite_database;
  catalog = [];
  tables = tables1;
  bus_kind = null_bus;
  events = [];
  calls = 0;
  trace = [];
}

-- the same, with the thread marked for a kill
abbrev pub killed_world : World
killed_world = record world1 { tables = record tables1 { agent_thread_state = killed_thread ∷ [] } }

abbrev pub builtins : Builtins
builtins = record {
  int_of_text = λ s. none;
  int_of_object = λ s. none;
  list_of_object = λ s. none;
  show = λ v. codes "value";
}

abbrev pub channel1 : Text
channel1 = codes "events"

abbrev pub supervisor1 : Supervisor
supervisor1 = default_supervisor builtins 3 channel1

head : Text → ℕ
head [] = 0
head (c ∷ s) = c

pub calm_env-IsCalm : IsCalm calm_env
unfolding head
calm_env-IsCalm = record { faultless = λ n. refl; named = λ n. refl; distinct = λ m n h. ap head h }

fresh_id : (n : ℕ) (tid : Text) → has_checkpoint tid (n ∷ []) (first_checkpoint ∷ []) ≡ false
unfolding has_checkpoint text_eq codes
fresh_id n tid = ground arith

pub world1-IsReady : IsReady calm_env world1
unfolding has_audit has_metric
world1-IsReady = record {
  connected = refl;
  in_memory = refl;
  fresh_audit = λ n h. refl;
  fresh_metric = λ n h. refl;
  fresh_checkpoint = λ n tid h. fresh_id n tid;
}

pub world1-unmarked : kill_flag tid1 world1.tables ≡ false
unfolding find_thread text_eq codes
world1-unmarked = refl

pub killed_world-marked : kill_flag tid1 killed_world.tables ≡ true
unfolding find_thread text_eq codes
killed_world-marked = refl

pub world1-IsResumable : IsResumable (latest_state tid1 world1)
unfolding latest_checkpoint get text_eq codes dumps_fields
world1-IsResumable = record {
  step = pos 4;
  msgs = nil;
  stored = saved_state;
  has_step = refl;
  has_messages = refl;
  serialises = refl;
}
