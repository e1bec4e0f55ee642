-- ===== src/Agent/State.antt =====
-- app/agent/state.py: the status of each thread and its kill flag.
pub mod Laws
pub mod Race
use nobleport.Prelude.{ℕ, Bool, true, false, Option, none, some}
use nobleport.Python.Text.{Text, codes}
use nobleport.Schema.{
  Cell, integer, boolean, to_bool, ThreadRow, find_thread, insert_thread_row, update_thread_row,
}
use nobleport.World.{
  Env, Dialect, sqlite, postgres, Exec, status_set, pure, gets, ◌>>=◌, ◌>>◌, reading,
}
use nobleport.Db.Connection.{execute, fetch}

-- `int(b)`
abbrev pub to_int : Bool → ℕ
to_int true = 1
to_int false = 0

-- a flag as each dialect stores it
unfoldable pub flag_cell : Dialect → Bool → Cell
flag_cell sqlite b = integer (to_int b)
flag_cell postgres b = boolean b

-- the `kill_requested` of a new row: unset unless it is asked for
unfoldable pub new_flag : Dialect → Option Bool → Cell
unfolding flag_cell
new_flag d none = flag_cell d false
new_flag d (some b) = flag_cell d b

-- the `kill_requested` of an UPDATE: a flag that was set stays, unless it is given
unfoldable pub kept_flag : Dialect → Cell → Option Bool → Cell
unfolding flag_cell
kept_flag sqlite old none = integer (to_int (to_bool old))
kept_flag postgres old none = old
kept_flag d old (some b) = flag_cell d b

abbrev pub select_thread : Env → Text → Exec (Option ThreadRow)
select_thread env tid = fetch env (λ t. find_thread tid t.agent_thread_state)

abbrev pub thread_row : Text → Text → Cell → Option Text → Text → ThreadRow
thread_row tid status kr last_event now = record {
  thread_id = tid;
  status = status;
  kill_requested = kr;
  last_event = last_event;
  updated_at = now;
}

-- the second half of `_upsert`, after the SELECT
unfoldable pub write_thread :
    Env → Text → Text → Option Bool → Option Text → Option ThreadRow → Text → Dialect → Exec Unit
unfolding new_flag kept_flag
write_thread env tid status kill_requested last_event none now d =
    execute env
      (insert_thread_row (thread_row tid status (new_flag d kill_requested) last_event now))
      (status_set tid status)
write_thread env tid status kill_requested last_event (some existing) now d =
    execute env
      (update_thread_row
        (thread_row tid status (kept_flag d existing.kill_requested kill_requested) last_event now))
      (status_set tid status)

unfoldable pub upsert : Env → Text → Text → Option Bool → Option Text → Exec Unit
unfolding write_thread
upsert env tid status kill_requested last_event = do
  existing ← select_thread env tid
  now ← reading env.utcnow
  dialect ← gets (λ w. w.database.dialect)
  write_thread env tid status kill_requested last_event existing now dialect

unfoldable pub set_thread_status : Env → Text → Text → Option Text → Exec Unit
unfolding upsert
set_thread_status env tid status last_event = upsert env tid status none last_event

-- what `request_kill` returns
pub record KillResult : Type 0 where
  pub thread_id : Text
  pub status : Text
  pub previous_status : Text

abbrev pub previous : Option ThreadRow → Text
previous none = codes "unknown"
previous (some r) = r.status

unfoldable pub request_kill : Env → Text → Exec KillResult
unfolding upsert
request_kill env tid = do
  existing ← select_thread env tid
  upsert env tid (codes "kill_requested") (some true) (some (codes "kill_requested"))
  pure (record {
    thread_id = tid;
    status = codes "kill_requested";
    previous_status = previous existing;
  })

abbrev pub flag_of : Option ThreadRow → Bool
flag_of none = false
flag_of (some r) = to_bool r.kill_requested

unfoldable pub is_kill_requested : Env → Text → Exec Bool
is_kill_requested env tid = do row ← select_thread env tid; pure (flag_of row)

-- the row that `get_thread_status` returns, its flag made a `bool`
pub record ThreadStatus : Type 0 where
  pub thread_id : Text
  pub status : Text
  pub kill_requested : Bool
  pub last_event : Option Text
  pub updated_at : Text

abbrev status_of : Option ThreadRow → Option ThreadStatus
status_of none = none
status_of (some r) = some (record {
  thread_id = r.thread_id;
  status = r.status;
  kill_requested = to_bool r.kill_requested;
  last_event = r.last_event;
  updated_at = r.updated_at;
})

unfoldable pub get_thread_status : Env → Text → Exec (Option ThreadStatus)
get_thread_status env tid = do row ← select_thread env tid; pure (status_of row)
