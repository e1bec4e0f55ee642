-- ===== src/Agent/State/Race.antt =====
-- `_upsert` of app/agent/state.py selects the row of a thread and writes it in two awaits, between
-- which other tasks run.
use nobleport.Prelude.{◌≡◌, ◌∙◌, ap, true, false, Option, none, some}
use nobleport.Python.Text.{Text}
use nobleport.Schema.{ThreadRow, to_bool, find_thread}
use nobleport.Schema.Threads.{find_thread-update_thread_row}
use nobleport.World.{Env, Dialect, World, ok, emit}
use nobleport.Db.Connection.Outcomes.{execute-ok}
use nobleport.Agent.State.{flag_of, kept_flag, thread_row, write_thread, request_kill, KillResult}
use nobleport.Agent.State.Laws.{row_of, request_kill_lem, kept_flag-expected}

module _ (env : Env) (tid status : Text) (last_event : Option Text) (now : Text) (d : Dialect)
    (w : World) where
  -- a write of the row `selected`, which may not be the row that is there
  stale_write-flag :
      (selected there : ThreadRow)
      → find_thread tid w.tables.agent_thread_state ≡ some there
      → (write_thread env tid status none last_event (some selected) now d w).0 ≡ ok tt
      → flag_of (row_of tid (write_thread env tid status none last_event (some selected) now d w).1)
        ≡ to_bool selected.kill_requested
  unfolding write_thread emit
  stale_write-flag selected there e h =
      let (t, st, run) = execute-ok env _ _ w h in
      let row = thread_row tid status (kept_flag d selected.kill_requested none) last_event now in
      rw run (
        ap flag_of (find_thread-update_thread_row row there w.tables t e st)
        ∙ kept_flag-expected d selected.kill_requested none)

-- A status write that selected its row before a kill, and writes it after the kill was
-- acknowledged, loses the kill: the thread had a row that was not marked, the kill request
-- returned, the write returns, and the thread is not marked any more.
pub stale_write-loses_kill :
    (env : Env) (tid status : Text) (last_event : Option Text) (now : Text) (d : Dialect)
    (w : World) (selected : ThreadRow) (r : KillResult)
    → row_of tid w ≡ some selected
    → to_bool selected.kill_requested ≡ false
    → (request_kill env tid w).0 ≡ ok r
    → (write_thread env tid status none last_event
        (some selected)
        now
        d
        (request_kill env tid w).1).0
      ≡ ok tt
    → (flag_of (row_of tid (request_kill env tid w).1) ≡ true)
      × (flag_of (
            row_of tid
              (write_thread env tid status none last_event
                (some selected)
                now
                d
                (request_kill env tid w).1).1)
          ≡ false)
stale_write-loses_kill env tid status last_event now d w selected r _ unmarked kill write =
    let wrote = (request_kill_lem env tid w r kill).0 in
    (
      ap flag_of wrote.found ∙ wrote.flag_written,
      stale_write-flag env tid status last_event now d (request_kill env tid w).1 selected wrote.row
            wrote.found write
          ∙ unmarked,
    )
