-- ===== src/Agent/State/Laws.antt =====
-- What a write of a thread's state leaves in its row, in either dialect.
use nobleport.Prelude.{◌≡◌, refl, inl, inr, Bool, true, false, Option, none, some, arith}
use nobleport.Python.Text.{Text, codes}
use nobleport.Schema.{Cell, to_bool, ThreadRow, find_thread}
use nobleport.Schema.Threads.{find_thread-insert_thread_row, find_thread-update_thread_row}
use nobleport.World.{Env, Dialect, World, ok, ◌>>=◌, tick, reading, emit}
use nobleport.World.Binds.{then_pure-ok}
use nobleport.Db.Connection.Calls.{fetch_cases}
use nobleport.Db.Connection.Outcomes.{execute-ok}
use nobleport.Agent.State.{
  flag_of, new_flag, kept_flag, thread_row, write_thread, upsert, request_kill, KillResult,
  previous,
}

-- the flag that a write is to leave: the one asked for, or the one that was there
abbrev pub expected_flag : Option Bool → Bool → Bool
expected_flag none old = old
expected_flag (some b) old = b

new_flag-expected :
    (d : Dialect) (asked : Option Bool) → to_bool (new_flag d asked) ≡ expected_flag asked false
unfolding new_flag
new_flag-expected d asked = ground arith

pub kept_flag-expected :
    (d : Dialect) (old : Cell) (asked : Option Bool)
    → to_bool (kept_flag d old asked) ≡ expected_flag asked (to_bool old)
unfolding kept_flag
kept_flag-expected d old asked = ground arith

-- what a write for `tid` leaves in `w'`, when the thread's row was `before`
pub record Wrote (tid status : Text) (asked : Option Bool) (last_event : Option Text)
    (before : Option ThreadRow) (w' : World) : Type 0 where
  pub row : ThreadRow
  pub found : find_thread tid w'.tables.agent_thread_state ≡ some row
  pub status_written : row.status ≡ status
  pub event_written : row.last_event ≡ last_event
  pub flag_written : to_bool row.kill_requested ≡ expected_flag asked (flag_of before)

module _ (env : Env) (tid status : Text) (asked : Option Bool) (last_event : Option Text)
    (now : Text) (d : Dialect) (w : World) where
  pub write_thread-Wrote :
      (before : Option ThreadRow)
      → find_thread tid w.tables.agent_thread_state ≡ before
      → (write_thread env tid status asked last_event before now d w).0 ≡ ok tt
      → Wrote tid status asked last_event before
          (write_thread env tid status asked last_event before now d w).1
  unfolding write_thread emit
  write_thread-Wrote none e h =
      let (t, st, run) = execute-ok env _ _ w h in
      rw run (record {
        row = thread_row tid status (new_flag d asked) last_event now;
        found =
            find_thread-insert_thread_row (thread_row tid status (new_flag d asked) last_event now)
              w.tables t st;
        status_written = refl;
        event_written = refl;
        flag_written = new_flag-expected d asked;
      })
  write_thread-Wrote (some r) e h =
      let (t, st, run) = execute-ok env _ _ w h in
      rw run (record {
        row = thread_row tid status (kept_flag d r.kill_requested asked) last_event now;
        found =
            find_thread-update_thread_row
              (thread_row tid status (kept_flag d r.kill_requested asked) last_event now) r w.tables
              t e st;
        status_written = refl;
        event_written = refl;
        flag_written = kept_flag-expected d r.kill_requested asked;
      })

abbrev pub row_of : Text → World → Option ThreadRow
row_of tid w = find_thread tid w.tables.agent_thread_state

-- A write of a thread's state that returns leaves a row with the given status and event, and with
-- the flag that was asked for, or else the one that was there (unset, if there was no row).
pub upsert-Wrote :
    (env : Env) (tid status : Text) (asked : Option Bool) (last_event : Option Text) (w : World)
    → (upsert env tid status asked last_event w).0 ≡ ok tt
    → Wrote tid status asked last_event (row_of tid w) (upsert env tid status asked last_event w).1
unfolding upsert ◌>>=◌ reading
upsert-Wrote env tid status asked last_event w h =
    elim (fetch_cases env (λ t. find_thread tid t.agent_thread_state) w) [
      | inl e ↦ rw e (
          write_thread-Wrote env tid status asked last_event _ _ (tick (tick w)) _ refl (rw e at h))
      | inr (inl (x, e)) ↦ absurd (ground (arith, rw e at h))
      | inr (inr (x, e)) ↦ absurd (ground (arith, rw e at h))
    ]

-- A kill request that returns has marked the thread and set its status to "kill_requested", whether
-- or not the thread was known and whatever its status was, also "killed". It reports that status
-- and the one before ("unknown" for a thread without a row).
pub request_kill_lem :
    (env : Env) (tid : Text) (w : World) (r : KillResult)
    → (request_kill env tid w).0 ≡ ok r
    → Wrote tid
        (codes "kill_requested")
        (some true)
        (some (codes "kill_requested"))
        (row_of tid w)
        (request_kill env tid w).1
      × (r ≡ record {
        thread_id = tid;
        status = codes "kill_requested";
        previous_status = previous (row_of tid w);
      })
unfolding request_kill ◌>>=◌
request_kill_lem env tid w r h =
    elim (fetch_cases env (λ t. find_thread tid t.agent_thread_state) w) [
      | inl e ↦
          let (u, done, same, end) =
            then_pure-ok
              (upsert env tid (codes "kill_requested") (some true) (some (codes "kill_requested")))
              _ r (tick w) (rw e at h) in
          rw e (rw end (upsert-Wrote env tid _ _ _ (tick w) done), same)
      | inr (inl (x, e)) ↦ absurd (ground (arith, rw e at h))
      | inr (inr (x, e)) ↦ absurd (ground (arith, rw e at h))
    ]
