-- ===== src/Agent/Calm/Threads.antt =====
-- The thread's state in a calm environment.
use nobleport.Prelude.{◌≡◌, refl, ap, subst, Option, none, some, [], ◌∷◌, ◌++◌}
use nobleport.Python.Text.{Text}
use nobleport.Schema.{
  ThreadRow, Tables, find_thread, insert_thread_row, update_thread_row, set_thread,
}
use nobleport.World.{Env, Dialect, World, status_set, Result, ok, tick, emit}
use nobleport.World.Runs.{Runs, Runs-pure, Runs-gets, Runs-reading, Runs-bind, Runs-mono}
use nobleport.Db.Connection.Outcomes.{written, execute_calm}
use nobleport.Agent.State.{
  flag_of, write_thread, upsert, set_thread_status, is_kill_requested, thread_row, new_flag,
  kept_flag,
}
use nobleport.Agent.State.Laws.{row_of, Wrote, write_thread-Wrote}
use nobleport.Agent.Isolation.{kill_flag}
use nobleport.Agent.Calm.{IsCalm, IsReady, IsReady-tick}
use nobleport.Agent.Calm.Operations.{fetch-Runs, IsReady-written}

-- the status in a thread's row
abbrev pub status_of_row : Option ThreadRow → Option Text
status_of_row none = none
status_of_row (some r) = some r.status

abbrev pub status_at : Text → World → Option Text
status_at tid w = status_of_row (row_of tid w)

-- `w'` is calm, the thread has the given status and its old flag, and no checkpoint has changed
pub record Stamped (env : Env) (tid new : Text) (w w' : World) : Type 0 where
  pub ready : IsReady env w'
  pub status : status_at tid w' ≡ some new
  pub flag : kill_flag tid w'.tables ≡ kill_flag tid w.tables
  pub checkpoints : w'.tables.langgraph_checkpoints ≡ w.tables.langgraph_checkpoints

Stamped-of_Wrote :
    {env : Env} {tid status : Text} {last_event : Option Text} {w w' : World}
    → IsReady env w'
    → w'.tables.langgraph_checkpoints ≡ w.tables.langgraph_checkpoints
    → Wrote tid status none last_event (row_of tid w) w'
    → Stamped env tid status w w'
Stamped-of_Wrote r c wrote = record {
  ready = r;
  status = rw (wrote.found, wrote.status_written);
  flag = rw wrote.found wrote.flag_written;
  checkpoints = c;
}

Stamped-after_ticks :
    {env : Env} {tid new : Text} {w w' : World}
    → Stamped env tid new (tick (tick w)) w'
    → Stamped env tid new w w'
Stamped-after_ticks s = record {
  ready = s.ready;
  status = s.status;
  flag = s.flag;
  checkpoints = s.checkpoints;
}

module _ (env : Env) (calm : IsCalm env) (tid status : Text) (last_event : Option Text) (now : Text)
    (d : Dialect) (w : World) (ready : IsReady env w) where
  write-Stamped :
      (before : Option ThreadRow) (t : Tables)
      → row_of tid w ≡ before
      → write_thread env tid status none last_event before now d w
        ≡ (ok tt, written (status_set tid status) w t)
      → t.audit_log ≡ w.tables.audit_log
      → t.agent_metrics ≡ w.tables.agent_metrics
      → t.langgraph_checkpoints ≡ w.tables.langgraph_checkpoints
      → Runs
          (write_thread env tid status none last_event before now d)
          (λ _ w'. Stamped env tid status w w')
          w
  unfolding emit
  write-Stamped before t e run a m c = record {
    value = tt;
    world = written (status_set tid status) w t;
    runs = run;
    post = Stamped-of_Wrote (IsReady-written env calm w ready _ t a m c) c (
        subst (λ w'. Wrote tid status none last_event (row_of tid w) w')
          (ap (λ (o : Result Unit × World). o.1) run)
          (rw e (
            write_thread-Wrote env tid status none last_event now d w before e
              (ap (λ (o : Result Unit × World). o.0) run))));
  }

  write_thread-Runs :
      (before : Option ThreadRow)
      → row_of tid w ≡ before
      → Runs
          (write_thread env tid status none last_event before now d)
          (λ _ w'. Stamped env tid status w w')
          w
  unfolding write_thread insert_thread_row update_thread_row
  write_thread-Runs none e =
      let row = thread_row tid status (new_flag d none) last_event now in
      let t : Tables = record w.tables {
        agent_thread_state = w.tables.agent_thread_state ++ row ∷ [];
      } in
      write-Stamped none t e
        (execute_calm env (insert_thread_row row) (status_set tid status) w t (calm.faultless _)
          ready.connected (rw (e, insert_thread_row)))
        refl refl refl
  write_thread-Runs (some old) e =
      let row = thread_row tid status (kept_flag d old.kill_requested none) last_event now in
      let t : Tables = record w.tables {
        agent_thread_state = set_thread row w.tables.agent_thread_state;
      } in
      write-Stamped (some old) t e
        (execute_calm env (update_thread_row row) (status_set tid status) w t (calm.faultless _)
          ready.connected refl)
        refl refl refl

module _ (env : Env) (calm : IsCalm env) (tid : Text) (w : World) (ready : IsReady env w) where
  pub set_thread_status-Runs :
      (status : Text) (last_event : Option Text)
      → Runs (set_thread_status env tid status last_event) (λ _ w'. Stamped env tid status w w') w
  unfolding set_thread_status upsert
  set_thread_status-Runs status last_event =
      Runs-bind _ _ _ _ w (fetch-Runs env calm w ready (λ t. find_thread tid t.agent_thread_state))
        (λ row w1 p.
          rw (p.0, p.1)
            (Runs-bind (λ _ u. u ≡ tick (tick w)) _ _ _ (tick w) (Runs-reading _ _ _ refl)
              (λ now w2 q. rw q (
                Runs-bind (λ _ u. u ≡ tick (tick w)) _ _ _ (tick (tick w)) (Runs-gets _ _ _ refl)
                  (λ d w3 q'. rw q' (
                    Runs-mono _ _ _ _
                      (write_thread-Runs env calm tid status last_event now d (tick (tick w))
                        (IsReady-tick (IsReady-tick ready)) _ refl)
                      (λ _ w4 s. Stamped-after_ticks s)))))))

  pub is_kill_requested-Runs :
      Runs (is_kill_requested env tid) (λ b w'. (b ≡ kill_flag tid w.tables) × (w' ≡ tick w)) w
  unfolding is_kill_requested
  is_kill_requested-Runs =
      Runs-bind _ _ _ _ w (fetch-Runs env calm w ready (λ t. find_thread tid t.agent_thread_state))
        (λ row w1 p. Runs-pure _ _ w1 (ap flag_of p.0, p.1))
