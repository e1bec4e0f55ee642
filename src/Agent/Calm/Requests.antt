-- ===== src/Agent/Calm/Requests.antt =====
-- `Supervisor.invoke` in a calm environment: it returns, with the result that the specification of
-- the graph gives.
use nobleport.Prelude.{ℕ, ◌<◌, ◌≡◌, refl, ap, false, some, inl, ◌-◌, if◌then◌else◌}
use nobleport.Python.Text.{Text, codes}
use nobleport.Python.Json.{Fields, text, set}
use nobleport.Schema.{latest_checkpoint}
use nobleport.World.{Env, World, ◌>>=◌, tick, reading}
use nobleport.World.Runs.{Runs, Runs-pure, Runs-reading, Runs-bind, Runs-mono}
use nobleport.Agent.Checkpoint.{to_tuple?}
use nobleport.Agent.Runtime.{
  Supervisor, Outcome, ok_outcome, outcome_text, is_ok, InvokeResult, resumed, run_graph, finish,
  supervised, conclude, execute,
}
use nobleport.Agent.Isolation.{kill_flag}
use nobleport.Agent.Calm.{IsCalm, IsReady, IsReady-tick}
use nobleport.Agent.Calm.Threads.{status_at, Stamped, set_thread_status-Runs}
use nobleport.Agent.Calm.Writes.{get_latest-Runs, record_invoke_latency-Runs}
use nobleport.Agent.Calm.Graph.{IsPureStep, run_spec, Kept, IsSaved, send-Runs, loop-Runs}

-- the state that a run of the graph starts from
abbrev pub start_state : Text → Text → World → Fields
start_state tid input w = set (codes "thread_id") (text tid) (
    set (codes "input") (text input)
      (resumed (to_tuple? (latest_checkpoint tid w.tables.langgraph_checkpoints))).0)

module _ (env : Env) (calm : IsCalm env) (sup : Supervisor) (f : Fields → Fields)
    (Inv : Fields → Type 0) (pure_step : IsPureStep sup f Inv) (tid rid input : Text) where
  -- what a run of the graph leaves
  pub record Ran (w : World) (r : Outcome × Fields) (w' : World) : Type 0 where
    pub computed : r ≡ run_spec f sup.max_steps (start_state tid input w)
    pub kept : Kept env w w'
    pub saved : 0 < sup.max_steps → IsSaved tid r.1 w'

  run_graph-Runs :
      (w : World)
      → IsReady env w
      → kill_flag tid w.tables ≡ false
      → Inv (start_state tid input w)
      → Runs (run_graph env sup tid rid input) (Ran w) w
  unfolding run_graph
  run_graph-Runs w ready flag i =
      Runs-bind _ _ _ _ w (get_latest-Runs env calm w ready tid) (λ latest w1 (el, e1).
        rw (el, e1)
          (Runs-mono _ _ _ (tick w)
            (loop-Runs env calm sup f Inv pure_step tid rid sup.max_steps _ _ (tick w)
              (IsReady-tick ready) flag i)
            (λ r w2 l. record {
              computed = l.computed;
              kept = record { ready = l.kept.ready; threads = l.kept.threads };
              saved = λ pos. l.saved (inl pos);
            })))

  supervised-Runs :
      (started : ℕ) (w : World)
      → IsReady env w
      → kill_flag tid w.tables ≡ false
      → Inv (start_state tid input w)
      → Runs (supervised env sup tid rid input started) (Ran w) w
  unfolding supervised finish reading ◌>>=◌
  supervised-Runs started w ready flag i =
      let g = run_graph-Runs w ready flag i in
      let m =
        record_invoke_latency-Runs env calm (tick g.world) (IsReady-tick g.post.kept.ready)
          (some tid) (some rid) (env.perf_counter g.world.calls - started) (outcome_text g.value.0)
          (codes "agent_invoke_latency_ms") in
      record {
        value = g.value;
        world = m.world;
        runs = rw (g.runs, m.runs);
        post = record {
          computed = g.post.computed;
          kept = record { ready = m.post.0; threads = rw m.post.1 g.post.kept.threads };
          saved = λ pos. rw m.post.1 (g.post.saved pos);
        };
      }

  -- the status that a request leaves: one that exceeds the limit of steps stays "running"
  abbrev pub final_status : Outcome → Text
  final_status o = if is_ok o then codes "completed" else codes "running"

  -- what a request leaves
  pub record Served (start : Fields) (r : InvokeResult) (w' : World) : Type 0 where
    pub ready : IsReady env w'
    pub thread : r.thread_id ≡ tid
    pub request : r.request_id ≡ rid
    pub outcome : r.outcome ≡ (run_spec f sup.max_steps start).0
    pub state : r.state ≡ (run_spec f sup.max_steps start).1
    pub status : status_at tid w' ≡ some (final_status r.outcome)
    pub saved : 0 < sup.max_steps → IsSaved tid r.state w'

  conclude-Runs :
      (start : Fields) (o : Outcome) (s : Fields) (w : World)
      → IsReady env w
      → (o, s) ≡ run_spec f sup.max_steps start
      → status_at tid w ≡ some (codes "running")
      → (0 < sup.max_steps → IsSaved tid s w)
      → Runs (conclude env sup tid rid (o, s)) (Served start) w
  unfolding conclude
  conclude-Runs start ok_outcome s w ready e st saved =
      Runs-bind (λ _ w'. Stamped env tid (codes "completed") w w') _ _ _ w
        (Runs-bind _ _ _ _ w (set_thread_status-Runs env calm tid w ready _ _) (λ _ w1 t.
          Runs-bind _ _ _ _ w1 (send-Runs env calm sup _ _ _ w1 t.ready) (λ _ w2 (r2, t2).
            Runs-pure _ _ w2 (record {
              ready = r2;
              status = rw t2 t.status;
              flag = rw t2 t.flag;
              checkpoints = rw t2 t.checkpoints;
            }))))
        (λ _ w3 t. Runs-pure _ _ w3 (record {
          ready = t.ready;
          thread = refl;
          request = refl;
          outcome = ap (λ (p : Outcome × Fields). p.0) e;
          state = ap (λ (p : Outcome × Fields). p.1) e;
          status = t.status;
          saved = λ pos. rw t.checkpoints (saved pos);
        }))
  conclude-Runs start o s w ready e st saved =
      Runs-bind (λ _ w'. w' ≡ w) _ _ _ w (Runs-pure _ _ w refl)
        (λ _ w3 same. rw same (
          Runs-pure _ _ w (record {
            ready = ready;
            thread = refl;
            request = refl;
            outcome = ap (λ (p : Outcome × Fields). p.0) e;
            state = ap (λ (p : Outcome × Fields). p.1) e;
            status = st;
            saved = saved;
          })))

  pub execute-Runs :
      (w : World)
      → IsReady env w
      → kill_flag tid w.tables ≡ false
      → Inv (start_state tid input w)
      → Runs (execute env sup tid rid input) (Served (start_state tid input w)) w
  unfolding execute
  execute-Runs w ready flag i =
      Runs-bind _ _ _ _ w (set_thread_status-Runs env calm tid w ready _ _) (λ _ w1 t.
        Runs-bind _ _ _ _ w1 (send-Runs env calm sup _ _ _ w1 t.ready) (λ _ w2 (r2, t2).
          Runs-bind (λ _ u. u ≡ tick w2) _ _ _ w2 (Runs-reading _ _ w2 refl)
            (λ started w3 e3.
              let same : start_state tid input (tick w2) ≡ start_state tid input w =
                rw (t2, t.checkpoints) in
              rw e3 (
                Runs-bind _ _ _ _ (tick w2)
                  (supervised-Runs started (tick w2) (IsReady-tick r2) (rw (t2, t.flag) flag)
                    (rw same i))
                  (λ r w4 ran. rw (← same) (
                    conclude-Runs _ r.0 r.1 w4 ran.kept.ready ran.computed
                      (rw (ran.kept.threads, t2) t.status) ran.saved))))))
