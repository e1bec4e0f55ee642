-- ===== src/Agent/Calm/Totality.antt =====
-- The headline theorem on a calm environment: `invoke` returns what the specification says.
use nobleport.Prelude.{◌≤◌, ◌≡◌, refl, Bool, true, false, Option, none, some, arith, if◌then◌else◌}
use nobleport.Python.Text.{Text, is_nonempty}
use nobleport.Python.Json.{Fields, obj, dumps, dumps_fields}
use nobleport.World.{Env, World, ok, tick}
use nobleport.World.Runs.{Runs, Runs-pure, Runs-bind}
use nobleport.Agent.Runtime.{Supervisor, InvokeResult, audit_request, audit_payload, invoke}
use nobleport.Agent.Admission.{
  thread_of, thread_chosen, request_of, admitted, audited_run, invoke-eq-audited_run,
}
use nobleport.Agent.Isolation.{kill_flag}
use nobleport.Agent.Calm.{IsCalm, IsReady, IsReady-tick}
use nobleport.Agent.Calm.Writes.{insert_audit-Runs}
use nobleport.Agent.Calm.Graph.{IsPureStep}
use nobleport.Agent.Calm.Requests.{start_state, Served, execute-Runs}

-- drawing the thread id leaves the tables alone, and comes after `w`
record Drawn (env : Env) (w w' : World) : Type 0 where
  ready : IsReady env w'
  tables : w'.tables ≡ w.tables
  later : w.calls ≤ w'.calls

Drawn-if :
    (env : Env) (b : Bool) (w : World) → IsReady env w → Drawn env w (if b then w else tick w)
Drawn-if env true w r = record { ready = r; tables = refl; later = omega arith }
Drawn-if env false w r = record { ready = IsReady-tick r; tables = refl; later = omega arith }

Drawn-thread_chosen :
    (env : Env) (given : Option Text) (w : World)
    → IsReady env w
    → Drawn env w (thread_chosen given w)
Drawn-thread_chosen env none w r = record {
  ready = IsReady-tick r;
  tables = refl;
  later = omega arith;
}
Drawn-thread_chosen env (some t) w r = Drawn-if env (is_nonempty t) w r

dumps-audit_payload :
    (rid input : Text) (metadata stored : Fields)
    → dumps_fields metadata ≡ some stored
    → dumps (obj (audit_payload rid input metadata)) ≡ some (obj (audit_payload rid input stored))
unfolding dumps dumps_fields
dumps-audit_payload rid input metadata stored h = rw h

module _ (env : Env) (calm : IsCalm env) (sup : Supervisor) (f : Fields → Fields)
    (Inv : Fields → Type 0) (pure_step : IsPureStep sup f Inv) (given : Option Text) (input : Text)
    (metadata stored : Fields) (w : World) where
  abbrev tid : Text
  tid = thread_of env given w

  abbrev rid : Text
  rid = request_of env given w

  audited-Runs :
      IsReady env w
      → kill_flag tid w.tables ≡ false
      → dumps_fields metadata ≡ some stored
      → Inv (start_state tid input w)
      → Runs
          (audited_run env sup input metadata tid rid)
          (Served env calm sup f Inv pure_step tid rid input (start_state tid input w))
          (admitted given w)
  unfolding audit_request
  audited-Runs ready flag h i =
      let d = Drawn-thread_chosen env given w ready in
      let same : (admitted given w).tables ≡ w.tables = d.tables in
      Runs-bind
        (λ _ w'.
          IsReady env w'
          × (w'.tables.agent_thread_state ≡ w.tables.agent_thread_state)
          × (w'.tables.langgraph_checkpoints ≡ w.tables.langgraph_checkpoints))
        _ _ _ (admitted given w)
        (Runs-bind _ _ _ _ (admitted given w)
          (insert_audit-Runs env calm (admitted given w) (IsReady-tick d.ready)
            (thread_chosen given w).calls _ _ _ _ _ (omega arith)
            (rw same (ready.fresh_audit _ d.later))
            (dumps-audit_payload rid input metadata stored h))
          (λ row w1 p. Runs-pure _ _ w1 (p.0, rw (p.2, same), rw (p.2, same))))
        (λ _ w2 p.
          let start : start_state tid input w2 ≡ start_state tid input w = rw p.2 in
          rw (← start) (
            execute-Runs env calm sup f Inv pure_step tid rid input w2 p.0 (rw p.1 flag)
              (rw start i)))

  -- In a calm environment and a ready world, a request of a thread that is not marked for a kill,
  -- with metadata that can be serialised, on a supervisor whose step function computes a pure
  -- function with serialisable results on a set of states that it does not leave and that the
  -- starting state is in, returns. Its
  -- outcome and state are those of the specification from the thread's latest checkpoint: the first
  -- completed iterate within the limit of steps, or else the last. The thread's status is then
  -- "completed", or still "running" if the limit was exceeded, and the state that is returned is
  -- the one in the thread's latest checkpoint, if a step may be run at all.
  pub invoke_total :
      IsReady env w
      → kill_flag tid w.tables ≡ false
      → dumps_fields metadata ≡ some stored
      → Inv (start_state tid input w)
      → (r : InvokeResult) × (w' : World) × (invoke env sup given input metadata w ≡ (ok r, w'))
        × Served env calm sup f Inv pure_step tid rid input (start_state tid input w) r w'
  invoke_total ready flag h i =
      let run = audited-Runs ready flag h i in
      (run.value, run.world, rw (invoke-eq-audited_run env sup input metadata) run.runs, run.post)
