-- ===== src/Tests/Threads.antt =====
-- Kills and status writes of the known thread, and the theorems about them.
use nobleport.Prelude.{
  inl, inr, Bool-cases, ◌≡◌, refl, true, false, none, some, List, [], ◌∷◌, arith,
}
use nobleport.Python.Text.{Text, codes, text_eq}
use nobleport.Python.Json.{Fields, end, dumps}
use nobleport.Schema.{
  thread_checkpoints, find_thread, insert_thread_row, update_thread_row, set_thread, has_audit,
  insert_audit_row, has_metric, insert_metric_row, latest_checkpoint,
}
use nobleport.World.{sqlite, ok, Exec, ◌>>=◌, external_call, reading}
use nobleport.Db.Connection.{execute, fetch}
use nobleport.Db.Audit.{insert_audit}
use nobleport.Db.Metrics.{record_invoke_latency}
use nobleport.RedisBus
use nobleport.Agent.State.{
  KillResult, upsert, flag_of, write_thread, set_thread_status, request_kill, is_kill_requested,
}
use nobleport.Agent.State.Laws.{Wrote, row_of, upsert-Wrote, request_kill_lem}
use nobleport.Agent.State.Race.{stale_write-loses_kill}
use nobleport.Agent.Checkpoint.{get_latest}
use nobleport.Agent.Step.Pure.{default_supervisor_step-Respects}
use nobleport.Agent.Runtime.{InvokeResult, set_graph, invoke, killed}
use nobleport.Agent.Calm.Requests.{start_state}
use nobleport.Agent.Chain.{HasChains, same_checkpoints}
use nobleport.Agent.Chain.Requests.{serve-HasChains}
use nobleport.Agent.Kill.Ending.{invoke-EndsKilled}
use nobleport.Agent.Kill.Permanent.{
  serve, keeps_flag, ApiCall, invoke_call, kill_call, later, kill_is_permanent,
}
use nobleport.Tests.Data.{
  calm_env, known_thread, tid1, world1, killed_world, builtins, supervisor1, killed_world-marked,
}

abbrev kill_done : KillResult
kill_done = record {
  thread_id = tid1;
  status = codes "kill_requested";
  previous_status = codes "completed";
}

kill_returns : (request_kill calm_env tid1 world1).0 ≡ ok kill_done
unfolding request_kill execute fetch external_call reading find_thread update_thread_row codes
    text_eq ◌>>=◌
kill_returns = refl

request_kill_lem_example :
    Wrote tid1
      (codes "kill_requested")
      (some true)
      (some (codes "kill_requested"))
      (row_of tid1 world1)
      (request_kill calm_env tid1 world1).1
    × (kill_done ≡ kill_done)
unfolding find_thread codes text_eq
request_kill_lem_example = request_kill_lem calm_env tid1 world1 kill_done kill_returns

abbrev tid2 : Text
tid2 = codes "t2"

upsert_returns : (upsert calm_env tid2 (codes "running") none none world1).0 ≡ ok tt
unfolding upsert execute fetch external_call reading find_thread insert_thread_row codes text_eq
    ◌>>=◌
upsert_returns = refl

upsert-Wrote_example :
    Wrote tid2
      (codes "running")
      none
      none
      (row_of tid2 world1)
      (upsert calm_env tid2 (codes "running") none none world1).1
upsert-Wrote_example = upsert-Wrote calm_env tid2 (codes "running") none none world1 upsert_returns

abbrev calls1 : List ApiCall
calls1 = invoke_call (some tid1) (codes "hi") end ∷ kill_call (codes "t2") ∷ []

kill_is_permanent_example :
    ((g : Fields → Exec Fields)
      → invoke calm_env
          (set_graph g supervisor1)
          (some tid1)
          []
          end
          (later calm_env supervisor1 tid1 world1 kill_done calls1)
        ≡ invoke calm_env supervisor1
            (some tid1)
            []
            end
            (later calm_env supervisor1 tid1 world1 kill_done calls1))
    × ((x : InvokeResult)
        → (invoke calm_env supervisor1
            (some tid1)
            []
            end
            (later calm_env supervisor1 tid1 world1 kill_done calls1)).0
          ≡ ok x
        → x.outcome ≡ killed)
unfolding codes
kill_is_permanent_example =
    kill_is_permanent calm_env supervisor1 tid1 world1 kill_done calls1 [] end refl
      (default_supervisor_step-Respects (keeps_flag tid1) builtins) (omega arith) kill_returns

world1-HasChains : HasChains world1.tables.langgraph_checkpoints
unfolding thread_checkpoints
world1-HasChains t = elim (Bool-cases (text_eq tid1 t)) [
  | inl e ↦ rw e (refl, tt)
  | inr e ↦ rw e tt
]

serve-HasChains_example :
    HasChains (serve calm_env supervisor1 calls1 world1).tables.langgraph_checkpoints
serve-HasChains_example =
    serve-HasChains calm_env supervisor1
      (default_supervisor_step-Respects same_checkpoints builtins) calls1 world1 world1-HasChains

abbrev killed_result : InvokeResult
killed_result = record {
  thread_id = tid1;
  request_id = 0 ∷ [];
  outcome = killed;
  state = start_state tid1 [] killed_world;
}

killed_returns : (invoke calm_env supervisor1 (some tid1) [] end killed_world).0 ≡ ok killed_result
unfolding invoke insert_audit insert_audit_row has_audit record_invoke_latency insert_metric_row
    has_metric execute fetch external_call reading find_thread update_thread_row set_thread codes
    text_eq ◌>>=◌ RedisBus.publish is_kill_requested get_latest dumps latest_checkpoint
    set_thread_status
killed_returns = refl

invoke-EndsKilled_example : killed_result.outcome ≡ killed
unfolding codes
invoke-EndsKilled_example =
    invoke-EndsKilled calm_env supervisor1 (some tid1) [] end killed_world killed_result
      killed_world-marked (omega arith) killed_returns

stale_returns :
    (write_thread calm_env tid1
      (codes "completed")
      none
      none
      (some known_thread)
      (codes "now")
      sqlite
      (request_kill calm_env tid1 world1).1).0
    ≡ ok tt
unfolding write_thread request_kill execute fetch external_call reading find_thread
    insert_thread_row update_thread_row codes text_eq ◌>>=◌
stale_returns = refl

stale_write-loses_kill_example :
    (flag_of (row_of tid1 (request_kill calm_env tid1 world1).1) ≡ true)
    × (flag_of (
          row_of tid1
            (write_thread calm_env tid1
              (codes "completed")
              none
              none
              (some known_thread)
              (codes "now")
              sqlite
              (request_kill calm_env tid1 world1).1).1)
        ≡ false)
unfolding find_thread codes text_eq
stale_write-loses_kill_example =
    stale_write-loses_kill calm_env tid1 (codes "completed") none (codes "now") sqlite world1
      known_thread kill_done refl refl kill_returns stale_returns
