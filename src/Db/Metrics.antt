-- ===== src/Db/Metrics.antt =====
-- app/db/metrics.py: a row of `agent_metrics` for each measured request.
use nobleport.Prelude.{ℕ, Option}
use nobleport.Python.Text.{Text}
use nobleport.Schema.{insert_metric_row}
use nobleport.World.{Env, Exec, measured, pure, ◌>>=◌, ◌>>◌, reading}
use nobleport.Db.Connection.{execute}

unfoldable pub record_invoke_latency : Env → Option Text → Option Text → ℕ → Text → Text → Exec Text
record_invoke_latency env thread_id event_id metric_ms outcome metric_name = do
  mid ← reading env.uuid4
  execute env
      (insert_metric_row (record {
        id = mid;
        thread_id = thread_id;
        event_id = event_id;
        metric_name = metric_name;
        metric_ms = metric_ms;
        outcome = outcome;
      }))
      (measured mid outcome)
  pure mid
