-- ===== src/Db/Summary.antt =====
-- `gate_latency_summary` of app/db/metrics.py: the rows of `agent_metrics` grouped by their metric,
-- and five figures of each group. In which order the dict lists the metrics is not modelled.
pub mod Laws
use nobleport.Prelude.{
  ℕ, zero, suc, ◌+◌, ◌-◌, ◌*◌, Option, none, some, List, [], ◌∷◌, ◌++◌, leb, length, map,
  if◌then◌else◌,
}
use nobleport.Python.Text.{Text, text_eq}
use nobleport.Schema.{MetricRow, Tables}
use nobleport.World.{Env, Exec, pure, ◌>>=◌}
use nobleport.Db.Connection.{fetch}
use nobleport.Db.Percentile.{item, percentile, round3}

-- `count`, and the other figures in microseconds
pub record Gate : Type 0 where
  pub count : ℕ
  pub p50_ms : ℕ
  pub p95_ms : ℕ
  pub min_ms : ℕ
  pub max_ms : ℕ

abbrev pub Groups : Type 0
Groups = List (Text × List ℕ)

-- `by_name.setdefault(name, []).append(v)`
unfoldable pub add_value : Text → ℕ → Groups → Groups
add_value name v [] = (name, v ∷ []) ∷ []
add_value name v ((k, vals) ∷ groups) =
    if text_eq k name then (k, vals ++ v ∷ []) ∷ groups else (k, vals) ∷ add_value name v groups

-- the loop over the rows
unfoldable pub group_from : Groups → List MetricRow → Groups
unfolding add_value
group_from groups [] = groups
group_from groups (r ∷ rows) = group_from (add_value r.metric_name r.metric_ms groups) rows

-- `vals.sort()`
unfoldable pub insert_sorted : ℕ → List ℕ → List ℕ
insert_sorted x [] = x ∷ []
insert_sorted x (y ∷ ys) = if leb x y then x ∷ y ∷ ys else y ∷ insert_sorted x ys

unfoldable pub sort : List ℕ → List ℕ
unfolding insert_sorted
sort [] = []
sort (x ∷ xs) = insert_sorted x (sort xs)

-- the figures of a group
unfoldable pub summarise : List ℕ → Gate
unfolding sort item percentile round3
summarise sample =
    let vals = sort sample in
    record {
      count = length vals;
      p50_ms = round3 (percentile vals 50);
      p95_ms = round3 (percentile vals 95);
      min_ms = round3 (item vals 0 * 100);
      max_ms = round3 (item vals (length vals - 1) * 100);
    }

abbrev summarise_group : Text × List ℕ → Text × Gate
summarise_group (name, sample) = (name, summarise sample)

unfoldable pub summary_of_rows : List MetricRow → List (Text × Gate)
unfolding group_from summarise
summary_of_rows rows = map summarise_group (group_from [] rows)

unfoldable pub gate_latency_summary : Env → Exec (List (Text × Gate))
unfolding summary_of_rows
gate_latency_summary env = do rows ← fetch env (λ t. t.agent_metrics); pure (summary_of_rows rows)
