-- ===== src/Tests/Storage.antt =====
-- Checkpoints, metrics and statements of concrete data, and the theorems about them.
use nobleport.Prelude.{
  ap, List, length, take_all, true, ℕ, ◌≤◌, ◌*◌, ◌≡◌, refl, none, some, [], ◌∷◌, ◌++◌, arith,
}
use nobleport.Python.Text.{Text, codes, text_eq}
use nobleport.Python.Json.{obj, other, text, Fields, end, field, dumps, dumps_fields}
use nobleport.Schema.{
  AuditRow, has_audit, insert_audit_row, MetricRow, has_checkpoint, insert_checkpoint_row,
  latest_checkpoint, thread_checkpoints,
}
use nobleport.World.{
  raised, failure, assertion_error, stepped, World, postgres, sqlite, ok, external_call, reading,
  ◌>>=◌,
}
use nobleport.Db.Lifecycle.{close}
use nobleport.Db.Lifecycle.Laws.{execute-close}
use nobleport.Db.Audit.{insert_audit}
use nobleport.Db.Audit.Listing.{text_leb, where_thread, insert_row, latest_first, list_audit}
use nobleport.Db.Audit.Listing.Laws.{Lists, list_audit-insert_audit}
use nobleport.Db.Connection.{execute, fetch}
use nobleport.Db.Params.{convert_params, has_placeholder}
use nobleport.Db.Params.Laws.{marked, question, dollar, convert_params-marked}
use nobleport.Db.Percentile.{percentile}
use nobleport.Db.Percentile.Laws.{first, last, percentile_mono}
use nobleport.Db.Summary.{summary_of_rows}
use nobleport.Db.Summary.Laws.{sample, find, Reports, summary_of_rows-Reports}
use nobleport.Agent.Checkpoint.{CheckpointTuple, put, get_latest, list_all, to_tuple}
use nobleport.Agent.Checkpoint.Saving.{Put, put-Put}
use nobleport.Agent.Checkpoint.Reading.{Found, put-get_latest, last_tuple, get_latest-list_all}
use nobleport.Tests.Data.{calm_env, tid1, world1, first_checkpoint}

abbrev state2 : Fields
state2 = field (codes "note") (other (codes "x")) end

abbrev saved2 : CheckpointTuple
saved2 = record {
  thread_id = tid1;
  checkpoint_id = codes "cp2";
  parent_id = some (codes "cp");
  state = state2;
}

put_returns :
    (put calm_env tid1 state2 (some (codes "cp")) (some (codes "cp2")) world1).0 ≡ ok saved2
unfolding put insert_checkpoint_row has_checkpoint execute external_call codes text_eq dumps_fields
    ◌>>=◌
put_returns = refl

put-Put_example :
    Put tid1 state2
      (some (codes "cp"))
      saved2
      world1.tables.langgraph_checkpoints
      (put calm_env tid1 state2
        (some (codes "cp"))
        (some (codes "cp2"))
        world1).1.tables.langgraph_checkpoints
put-Put_example =
    put-Put calm_env tid1 state2 (some (codes "cp")) (some (codes "cp2")) world1 saved2 put_returns

abbrev found2 : CheckpointTuple
found2 = record saved2 { state = field (codes "note") (text (codes "x")) end }

get_latest_returns :
    (get_latest calm_env tid1
      (put calm_env tid1 state2 (some (codes "cp")) (some (codes "cp2")) world1).1).0
    ≡ ok (some found2)
unfolding put insert_checkpoint_row has_checkpoint latest_checkpoint get_latest fetch execute
    external_call codes text_eq dumps_fields ◌>>=◌
get_latest_returns = refl

put-get_latest_example : Found state2 (some (codes "cp")) saved2 (some found2)
put-get_latest_example =
    put-get_latest calm_env calm_env tid1 state2 (some (codes "cp")) (some (codes "cp2")) world1
      saved2 (some found2) put_returns get_latest_returns

list_all_returns : (list_all calm_env tid1 world1).0 ≡ ok (to_tuple first_checkpoint ∷ [])
unfolding list_all fetch external_call thread_checkpoints codes text_eq ◌>>=◌
list_all_returns = refl

first_returns : (get_latest calm_env tid1 world1).0 ≡ ok (some (to_tuple first_checkpoint))
unfolding get_latest fetch external_call latest_checkpoint codes text_eq ◌>>=◌
first_returns = refl

get_latest-list_all_example :
    some (to_tuple first_checkpoint) ≡ last_tuple (to_tuple first_checkpoint ∷ [])
get_latest-list_all_example =
    get_latest-list_all calm_env calm_env tid1 world1 world1 (to_tuple first_checkpoint ∷ [])
      (some (to_tuple first_checkpoint)) refl list_all_returns first_returns

percentile_mono_example :
    (first (1 ∷ 5 ∷ 9 ∷ []) * 100 ≤ percentile (1 ∷ 5 ∷ 9 ∷ []) 50)
    × (percentile (1 ∷ 5 ∷ 9 ∷ []) 50 ≤ percentile (1 ∷ 5 ∷ 9 ∷ []) 95)
    × (percentile (1 ∷ 5 ∷ 9 ∷ []) 95 ≤ last (1 ∷ 5 ∷ 9 ∷ []) * 100)
percentile_mono_example =
    percentile_mono (1 ∷ 5 ∷ 9 ∷ []) 50 95 (omega arith, (omega arith, tt)) (omega arith)
      (omega arith)

abbrev metric : ℕ → MetricRow
metric ms = record {
  id = codes "m";
  thread_id = none;
  event_id = none;
  metric_name = codes "latency";
  metric_ms = ms;
  outcome = codes "ok";
}

summary_of_rows-Reports_example :
    Reports
      (sample (codes "latency") (metric 7 ∷ metric 3 ∷ []))
      (find (codes "latency") (summary_of_rows (metric 7 ∷ metric 3 ∷ [])))
summary_of_rows-Reports_example =
    summary_of_rows-Reports (codes "latency") (metric 7 ∷ metric 3 ∷ [])

abbrev part1 : Text
part1 = codes "SELECT a WHERE b = "

abbrev part2 : Text
part2 = codes " AND c = "

convert_params-marked_example :
    (convert_params postgres (part1 ++ marked question 1 (part2 ∷ [] ∷ []))
      ≡ part1 ++ marked dollar 1 (part2 ∷ [] ∷ []))
    × (convert_params sqlite (part1 ++ marked question 1 (part2 ∷ [] ∷ []))
        ≡ part1 ++ marked question 1 (part2 ∷ [] ∷ []))
unfolding codes has_placeholder
convert_params-marked_example =
    convert_params-marked part1 (part2 ∷ [] ∷ []) (refl, (refl, (refl, tt)))

close_returns : (close calm_env world1).0 ≡ ok tt
unfolding close external_call ◌>>=◌
close_returns = refl

execute-close_example :
    execute calm_env (λ t. some t) (stepped) (close calm_env world1).1
    ≡ (raised (failure assertion_error), (close calm_env world1).1)
execute-close_example = execute-close calm_env calm_env world1 (λ t. some t) stepped close_returns

-- an earlier audit of the thread, and one of another thread
abbrev audit_at : Text → Text → Text → AuditRow
audit_at id tid at = record {
  id = id;
  event_type = codes "invoke";
  payload = other (codes "x");
  thread_id = some tid;
  message = none;
  created_at = at;
}

abbrev audited_world : World
audited_world = record world1 {
  tables = record world1.tables {
    audit_log = audit_at (codes "a") tid1 [] ∷ audit_at (codes "b") (codes "t2") [] ∷ [];
  };
}

abbrev new_audit : AuditRow
new_audit = record {
  id = codes "c";
  event_type = codes "invoke";
  payload = obj end;
  thread_id = some tid1;
  message = none;
  created_at = 0 ∷ [];
}

insert_returns :
    (insert_audit calm_env (codes "invoke") end (some tid1) none (some (codes "c")) audited_world).0
    ≡ ok new_audit
unfolding insert_audit insert_audit_row has_audit execute external_call reading dumps dumps_fields
    codes text_eq ◌>>=◌
insert_returns = refl

abbrev after_insert : World
after_insert =
    (insert_audit calm_env (codes "invoke") end (some tid1) none (some (codes "c")) audited_world).1

few_rows : length (where_thread (some tid1) after_insert.tables.audit_log) ≤ 100
unfolding insert_audit insert_audit_row has_audit execute external_call reading dumps dumps_fields
    codes text_eq ◌>>=◌ where_thread
few_rows = omega arith

abbrev listing : List AuditRow
listing = new_audit ∷ audit_at (codes "a") tid1 [] ∷ []

list_returns : (list_audit calm_env (some tid1) 100 after_insert).0 ≡ ok listing
unfolding insert_audit insert_audit_row has_audit execute external_call reading dumps dumps_fields
    codes text_eq ◌>>=◌ where_thread list_audit latest_first text_leb insert_row fetch
list_returns = ap ok (take_all 100 listing (omega arith))

list_audit-insert_audit_example :
    (has_audit (codes "c") listing ≡ true) × Lists (some tid1) after_insert.tables.audit_log listing
unfolding codes
list_audit-insert_audit_example =
    list_audit-insert_audit calm_env (codes "c") (codes "invoke") end (some tid1) none 100
      audited_world new_audit listing refl insert_returns few_rows list_returns
