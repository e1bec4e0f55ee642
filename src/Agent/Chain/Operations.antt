-- ===== src/Agent/Chain/Operations.antt =====
-- The operations of a request and the histories of the threads: only `put` adds to one.
use nobleport.Prelude.{◌≡◌, refl, sym, subst, ◌∙◌, ap, Bool, Option, none, some, arith}
use nobleport.Python.Text.{Text}
use nobleport.Python.Json.{Fields, dumps_fields}
use nobleport.Schema.{
  Tables, CheckpointRow, ThreadRow, insert_audit_row, insert_metric_row, insert_thread_row,
  update_thread_row, insert_checkpoint_row, new_checkpoint, latest_checkpoint,
}
use nobleport.World.{Env, ok, Dialect, World, Event, failure, value_error, checkpointed, emit}
use nobleport.World.Respects.{Respects, Respects-pure, Respects-raise, respects_rules}
use nobleport.Db.Connection.{execute}
use nobleport.Db.Connection.Calls.{Respects-execute, Respects-fetch}
use nobleport.Db.Connection.Outcomes.{execute_cases, done, failed, half_done, refused}
use nobleport.RedisBus.{note_event}
use nobleport.Agent.State.{write_thread, upsert, set_thread_status, request_kill}
use nobleport.Agent.Checkpoint.{CheckpointTuple, to_tuple?, put, put_serialised, get_latest}
use nobleport.Agent.Checkpoint.Saving.{rows-insert_checkpoint_row, put-Put}
use nobleport.Agent.Checkpoint.Reading.{get_latest-ok}
use nobleport.Agent.Runtime.{resumed}
use nobleport.Agent.Stable.{IsStable, or_uuid-Respects, get_latest-Respects}
use nobleport.Agent.Chain.{
  HasChains, HasChains-append, id_of, same_checkpoints, tip, At, Chained, Continues, Chained-same,
  Continues-same, Chained-bind, Chained-then,
}

module _ (env : Env) (tid : Text) where
  write_thread-same :
      (status : Text) (asked : Option Bool) (last_event : Option Text) (o : Option ThreadRow)
      (now : Text) (d : Dialect)
      → Respects same_checkpoints (write_thread env tid status asked last_event o now d)
  unfolding write_thread emit insert_thread_row update_thread_row
  write_thread-same status asked last_event none now d =
      Respects-execute same_checkpoints _ _ (λ w t h. ground arith) env
  write_thread-same status asked last_event (some r) now d =
      Respects-execute same_checkpoints _ _ (λ w t h. ground arith) env

  upsert-same :
      (status : Text) (asked : Option Bool) (last_event : Option Text)
      → Respects same_checkpoints (upsert env tid status asked last_event)
  unfolding upsert
  upsert-same status asked last_event =
      search (respects_rules, Respects-fetch, write_thread-same) depth 8

  pub set_thread_status-same :
      (status : Text) (last_event : Option Text)
      → Respects same_checkpoints (set_thread_status env tid status last_event)
  unfolding set_thread_status
  set_thread_status-same status last_event = upsert-same status none last_event

  pub request_kill-same : Respects same_checkpoints (request_kill env tid)
  unfolding request_kill
  request_kill-same = search (respects_rules, Respects-fetch, upsert-same)

  note_event-same :
      (channel : Text) (event : Event) (now : Text)
      → Respects same_checkpoints (note_event channel event now)
  unfolding note_event
  note_event-same channel event now = record { at = λ w. refl }

  pub same-IsStable : (channel : Text) → IsStable same_checkpoints tid channel env
  unfolding insert_audit_row insert_metric_row emit
  same-IsStable channel = record {
    audit = λ r e w t h. ground arith;
    metric = λ r e w t h. ground arith;
    thread = set_thread_status-same;
    mark = λ e w. refl;
    event = λ event now mine. note_event-same channel event now;
  }

  -- the INSERT of a checkpoint whose parent is the latest
  inserted-HasChains :
      (parent : Option Text) (cid : Text) (stored : Fields) (w : World) (t : Tables)
      → At tid parent w
      → insert_checkpoint_row tid cid parent stored w.tables ≡ some t
      → HasChains t.langgraph_checkpoints
  inserted-HasChains parent cid stored w t h st =
      subst HasChains (sym (rows-insert_checkpoint_row tid cid parent stored w.tables t st)) (
        HasChains-append w.tables.langgraph_checkpoints
          (new_checkpoint tid cid parent stored w.tables.next_seq) h.chains (sym h.latest))

  insert-Chained :
      (parent : Option Text) (cid : Text) (stored : Fields)
      → Chained tid parent
          (execute env (insert_checkpoint_row tid cid parent stored) (checkpointed cid))
  unfolding emit
  insert-Chained parent cid stored = record {
    chains = λ w h.
        elim (execute_cases env (insert_checkpoint_row tid cid parent stored) (checkpointed cid)
          w) [
            | done t st e ↦ rw e (inserted-HasChains parent cid stored w t h st)
            | failed x e ↦ rw e h.chains
            | half_done x t st e ↦ rw e (inserted-HasChains parent cid stored w t h st)
            | refused e ↦ rw e h.chains
          ];
  }

  put_serialised-Chained :
      (state : Fields) (parent : Option Text) (cid : Text) (o : Option Fields)
      → Chained tid parent (put_serialised env tid state parent cid o)
  unfolding put_serialised
  put_serialised-Chained state parent cid none =
      Chained-same tid parent _ (Respects-raise same_checkpoints (failure value_error))
  put_serialised-Chained state parent cid (some stored) =
      Chained-then tid parent _ _ (insert-Chained parent cid stored)
        (λ u. Respects-pure same_checkpoints _)

  pub put-Continues :
      (state : Fields) (parent : Option Text)
      → Continues tid parent (λ cp. some cp.checkpoint_id) (put env tid state parent none)
  unfolding put
  put-Continues state parent = record {
    chained =
        Chained-bind tid parent (λ c. parent) _ _
          (Continues-same tid parent _ (or_uuid-Respects env none))
          (λ cid. put_serialised-Chained state parent cid (dumps_fields state));
    latest = λ w cp h e.
        let saved = put-Put env tid state parent none w cp e in
        ap id_of saved.latest ∙ ap some saved.id;
  }

  resumed-id :
      (w : World) (found : Option CheckpointTuple)
      → (get_latest env tid w).0 ≡ ok found
      → (resumed found).1 ≡ tip tid w
  resumed-id w found e =
      ap (λ o. (resumed o).1) (get_latest-ok env tid w found e)
      ∙ row_id (latest_checkpoint tid w.tables.langgraph_checkpoints)
    where
      row_id : (o : Option CheckpointRow) → (resumed (to_tuple? o)).1 ≡ id_of o
      row_id none = refl
      row_id (some r) = refl

  -- the request goes on from the latest checkpoint
  pub get_latest-Continues :
      (channel : Text) (parent : Option Text)
      → Continues tid parent (λ found. (resumed found).1) (get_latest env tid)
  get_latest-Continues channel parent = record {
    chained = Chained-same tid parent _ (get_latest-Respects (same-IsStable channel) tid);
    latest = λ w found h e.
        rw ((get_latest-Respects (same-IsStable channel) tid).at w) (sym (resumed-id w found e));
  }
