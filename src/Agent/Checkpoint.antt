-- ===== src/Agent/Checkpoint.antt =====
-- app/agent/checkpointing.py: the checkpoints of each thread, newest last.
pub mod Saving
pub mod Reading
use nobleport.Prelude.{Option, none, some, List, [], ◌∷◌}
use nobleport.Python.Text.{Text}
use nobleport.Python.Json.{Fields, dumps_fields}
use nobleport.Schema.{CheckpointRow, insert_checkpoint_row, thread_checkpoints, latest_checkpoint}
use nobleport.World.{Env, Exec, failure, value_error, checkpointed, raise, pure, ◌>>=◌, ◌>>◌}
use nobleport.Db.Connection.{execute, fetch}
use nobleport.Db.Audit.{or_uuid}

pub record CheckpointTuple : Type 0 where
  pub thread_id : Text
  pub checkpoint_id : Text
  pub parent_id : Option Text
  pub state : Fields

abbrev pub to_tuple : CheckpointRow → CheckpointTuple
to_tuple r = record {
  thread_id = r.thread_id;
  checkpoint_id = r.checkpoint_id;
  parent_id = r.parent_id;
  state = r.state;
}

abbrev pub to_tuple? : Option CheckpointRow → Option CheckpointTuple
to_tuple? none = none
to_tuple? (some r) = some (to_tuple r)

abbrev pub to_tuples : List CheckpointRow → List CheckpointTuple
to_tuples [] = []
to_tuples (r ∷ rows) = to_tuple r ∷ to_tuples rows

-- the part of `put` from the serialisation on
unfoldable pub put_serialised :
    Env → Text → Fields → Option Text → Text → Option Fields → Exec CheckpointTuple
put_serialised env thread_id state parent_id cid none = raise (failure value_error)
put_serialised env thread_id state parent_id cid (some state_text) = do
  execute env (insert_checkpoint_row thread_id cid parent_id state_text) (checkpointed cid)
  pure (record { thread_id = thread_id; checkpoint_id = cid; parent_id = parent_id; state = state })

unfoldable pub put : Env → Text → Fields → Option Text → Option Text → Exec CheckpointTuple
unfolding put_serialised or_uuid
put env thread_id state parent_id checkpoint_id = do
  cid ← or_uuid env checkpoint_id
  put_serialised env thread_id state parent_id cid (dumps_fields state)

unfoldable pub get_latest : Env → Text → Exec (Option CheckpointTuple)
get_latest env thread_id = do
  row ← fetch env (λ t. latest_checkpoint thread_id t.langgraph_checkpoints)
  pure (to_tuple? row)

unfoldable pub list_all : Env → Text → Exec (List CheckpointTuple)
list_all env thread_id = do
  rows ← fetch env (λ t. thread_checkpoints thread_id t.langgraph_checkpoints)
  pure (to_tuples rows)
