-- ===== src/Agent/Checkpoint/Reading.antt =====
-- What `get_latest` and `list_all` of app/agent/checkpointing.py read of the checkpoints.
use nobleport.Prelude.{
  Option-cases, ◌≡◌, refl, ap, ◌∙◌, inl, inr, Option, none, some, List, [], ◌∷◌, arith,
}
use nobleport.Python.Text.{Text}
use nobleport.Python.Json.{Fields, dumps_fields}
use nobleport.Schema.{CheckpointRow, Tables, thread_checkpoints, latest_checkpoint}
use nobleport.Schema.Checkpoints.{last?, latest_checkpoint-eq-last?}
use nobleport.World.{Env, World, ok, ◌>>=◌, pure}
use nobleport.Db.Connection.{fetch}
use nobleport.Db.Connection.Calls.{fetch_cases}
use nobleport.Agent.Checkpoint.Saving.{put-Put}
use nobleport.Agent.Checkpoint.{
  CheckpointTuple, to_tuple, to_tuple?, to_tuples, put, get_latest, list_all,
}

-- what a query that returned and was mapped by `g` answers
fetch_map-ok :
    {A B : Type 0} (env : Env) (q : Tables → A) (g : A → B) (w : World) (b : B)
    → ((fetch env q >>= λ a. pure (g a)) w).0 ≡ ok b
    → b ≡ g (q w.tables)
unfolding ◌>>=◌
fetch_map-ok env q g w b h = elim (fetch_cases env q w) [
  | inl e ↦ ground (arith, rw e at h)
  | inr (inl (x, e)) ↦ absurd (ground (arith, rw e at h))
  | inr (inr (x, e)) ↦ absurd (ground (arith, rw e at h))
]

pub get_latest-ok :
    (env : Env) (tid : Text) (w : World) (found : Option CheckpointTuple)
    → (get_latest env tid w).0 ≡ ok found
    → found ≡ to_tuple? (latest_checkpoint tid w.tables.langgraph_checkpoints)
unfolding get_latest
get_latest-ok env tid w found h =
    fetch_map-ok env (λ t. latest_checkpoint tid t.langgraph_checkpoints) to_tuple? w found h

list_all-ok :
    (env : Env) (tid : Text) (w : World) (all : List CheckpointTuple)
    → (list_all env tid w).0 ≡ ok all
    → all ≡ to_tuples (thread_checkpoints tid w.tables.langgraph_checkpoints)
unfolding list_all
list_all-ok env tid w all h =
    fetch_map-ok env (λ t. thread_checkpoints tid t.langgraph_checkpoints) to_tuples w all h

-- what `get_latest` finds of a checkpoint `cp` that `put` saved
abbrev pub Found : Fields → Option Text → CheckpointTuple → Option CheckpointTuple → Type 0
Found state parent cp found =
    (saved : CheckpointTuple) × (found ≡ some saved)
    × (saved.checkpoint_id ≡ cp.checkpoint_id)
    × (saved.parent_id ≡ parent)
    × (dumps_fields state ≡ some saved.state)

-- When `put` returns a checkpoint and a `get_latest` of the same thread then returns, in whatever
-- environment, it finds the checkpoint that `put` returned: its id, its parent, and the state as
-- JSON gives it back.
pub put-get_latest :
    (env env' : Env) (tid : Text) (state : Fields) (parent checkpoint_id : Option Text) (w : World)
    (cp : CheckpointTuple) (found : Option CheckpointTuple)
    → (put env tid state parent checkpoint_id w).0 ≡ ok cp
    → (get_latest env' tid (put env tid state parent checkpoint_id w).1).0 ≡ ok found
    → Found state parent cp found
put-get_latest env env' tid state parent checkpoint_id w cp found h g =
    let saved = put-Put env tid state parent checkpoint_id w cp h in
    let read = get_latest-ok env' tid (put env tid state parent checkpoint_id w).1 found g in
    (
      to_tuple saved.row,
      read ∙ ap to_tuple? saved.latest,
      saved.id,
      saved.parent_id,
      saved.serialised,
    )

-- the last element of a list
abbrev pub last_tuple : List CheckpointTuple → Option CheckpointTuple
last_tuple [] = none
last_tuple (c ∷ rest) = elim (last_tuple rest) [ none ↦ some c | some d ↦ some d ]

to_tuples-last : (rows : List CheckpointRow) → last_tuple (to_tuples rows) ≡ to_tuple? (last? rows)
to_tuples-last [] = refl
to_tuples-last (r ∷ rows) = elim (Option-cases (last? rows)) [
  | inl e ↦ rw (to_tuples-last rows, e) refl
  | inr (s, e) ↦ rw (to_tuples-last rows, e) refl
]

-- When `list_all` and `get_latest` of a thread both return on the same database, each in its own
-- environment, what `get_latest` found is the last checkpoint of the list, or nothing when the
-- list is empty.
pub get_latest-list_all :
    (env env' : Env) (tid : Text) (w w' : World) (all : List CheckpointTuple)
    (found : Option CheckpointTuple)
    → w.tables ≡ w'.tables
    → (list_all env tid w).0 ≡ ok all
    → (get_latest env' tid w').0 ≡ ok found
    → found ≡ last_tuple all
get_latest-list_all env env' tid w w' all found same a f =
    rw
      (
        list_all-ok env tid w all a,
        get_latest-ok env' tid w' found f,
        same,
        to_tuples-last,
        latest_checkpoint-eq-last?,
      )
      refl
