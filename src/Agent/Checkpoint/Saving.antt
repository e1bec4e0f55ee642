-- ===== src/Agent/Checkpoint/Saving.antt =====
-- What `put` of app/agent/checkpointing.py leaves among the checkpoints of a thread.
use nobleport.Prelude.{
  Bool-cases, ◌⊎◌, ◌≡◌, refl, sym, ap, inl, inr, Option, none, some, List, [], ◌∷◌, ◌++◌, arith,
}
use nobleport.Python.Text.{Text, is_nonempty, text_eq_refl}
use nobleport.Python.Json.{Fields, dumps_fields}
use nobleport.Schema.{
  CheckpointRow, Tables, insert_checkpoint_row, new_checkpoint, thread_checkpoints,
  latest_checkpoint,
}
use nobleport.Schema.Checkpoints.{thread_checkpoints-append, latest_checkpoint-append}
use nobleport.World.{
  Env, Exn, raise, failure, value_error, World, checkpointed, ok, ◌>>=◌, tick, emit, reading, Exec,
}
use nobleport.World.Binds.{then_pure-ok}
use nobleport.Db.Connection.{execute}
use nobleport.Db.Connection.Outcomes.{execute-ok}
use nobleport.Db.Audit.{or_uuid}
use nobleport.Agent.Checkpoint.{CheckpointTuple, put_serialised, put}

-- what a `put` that returned `cp` leaves: one more checkpoint of the thread, the latest
pub record Put (tid : Text) (state : Fields) (parent : Option Text) (cp : CheckpointTuple)
    (old new : List CheckpointRow) : Type 0 where
  pub row : CheckpointRow
  pub serialised : dumps_fields state ≡ some row.state
  pub id : row.checkpoint_id ≡ cp.checkpoint_id
  pub parent_id : row.parent_id ≡ parent
  pub thread : row.thread_id ≡ tid
  pub added : thread_checkpoints tid new ≡ thread_checkpoints tid old ++ row ∷ []
  pub latest : latest_checkpoint tid new ≡ some row

pub rows-insert_checkpoint_row :
    (tid cid : Text) (parent : Option Text) (stored : Fields) (t t' : Tables)
    → insert_checkpoint_row tid cid parent stored t ≡ some t'
    → t'.langgraph_checkpoints
      ≡ t.langgraph_checkpoints ++ new_checkpoint tid cid parent stored t.next_seq ∷ []
unfolding insert_checkpoint_row
rows-insert_checkpoint_row tid cid parent stored t t' h = ground arith

new_last :
    (tid : Text) (old rows : List CheckpointRow) (r : CheckpointRow)
    → rows ≡ old ++ r ∷ []
    → r.thread_id ≡ tid
    → thread_checkpoints tid rows ≡ thread_checkpoints tid old ++ r ∷ []
new_last tid old rows r e h = rw (e, thread_checkpoints-append, h, text_eq_refl) refl

new_latest :
    (tid : Text) (old rows : List CheckpointRow) (r : CheckpointRow)
    → rows ≡ old ++ r ∷ []
    → r.thread_id ≡ tid
    → latest_checkpoint tid rows ≡ some r
new_latest tid old rows r e h = rw (e, latest_checkpoint-append, h, text_eq_refl) refl

raise≢ok : {A : Type 0} (e : Exn) (a : A) (w : World) → (raise e w).0 ≡ ok a → ⊥
unfolding ◌>>=◌
raise≢ok e a w h = ground (arith, h)

module _ (env : Env) (tid : Text) (state : Fields) (parent : Option Text) (cid : Text)
    (w : World) where
  put_serialised-Put :
      (o : Option Fields) (cp : CheckpointTuple)
      → dumps_fields state ≡ o
      → (put_serialised env tid state parent cid o w).0 ≡ ok cp
      → Put tid state parent cp w.tables.langgraph_checkpoints
          (put_serialised env tid state parent cid o w).1.tables.langgraph_checkpoints
  unfolding put_serialised emit
  put_serialised-Put none cp e h = absurd (raise≢ok (failure value_error) cp w h)
  put_serialised-Put (some stored) cp e h =
      let (u, done, same, end) =
        then_pure-ok (execute env (insert_checkpoint_row tid cid parent stored) (checkpointed cid))
          (record { thread_id = tid; checkpoint_id = cid; parent_id = parent; state = state }) cp w
          h in
      let (t, st, run) =
        execute-ok env (insert_checkpoint_row tid cid parent stored) (checkpointed cid) w done in
      let rows = rows-insert_checkpoint_row tid cid parent stored w.tables t st in
      let new = new_checkpoint tid cid parent stored w.tables.next_seq in
      rw (end, run)
        (record {
          row = new;
          serialised = e;
          id = ap (λ (c : CheckpointTuple). c.checkpoint_id) (sym same);
          parent_id = refl;
          thread = refl;
          added = new_last tid w.tables.langgraph_checkpoints t.langgraph_checkpoints new rows refl;
          latest =
              new_latest tid w.tables.langgraph_checkpoints t.langgraph_checkpoints new rows refl;
        })

or_uuid-cases :
    (env : Env) (o : Option Text) (w : World)
    → ((c : Text) × (or_uuid env o w ≡ (ok c, w)))
      ⊎ ((c : Text) × (or_uuid env o w ≡ (ok c, tick w)))
unfolding or_uuid reading ◌>>=◌
or_uuid-cases env none w = inr (env.uuid4 w.calls, refl)
or_uuid-cases env (some t) w = elim (Bool-cases (is_nonempty t)) [
  | inl e ↦ inl (t, ground (arith, e))
  | inr e ↦ inr (env.uuid4 w.calls, ground (arith, e))
]

start :
    {A B : Type 0} (m : Exec A) (f : A → Exec B) (w : World) (a : A) (w1 : World)
    → m w ≡ (ok a, w1)
    → (m >>= f) w ≡ f a w1
unfolding ◌>>=◌
start m f w a w1 e = rw e refl

abbrev save : Text → Fields → Option Text → Env → Text → Exec CheckpointTuple
save tid state parent env cid = put_serialised env tid state parent cid (dumps_fields state)

-- When `put` returns a checkpoint, under the given id or a fresh one, the state could be
-- serialised, and the thread has exactly one checkpoint more: the last in the order of `list_all`
-- and the one that `get_latest` selects. It carries the id of the returned checkpoint, the given
-- parent and the serialised state.
pub put-Put :
    (env : Env) (tid : Text) (state : Fields) (parent checkpoint_id : Option Text) (w : World)
    (cp : CheckpointTuple)
    → (put env tid state parent checkpoint_id w).0 ≡ ok cp
    → Put tid state parent cp w.tables.langgraph_checkpoints
        (put env tid state parent checkpoint_id w).1.tables.langgraph_checkpoints
unfolding put
put-Put env tid state parent checkpoint_id w cp h = elim (or_uuid-cases env checkpoint_id w) [
  | inl (cid, e) ↦
      let run = start (or_uuid env checkpoint_id) (save tid state parent env) w cid w e in
      rw run
        (put_serialised-Put env tid state parent cid w (dumps_fields state) cp refl (rw run at h))
  | inr (cid, e) ↦
      let run = start (or_uuid env checkpoint_id) (save tid state parent env) w cid (tick w) e in
      rw run (
        put_serialised-Put env tid state parent cid (tick w) (dumps_fields state) cp refl
          (rw run at h))
]
