-- ===== src/Schema/Checkpoints.antt =====
-- Which checkpoint is the latest, and what an insert does to the checkpoints of each thread.
use nobleport.Prelude.{◌≡◌, refl, Option, none, some, List, [], ◌∷◌, ◌++◌, arith, if◌then◌else◌}
use nobleport.Python.Text.{Text, text_eq}
use nobleport.Schema.{CheckpointRow, thread_checkpoints, latest_checkpoint}

pub thread_checkpoints-append :
    (tid : Text) (rows : List CheckpointRow) (r : CheckpointRow)
    → thread_checkpoints tid (rows ++ r ∷ [])
      ≡ thread_checkpoints tid rows ++ (if text_eq r.thread_id tid then r ∷ [] else [])
unfolding thread_checkpoints
thread_checkpoints-append tid [] r = ground arith
thread_checkpoints-append tid (s ∷ rows) r = ground (arith, thread_checkpoints-append tid rows r)

pub latest_checkpoint-append :
    (tid : Text) (rows : List CheckpointRow) (r : CheckpointRow)
    → latest_checkpoint tid (rows ++ r ∷ [])
      ≡ (if text_eq r.thread_id tid then some r else latest_checkpoint tid rows)
unfolding latest_checkpoint
latest_checkpoint-append tid [] r = refl
latest_checkpoint-append tid (s ∷ rows) r = ground (arith, latest_checkpoint-append tid rows r)

-- the last element of a list
abbrev pub last? : List CheckpointRow → Option CheckpointRow
last? [] = none
last? (r ∷ rows) = elim (last? rows) [ none ↦ some r | some s ↦ some s ]

pub latest_checkpoint-eq-last? :
    (tid : Text) (rows : List CheckpointRow)
    → latest_checkpoint tid rows ≡ last? (thread_checkpoints tid rows)
unfolding latest_checkpoint thread_checkpoints
latest_checkpoint-eq-last? tid [] = refl
latest_checkpoint-eq-last? tid (s ∷ rows) = ground (arith, latest_checkpoint-eq-last? tid rows)
