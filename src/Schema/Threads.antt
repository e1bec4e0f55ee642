-- ===== src/Schema/Threads.antt =====
-- What the statements on `agent_thread_state` do to the row of each thread.
use nobleport.Prelude.{◌≡◌, refl, Option, none, some, List, [], ◌∷◌, ◌++◌, arith, if◌then◌else◌}
use nobleport.Python.Text.{Text, text_eq, text_eq_iff, text_eq_refl}
use nobleport.Schema.{
  ThreadRow, Tables, find_thread, insert_thread_row, set_thread, update_thread_row,
}

abbrev pub or_else : Option ThreadRow → Option ThreadRow → Option ThreadRow
or_else none o = o
or_else (some r) o = some r

pub find_thread-append :
    (tid : Text) (rows : List ThreadRow) (r : ThreadRow)
    → find_thread tid (rows ++ r ∷ [])
      ≡ or_else (find_thread tid rows) (if text_eq r.thread_id tid then some r else none)
unfolding find_thread
find_thread-append tid [] r = refl
find_thread-append tid (s ∷ rows) r = ground (arith, find_thread-append tid rows r)

-- a row that is found has the key that was asked for
pub thread_id-find_thread :
    (tid : Text) (rows : List ThreadRow) (r : ThreadRow)
    → find_thread tid rows ≡ some r
    → r.thread_id ≡ tid
unfolding find_thread
thread_id-find_thread tid [] r h = cc
thread_id-find_thread tid (s ∷ rows) r h =
    ground (arith, text_eq_iff s.thread_id tid, thread_id-find_thread tid rows r)

abbrev pub replaced : Option ThreadRow → ThreadRow → Option ThreadRow
replaced none r = none
replaced (some _) r = some r

pub find_thread-set_thread :
    (tid : Text) (r : ThreadRow) (rows : List ThreadRow)
    → find_thread tid (set_thread r rows) ≡ (
        if text_eq r.thread_id tid then replaced (find_thread tid rows) r else find_thread tid rows)
unfolding find_thread set_thread
find_thread-set_thread tid r [] = ground arith
find_thread-set_thread tid r (s ∷ rows) = ground (
  arith,
  text_eq_iff s.thread_id r.thread_id,
  text_eq_iff s.thread_id tid,
  text_eq_iff r.thread_id tid,
  find_thread-set_thread tid r rows,
)

-- an INSERT that goes through is found under its key
pub find_thread-insert_thread_row :
    (r : ThreadRow) (t t' : Tables)
    → insert_thread_row r t ≡ some t'
    → find_thread r.thread_id t'.agent_thread_state ≡ some r
unfolding insert_thread_row
find_thread-insert_thread_row r t t' h =
    ground (arith, find_thread-append r.thread_id t.agent_thread_state r, text_eq_refl r.thread_id)

-- an UPDATE of a row that is there is found under its key
pub find_thread-update_thread_row :
    (r s : ThreadRow) (t t' : Tables)
    → find_thread r.thread_id t.agent_thread_state ≡ some s
    → update_thread_row r t ≡ some t'
    → find_thread r.thread_id t'.agent_thread_state ≡ some r
unfolding update_thread_row
find_thread-update_thread_row r s t t' f h =
    ground
      (arith, find_thread-set_thread r.thread_id r t.agent_thread_state, text_eq_refl r.thread_id)
