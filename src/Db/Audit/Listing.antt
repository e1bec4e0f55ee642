-- ===== src/Db/Audit/Listing.antt =====
-- app/db/audit.py: `list_audit`. A payload is kept as the value that its JSON text stands for, so
-- that `json.loads` gives it back; a limit is not negative.
pub mod Order
pub mod Laws
use nobleport.Prelude.{
  ℕ, ◌≡◌, Bool, true, false, ◌&&◌, ◌||◌, ltb, ◌==◌, Option, none, some, List, [], ◌∷◌, take,
  if◌then◌else◌,
}
use nobleport.Python.Text.{Text, text_eq}
use nobleport.Schema.{AuditRow}
use nobleport.World.{Env, Exec}
use nobleport.Db.Connection.{fetch}

-- the order of two texts, by their code points
unfoldable pub text_leb : Text → Text → Bool
text_leb [] t = true
text_leb (c ∷ s) [] = false
text_leb (c ∷ s) (d ∷ t) = ltb c d || (c == d && text_leb s t)

-- `thread_id = ?`, which a NULL does not meet
abbrev pub in_thread : Text → AuditRow → Bool
in_thread tid r = elim r.thread_id [ none ↦ false | some t ↦ text_eq t tid ]

-- the WHERE clause, or none
unfoldable pub where_thread : Option Text → List AuditRow → List AuditRow
where_thread none rows = rows
where_thread (some tid) [] = []
where_thread (some tid) (r ∷ rows) =
    let rest = where_thread (some tid) rows in if in_thread tid r then r ∷ rest else rest

unfoldable pub insert_row : AuditRow → List AuditRow → List AuditRow
insert_row r [] = r ∷ []
insert_row r (s ∷ rows) =
    let rest = insert_row r rows in
    if text_leb s.created_at r.created_at then r ∷ s ∷ rows else s ∷ rest

-- ORDER BY created_at DESC; the databases promise no order of rows of the same time, which stand
-- here as they were inserted
unfoldable pub latest_first : List AuditRow → List AuditRow
unfolding insert_row
latest_first [] = []
latest_first (r ∷ rows) = insert_row r (latest_first rows)

unfoldable pub list_audit : Env → Option Text → ℕ → Exec (List AuditRow)
list_audit env thread_id limit =
    fetch env (λ t. take limit (latest_first (where_thread thread_id t.audit_log)))
