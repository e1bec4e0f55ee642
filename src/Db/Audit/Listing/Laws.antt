-- ===== src/Db/Audit/Listing/Laws.antt =====
-- A row that was inserted is listed.
use nobleport.Prelude.{
  subst, ℕ, ◌≤◌, ◌≡◌, refl, sym, ◌∙◌, ap, Bool, true, Option, none, some, List, [], ◌∷◌, ◌++◌, all,
  length, take, take_all, arith, inl, inr,
}
use nobleport.Python.Text.{Text, is_nonempty, text_eq_refl}
use nobleport.Python.Json.{Json, Fields, dumps, obj}
use nobleport.Schema.{AuditRow, has_audit}
use nobleport.World.{Env, World, Result, ok, raise, pure, ◌>>=◌, reading}
use nobleport.World.Binds.{>>=-ok, eq_of_ok}
use nobleport.Db.Connection.Calls.{fetch_cases}
use nobleport.Db.Audit.{insert_payload, insert_audit}
use nobleport.Db.Audit.Cases.{InsertCases, inserted, blocked, insert_audit_cases}
use nobleport.Db.Audit.Listing.{in_thread, where_thread, latest_first, list_audit}
use nobleport.Db.Audit.Listing.Order.{
  IsLatestFirst, latest_first-IsLatestFirst, has_audit-latest_first, all-latest_first,
  length-latest_first,
}

-- the rows that are asked for
abbrev pub asked_for : Option Text → AuditRow → Bool
asked_for none r = true
asked_for (some tid) r = in_thread tid r

all-where_thread :
    (thread_id : Option Text) (rows : List AuditRow)
    → all (asked_for thread_id) (where_thread thread_id rows) ≡ true
unfolding where_thread
all-where_thread none [] = refl
all-where_thread none (r ∷ rows) = all-where_thread none rows
all-where_thread (some tid) [] = refl
all-where_thread (some tid) (r ∷ rows) = ground (arith, all-where_thread (some tid) rows)

has_audit-where_thread :
    (thread_id : Option Text) (rows : List AuditRow) (r : AuditRow)
    → r.thread_id ≡ thread_id
    → has_audit r.id (where_thread thread_id (rows ++ r ∷ [])) ≡ true
unfolding where_thread has_audit
has_audit-where_thread none [] r e = ground (arith, text_eq_refl r.id)
has_audit-where_thread none (s ∷ rows) r e = ground (arith, has_audit-where_thread none rows r)
has_audit-where_thread (some tid) [] r e = rw (e, text_eq_refl tid, text_eq_refl r.id) refl
has_audit-where_thread (some tid) (s ∷ rows) r e =
    ground (arith, has_audit-where_thread (some tid) rows r e)

-- the row that is returned has the thread that was given
insert_payload-thread_id :
    (env : Env) (rid event_type : Text) (payload : Option Json) (thread_id message : Option Text)
    (now : Text) (w : World) (r : AuditRow)
    → (insert_payload env rid event_type payload thread_id message now w).0 ≡ ok r
    → r.thread_id ≡ thread_id
unfolding insert_payload raise pure
insert_payload-thread_id env rid event_type none thread_id message now w r h = ground arith
insert_payload-thread_id env rid event_type (some p) thread_id message now w r h =
    let (a, _, e) = >>=-ok _ _ w r h in let h' = rw e at h in ground arith

insert_audit-thread_id :
    (env : Env) (rid event_type : Text) (payload : Fields) (thread_id message : Option Text)
    (w : World) (r : AuditRow)
    → is_nonempty rid ≡ true
    → (insert_audit env event_type payload thread_id message (some rid) w).0 ≡ ok r
    → r.thread_id ≡ thread_id
unfolding insert_audit reading ◌>>=◌
insert_audit-thread_id env rid event_type payload thread_id message w r named h =
    insert_payload-thread_id env rid event_type (dumps (obj payload)) thread_id message
      (env.utcnow w.calls) _ r (rw named at h)

-- what a listing of the rows of `thread_id` in `log` shows
pub record Lists (thread_id : Option Text) (log rows : List AuditRow) : Type 0 where
  pub order : IsLatestFirst rows
  pub asked : all (asked_for thread_id) rows ≡ true
  pub ids : (i : Text) → has_audit i rows ≡ has_audit i (where_thread thread_id log)

latest_first-Lists :
    (thread_id : Option Text) (log : List AuditRow)
    → Lists thread_id log (latest_first (where_thread thread_id log))
latest_first-Lists thread_id log = record {
  order = latest_first-IsLatestFirst (where_thread thread_id log);
  asked =
      all-latest_first (asked_for thread_id) (where_thread thread_id log)
      ∙ all-where_thread thread_id log;
  ids = λ i. has_audit-latest_first i (where_thread thread_id log);
}

list_audit-Lists :
    (env : Env) (thread_id : Option Text) (limit : ℕ) (w : World) (rows : List AuditRow)
    → length (where_thread thread_id w.tables.audit_log) ≤ limit
    → (list_audit env thread_id limit w).0 ≡ ok rows
    → Lists thread_id w.tables.audit_log rows
unfolding list_audit
list_audit-Lists env thread_id limit w rows few h =
    let asked = where_thread thread_id w.tables.audit_log in
    let all_of_them : take limit (latest_first asked) ≡ latest_first asked =
      take_all limit (latest_first asked) (rw (length-latest_first asked) few) in
    elim (fetch_cases env (λ t. take limit (latest_first (where_thread thread_id t.audit_log))) w) [
      | inl e ↦
          let e' : latest_first asked ≡ rows =
            let h' = rw (e, all_of_them) at h in eq_of_ok _ _ h' in
          subst (Lists thread_id w.tables.audit_log) e'
            (latest_first-Lists thread_id w.tables.audit_log)
      | inr (inl (x, e)) ↦ absurd (ground (arith, rw e at h))
      | inr (inr (x, e)) ↦ absurd (ground (arith, rw e at h))
    ]

has_audit-inserted :
    (rid : Text) (thread_id : Option Text) (w : World) (out : Result AuditRow × World)
    (r : AuditRow)
    → InsertCases rid w out
    → out.0 ≡ ok r
    → r.thread_id ≡ thread_id
    → has_audit rid (where_thread thread_id out.1.tables.audit_log) ≡ true
has_audit-inserted rid thread_id w out r (inserted row e i o l t) h same =
    let e' : row ≡ r = ground arith in
    rw (l, sym i)
      (has_audit-where_thread thread_id w.tables.audit_log row
        (ap (λ (x : AuditRow). x.thread_id) e' ∙ same))
has_audit-inserted rid thread_id w out r (blocked x e f o) h same = cc

-- A row that `insert_audit` returned, under a nonempty id, is found again: a later listing of its
-- thread that returns, with a limit that is not below the number of rows of the thread, shows its
-- id. It shows exactly the ids of the rows of that thread (of all rows, if the row has none), no
-- row older than the next.
pub list_audit-insert_audit :
    (env : Env) (rid event_type : Text) (payload : Fields) (thread_id message : Option Text)
    (limit : ℕ) (w : World) (r : AuditRow) (rows : List AuditRow)
    → is_nonempty rid ≡ true
    → (insert_audit env event_type payload thread_id message (some rid) w).0 ≡ ok r
    → length (
        where_thread thread_id
          (insert_audit env event_type payload thread_id message (some rid) w).1.tables.audit_log)
      ≤ limit
    → (list_audit env thread_id limit
        (insert_audit env event_type payload thread_id message (some rid) w).1).0
      ≡ ok rows
    → (has_audit rid rows ≡ true)
      × Lists thread_id
          (insert_audit env event_type payload thread_id message (some rid) w).1.tables.audit_log
          rows
list_audit-insert_audit env rid event_type payload thread_id message limit w r rows named h few
      listed =
    let out = insert_audit env event_type payload thread_id message (some rid) w in
    let lists = list_audit-Lists env thread_id limit out.1 rows few listed in
    let there =
      has_audit-inserted rid thread_id w out r
        (insert_audit_cases env rid w event_type payload thread_id message named) h
        (insert_audit-thread_id env rid event_type payload thread_id message w r named h) in
    (lists.ids rid ∙ there, lists)
