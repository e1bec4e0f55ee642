-- ===== src/Db/Connection.antt =====
-- app/db/connection.py: the statements of the program reach the database through `execute`,
-- `fetch_one` and `fetch_all`, which refuse to run without a connection. For SQLite, the execution
-- and the commit of a statement are two awaits in the source and one external call here: what
-- fails between them is a call that raises after it was carried out, since the connection sees its
-- own uncommitted row, which the next commit makes lasting.
pub mod Calls
pub mod Outcomes
use nobleport.Prelude.{Bool, Option, none, some, if◌then◌else◌}
use nobleport.Schema.{Tables}
use nobleport.World.{
  Env, sqlite, postgres, Database, Effect, Exec, failure, assertion_error, integrity_error, raise,
  raised, ok, gets, ◌>>=◌, external_call, emit,
}

-- the assertion at the head of each method
abbrev pub is_connected : Database → Bool
is_connected db = elim db.dialect [ sqlite ↦ db.sqlite_conn | postgres ↦ db.pg_pool ]

-- A statement that breaks a constraint raises, and changes nothing. The effect is a mark in the
-- trace of the run.
unfoldable pub run_statement : (Tables → Option Tables) → Effect → Exec Unit
unfolding emit
run_statement statement effect w = elim (statement w.tables) [
  | none ↦ (raised (failure integrity_error), w)
  | some t ↦ (ok tt, emit effect (record w { tables = t }))
]

unfoldable pub execute : Env → (Tables → Option Tables) → Effect → Exec Unit
unfolding run_statement
execute env statement effect = do
  db ← gets (λ w. w.database)
  if is_connected db
      then external_call env (run_statement statement effect)
      else raise (failure assertion_error)

-- `fetch_one` and `fetch_all`, with the query as a function of the tables
unfoldable pub fetch : {A : Type 0} → Env → (Tables → A) → Exec A
fetch env query = do
  db ← gets (λ w. w.database)
  if is_connected db
      then external_call env (gets (λ w. query w.tables))
      else raise (failure assertion_error)
