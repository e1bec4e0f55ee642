-- ===== src/Db/Lifecycle.antt =====
-- app/db/connection.py: how a `Database` is made from its URL, connected and closed.
pub mod Laws
use nobleport.Prelude.{
  ◌≡◌, refl, ◌∙◌, ap, ◌≢◌, Bool, true, false, ◌&&◌, Option, none, some, [], ◌∷◌, ◌==◌, arith,
  Bool-cases, inl, inr, if◌then◌else◌,
}
use nobleport.Python.Text.{Text, codes}
use nobleport.Schema.{Tables}
use nobleport.World.{
  Env, Fault, fine, before, after, tick, Result, Dialect, sqlite, postgres, Database, World, Effect,
  Exec, ok, raised, failure, assertion_error, pure, gets, ◌>>=◌, ◌>>◌, external_call,
}
use nobleport.World.Binds.{>>=-ok}
use nobleport.Db.Connection.{is_connected, execute}

-- `s.startswith(prefix)`
unfoldable pub starts_with : Text → Text → Bool
starts_with [] s = true
starts_with (c ∷ prefix) [] = false
starts_with (c ∷ prefix) (d ∷ s) = c == d && starts_with prefix s

-- the dialect that a URL selects; `none` is the ValueError
unfoldable pub dialect_of : Text → Option Dialect
unfolding starts_with
dialect_of url =
    if starts_with (codes "sqlite") url
    then some sqlite
    else if starts_with (codes "postgres") url
    then some postgres
    else if starts_with (codes "postgresql") url
    then some postgres
    else none

-- `Database(url)`
unfoldable pub new_database : Text → Option Database
unfolding dialect_of
new_database url = elim (dialect_of url) [
  | none ↦ none
  | some d ↦ some (record { dialect = d; sqlite_conn = false; pg_pool = false })
]

-- assignments to the attributes
abbrev pub set_sqlite_conn : Bool → Exec Unit
set_sqlite_conn b w = (ok tt, record w { database = record w.database { sqlite_conn = b } })

abbrev pub set_pg_pool : Bool → Exec Unit
set_pg_pool b w = (ok tt, record w { database = record w.database { pg_pool = b } })

-- an await on the driver that changes no table
abbrev pub driver_call : Env → Exec Unit
driver_call env = external_call env (pure tt)

unfoldable pub connect_sqlite : Env → Exec Unit
connect_sqlite env = do driver_call env; set_sqlite_conn true; driver_call env; driver_call env

unfoldable pub connect_postgres : Env → Exec Unit
connect_postgres env = do driver_call env; set_pg_pool true

abbrev pub connect_as : Env → Dialect → Exec Unit
connect_as env sqlite = connect_sqlite env
connect_as env postgres = connect_postgres env

-- `Database.connect`
unfoldable pub connect : Env → Exec Unit
unfolding connect_sqlite connect_postgres
connect env = do dialect ← gets (λ w. w.database.dialect); connect_as env dialect

-- `if self.… is not None: await ….close(); self.… = None`
abbrev pub close_if : Env → Exec Unit → Bool → Exec Unit
close_if env clear true = driver_call env >> clear
close_if env clear false = pure tt

unfoldable pub close_sqlite : Env → Exec Unit
close_sqlite env = do
  is_open ← gets (λ w. w.database.sqlite_conn)
  close_if env (set_sqlite_conn false) is_open

unfoldable pub close_postgres : Env → Exec Unit
close_postgres env = do
  is_open ← gets (λ w. w.database.pg_pool)
  close_if env (set_pg_pool false) is_open

-- `Database.close`
unfoldable pub close : Env → Exec Unit
unfolding close_sqlite close_postgres
close env = do close_sqlite env; close_postgres env
