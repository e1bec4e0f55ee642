-- ===== src/Db/Migrate.antt =====
-- `Database.migrate` of app/db/connection.py: the statements of the schema, one after the other.
pub mod Laws
use nobleport.Prelude.{Bool, false, ◌||◌, Option, none, some, List, [], ◌∷◌, ◌++◌, if◌then◌else◌}
use nobleport.Python.Text.{Text, text_eq}
use nobleport.Schema.Ddl.{Ddl, create_table, create_index, sqlite_schema, postgres_schema}
use nobleport.World.{
  Env, Dialect, sqlite, postgres, Exec, raised, ok, failure, external, assertion_error, pure, raise,
  gets, ◌>>=◌, ◌>>◌, external_call,
}
use nobleport.Db.Connection.{is_connected}

unfoldable pub has_relation : Text → List Text → Bool
has_relation name [] = false
has_relation name (n ∷ catalog) = text_eq n name || has_relation name catalog

abbrev pub name_of : Ddl → Text
name_of (create_table name columns unique) = name
name_of (create_index name t column) = name

-- IF NOT EXISTS; an index on a table that is missing is an error
unfoldable pub create : Ddl → List Text → Option (List Text)
unfolding has_relation
create (create_table name columns unique) catalog =
    if has_relation name catalog then some catalog else some (catalog ++ name ∷ [])
create (create_index name t column) catalog =
    if has_relation name catalog
    then some catalog
    else if has_relation t catalog
    then some (catalog ++ name ∷ [])
    else none

unfoldable pub run_ddl : Ddl → Exec Unit
unfolding create
run_ddl ddl w = elim (create ddl w.catalog) [
  | none ↦ (raised (failure (external 0)), w)
  | some catalog ↦ (ok tt, record w { catalog = catalog })
]

-- `self.execute(stmt)`
unfoldable pub execute_ddl : Env → Ddl → Exec Unit
unfolding run_ddl
execute_ddl env ddl = do
  db ← gets (λ w. w.database)
  if is_connected db then external_call env (run_ddl ddl) else raise (failure assertion_error)

-- `for stmt in statements`
unfoldable pub execute_all : Env → List Ddl → Exec Unit
unfolding execute_ddl
execute_all env [] = pure tt
execute_all env (ddl ∷ statements) = execute_ddl env ddl >> execute_all env statements

abbrev pub schema_of : Dialect → List Ddl
schema_of sqlite = sqlite_schema
schema_of postgres = postgres_schema

-- `Database.migrate`
unfoldable pub migrate : Env → Exec Unit
unfolding execute_all
migrate env = do dialect ← gets (λ w. w.database.dialect); execute_all env (schema_of dialect)
