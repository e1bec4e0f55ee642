-- ===== src/Db/Migrate/Laws/Again.antt =====
-- What `migrate` leaves, also when it is run again.
use nobleport.Prelude.{◌≡◌, refl, ◌∙◌, true, List, [], ◌∷◌, Bool-cases, inl, inr}
use nobleport.Python.Text.{Text}
use nobleport.Schema.Ddl.{Ddl}
use nobleport.World.{
  Env, Fault, fine, before, after, World, Result, Exec, ok, raised, continue, ◌>>=◌, tick,
  external_call,
}
use nobleport.Db.Connection.{is_connected}
use nobleport.Db.Migrate.{
  has_relation, name_of, run_ddl, execute_ddl, execute_all, schema_of, migrate,
}
use nobleport.Db.Migrate.Laws.{
  create-again, Extends, Respects-execute_all, AllCreated, execute_all-AllCreated,
}

continue-catalog :
    {A B : Type 0} (f : A → Exec B) (c : List Text) (r : Result A) (w : World)
    → w.catalog ≡ c
    → ((a : A) → (f a w).1.catalog ≡ c)
    → (continue r f w).1.catalog ≡ c
continue-catalog f c (ok a) w h k = k a
continue-catalog f c (raised e) w h k = h

module _ (env : Env) (ddl : Ddl) where
  run_ddl-again :
      (w : World)
      → has_relation (name_of ddl) w.catalog ≡ true
      → (run_ddl ddl w).1.catalog ≡ w.catalog
  unfolding run_ddl
  run_ddl-again w h = rw (create-again ddl w.catalog h, run_ddl) refl

  fault_again :
      (f : Fault) (w : World)
      → env.fault w.calls ≡ f
      → has_relation (name_of ddl) w.catalog ≡ true
      → (external_call env (run_ddl ddl) w).1.catalog ≡ w.catalog
  unfolding external_call
  fault_again fine w e h = rw (e, external_call) (run_ddl-again (tick w) h)
  fault_again (before i) w e h = rw (e, external_call) refl
  fault_again (after i) w e h = rw (e, external_call) (run_ddl-again (tick w) h)

  execute_ddl-again :
      (w : World)
      → has_relation (name_of ddl) w.catalog ≡ true
      → (execute_ddl env ddl w).1.catalog ≡ w.catalog
  unfolding execute_ddl ◌>>=◌
  execute_ddl-again w h = elim (Bool-cases (is_connected w.database)) [
    | inl c ↦ rw c (fault_again (env.fault w.calls) w refl h)
    | inr c ↦ rw c refl
  ]

execute_all-again :
    (env : Env) (ddls : List Ddl) (w : World) (c : List Text)
    → w.catalog ≡ c
    → AllCreated ddls c
    → (execute_all env ddls w).1.catalog ≡ c
unfolding execute_all ◌>>=◌
execute_all-again env [] w c e h = e
execute_all-again env (ddl ∷ ddls) w c e h =
    let same = execute_ddl-again env ddl w (rw e h.0) ∙ e in
    continue-catalog (λ _. execute_all env ddls) c (execute_ddl env ddl w).0
      (execute_ddl env ddl w).1 same
      (λ u. execute_all-again env ddls (execute_ddl env ddl w).1 c same h.1)

-- what a migration amounts to, whether it returns or raises
pub record Migrated (w : World) (r : Result Unit) (w' : World) : Type 0 where
  pub extended : Extends w w'
  pub complete : r ≡ ok tt → AllCreated (schema_of w.database.dialect) w'.catalog
  pub again : AllCreated (schema_of w.database.dialect) w.catalog → w'.catalog ≡ w.catalog

-- However its statements end, a migration leaves the rows and the connection as they are and drops
-- no table or index; once it has returned, every table and index of the schema exists; and where
-- they all exist, it changes none.
pub migrate-Migrated : (env : Env) (w : World) → Migrated w (migrate env w).0 (migrate env w).1
unfolding migrate ◌>>=◌
migrate-Migrated env w =
    let ddls = schema_of w.database.dialect in
    record {
      extended = (Respects-execute_all env ddls).at w;
      complete = execute_all-AllCreated env ddls w;
      again = λ h. execute_all-again env ddls w w.catalog refl h;
    }
