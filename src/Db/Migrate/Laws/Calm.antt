-- ===== src/Db/Migrate/Laws/Calm.antt =====
-- Without faults, a migration of a connected database returns.
use nobleport.Prelude.{
  ℕ, ◌≡◌, refl, subst, Bool, true, ◌&&◌, some, List, [], ◌∷◌, ◌++◌, arith, Bool-cases, inl, inr,
}
use nobleport.Python.Text.{Text, codes, text_eq, text_eq→eq}
use nobleport.Schema.Ddl.{Ddl, create_table, create_index}
use nobleport.World.{Env, fine, World, Dialect, sqlite, postgres, ◌>>=◌, tick}
use nobleport.World.Runs.{Runs, Runs-pure, Runs-gets, Runs-bind, Runs-external_call}
use nobleport.Db.Connection.{is_connected}
use nobleport.Db.Migrate.{
  has_relation, create, run_ddl, execute_ddl, execute_all, schema_of, migrate,
}
use nobleport.Db.Migrate.Laws.{Covers, create-Created}

-- each index comes after its table
abbrev pub is_ordered : List Text → List Ddl → Bool
is_ordered known [] = true
is_ordered known (create_table name columns unique ∷ ddls) = is_ordered (name ∷ known) ddls
is_ordered known (create_index name t column ∷ ddls) = has_relation t known && is_ordered known ddls

-- the tables known after a statement
abbrev known_after : List Text → Ddl → List Text
known_after known (create_table name columns unique) = name ∷ known
known_after known (create_index name t column) = known

abbrev needs_met : List Text → Ddl → Bool
needs_met known (create_table name columns unique) = true
needs_met known (create_index name t column) = has_relation t known

create-works :
    (ddl : Ddl) (known c : List Text)
    → needs_met known ddl ≡ true
    → Covers known c
    → (c' : List Text) × (create ddl c ≡ some c')
unfolding create
create-works (create_table name columns unique) known c m k =
    elim (Bool-cases (has_relation name c)) [
      | inl e ↦ (c, rw e refl)
      | inr e ↦ (c ++ name ∷ [], rw e refl)
    ]
create-works (create_index name t column) known c m k = elim (Bool-cases (has_relation name c)) [
  | inl e ↦ (c, rw e refl)
  | inr e ↦ (c ++ name ∷ [], rw (e, k t m) refl)
]

Covers-after :
    (ddl : Ddl) (known c c' : List Text)
    → Covers known c
    → create ddl c ≡ some c'
    → Covers (known_after known ddl) c'
unfolding has_relation
Covers-after (create_table name columns unique) known c c' k e n h =
    let (grown, own) = create-Created (create_table name columns unique) c c' e in
    elim (Bool-cases (text_eq name n)) [
      | inl same ↦ subst (λ m. has_relation m c' ≡ true) (text_eq→eq name n same) own
      | inr apart ↦ grown n (k n (rw apart at h))
    ]
Covers-after (create_index name t column) known c c' k e n h =
    (create-Created (create_index name t column) c c' e).0 n (k n h)

abbrev Known : List Text → World → Type 0
Known known w = (is_connected w.database ≡ true) × Covers known w.catalog

module _ (env : Env) (faultless : (n : ℕ) → env.fault n ≡ fine) where
  run_ddl-Runs :
      (ddl : Ddl) (known : List Text) (w : World)
      → needs_met known ddl ≡ true
      → Known known w
      → Runs (run_ddl ddl) (λ u w'. Known (known_after known ddl) w') w
  unfolding run_ddl
  run_ddl-Runs ddl known w m k =
      let (c', made) = create-works ddl known w.catalog m k.1 in
      record {
        value = tt;
        world = record w { catalog = c' };
        runs = rw (made, run_ddl) refl;
        post = (k.0, Covers-after ddl known w.catalog c' k.1 made);
      }

  execute_ddl-Runs :
      (ddl : Ddl) (known : List Text) (w : World)
      → needs_met known ddl ≡ true
      → Known known w
      → Runs (execute_ddl env ddl) (λ u w'. Known (known_after known ddl) w') w
  unfolding execute_ddl ◌>>=◌
  execute_ddl-Runs ddl known w m k =
      let r =
        Runs-external_call _ env (run_ddl ddl) w (faultless w.calls)
          (run_ddl-Runs ddl known (tick w) m k) in
      record { value = r.value; world = r.world; runs = rw k.0 r.runs; post = r.post }

  execute_all-Runs :
      (ddls : List Ddl) (known : List Text) (w : World)
      → is_ordered known ddls ≡ true
      → Known known w
      → Runs (execute_all env ddls) (λ u w'. is_connected w'.database ≡ true) w
  unfolding execute_all
  execute_all-Runs [] known w o k = Runs-pure _ tt w k.0
  execute_all-Runs (create_table name columns unique ∷ ddls) known w o k =
      Runs-bind (λ u w'. Known (name ∷ known) w') _
        (execute_ddl env (create_table name columns unique)) (λ u. execute_all env ddls) w
        (execute_ddl-Runs (create_table name columns unique) known w refl k)
        (λ u w' k'. execute_all-Runs ddls (name ∷ known) w' o k')
  execute_all-Runs (create_index name t column ∷ ddls) known w o k =
      Runs-bind (λ u w'. Known known w') _ (execute_ddl env (create_index name t column))
        (λ u. execute_all env ddls) w
        (execute_ddl-Runs (create_index name t column) known w (ground (arith, o)) k)
        (λ u w' k'. execute_all-Runs ddls known w' (ground (arith, o)) k')

  schema-ordered : (d : Dialect) → is_ordered [] (schema_of d) ≡ true
  unfolding has_relation text_eq codes
  schema-ordered sqlite = refl
  schema-ordered postgres = refl

  -- a connected database is migrated, and stays connected
  pub migrate-Runs :
      (w : World)
      → is_connected w.database ≡ true
      → Runs (migrate env) (λ u w'. is_connected w'.database ≡ true) w
  unfolding migrate has_relation
  migrate-Runs w c =
      Runs-bind (λ d w'. Known [] w' × (d ≡ w.database.dialect)) _ _ _ w
        (Runs-gets _ (λ w. w.database.dialect) w ((c, λ n h. absurd (ground (arith, h))), refl))
        (λ d w' k. execute_all-Runs (schema_of d) [] w' (schema-ordered d) k.0)
