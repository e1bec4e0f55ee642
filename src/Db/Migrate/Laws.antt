-- ===== src/Db/Migrate/Laws.antt =====
-- What the statements of the schema do, one by one and in sequence.
pub mod Again
pub mod Calm
use nobleport.Prelude.{
  ◌≡◌, refl, sym, ap, ◌∙◌, subst, Bool, true, false, ◌||◌, Option, none, some, List, [], ◌∷◌, ◌++◌,
  arith, ◌&&◌, Bool-cases, inl, inr, if◌then◌else◌,
}
use nobleport.Python.Text.{Text, text_eq, text_eq_refl}
use nobleport.Schema.Ddl.{Ddl, create_table, create_index}
use nobleport.World.{
  Env, Fault, fine, before, after, World, Database, ok, raised, ◌>>=◌, ◌>>◌, tick, external_call,
}
use nobleport.World.Respects.{
  Change, Respects, Respects-pure, Respects-bind, Respects-gets, Respects-if, Respects-raise,
  Respects-external_call, respects_rules,
}
use nobleport.World.Binds.{>>=-ok}
use nobleport.Db.Connection.{is_connected}
use nobleport.Db.Migrate.{
  has_relation, name_of, create, run_ddl, execute_ddl, execute_all, schema_of, migrate,
}

-- every relation of one catalog is in another
abbrev pub Covers : List Text → List Text → Type 0
Covers c c' = (name : Text) → has_relation name c ≡ true → has_relation name c' ≡ true

has_relation-append :
    (name : Text) (c : List Text) (n : Text)
    → has_relation name (c ++ n ∷ []) ≡ (has_relation name c || text_eq n name)
unfolding has_relation
has_relation-append name [] n = ground arith
has_relation-append name (m ∷ c) n = ground (arith, has_relation-append name c n)

abbrev or_nil : Option (List Text) → List Text
or_nil none = []
or_nil (some c) = c

-- what a statement that succeeds does to the catalog
abbrev Created : Text → List Text → List Text → Type 0
Created name c c' = Covers c c' × (has_relation name c' ≡ true)

-- the two ways for a statement to succeed
kept :
    (name : Text) (c c' : List Text)
    → some c ≡ some c'
    → has_relation name c ≡ true
    → Created name c c'
kept name c c' e h = subst (Created name c) (ap or_nil e) (λ n k. k, h)

added : (name : Text) (c c' : List Text) → some (c ++ name ∷ []) ≡ some c' → Created name c c'
added name c c' e =
    let own = text_eq_refl name in
    subst (Created name c) (ap or_nil e) (
      λ n k. ground (arith, has_relation-append n c name, k),
      ground (arith, has_relation-append name c name, own),
    )

pub create-Created :
    (ddl : Ddl) (c c' : List Text) → create ddl c ≡ some c' → Created (name_of ddl) c c'
unfolding create
create-Created (create_table name columns unique) c c' h = elim (Bool-cases (has_relation name c)) [
  | inl e ↦ kept name c c' (rw e at h) e
  | inr e ↦ added name c c' (rw e at h)
]
create-Created (create_index name t column) c c' h = elim (Bool-cases (has_relation name c)) [
  | inl e ↦ kept name c c' (rw e at h) e
  | inr e ↦ elim (Bool-cases (has_relation t c)) [
    | inl f ↦ added name c c' (rw (e, f) at h)
    | inr f ↦ absurd (ground (arith, h, e, f))
  ]
]

-- a statement for a relation that exists changes nothing
create-again :
    (ddl : Ddl) (c : List Text) → has_relation (name_of ddl) c ≡ true → create ddl c ≡ some c
unfolding create
create-again (create_table name columns unique) c h = rw h refl
create-again (create_index name t column) c h = rw h refl

-- A statement changes the catalog alone, and drops nothing from it.
pub record Extends (w w' : World) : Type 0 where
  pub tables : w'.tables ≡ w.tables
  pub database : w'.database ≡ w.database
  pub catalog : Covers w.catalog w'.catalog

abbrev pub extends : Change
extends = record {
  rel = Extends;
  rel_refl = λ w. record { tables = refl; database = refl; catalog = λ n h. h };
  rel_trans = λ u v w a b. record {
    tables = b.tables ∙ a.tables;
    database = b.database ∙ a.database;
    catalog = λ n h. b.catalog n (a.catalog n h);
  };
  rel_tick = λ w. record { tables = refl; database = refl; catalog = λ n h. h };
}

run_ddl-Extends :
    (ddl : Ddl) (o : Option (List Text)) (w : World)
    → create ddl w.catalog ≡ o
    → Extends w (run_ddl ddl w).1
unfolding run_ddl
run_ddl-Extends ddl none w e = rw (e, run_ddl) (extends.rel_refl w)
run_ddl-Extends ddl (some c) w e =
    rw (e, run_ddl)
      (record { tables = refl; database = refl; catalog = (create-Created ddl w.catalog c e).0 })

Respects-execute_ddl : (env : Env) (ddl : Ddl) → Respects extends (execute_ddl env ddl)
unfolding execute_ddl
Respects-execute_ddl env ddl = Respects-bind extends _ _ (Respects-gets extends _) λ db.
    Respects-if extends _ _ _
      (Respects-external_call extends env _
        (record { at = λ w. run_ddl-Extends ddl (create ddl w.catalog) w refl }))
      (Respects-raise extends _)

Respects-execute_all : (env : Env) (ddls : List Ddl) → Respects extends (execute_all env ddls)
unfolding execute_all
Respects-execute_all env [] = Respects-pure extends tt
Respects-execute_all env (ddl ∷ ddls) =
    Respects-bind extends _ _ (Respects-execute_ddl env ddl) λ u. Respects-execute_all env ddls

-- the relations of some statements are all there
abbrev pub AllCreated : List Ddl → List Text → Type 0
AllCreated [] c = Unit
AllCreated (ddl ∷ ddls) c = (has_relation (name_of ddl) c ≡ true) × AllCreated ddls c

AllCreated-Covers :
    (ddls : List Ddl) (c c' : List Text) → Covers c c' → AllCreated ddls c → AllCreated ddls c'
AllCreated-Covers [] c c' k h = tt
AllCreated-Covers (ddl ∷ ddls) c c' k h = (k (name_of ddl) h.0, AllCreated-Covers ddls c c' k h.1)

run_ddl-ok :
    (ddl : Ddl) (o : Option (List Text)) (w : World)
    → create ddl w.catalog ≡ o
    → (run_ddl ddl w).0 ≡ ok tt
    → has_relation (name_of ddl) (run_ddl ddl w).1.catalog ≡ true
unfolding run_ddl
run_ddl-ok ddl none w e h = absurd (ground (arith, h, e))
run_ddl-ok ddl (some c) w e h = rw (e, run_ddl) (create-Created ddl w.catalog c e).1

module _ (env : Env) (ddl : Ddl) (w : World) where
  fault_cases :
      (f : Fault)
      → env.fault w.calls ≡ f
      → (external_call env (run_ddl ddl) w).0 ≡ ok tt
      → has_relation (name_of ddl) (external_call env (run_ddl ddl) w).1.catalog ≡ true
  unfolding external_call
  fault_cases fine e h =
      rw (e, external_call)
        (run_ddl-ok ddl (create ddl w.catalog) (tick w) refl (rw (e, external_call) at h))
  fault_cases (before i) e h = absurd (ground (arith, h, e))
  fault_cases (after i) e h = absurd (ground (arith, h, e))

  execute_ddl-ok :
      (execute_ddl env ddl w).0 ≡ ok tt
      → has_relation (name_of ddl) (execute_ddl env ddl w).1.catalog ≡ true
  unfolding execute_ddl ◌>>=◌
  execute_ddl-ok h = elim (Bool-cases (is_connected w.database)) [
    | inl c ↦ rw c (fault_cases (env.fault w.calls) refl (rw c at h))
    | inr c ↦ absurd (ground (arith, rw c at h))
  ]

execute_all-AllCreated :
    (env : Env) (ddls : List Ddl) (w : World)
    → (execute_all env ddls w).0 ≡ ok tt
    → AllCreated ddls (execute_all env ddls w).1.catalog
unfolding execute_all
execute_all-AllCreated env [] w h = tt
execute_all-AllCreated env (ddl ∷ ddls) w h =
    let (u, first, run) = >>=-ok (execute_ddl env ddl) (λ _. execute_all env ddls) w tt h in
    let w1 = (execute_ddl env ddl w).1 in
    let rest = rw run at h in
    let grown = (Respects-execute_all env ddls).at w1 in
    rw run (
      grown.catalog (name_of ddl) (execute_ddl-ok env ddl w first),
      execute_all-AllCreated env ddls w1 rest,
    )
