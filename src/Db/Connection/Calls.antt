-- ===== src/Db/Connection/Calls.antt =====
-- How a call of the database can end.
use nobleport.Prelude.{◌≡◌, refl, ◌⊎◌, inl, inr, true, false, Option, none, some, arith, Bool-cases}
use nobleport.Schema.{Tables}
use nobleport.World.{
  Env, Fault, fine, before, after, interrupt, Exn, failure, assertion_error, World, Effect, ok,
  raised, gets, ◌>>=◌, tick, external_call, emit,
}
use nobleport.World.Respects.{
  Change, Respects, Respects-bind, Respects-gets, Respects-if, Respects-raise,
  Respects-external_call, respects_rules,
}
use nobleport.Db.Connection.{is_connected, run_statement, execute, fetch}

-- A query answers from the tables as they stand, or raises; no table changes.
abbrev pub FetchCases : {A : Type 0} → Env → (Tables → A) → World → Type 0
FetchCases env query w =
    (fetch env query w ≡ (ok (query w.tables), tick w))
    ⊎ ((e : Exn) × (fetch env query w ≡ (raised e, tick w)))
    ⊎ ((e : Exn) × (fetch env query w ≡ (raised e, w)))

fault_cases :
    {A : Type 0} (f : Fault) (env : Env) (query : Tables → A) (w : World)
    → env.fault w.calls ≡ f
    → is_connected w.database ≡ true
    → FetchCases env query w
unfolding fetch external_call ◌>>=◌
fault_cases fine env query w e c = inl (ground arith)
fault_cases (before i) env query w e c = inr (inl (interrupt i, ground arith))
fault_cases (after i) env query w e c = inr (inl (interrupt i, ground arith))

pub fetch_cases : {A : Type 0} (env : Env) (query : Tables → A) (w : World) → FetchCases env query w
unfolding fetch ◌>>=◌
fetch_cases env query w = elim (Bool-cases (is_connected w.database)) [
  | inl c ↦ fault_cases (env.fault w.calls) env query w refl c
  | inr c ↦ inr (inr (failure assertion_error, ground arith))
]

module _ (R : Change) (statement : Tables → Option Tables) (effect : Effect)
    (step : (w : World) (t : Tables)
      → statement w.tables ≡ some t
      → R.rel w (emit effect (record w { tables = t }))) where
  statement_change :
      (o : Option Tables) (w : World)
      → statement w.tables ≡ o
      → R.rel w (run_statement statement effect w).1
  unfolding run_statement
  statement_change none w e = rw (e, run_statement) (R.rel_refl w)
  statement_change (some t) w e = rw (e, run_statement) (step w t e)

  -- A statement that respects `R` wherever it succeeds is executed by `R`.
  pub Respects-execute : (env : Env) → Respects R (execute env statement effect)
  unfolding execute
  Respects-execute env = Respects-bind R _ _ (Respects-gets R _) λ db.
      Respects-if R (is_connected db) _ _
        (Respects-external_call R env _
          (record { at = λ w. statement_change (statement w.tables) w refl }))
        (Respects-raise R _)

-- A query changes no more than the count of the calls.
pub Respects-fetch :
    (R : Change) {A : Type 0} (env : Env) (query : Tables → A) → Respects R (fetch env query)
unfolding fetch
Respects-fetch R env query = search respects_rules

-- The same at one world, for a statement that rests on what was read there.
module _ (R : Change) (env : Env) (statement : Tables → Option Tables) (effect : Effect) (w : World)
    (step : (t : Tables)
      → statement w.tables ≡ some t
      → R.rel (tick w) (emit effect (record (tick w) { tables = t }))) where
  statement_change_at :
      (o : Option Tables)
      → statement w.tables ≡ o
      → R.rel w (run_statement statement effect (tick w)).1
  unfolding run_statement
  statement_change_at none e = rw (e, run_statement) (R.rel_tick w)
  statement_change_at (some t) e =
      rw (e, run_statement) (R.rel_trans w (tick w) _ (R.rel_tick w) (step t e))

  call_change_at :
      (f : Fault)
      → env.fault w.calls ≡ f
      → R.rel w (external_call env (run_statement statement effect) w).1
  unfolding external_call
  call_change_at fine e = rw (e, external_call) (statement_change_at (statement w.tables) refl)
  call_change_at (before i) e = rw (e, external_call) (R.rel_tick w)
  call_change_at (after i) e = rw (e, external_call) (statement_change_at (statement w.tables) refl)

  pub execute_at : R.rel w (execute env statement effect w).1
  unfolding execute ◌>>=◌
  execute_at = elim (Bool-cases (is_connected w.database)) [
    | inl c ↦ rw c (call_change_at (env.fault w.calls) refl)
    | inr c ↦ rw c (R.rel_refl w)
  ]

-- without a connection, a query is refused
pub fetch-unconnected :
    {A : Type 0} (env : Env) (query : Tables → A) (w : World)
    → is_connected w.database ≡ false
    → fetch env query w ≡ (raised (failure assertion_error), w)
unfolding fetch ◌>>=◌
fetch-unconnected env query w h = rw h refl

-- with one, it is an await on the driver
pub fetch-connected :
    {A : Type 0} (env : Env) (query : Tables → A) (w : World)
    → is_connected w.database ≡ true
    → fetch env query w ≡ external_call env (gets (λ w. query w.tables)) w
unfolding fetch ◌>>=◌
fetch-connected env query w h = rw h refl
