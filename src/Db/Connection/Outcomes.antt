-- ===== src/Db/Connection/Outcomes.antt =====
-- The ways in which `execute` can end, as cases for the proofs about its callers.
use nobleport.Prelude.{◌≡◌, refl, true, inl, inr, Option, none, some, arith, Bool-cases}
use nobleport.Schema.{Tables}
use nobleport.World.{
  Env, Fault, fine, before, after, interrupt, Exn, failure, assertion_error, integrity_error, World,
  Effect, ok, raised, ◌>>=◌, tick, external_call, emit,
}
use nobleport.Db.Connection.{is_connected, execute}

-- the world after a statement that took effect
abbrev pub written : Effect → World → Tables → World
written effect w t = emit effect (record (tick w) { tables = t })

module _ (env : Env) (statement : Tables → Option Tables) (effect : Effect) (w : World) where
  -- `half_done` is a call that raises although its statement took effect
  pub data ExecuteCases : Type 0 where
    done :
        (t : Tables)
        → statement w.tables ≡ some t
        → execute env statement effect w ≡ (ok tt, written effect w t)
        → ExecuteCases
    failed : (e : Exn) → execute env statement effect w ≡ (raised e, tick w) → ExecuteCases
    half_done :
        (e : Exn) (t : Tables)
        → statement w.tables ≡ some t
        → execute env statement effect w ≡ (raised e, written effect w t)
        → ExecuteCases
    refused : execute env statement effect w ≡ (raised (failure assertion_error), w) → ExecuteCases

  fault_and_tables :
      (f : Fault) (o : Option Tables)
      → env.fault w.calls ≡ f
      → statement w.tables ≡ o
      → is_connected w.database ≡ true
      → ExecuteCases
  unfolding execute external_call ◌>>=◌
  fault_and_tables fine none ef eo c = failed (failure integrity_error) (ground arith)
  fault_and_tables fine (some t) ef eo c = done t eo (ground arith)
  fault_and_tables (before i) o ef eo c = failed (interrupt i) (ground arith)
  fault_and_tables (after i) none ef eo c = failed (interrupt i) (ground arith)
  fault_and_tables (after i) (some t) ef eo c = half_done (interrupt i) t eo (ground arith)

  pub execute_cases : ExecuteCases
  unfolding execute ◌>>=◌
  execute_cases = elim (Bool-cases (is_connected w.database)) [
    | inl c ↦ fault_and_tables (env.fault w.calls) (statement w.tables) refl refl c
    | inr c ↦ refused (ground arith)
  ]

  -- A statement that returns has taken effect.
  pub execute-ok :
      (execute env statement effect w).0 ≡ ok tt
      → (t : Tables) × (statement w.tables ≡ some t)
        × (execute env statement effect w ≡ (ok tt, written effect w t))
  execute-ok h = elim execute_cases [
    | done t st e ↦ (t, st, e)
    | failed x e ↦ absurd (ground (arith, e, h))
    | half_done x t st e ↦ absurd (ground (arith, e, h))
    | refused e ↦ absurd (ground (arith, e, h))
  ]

  -- With a connection, no fault and no constraint in the way, a statement takes effect.
  pub execute_calm :
      (t : Tables)
      → env.fault w.calls ≡ fine
      → is_connected w.database ≡ true
      → statement w.tables ≡ some t
      → execute env statement effect w ≡ (ok tt, written effect w t)
  unfolding execute external_call ◌>>=◌
  execute_calm t f c st = ground arith
