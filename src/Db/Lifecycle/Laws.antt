-- ===== src/Db/Lifecycle/Laws.antt =====
-- What connecting and closing a `Database` of app/db/connection.py leaves.
pub mod Calm
use nobleport.Prelude.{◌≡◌, refl, subst, ◌∙◌, ap, Bool, true, false, Option, none, some, arith}
use nobleport.Python.Text.{Text}
use nobleport.Schema.{Tables}
use nobleport.World.{
  Env, Fault, fine, before, after, Interruption, interrupt, tick, Result, Dialect, sqlite, postgres,
  Database, World, Effect, pure, ok, raised, failure, assertion_error, ◌>>=◌, external_call,
}
use nobleport.World.Binds.{>>=-ok}
use nobleport.Db.Connection.{is_connected, execute}
use nobleport.Db.Lifecycle.{
  dialect_of, new_database, set_sqlite_conn, set_pg_pool, driver_call, connect_sqlite,
  connect_postgres, connect_as, connect, close_if, close_sqlite, close_postgres, close,
}

-- a call that returned and what it left
driver_call-ok :
    (env : Env) (w : World) → (driver_call env w).0 ≡ ok tt → driver_call env w ≡ (ok tt, tick w)
unfolding external_call ◌>>=◌
driver_call-ok env w h = fault_cases (env.fault w.calls) refl
  where
    fault_cases : (f : Fault) → env.fault w.calls ≡ f → driver_call env w ≡ (ok tt, tick w)
    fault_cases fine e = rw (e, external_call) refl
    fault_cases (before i) e = absurd (ground (arith, h, e))
    fault_cases (after i) e = absurd (ground (arith, h, e))

module _ (env : Env) (w : World) where
  sqlite_cases :
      (b : Bool)
      → w.database.sqlite_conn ≡ b
      → (close_if env (set_sqlite_conn false) b w).0 ≡ ok tt
      → (close_if env (set_sqlite_conn false) b w).1.database.sqlite_conn ≡ false
  unfolding ◌>>=◌
  sqlite_cases true e h =
      let (u, done, run) = >>=-ok (driver_call env) (λ _. set_sqlite_conn false) w tt h in
      ap (λ (r : Result Unit × World). r.1.database.sqlite_conn) run
  sqlite_cases false e h = e

  postgres_cases :
      (b : Bool)
      → w.database.pg_pool ≡ b
      → (close_if env (set_pg_pool false) b w).0 ≡ ok tt
      → ((close_if env (set_pg_pool false) b w).1.database.pg_pool ≡ false)
        × ((close_if env (set_pg_pool false) b w).1.database.sqlite_conn ≡ w.database.sqlite_conn)
  unfolding ◌>>=◌
  postgres_cases true e h =
      let (u, done, run) = >>=-ok (driver_call env) (λ _. set_pg_pool false) w tt h in
      (
        ap (λ (r : Result Unit × World). r.1.database.pg_pool) run,
        ap (λ (r : Result Unit × World). r.1.database.sqlite_conn) run
            ∙ ap (λ (r : Result Unit × World). r.1.database.sqlite_conn)
                (driver_call-ok env w done),
      )
  postgres_cases false e h = (e, refl)

  close_sqlite-closed :
      (close_sqlite env w).0 ≡ ok tt → (close_sqlite env w).1.database.sqlite_conn ≡ false
  unfolding close_sqlite ◌>>=◌
  close_sqlite-closed h = sqlite_cases w.database.sqlite_conn refl h

  close_postgres-closed :
      (close_postgres env w).0 ≡ ok tt
      → ((close_postgres env w).1.database.pg_pool ≡ false)
        × ((close_postgres env w).1.database.sqlite_conn ≡ w.database.sqlite_conn)
  unfolding close_postgres ◌>>=◌
  close_postgres-closed h = postgres_cases w.database.pg_pool refl h

not_connected :
    (db : Database) → db.sqlite_conn ≡ false → db.pg_pool ≡ false → is_connected db ≡ false
not_connected db a b = dialect_cases db.dialect refl
  where
    dialect_cases : (d : Dialect) → db.dialect ≡ d → is_connected db ≡ false
    dialect_cases sqlite e = rw e a
    dialect_cases postgres e = rw e b

pub close-not_connected :
    (env : Env) (w : World)
    → (close env w).0 ≡ ok tt
    → is_connected (close env w).1.database ≡ false
unfolding close
close-not_connected env w h =
    let (u, done, run) = >>=-ok (close_sqlite env) (λ _. close_postgres env) w tt h in
    let h' = rw run at h in
    rw run (
      not_connected _
        ((close_postgres-closed env (close_sqlite env w).1 h').1 ∙ close_sqlite-closed env w done)
        (close_postgres-closed env (close_sqlite env w).1 h').0)

-- After a `close` that returned, every statement is refused with an AssertionError and changes
-- nothing, whichever the dialect was.
pub execute-close :
    (env env' : Env) (w : World) (statement : Tables → Option Tables) (effect : Effect)
    → (close env w).0 ≡ ok tt
    → execute env' statement effect (close env w).1
      ≡ (raised (failure assertion_error), (close env w).1)
unfolding execute ◌>>=◌
execute-close env env' w statement effect h = rw (close-not_connected env w h) refl

module _ (env : Env) (w : World) where
  connect_sqlite-done :
      (connect_sqlite env w).0 ≡ ok tt
      → (connect_sqlite env w).1.database ≡ record w.database { sqlite_conn = true }
  unfolding connect_sqlite
  connect_sqlite-done h =
      let (u1, d1, n1) = >>=-ok _ _ w tt h in
      let h1 = rw n1 at h in
      let (u2, d2, n2) = >>=-ok _ _ _ tt h1 in
      let h2 = rw n2 at h1 in
      let (u3, d3, n3) = >>=-ok _ _ _ tt h2 in
      let h3 = rw n3 at h2 in
      rw (n1, n2, n3, driver_call-ok env _ h3, driver_call-ok env _ d3, driver_call-ok env w d1)
        refl

  connect_postgres-done :
      (connect_postgres env w).0 ≡ ok tt
      → (connect_postgres env w).1.database ≡ record w.database { pg_pool = true }
  unfolding connect_postgres
  connect_postgres-done h =
      let (u1, d1, n1) = >>=-ok _ _ w tt h in rw (n1, driver_call-ok env w d1) refl

  dialect_connected :
      (d : Dialect)
      → w.database.dialect ≡ d
      → (connect_as env d w).0 ≡ ok tt
      → is_connected (connect_as env d w).1.database ≡ true
  dialect_connected sqlite e h = rw (connect_sqlite-done h, e) refl
  dialect_connected postgres e h = rw (connect_postgres-done h, e) refl

  -- After a `connect` that returned, the database accepts statements, whichever its dialect is.
  pub is_connected-connect :
      (connect env w).0 ≡ ok tt → is_connected (connect env w).1.database ≡ true
  unfolding connect ◌>>=◌
  is_connected-connect h = dialect_connected w.database.dialect refl h

-- a database that was made from its URL is not connected yet
pub new_database-unconnected :
    (url : Text) (db : Database) → new_database url ≡ some db → is_connected db ≡ false
unfolding new_database
new_database-unconnected url db h = dialects (dialect_of url) refl
  where
    opened :
        (d : Dialect)
        → some (record { dialect = d; sqlite_conn = false; pg_pool = false }) ≡ some db
        → is_connected db ≡ false
    opened d e =
        let same = ap (λ o. elim o [ none ↦ db | some x ↦ x ]) e in
        subst (λ x. is_connected x ≡ false) same
          (not_connected (record { dialect = d; sqlite_conn = false; pg_pool = false }) refl refl)

    dialects : (o : Option Dialect) → dialect_of url ≡ o → is_connected db ≡ false
    dialects none e = absurd (ground (arith, rw (e, new_database) at h))
    dialects (some d) e = opened d (rw (e, new_database) at h)

-- the call raises, before or after it was carried out
pub data Fails (i : Interruption) : Fault → Type 0 where
  not_made : Fails i (before i)
  made : Fails i (after i)

driver_call-Fails :
    (env : Env) (w : World) (i : Interruption) (f : Fault)
    → Fails i f
    → env.fault w.calls ≡ f
    → driver_call env w ≡ (raised (interrupt i), tick w)
unfolding external_call pure
driver_call-Fails env w i _ not_made e = rw (e, external_call) refl
driver_call-Fails env w i _ made e = rw (e, external_call) refl

-- the first await of `connect` raises
pub connect-Fails :
    (env : Env) (w : World) (i : Interruption)
    → Fails i (env.fault w.calls)
    → connect env w ≡ (raised (interrupt i), tick w)
unfolding connect connect_sqlite connect_postgres ◌>>=◌
connect-Fails env w i f = dialects w.database.dialect
  where
    run : driver_call env w ≡ (raised (interrupt i), tick w)
    run = driver_call-Fails env w i _ f refl

    dialects : (d : Dialect) → connect_as env d w ≡ (raised (interrupt i), tick w)
    dialects sqlite = rw (run, connect_sqlite, ◌>>=◌) refl
    dialects postgres = rw (run, connect_postgres, ◌>>=◌) refl
