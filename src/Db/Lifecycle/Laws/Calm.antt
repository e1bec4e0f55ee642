-- ===== src/Db/Lifecycle/Laws/Calm.antt =====
-- Without faults, `connect` and `close` of app/db/connection.py return.
use nobleport.Prelude.{ℕ, ◌≡◌, refl, subst, ap, Bool, true}
use nobleport.World.{
  Env, fine, World, Dialect, sqlite, postgres, Exec, Result, ok, pure, ◌>>=◌, ◌>>◌, tick,
}
use nobleport.World.Runs.{Runs, Runs-pure, Runs-bind, Runs-external_call}
use nobleport.Db.Connection.{is_connected}
use nobleport.Db.Lifecycle.{
  driver_call, set_sqlite_conn, set_pg_pool, connect_sqlite, connect_postgres, connect_as, connect,
}
use nobleport.Db.Lifecycle.Laws.{is_connected-connect}

module _ (env : Env) (faultless : (n : ℕ) → env.fault n ≡ fine) where
  driver_call-Runs : (w : World) → Runs (driver_call env) (λ u w'. Unit) w
  driver_call-Runs w =
      Runs-external_call _ env (pure tt) w (faultless w.calls) (Runs-pure _ tt (tick w) tt)

  Runs-then :
      (m : Exec Unit) (w : World)
      → ((w' : World) → Runs m (λ u w''. Unit) w')
      → Runs (driver_call env >> m) (λ u w'. Unit) w
  Runs-then m w k = Runs-bind (λ u w'. Unit) _ _ _ w (driver_call-Runs w) (λ u w' x. k w')

  set-Runs : (b : Bool) (w : World) → Runs (set_sqlite_conn b) (λ u w'. Unit) w
  set-Runs b w = record { value = tt; world = (set_sqlite_conn b w).1; runs = refl; post = tt }

  connect_as-Runs : (d : Dialect) (w : World) → Runs (connect_as env d) (λ u w'. Unit) w
  unfolding connect_sqlite connect_postgres
  connect_as-Runs sqlite w = Runs-then _ w λ w1.
      Runs-bind (λ u w'. Unit) _ _ _ w1 (set-Runs true w1) λ u w2 x. Runs-then _ w2 driver_call-Runs
  connect_as-Runs postgres w =
      Runs-then _ w
        λ w1. record { value = tt; world = (set_pg_pool true w1).1; runs = refl; post = tt }

  -- the database is connected
  pub connect-Runs : (w : World) → Runs (connect env) (λ u w'. is_connected w'.database ≡ true) w
  unfolding connect ◌>>=◌
  connect-Runs w =
      let r = connect_as-Runs w.database.dialect w in
      let returned : (connect env w).0 ≡ ok tt = ap (λ x. x.0) r.runs in
      record {
        value = r.value;
        world = r.world;
        runs = r.runs;
        post =
            subst (λ (x : Result Unit × World). is_connected x.1.database ≡ true) r.runs
              (is_connected-connect env w returned);
      }
