-- ===== src/Service/Routes/Stuck.antt =====
-- What follows, in app/db/connection.py and app/api/app.py, from a connection that failed.
mod Staying
use nobleport.Prelude.{
  ◌≡◌, refl, sym, subst, ◌∙◌, ap, Bool, true, false, Option, none, some, List, [], ◌∷◌,
}
use nobleport.Python.Text.{Text, codes}
use nobleport.World.{
  tick, Interruption, interrupt, failure, assertion_error, Database, Result, ok, raised,
}
use nobleport.World.Binds.{eq_of_ok}
use nobleport.Config.{Settings}
use nobleport.Db.Connection.{is_connected}
use nobleport.Db.Connection.Calls.{fetch-unconnected}
use nobleport.Db.Lifecycle.{new_database}
use nobleport.Db.Lifecycle.Laws.{Fails, new_database-unconnected, connect-Fails}
use nobleport.Service.Monad.{Service, State, App, reads, return, proceed, ◌>>=◌}
use nobleport.Service.{
  Boot, get_settings, open_database, get_database, get_supervisor, supervisor_or_new,
  new_supervisor, put_supervisor, get_event_bus,
}
use nobleport.Service.Laws.{
  SameDatabase, Keeps, Keeps-return, Keeps-bind, Keeps-try_except, get_settings-Keeps, Keeps-reads,
  get_event_bus-Keeps, ping-Keeps, proceed-ok, get_database-made, get_database-unmade,
  get_settings-known, proceed-ok,
}
use nobleport.Service.Routes.{
  ReadyResponse, probe_database, check_database, check_redis, redis_detail, ready_response, ready,
  health,
}
use nobleport.Service.Routes.Stuck.Staying.{
  IsStuck, get_database-stuck, ready-stuck, Probe, after_probes, after_probes-IsStuck,
}

module _ (boot : Boot) (s : State) (settings : Settings) (db : Database) (i : Interruption) where
  first_use :
      s.database_made ≡ false
      → s.settings ≡ some settings
      → new_database settings.database_url ≡ some db
      → Fails i (boot.env.fault s.world.calls)
      → get_database boot s ≡ (
        raised (interrupt i),
        record s { database_made = true; world = tick (record s.world { database = db }) },
      )
  unfolding open_database ◌>>=◌
  first_use unmade known url f =
      get_database-unmade boot s unmade
      ∙ rw
          (
            get_settings-known boot settings s known,
            url,
            connect-Fails boot.env (record s.world { database = db }) i f,
          )
          refl

  -- what becomes of a process whose first connection failed
  pub record Sticks : Type 0 where
    pub raises : (get_database boot s).0 ≡ raised (interrupt i)
    pub never_again :
        (probes : List (Probe × Boot)) (later : Boot)
        → let t = after_probes probes (get_database boot s).1 in get_database later t ≡ (ok tt, t)
    pub not_ready :
        (probes : List (Probe × Boot)) (later : Boot) (r : ReadyResponse)
        → (ready later (after_probes probes (get_database boot s).1)).0 ≡ ok r
        → (r.ready ≡ false) × (r.db ≡ false)

  -- If the settings are cached, with a URL that is supported, no database is made yet and the
  -- first await of its connection raises, before or after it was carried out, get_database
  -- raises, but the database is kept. However the environment recovers, after any number of
  -- requests to /ready and /health, get_database returns it at once and makes no second attempt,
  -- and a request to /ready that returns answers that the process is not ready. A reset of the
  -- database is no such request.
  pub failed_connection-Sticks :
      s.database_made ≡ false
      → s.settings ≡ some settings
      → new_database settings.database_url ≡ some db
      → Fails i (boot.env.fault s.world.calls)
      → Sticks
  failed_connection-Sticks unmade known url f =
      let run = first_use unmade known url f in
      let stuck : IsStuck (get_database boot s).1 = rw run (record {
        made = refl;
        unconnected = new_database-unconnected settings.database_url db url;
      }) in
      record {
        raises = rw run refl;
        never_again = λ probes later.
            get_database-stuck later _ (after_probes-IsStuck probes (get_database boot s).1 stuck);
        not_ready = λ probes later r.
            ready-stuck later _ r (after_probes-IsStuck probes (get_database boot s).1 stuck);
      }
