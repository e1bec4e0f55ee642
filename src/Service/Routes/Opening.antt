-- ===== src/Service/Routes/Opening.antt =====
-- The objects of a process where no call fails.
use nobleport.Prelude.{ℕ, ◌≡◌, refl, ap, ◌∙◌, Bool, true, false, none, some}
use nobleport.World.{
  fine, Database, World, Exec, BusKind, null_bus, redis_bus, ok, pure, tick, reading, external_call,
}
use nobleport.World.Runs.{Runs, Runs-pure, Runs-reading, Runs-external_call}
use nobleport.Config.{Settings, from_env, bus_of}
use nobleport.Db.Connection.{is_connected}
use nobleport.Db.Lifecycle.{new_database, connect}
use nobleport.Db.Lifecycle.Laws.Calm.{connect-Runs}
use nobleport.Db.Migrate.{migrate}
use nobleport.Db.Migrate.Laws.Calm.{migrate-Runs}
use nobleport.Service.Monad.{State, return, lift, ◌>>=◌, ◌>>◌}
use nobleport.Service.Runs.{
  Returns, Returns-return, Returns-lift, Returns-bind, Returns-reads, Returns-same,
  Returns-try_except,
}
use nobleport.Service.Laws.{get_settings-known, get_database-unmade}
use nobleport.Service.{
  open_database, new_event_bus, bus_if, client_if, set_client, Boot, get_settings, get_database,
  get_event_bus, put_bus, redis_connect, redis_ping, ping_of, ping,
}

-- a process that has read no settings and made no database yet
pub record IsFresh (s : State) : Type 0 where
  pub settings : s.settings ≡ none
  pub database : s.database_made ≡ false

-- a process with its settings read and its database connected
pub record IsUp (settings : Settings) (s : State) : Type 0 where
  pub known : s.settings ≡ some settings
  pub made : s.database_made ≡ true
  pub connected : is_connected s.world.database ≡ true

-- No call fails, the settings can be read and name a database, and Redis answers to pings.
pub record IsFaultless (boot : Boot) (settings : Settings) (db : Database) : Type 0 where
  pub faultless : (n : ℕ) → boot.env.fault n ≡ fine
  pub read : from_env boot.int_of_text boot.environ ≡ some settings
  pub url : new_database settings.database_url ≡ some db
  pub pongs : (n : ℕ) → boot.pong n ≡ true

module _ {boot : Boot} {settings : Settings} {db : Database}
    (calm : IsFaultless boot settings db) where
  get_settings-fresh :
      (s : State)
      → s.settings ≡ none
      → get_settings boot s ≡ (ok settings, record s { settings = some settings })
  unfolding get_settings ◌>>=◌
  get_settings-fresh s h = rw (h, calm.read) refl

  opening-Returns :
      (s : State)
      → s.settings ≡ some settings
      → s.database_made ≡ true
      → Returns (lift (connect boot.env) >> lift (migrate boot.env)) (λ u s'. IsUp settings s') s
  opening-Returns s k m =
      Returns-bind (λ u s'. IsUp settings s') _ _ _ s
        (Returns-lift (λ u w. is_connected w.database ≡ true) _ (connect boot.env) s
          (connect-Runs boot.env calm.faultless s.world)
          (λ u w c. record { known = k; made = m; connected = c }))
        (λ u s1 up.
          Returns-lift (λ u w. is_connected w.database ≡ true) _ (migrate boot.env) s1
            (migrate-Runs boot.env calm.faultless s1.world up.connected)
            (λ u w c. record { known = up.known; made = up.made; connected = c }))

  open_database-Returns :
      (s : State) → s.settings ≡ none → Returns (open_database boot) (λ u s'. IsUp settings s') s
  unfolding open_database ◌>>=◌
  open_database-Returns s f =
      let r =
        opening-Returns
          (record s {
            settings = some settings;
            database_made = true;
            world = record s.world { database = db };
          })
          refl refl in
      record {
        value = r.value;
        state = r.state;
        runs = rw (get_settings-fresh s f, calm.url) r.runs;
        post = r.post;
      }

  pub get_database-Returns :
      (s : State) → IsFresh s → Returns (get_database boot) (λ u s'. IsUp settings s') s
  get_database-Returns s f =
      Returns-same _ _ _ s (get_database-unmade boot s f.database)
        (open_database-Returns s f.settings)

  bus_if-Returns :
      (b : Bool) (s : State)
      → IsUp settings s
      → Returns (bus_if boot b) (λ u s'. IsUp settings s') s
  unfolding new_event_bus ◌>>=◌
  bus_if-Returns true s up = Returns-return _ tt s up
  bus_if-Returns false s up = record {
    value = tt;
    state = (put_bus (bus_of settings) s).1;
    runs = rw (get_settings-known boot settings s up.known) refl;
    post = record { known = up.known; made = up.made; connected = up.connected };
  }

  pub get_event_bus-Returns :
      (s : State) → IsUp settings s → Returns (get_event_bus boot) (λ u s'. IsUp settings s') s
  unfolding get_event_bus
  get_event_bus-Returns s up = Returns-reads _ _ _ s (bus_if-Returns s.bus_made s up)

  -- a call of a driver that changes nothing
  pub IsUp-call :
      {A : Type 0} (P : A → Type 0) (act : Exec A) (s : State)
      → ((w : World) → Runs act (λ a w'. P a × (w'.database ≡ w.database)) w)
      → IsUp settings s
      → Returns (lift (external_call boot.env act)) (λ a s'. P a × IsUp settings s') s
  IsUp-call P act s p up =
      Returns-lift (λ a w. P a × (w.database ≡ s.world.database)) _ _ s
        (Runs-external_call _ boot.env act s.world (calm.faultless s.world.calls)
          (p (tick s.world)))
        (λ a w q. (
          q.0,
          record {
            known = up.known;
            made = up.made;
            connected = ap is_connected q.1 ∙ up.connected;
          },
        ))

  client_if-Returns :
      (b : Bool) (s : State)
      → IsUp settings s
      → Returns (client_if boot b) (λ u s'. IsUp settings s') s
  client_if-Returns true s up = Returns-return _ tt s up
  client_if-Returns false s up =
      Returns-bind (λ u s'. Unit × IsUp settings s') _ _ _ s
        (IsUp-call (λ u. Unit) (pure tt) s (λ w. Runs-pure _ tt w (tt, refl)) up)
        (λ u s' k. record {
          value = tt;
          state = (set_client true s').1;
          runs = refl;
          post = record { known = k.1.known; made = k.1.made; connected = k.1.connected };
        })

  redis_connect-Returns :
      (s : State) → IsUp settings s → Returns (redis_connect boot) (λ u s'. IsUp settings s') s
  unfolding redis_connect
  redis_connect-Returns s up = Returns-reads _ _ _ s (client_if-Returns s.redis_client s up)

  ping_of-Returns :
      (bus : BusKind) (s : State)
      → IsUp settings s
      → Returns (ping_of boot bus) (λ b s'. (b ≡ true) × IsUp settings s') s
  unfolding redis_ping
  ping_of-Returns null_bus s up = Returns-return _ true s (refl, up)
  ping_of-Returns redis_bus s up =
      Returns-try_except _ _ (λ e. return false) s
        (Returns-bind (λ u s'. IsUp settings s') _ _ _ s (redis_connect-Returns s up)
          (λ u s' k.
            IsUp-call (λ b. b ≡ true) (reading boot.pong) s'
              (λ w. Runs-reading _ boot.pong w (calm.pongs w.calls, refl)) k))

  pub ping-Returns :
      (s : State) → IsUp settings s → Returns (ping boot) (λ b s'. (b ≡ true) × IsUp settings s') s
  unfolding ping
  ping-Returns s up = Returns-reads _ _ _ s (ping_of-Returns s.world.bus_kind s up)
