-- ===== src/Tests/Boot.antt =====
-- A process of concrete surroundings: SQLite, no Redis.
use nobleport.Prelude.{◌≡◌, refl, true, false, none, some, [], ◌∷◌}
use nobleport.Python.Text.{codes}
use nobleport.Python.Int.{pos}
use nobleport.Python.Text.Strip.{is_space, strip, split_commas}
use nobleport.World
use nobleport.World.{
  Env, World, Database, sqlite, Result, ok, raised, before, error, Interruption, interrupt,
  external_call,
}
use nobleport.Config.{Settings, clean, from_env}
use nobleport.Db.Lifecycle.{
  starts_with, dialect_of, new_database, close, close_sqlite, close_postgres,
}
use nobleport.Db.Lifecycle.Laws.{not_made}
use nobleport.Db.Migrate.{migrate}
use nobleport.Db.Migrate.Laws.Again.{Migrated, migrate-Migrated}
use nobleport.Service.Monad.{State, ◌>>=◌}
use nobleport.Service.{Boot, reset_event_bus, close_bus, reset_database}
use nobleport.Service.Routes.{ReadyResponse, HealthResponse, ready, health, startup, shutdown}
use nobleport.Service.Routes.Opening.{IsFaultless}
use nobleport.Service.Routes.Started.{SaysReady, Serves, startup-Serves}
use nobleport.Service.Routes.Stopped.{IsDown, shutdown-IsDown}
use nobleport.Service.Routes.Stuck.{Sticks, failed_connection-Sticks}
use nobleport.Agent.Step.{default_supervisor_step}
use nobleport.Tests.Data.{calm_env, broken_env, builtins, world1}

abbrev boot1 : Boot
boot1 = record {
  env = calm_env;
  int_of_text = λ t. some (pos 60);
  environ = λ name. none;
  import_error = none;
  pong = λ n. true;
  step_fn = default_supervisor_step builtins;
}

abbrev broken_boot : Boot
broken_boot = record boot1 { env = broken_env }

abbrev settings1 : Settings
settings1 = record {
  database_url = codes "sqlite+aiosqlite:///./nobleport.db";
  redis_url = [];
  redis_channel = codes "agent.events";
  allowed_commands = codes "pytest" ∷ codes "flake8" ∷ [];
  sandbox_timeout_seconds = pos 60;
  enable_redis = false;
}

abbrev closed_sqlite : Database
closed_sqlite = record { dialect = sqlite; sqlite_conn = false; pg_pool = false }

abbrev fresh1 : State
fresh1 = record {
  settings = none;
  database_made = false;
  bus_made = false;
  redis_client = false;
  supervisor = none;
  world = world1;
}

abbrev configured1 : State
configured1 = record fresh1 { settings = some settings1 }

url1 : new_database settings1.database_url ≡ some closed_sqlite
unfolding new_database dialect_of starts_with codes
url1 = refl

read1 : from_env boot1.int_of_text boot1.environ ≡ some settings1
unfolding from_env clean codes strip split_commas is_space
read1 = refl

abbrev faultless1 : IsFaultless boot1 settings1 closed_sqlite
faultless1 = record { faultless = λ n. refl; read = read1; url = url1; pongs = λ n. refl }

migrate-Migrated_example : Migrated world1 (migrate calm_env world1).0 (migrate calm_env world1).1
migrate-Migrated_example = migrate-Migrated calm_env world1

failed_connection-Sticks_example : Sticks broken_boot configured1 settings1 closed_sqlite (error 0)
failed_connection-Sticks_example =
    failed_connection-Sticks broken_boot configured1 settings1 closed_sqlite (error 0) refl refl
      url1 not_made

startup-Serves_example :
    ((s1 : State) × (startup boot1 fresh1 ≡ (ok tt, s1)))
    × ((t : State)
        → Serves faultless1 fresh1 t
        → ((r : ReadyResponse) × ((ready boot1 t).0 ≡ ok r) × SaysReady r)
          × ((h : HealthResponse) × ((health boot1 t).0 ≡ ok h) × (h.status ≡ codes "ok")))
startup-Serves_example =
    startup-Serves faultless1 fresh1 (record { settings = refl; database = refl })

abbrev up1 : State
up1 = record configured1 { database_made = true; bus_made = true }

down1 : (shutdown boot1 up1).0 ≡ ok tt
unfolding shutdown reset_event_bus close_bus reset_database close close_sqlite close_postgres
    external_call World.◌>>=◌ ◌>>=◌
down1 = refl

shutdown-IsDown_example : IsDown boot1 up1 (shutdown boot1 up1).1
shutdown-IsDown_example = shutdown-IsDown boot1 up1 down1
