-- ===== src/Service.antt =====
-- The objects that the process keeps: the settings of app/config.py, the database of
-- app/db/connection.py, the bus of app/redis_bus/events.py and the supervisor of
-- app/agent/runtime.py, each made at its first use.
pub mod Monad
pub mod Runs
pub mod Routes
pub mod Laws
use nobleport.Prelude.{
  ℕ, Bool, true, false, ◌||◌, Option, none, some, List, [], ◌∷◌, ◌++◌, if◌then◌else◌,
}
use nobleport.Python.Text.{Text, codes}
use nobleport.Python.Int.{ℤ}
use nobleport.Python.Json.{Fields}
use nobleport.World.{
  Env, Database, BusKind, null_bus, redis_bus, World, Exec, ok, raised, failure, value_error,
  reading, external_call,
}
use nobleport.Config.{Settings, from_env, bus_of}
use nobleport.Db.Lifecycle.{starts_with, new_database, driver_call, connect, close}
use nobleport.Db.Migrate.{migrate}
use nobleport.Agent.Runtime.{Supervisor}
use nobleport.Service.Monad.{
  State, Service, App, return, throw, reads, lift, ◌>>=◌, ◌>>◌, try_except,
}

-- What surrounds the process: the environment of the coroutines, Python's `int`, the environment
-- variables, the text of the error when the package LangGraph cannot be imported, the answers of
-- Redis to a ping, and the default step.
pub record Boot : Type 0 where
  pub env : Env
  pub int_of_text : Text → Option ℤ
  pub environ : Text → Option Text
  pub import_error : Option Text
  pub pong : ℕ → Bool
  pub step_fn : Fields → Exec Fields

abbrev pub put_settings : Option Settings → App Unit
put_settings o s = (ok tt, record s { settings = o })

abbrev pub put_database : Database → App Unit
put_database db s =
    (ok tt, record s { database_made = true; world = record s.world { database = db } })

abbrev pub forget_database : App Unit
forget_database s = (ok tt, record s { database_made = false })

-- a new bus has recorded nothing and has no client yet
abbrev pub put_bus : BusKind → App Unit
put_bus kind s = (
  ok tt,
  record s {
    bus_made = true;
    redis_client = false;
    world = record s.world { bus_kind = kind; events = [] };
  },
)

abbrev pub forget_bus : App Unit
forget_bus s = (ok tt, record s { bus_made = false })

abbrev pub set_client : Bool → App Unit
set_client b s = (ok tt, record s { redis_client = b })

abbrev pub put_supervisor : Option Service → App Unit
put_supervisor o s = (ok tt, record s { supervisor = o })

-- `try_langgraph_postgres_saver`: whether the saver is there, and the text about it
unfoldable pub try_langgraph_postgres_saver : Option Text → Text → Bool × Text
unfolding codes
try_langgraph_postgres_saver import_error url =
    if starts_with (codes "postgres") url || starts_with (codes "postgresql") url
    then elim import_error [
      | none ↦ (true, codes "langgraph.checkpoint.postgres.PostgresSaver")
      | some e ↦ (false, codes "langgraph PostgresSaver unavailable: " ++ e)
    ]
    else (false, codes "database_url is not postgres")

-- `info or "project PostgresCheckpointer"`
abbrev pub or_project : Text → Text
or_project [] = codes "project PostgresCheckpointer"
or_project (c ∷ info) = c ∷ info

module _ (boot : Boot) where
  -- `Settings.from_env()`, kept
  abbrev pub read_settings : Option Settings → App Settings
  read_settings none = throw (failure value_error)
  read_settings (some settings) = do put_settings (some settings); return settings

  abbrev pub settings_or_read : Option Settings → App Settings
  settings_or_read (some settings) = return settings
  settings_or_read none = read_settings (from_env boot.int_of_text boot.environ)

  unfoldable pub get_settings : App Settings
  get_settings = do cached ← reads (λ s. s.settings); settings_or_read cached

  abbrev pub reset_settings : App Unit
  reset_settings = put_settings none

  -- `_db = Database(url)`; `none` is the ValueError
  abbrev pub make_database : Option Database → App Unit
  make_database none = throw (failure value_error)
  make_database (some db) = put_database db

  -- the branch of `get_database` that makes it
  unfoldable pub open_database : App Unit
  unfolding get_settings
  open_database = do
    settings ← get_settings
    make_database (new_database settings.database_url)
    lift (connect boot.env)
    lift (migrate boot.env)

  abbrev pub database_if : Bool → App Unit
  database_if true = return tt
  database_if false = open_database

  unfoldable pub get_database : App Unit
  unfolding open_database
  get_database = do made ← reads (λ s. s.database_made); database_if made

  abbrev pub close_database_if : Bool → App Unit
  close_database_if true = do lift (close boot.env); forget_database
  close_database_if false = return tt

  unfoldable pub reset_database : App Unit
  reset_database = do made ← reads (λ s. s.database_made); close_database_if made

  -- the branch of `get_event_bus` that makes it
  unfoldable pub new_event_bus : App Unit
  unfolding get_settings
  new_event_bus = do settings ← get_settings; put_bus (bus_of settings)

  abbrev pub bus_if : Bool → App Unit
  bus_if true = return tt
  bus_if false = new_event_bus

  unfoldable pub get_event_bus : App Unit
  unfolding new_event_bus
  get_event_bus = do made ← reads (λ s. s.bus_made); bus_if made

  -- `set_event_bus` with a new bus
  abbrev pub set_event_bus : BusKind → App Unit
  set_event_bus = put_bus

  -- `RedisEventBus._connect`
  abbrev pub client_if : Bool → App Unit
  client_if true = return tt
  client_if false = do lift (driver_call boot.env); set_client true

  unfoldable pub redis_connect : App Unit
  redis_connect = do connected ← reads (λ s. s.redis_client); client_if connected

  unfoldable pub redis_ping : App Bool
  unfolding redis_connect
  redis_ping =
      try_except (do redis_connect; lift (external_call boot.env (reading boot.pong)))
        (λ e. return false)

  -- the `ping` of the bus
  abbrev pub ping_of : BusKind → App Bool
  ping_of null_bus = return true
  ping_of redis_bus = redis_ping

  unfoldable pub ping : App Bool
  unfolding redis_ping
  ping = do kind ← reads (λ s. s.world.bus_kind); ping_of kind

  -- the `close` of the bus
  abbrev pub close_client_if : Bool → App Unit
  close_client_if true = do lift (driver_call boot.env); set_client false
  close_client_if false = return tt

  unfoldable pub redis_close : App Unit
  redis_close = do connected ← reads (λ s. s.redis_client); close_client_if connected

  abbrev pub close_bus_of : BusKind → App Unit
  close_bus_of null_bus = return tt
  close_bus_of redis_bus = redis_close

  unfoldable pub close_bus : App Unit
  unfolding redis_close
  close_bus = do kind ← reads (λ s. s.world.bus_kind); close_bus_of kind

  abbrev pub close_bus_if : Bool → App Unit
  close_bus_if true = do close_bus; forget_bus
  close_bus_if false = return tt

  unfoldable pub reset_event_bus : App Unit
  unfolding close_bus
  reset_event_bus = do made ← reads (λ s. s.bus_made); close_bus_if made

  -- `Supervisor(db=db, bus=bus)`
  abbrev pub new_supervisor : Settings → Service
  new_supervisor settings = record {
    supervisor = record {
      step_fn = boot.step_fn;
      max_steps = 8;
      redis_channel = settings.redis_channel;
    };
    checkpoint_backend_info =
        or_project (try_langgraph_postgres_saver boot.import_error settings.database_url).1;
  }

  abbrev pub supervisor_or_new : Option Service → App Service
  supervisor_or_new (some service) = return service
  supervisor_or_new none = do
    get_database
    get_event_bus
    settings ← get_settings
    put_supervisor (some (new_supervisor settings))
    return (new_supervisor settings)

  unfoldable pub get_supervisor : App Service
  unfolding get_database get_event_bus get_settings try_langgraph_postgres_saver
  get_supervisor = do cached ← reads (λ s. s.supervisor); supervisor_or_new cached

  abbrev pub reset_supervisor : App Unit
  reset_supervisor = put_supervisor none
