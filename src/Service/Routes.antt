-- ===== src/Service/Routes.antt =====
-- app/api/app.py: the lifespan of the application, and the routes /health and /ready.
pub mod Stuck
pub mod Opening
pub mod Started
pub mod Stopped
use nobleport.Prelude.{
  Bool, true, false, ◌&&◌, Option, none, some, List, [], ◌∷◌, ◌++◌, if◌then◌else◌,
}
use nobleport.Python.Text.{Text, codes}
use nobleport.World.{Exn, Result, ok, raised}
use nobleport.Config.{Settings}
use nobleport.Db.Connection.{fetch}
use nobleport.Service.Monad.{State, App, return, reads, lift, try_except, ◌>>=◌, ◌>>◌}
use nobleport.Service.{
  Boot, get_settings, get_database, reset_database, get_event_bus, reset_event_bus, ping,
  get_supervisor, reset_supervisor,
}

pub record HealthResponse : Type 0 where
  pub status : Text
  pub version : Text
  pub checkpoint_backend : Text

-- `detail` lists the entries of the dict in their order
pub record ReadyResponse : Type 0 where
  pub ready : Bool
  pub db : Bool
  pub redis : Option Bool
  pub detail : List (Text × Text)

abbrev pub version : Text
version = codes "0.1.0"

-- `redis_ok is None or redis_ok is True`
abbrev pub none_or_true : Option Bool → Bool
none_or_true none = true
none_or_true (some b) = b

abbrev pub ready_response :
    Bool × List (Text × Text) → Option Bool × List (Text × Text) → ReadyResponse
ready_response (db_ok, db_detail) (redis_ok, redis_detail) = record {
  ready = db_ok && none_or_true redis_ok;
  db = db_ok;
  redis = redis_ok;
  detail = db_detail ++ redis_detail;
}

abbrev pub redis_detail : Bool → List (Text × Text)
redis_detail true = []
redis_detail false = (codes "redis_error", codes "ping returned false") ∷ []

module _ (boot : Boot) where
  -- GET /health
  unfoldable pub health : App HealthResponse
  unfolding get_supervisor
  health = do
    sup ← get_supervisor boot
    return (record {
      status = codes "ok";
      version = version;
      checkpoint_backend = sup.checkpoint_backend_info;
    })

  -- `SELECT 1`
  unfoldable pub probe_database : App (Bool × List (Text × Text))
  unfolding get_database fetch
  probe_database = do get_database boot; lift (fetch boot.env (λ t. tt)); return (true, [])

  -- the check of the database, with what it adds to `detail`
  unfoldable pub check_database : App (Bool × List (Text × Text))
  unfolding probe_database
  check_database =
      try_except probe_database (λ e. return (false, (codes "db_error", boot.env.str e) ∷ []))

  -- the check of Redis, where it is configured
  unfoldable pub check_redis : Bool → App (Option Bool × List (Text × Text))
  unfolding get_event_bus ping
  check_redis true =
      try_except
        (do get_event_bus boot; redis_ok ← ping boot; return (some redis_ok, redis_detail redis_ok))
        (λ e. return (some false, (codes "redis_error", boot.env.str e) ∷ []))
  check_redis false =
      return (none, (codes "redis", codes "not configured (REDIS_URL unset) — skipping check") ∷ [])

  -- GET /ready
  unfoldable pub ready : App ReadyResponse
  unfolding get_settings check_database check_redis
  ready = do
    settings ← get_settings boot
    database ← check_database
    redis ← check_redis settings.enable_redis
    return (ready_response database redis)

  -- the lifespan before and after the application serves
  unfoldable pub startup : App Unit
  unfolding get_database get_event_bus get_supervisor
  startup = do get_database boot; get_event_bus boot; get_supervisor boot; return tt

  unfoldable pub shutdown : App Unit
  unfolding reset_event_bus reset_database
  shutdown = do reset_supervisor boot; reset_event_bus boot; reset_database boot
