-- ===== src/Config.antt =====
-- app/config.py: the settings, read from the environment variables.
pub mod Laws
use nobleport.Prelude.{ℕ, Bool, Option, none, some, List, [], ◌∷◌, if◌then◌else◌}
use nobleport.Python.Text.{Text, codes, is_nonempty}
use nobleport.Python.Text.Strip.{strip, split_commas}
use nobleport.Python.Int.{ℤ}
use nobleport.World.{BusKind, null_bus, redis_bus}

pub record Settings : Type 0 where
  pub database_url : Text
  pub redis_url : Text
  pub redis_channel : Text
  pub allowed_commands : List Text
  pub sandbox_timeout_seconds : ℤ
  pub enable_redis : Bool

-- `os.environ.get(name, default)`
abbrev pub environ_get : (Text → Option Text) → Text → Text → Text
environ_get environ name default = elim (environ name) [ none ↦ default | some v ↦ v ]

-- `c.strip() for c in … if c.strip()`
unfoldable pub clean : List Text → List Text
clean [] = []
clean (c ∷ rest) = let more = clean rest in if is_nonempty (strip c) then strip c ∷ more else more

abbrev pub settings_of : (Text → Option Text) → ℤ → Settings
settings_of environ timeout = record {
  database_url =
      environ_get environ (codes "DATABASE_URL") (codes "sqlite+aiosqlite:///./nobleport.db");
  redis_url = environ_get environ (codes "REDIS_URL") [];
  redis_channel = environ_get environ (codes "AGENT_EVENT_CHANNEL") (codes "agent.events");
  allowed_commands = clean (
      split_commas
        (environ_get environ (codes "SANDBOX_ALLOWED_COMMANDS") (codes "pytest,flake8")));
  sandbox_timeout_seconds = timeout;
  enable_redis = is_nonempty (environ_get environ (codes "REDIS_URL") []);
}

abbrev pub settings_with : (Text → Option Text) → Option ℤ → Option Settings
settings_with environ none = none
settings_with environ (some timeout) = some (settings_of environ timeout)

-- `Settings.from_env`; `int_of_text` is Python's `int`, and `none` the ValueError that it raises
unfoldable pub from_env : (Text → Option ℤ) → (Text → Option Text) → Option Settings
from_env int_of_text environ =
    settings_with environ
      (int_of_text (environ_get environ (codes "SANDBOX_TIMEOUT_SECONDS") (codes "60")))

-- the bus that `get_event_bus` makes
abbrev pub bus_of : Settings → BusKind
bus_of settings = if settings.enable_redis then redis_bus else null_bus
