-- ===== src/Service/Monad.antt =====
-- The state of the process, and the code that acts on it.
use nobleport.Prelude.{Bool, Option}
use nobleport.Python.Text.{Text}
use nobleport.World.{Exn, audit_error, failure, cancelled, World, Result, ok, raised, Exec}
use nobleport.Config.{Settings}
use nobleport.Agent.Runtime.{Supervisor}

-- the supervisor that is kept, with what it tells about checkpoints
pub record Service : Type 0 where
  pub supervisor : Supervisor
  pub checkpoint_backend_info : Text

-- The variables of the modules. The database and the bus are the world's, and mean something once
-- they are made; `redis_client` is whether the bus has a client.
pub record State : Type 0 where
  pub settings : Option Settings
  pub database_made : Bool
  pub bus_made : Bool
  pub redis_client : Bool
  pub supervisor : Option Service
  pub world : World

abbrev pub App : Type 0 → Type 0
App A = State → Result A × State

module _ {A : Type 0} where
  abbrev pub return : A → App A
  return a s = (ok a, s)

  abbrev pub throw : Exn → App A
  throw e s = (raised e, s)

  abbrev pub reads : (State → A) → App A
  reads f s = (ok (f s), s)

  -- a coroutine of the world
  abbrev pub lift : Exec A → App A
  lift m s = let (r, w) = m s.world in (r, record s { world = w })

  abbrev pub on_exception : (Exn → App A) → Result A → App A
  on_exception handler (ok a) s = (ok a, s)
  on_exception handler (raised cancelled) s = (raised cancelled, s)
  on_exception handler (raised (failure k)) s = handler (failure k) s
  on_exception handler (raised (audit_error m)) s = handler (audit_error m) s

  -- `try: m  except Exception as e: handler e`
  abbrev pub try_except : App A → (Exn → App A) → App A
  try_except m handler s = let (r, s') = m s in on_exception handler r s'

module _ {A B : Type 0} where
  abbrev pub proceed : Result A → (A → App B) → App B
  proceed (ok a) f s = f a s
  proceed (raised e) f s = (raised e, s)

  infixl 5 ◌>>=◌ ◌>>◌
  unfoldable pub ◌>>=◌ : App A → (A → App B) → App B
  ◌>>=◌ m f s = let (r, s') = m s in proceed r f s'

  abbrev pub ◌>>◌ : App A → App B → App B
  m >> k = m >>= λ _. k
