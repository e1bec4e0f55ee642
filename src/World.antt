-- ===== src/World.antt =====
-- The world that the coroutines of the program act on: the database, the event bus, and what the
-- environment decides at each await. A coroutine changes the world and returns a value or raises.
pub mod Respects
pub mod Binds
pub mod Runs
use nobleport.Prelude.{ℕ, ◌+◌, Bool, List, [], ◌∷◌, ◌++◌}
use nobleport.Python.Text.{Text}
use nobleport.Python.Json.{Fields}
use nobleport.Schema.{Tables}

-- The classes of `Exception` that the code itself can raise, and any other, of a driver or of an
-- injected step function.
pub data ErrorKind : Type 0 where
  value_error type_error assertion_error integrity_error : ErrorKind
  external : ℕ → ErrorKind

-- `cancelled` is asyncio.CancelledError, which is no `Exception`.
pub data Exn : Type 0 where
  audit_error : Text → Exn
  failure : ErrorKind → Exn
  cancelled : Exn

-- What can cut an await short: the driver raises, or the task is cancelled.
pub data Interruption : Type 0 where
  error : ℕ → Interruption
  cancel : Interruption

abbrev pub interrupt : Interruption → Exn
interrupt (error n) = failure (external n)
interrupt cancel = cancelled

-- How an await on a driver ends. `before` and `after` raise, without and with the effect made.
pub data Fault : Type 0 where
  fine : Fault
  before after : Interruption → Fault

-- The environment: how the n-th external call ends, and the readings of the clocks and of uuid4.
-- `perf_counter` is in nanoseconds, `str` is the text of an exception, `receivers` the number of
-- subscribers that Redis reports.
pub record Env : Type 0 where
  pub fault : ℕ → Fault
  pub uuid4 : ℕ → Text
  pub utcnow : ℕ → Text
  pub perf_counter : ℕ → ℕ
  pub receivers : ℕ → ℕ
  pub str : Exn → Text

pub data Dialect : Type 0 where
  sqlite postgres : Dialect

-- `Database`, with the connection and the pool reduced to their presence
pub record Database : Type 0 where
  pub dialect : Dialect
  pub sqlite_conn : Bool
  pub pg_pool : Bool

pub record Event : Type 0 where
  pub type : Text
  pub thread_id : Text
  pub payload : Fields
  pub ts : Text

pub record Published : Type 0 where
  pub channel : Text
  pub event : Event
  pub ts : Text

pub data BusKind : Type 0 where
  null_bus redis_bus : BusKind

-- What a run has done to the outside so far, in order.
pub data Effect : Type 0 where
  audited : Text → Effect
  status_set : Text → Text → Effect
  published : Text → Effect
  stepped : Effect
  checkpointed : Text → Effect
  measured : Text → Text → Effect

-- `catalog` names the tables and indexes that exist; `calls` counts the external calls; `trace` lists the effects made.
pub record World : Type 0 where
  pub database : Database
  pub catalog : List Text
  pub tables : Tables
  pub bus_kind : BusKind
  pub events : List Published
  pub calls : ℕ
  pub trace : List Effect

pub data Result (A : Type 0) : Type 0 where
  ok : A → Result A
  raised : Exn → Result A

abbrev pub Exec : Type 0 → Type 0
Exec A = World → Result A × World

module _ {A : Type 0} where
  unfoldable pub pure : A → Exec A
  pure a w = (ok a, w)

  unfoldable pub raise : Exn → Exec A
  raise e w = (raised e, w)

  pub gets : (World → A) → Exec A
  gets f w = (ok (f w), w)

  abbrev recover : (Exn → Exec A) → Result A → Exec A
  recover handler (ok a) w = (ok a, w)
  recover handler (raised e) w = handler e w

  -- `try: m  except …: handler e`
  pub catch : Exec A → (Exn → Exec A) → Exec A
  catch m handler w = let (r, w') = m w in recover handler r w'

module _ {A B : Type 0} where
  abbrev pub continue : Result A → (A → Exec B) → Exec B
  continue (ok a) f w = f a w
  continue (raised e) f w = (raised e, w)

  infixl 5 ◌>>=◌ ◌>>◌
  -- opening this opens `pure`, `raise`, `gets` and `catch` too
  unfoldable pub ◌>>=◌ : Exec A → (A → Exec B) → Exec B
  unfolding pure raise gets catch
  ◌>>=◌ m f w = let (r, w') = m w in continue r f w'

  abbrev pub ◌>>◌ : Exec A → Exec B → Exec B
  m >> k = m >>= λ _. k

abbrev pub tick : World → World
tick w = record w { calls = w.calls + 1 }

-- an await on a driver that would do `act`
unfoldable pub external_call : {A : Type 0} → Env → Exec A → Exec A
external_call env act w = elim (env.fault w.calls) [
  | fine ↦ act (tick w)
  | before i ↦ (raised (interrupt i), tick w)
  | after i ↦ (raised (interrupt i), (act (tick w)).1)
]

unfoldable pub emit : Effect → World → World
emit e w = record w { trace = w.trace ++ e ∷ [] }

-- a reading of a clock, or of uuid4, each at a new index
unfoldable pub reading : {A : Type 0} → (ℕ → A) → Exec A
reading f w = (ok (f w.calls), tick w)
