-- ===== src/Agent/Admission.antt =====
-- The beginning of `Supervisor.invoke`: it settles on its ids, audits the request and goes on.
use nobleport.Prelude.{◌≡◌, refl, Bool, true, false, Option, none, some, arith, if◌then◌else◌}
use nobleport.Python.Text.{Text, is_nonempty}
use nobleport.Python.Json.{Fields}
use nobleport.World.{Env, World, Exec, ◌>>=◌, ◌>>◌, tick, reading}
use nobleport.World.Respects.{Change}
use nobleport.Agent.Runtime.{Supervisor, InvokeResult, execute, audit_request, invoke}

-- the thread id that `invoke` settles on, and the world when it has drawn its ids
abbrev pub thread_of : Env → Option Text → World → Text
thread_of env none w = env.uuid4 w.calls
thread_of env (some t) w = if is_nonempty t then t else env.uuid4 w.calls

abbrev pub thread_chosen : Option Text → World → World
thread_chosen none w = tick w
thread_chosen (some t) w = if is_nonempty t then w else tick w

abbrev pub request_of : Env → Option Text → World → Text
request_of env given w = env.uuid4 (thread_chosen given w).calls

abbrev pub admitted : Option Text → World → World
admitted given w = tick (thread_chosen given w)

module _ (env : Env) (sup : Supervisor) (input : Text) (metadata : Fields) where
  -- `invoke` as the audit of the request followed by the rest of it
  abbrev pub audited_run : Text → Text → Exec InvokeResult
  audited_run tid rid =
      audit_request env sup tid rid input metadata >> execute env sup tid rid input

  pub invoke-eq-audited_run :
      (given : Option Text) (w : World)
      → invoke env sup given input metadata w
        ≡ audited_run (thread_of env given w) (request_of env given w) (admitted given w)
  unfolding invoke reading ◌>>=◌
  invoke-eq-audited_run none w = refl
  invoke-eq-audited_run (some t) w = ground arith

change_if : (R : Change) (b : Bool) (w : World) → R.rel w (if b then w else tick w)
change_if R true w = R.rel_refl w
change_if R false w = R.rel_tick w

-- drawing the ids only counts
pub rel-admitted : (R : Change) (given : Option Text) (w : World) → R.rel w (admitted given w)
rel-admitted R none w = R.rel_trans w (tick w) _ (R.rel_tick w) (R.rel_tick (tick w))
rel-admitted R (some t) w =
    R.rel_trans w (if is_nonempty t then w else tick w) _ (change_if R (is_nonempty t) w)
      (R.rel_tick _)
