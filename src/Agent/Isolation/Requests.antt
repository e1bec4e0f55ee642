-- ===== src/Agent/Isolation/Requests.antt =====
-- A whole request, `Supervisor.invoke`, stays within its thread, however its calls end.
use nobleport.Prelude.{Option, []}
use nobleport.Python.Text.{Text}
use nobleport.Python.Json.{Fields}
use nobleport.World.{Env, World}
use nobleport.World.Respects.{Respects}
use nobleport.Agent.Runtime.{Supervisor, publish, execute, audit_request, invoke}
use nobleport.Agent.Admission.{thread_of}
use nobleport.Agent.Checkpoint.{get_latest}
use nobleport.Agent.Stable.{get_latest-Respects}
use nobleport.Agent.Stable.Requests.{
  send-Respects, audit_request-Respects, execute-Respects, invoke-rel,
}
use nobleport.Agent.Isolation.{Within, within}
use nobleport.Agent.Isolation.Operations.{within-IsStable, within-IsSaving}

module _ (tid : Text) (env : Env) where
  pub get_latest-Within : (t : Text) → Respects (within tid) (get_latest env t)
  get_latest-Within = get_latest-Respects (within-IsStable tid env [])

module _ (tid : Text) (env : Env) (sup : Supervisor) where
  pub send-Within :
      (event_type : Text) (payload : Fields)
      → Respects (within tid) (publish env sup event_type tid payload)
  send-Within = send-Respects sup (within-IsStable tid env sup.redis_channel)

  pub audit_request-Within :
      (rid input : Text) (metadata : Fields)
      → Respects (within tid) (audit_request env sup tid rid input metadata)
  audit_request-Within = audit_request-Respects sup (within-IsStable tid env sup.redis_channel)

module _ (tid : Text) (env : Env) (sup : Supervisor)
    (step : (state : Fields) → Respects (within tid) (sup.step_fn state)) where
  pub execute-Within : (rid input : Text) → Respects (within tid) (execute env sup tid rid input)
  execute-Within =
      execute-Respects sup (within-IsStable tid env sup.redis_channel) (within-IsSaving tid env)
        step

-- However its calls end, a request leaves the state and the checkpoints of all other threads as
-- they were, only adds to the audit log, and clears no kill flag, if its step function does.
pub invoke-Within :
    (env : Env) (sup : Supervisor) (given : Option Text) (input : Text) (metadata : Fields)
    (w : World)
    → ((state : Fields) → Respects (within (thread_of env given w)) (sup.step_fn state))
    → Within (thread_of env given w) w (invoke env sup given input metadata w).1
invoke-Within env sup given input metadata w =
    let tid = thread_of env given w in
    invoke-rel (within tid) env sup given input metadata w
      (within-IsStable tid env sup.redis_channel) (within-IsSaving tid env)
