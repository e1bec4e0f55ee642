-- ===== src/Tests/Requests.antt =====
-- Requests of the known thread, and the theorems about `invoke` at them.
use nobleport.Prelude.{◌≡◌, refl, none, some, arith}
use nobleport.Python.Text.{Text, codes}
use nobleport.Python.Json.{Fields, end, dumps, dumps_fields}
use nobleport.World.{World, Exn, audit_error, ◌>>=◌, external_call, reading, ok, raised, pure}
use nobleport.World.Respects.{Respects}
use nobleport.Db.Connection.{execute}
use nobleport.Db.Audit.{insert_audit}
use nobleport.Db.Audit.Cases.{IsAuditFailure, OnlyAudit}
use nobleport.Agent.Calm.Graph.{IsPureStep}
use nobleport.Agent.Step.Pure.{default_supervisor_step-Respects}
use nobleport.Agent.Step.Chat.{IsChat, chat_step}
use nobleport.Agent.Runtime.{InvokeResult, set_graph, audit_request, invoke}
use nobleport.Agent.Admission.{thread_of, request_of, admitted}
use nobleport.Agent.Isolation.{Within, within}
use nobleport.Agent.Isolation.Requests.{invoke-Within}
use nobleport.Agent.Events.{Announces, announces, invoke-Announces}
use nobleport.Agent.AuditFirst.{AuditFirst, audit_first, failed_audit-blocks}
use nobleport.Agent.Calm.Requests.{Served, start_state}
use nobleport.Agent.Calm.Totality.{invoke_total}
use nobleport.Agent.Calm.Chat.{Chatted, default-IsPureStep, default_invoke, start-IsChat}
use nobleport.Agent.Kill.{invoke-set_graph}
use nobleport.Tests.Data.{
  calm_env, broken_env, tid1, world1, killed_world, builtins, channel1, supervisor1,
  calm_env-IsCalm, world1-IsReady, world1-unmarked, killed_world-marked, world1-IsResumable,
}

abbrev greeting : Text
greeting = codes "hi"

step_within : (tid : Text) (state : Fields) → Respects (within tid) (supervisor1.step_fn state)
step_within tid state = default_supervisor_step-Respects (within tid) builtins state

audit_first_example :
    AuditFirst
      (request_of calm_env (some tid1) world1)
      world1
      (invoke calm_env supervisor1 (some tid1) greeting end world1)
audit_first_example =
    audit_first calm_env supervisor1 greeting end (some tid1) world1 (λ n. refl)
      (step_within (thread_of calm_env (some tid1) world1))

abbrev audit_down : Exn
audit_down = audit_error (codes "failed to insert audit record: error")

audit_fails :
    (audit_request broken_env supervisor1
      (thread_of broken_env none world1)
      (request_of broken_env none world1)
      greeting
      end
      (admitted none world1)).0
    ≡ raised audit_down
unfolding audit_request insert_audit execute external_call reading dumps ◌>>=◌ codes
audit_fails = refl

abbrev pure_step1 : IsPureStep supervisor1 chat_step IsChat
pure_step1 = default-IsPureStep builtins 3 channel1

abbrev start1 : Fields
start1 = start_state tid1 greeting world1

failed_audit-blocks_example :
    ((invoke broken_env supervisor1 none greeting end world1).0 ≡ raised audit_down)
    × IsAuditFailure audit_down
    × OnlyAudit
        (request_of broken_env none world1)
        world1
        (invoke broken_env supervisor1 none greeting end world1).1
failed_audit-blocks_example =
    failed_audit-blocks broken_env supervisor1 greeting end none world1 audit_down (λ n. refl)
      audit_fails

invoke_total_example :
    (r : InvokeResult) × (w' : World) × (invoke calm_env supervisor1 (some tid1) greeting end world1
      ≡ (ok r, w'))
    × Served calm_env calm_env-IsCalm supervisor1 chat_step IsChat pure_step1 tid1
        (request_of calm_env (some tid1) world1)
        greeting
        start1
        r
        w'
unfolding dumps_fields codes
invoke_total_example =
    invoke_total calm_env calm_env-IsCalm supervisor1 chat_step IsChat pure_step1 (some tid1)
      greeting end end world1 world1-IsReady world1-unmarked refl
      (start-IsChat tid1 greeting world1 world1-IsResumable refl)

default_invoke_example :
    (r : InvokeResult) × (w' : World) × (invoke calm_env supervisor1 (some tid1) greeting end world1
      ≡ (ok r, w'))
    × Chatted tid1 greeting world1-IsResumable.step world1-IsResumable.msgs r w'
unfolding dumps_fields codes
default_invoke_example =
    default_invoke calm_env calm_env-IsCalm builtins 3 channel1 (some tid1) greeting end end world1
      world1-IsReady world1-unmarked refl refl (omega arith) world1-IsResumable

invoke-Within_example :
    Within tid1 world1 (invoke calm_env supervisor1 (some tid1) greeting end world1).1
unfolding codes
invoke-Within_example =
    invoke-Within calm_env supervisor1 (some tid1) greeting end world1 (step_within tid1)

invoke-set_graph_example :
    invoke calm_env (set_graph pure supervisor1) (some tid1) greeting end killed_world
    ≡ invoke calm_env supervisor1 (some tid1) greeting end killed_world
unfolding codes
invoke-set_graph_example =
    invoke-set_graph calm_env supervisor1 pure (some tid1) greeting end killed_world
      killed_world-marked

invoke-Announces_example :
    Announces tid1 channel1 world1 (invoke calm_env supervisor1 (some tid1) greeting end world1).1
unfolding codes
invoke-Announces_example =
    invoke-Announces calm_env supervisor1 (some tid1) greeting end world1
      (default_supervisor_step-Respects (announces tid1 channel1) builtins)
