-- ===== src/Agent/Stable/Requests.antt =====
-- A whole request, `Supervisor.invoke`, changes the world as its parts do, however its calls end.
use nobleport.Prelude.{ℕ, zero, suc, Option}
use nobleport.Python.Text.{Text}
use nobleport.Python.Json.{Fields}
use nobleport.World.{
  Env, World, Exn, audit_error, failure, cancelled, stepped, Result, ok, raised, emit,
}
use nobleport.World.Respects.{Change, Respects, Respects-bind, respects_rules}
use nobleport.Agent.Runtime.{
  Supervisor, Outcome, publish, call_step, killed_exit, round, loop, run_graph, handle, handled,
  outcome_of, finish, supervised, conclude, execute, audit_request, invoke,
}
use nobleport.Agent.Admission.{thread_of, request_of, admitted, invoke-eq-audited_run, rel-admitted}
use nobleport.Agent.Stable.{
  IsStable, IsSaving, insert_audit-Respects, record_invoke_latency-Respects,
  is_kill_requested-Respects, get_latest-Respects, put-Respects, publish-Respects,
  set_thread_status-Respects,
}

module _ {R : Change} {tid : Text} {env : Env} (sup : Supervisor)
    (stable : IsStable R tid sup.redis_channel env) where
  pub send-Respects :
      (event_type : Text) (payload : Fields) → Respects R (publish env sup event_type tid payload)
  unfolding publish
  send-Respects event_type payload = search (respects_rules, publish-Respects stable) depth 6

  pub audit_request-Respects :
      (rid input : Text) (metadata : Fields)
      → Respects R (audit_request env sup tid rid input metadata)
  unfolding audit_request
  audit_request-Respects rid input metadata = search (respects_rules, insert_audit-Respects stable)

  ruleset quiet_parts = (
    respects_rules, send-Respects, set_thread_status-Respects, is_kill_requested-Respects,
    get_latest-Respects, record_invoke_latency-Respects,
  )

  pub killed_exit-Respects :
      (rid : Text) (state : Fields) → Respects R (killed_exit env sup tid rid state)
  unfolding killed_exit
  killed_exit-Respects rid state = search quiet_parts depth 6

  pub handle-Respects :
      {A : Type 0} (rid : Text) (e : Exn) → Respects R (handle env sup {A = A} tid rid e)
  unfolding handle
  handle-Respects rid cancelled = search quiet_parts depth 7
  handle-Respects rid (failure k) = search quiet_parts depth 7
  handle-Respects rid (audit_error m) = search quiet_parts depth 7

  pub handled-Respects :
      (rid : Text) (r : Result (Outcome × Fields)) → Respects R (handled env sup tid rid r)
  handled-Respects rid (ok x) = search respects_rules
  handled-Respects rid (raised e) = handle-Respects rid e

  pub finish-Respects :
      (rid : Text) (started : ℕ) (o : Outcome) (r : Result (Outcome × Fields))
      → Respects R (finish env sup tid rid started o r)
  unfolding finish
  finish-Respects rid started o r = search quiet_parts depth 7

  pub conclude-Respects :
      (rid : Text) (r : Outcome × Fields) → Respects R (conclude env sup tid rid r)
  unfolding conclude
  conclude-Respects rid (o, state) = search quiet_parts depth 8

module _ {R : Change} {tid : Text} {env : Env} (sup : Supervisor)
    (stable : IsStable R tid sup.redis_channel env)
    (step : (state : Fields) → Respects R (sup.step_fn state)) where
  pub call_step-Respects : (state : Fields) → Respects R (call_step env sup state)
  unfolding call_step
  call_step-Respects state = record {
    at = λ w.
        R.rel_trans w (emit stepped w) _ (stable.mark stepped w) ((step state).at (emit stepped w));
  }

module _ {R : Change} {tid : Text} {env : Env} (sup : Supervisor)
    (stable : IsStable R tid sup.redis_channel env) (saving : IsSaving R tid)
    (step : (state : Fields) → Respects R (sup.step_fn state)) where
  ruleset parts =
      (respects_rules, send-Respects, call_step-Respects, set_thread_status-Respects, put-Respects)

  round-Respects :
      (rid : Text) (state : Fields) (parent : Option Text)
      → Respects R (round env sup tid rid state parent)
  unfolding round
  round-Respects rid state parent = search parts depth 8

  loop-Respects :
      (n : ℕ) (rid : Text) (state : Fields) (parent : Option Text)
      → Respects R (loop env sup n tid rid state parent)
  unfolding loop
  loop-Respects zero rid state parent = search parts
  loop-Respects (suc n) rid state parent = search (
    respects_rules,
    is_kill_requested-Respects stable,
    killed_exit-Respects,
    round-Respects,
    loop-Respects n,
  )

  run_graph-Respects : (rid input : Text) → Respects R (run_graph env sup tid rid input)
  unfolding run_graph
  run_graph-Respects rid input = search (respects_rules, get_latest-Respects stable, loop-Respects)

  supervised-Respects :
      (rid input : Text) (started : ℕ) → Respects R (supervised env sup tid rid input started)
  unfolding supervised
  supervised-Respects rid input started = record {
    at = λ w.
        let (r, w1) = run_graph env sup tid rid input w in
        let (r', w2) = handled env sup tid rid r w1 in
        R.rel_trans w w2 _
          (R.rel_trans w w1 w2 ((run_graph-Respects rid input).at w)
            ((handled-Respects sup stable rid r).at w1))
          ((finish-Respects sup stable rid started (outcome_of r) r').at w2);
  }

  pub execute-Respects : (rid input : Text) → Respects R (execute env sup tid rid input)
  unfolding execute
  execute-Respects rid input = search (parts, supervised-Respects, conclude-Respects) depth 8

-- a request whose parts change the world by a relation
pub invoke-rel :
    (R : Change) (env : Env) (sup : Supervisor) (given : Option Text) (input : Text)
    (metadata : Fields) (w : World)
    → IsStable R (thread_of env given w) sup.redis_channel env
    → IsSaving R (thread_of env given w)
    → ((state : Fields) → Respects R (sup.step_fn state))
    → R.rel w (invoke env sup given input metadata w).1
invoke-rel R env sup given input metadata w stable saving step =
    let run =
      Respects-bind R _ _
        (audit_request-Respects sup stable (request_of env given w) input metadata)
        (λ _. execute-Respects sup stable saving step (request_of env given w) input) in
    rw (invoke-eq-audited_run env sup input metadata)
      (R.rel_trans w (admitted given w) _ (rel-admitted R given w) (run.at (admitted given w)))
