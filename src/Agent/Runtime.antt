-- ===== src/Agent/Runtime.antt =====
-- app/agent/runtime.py: `Supervisor`, which audits a request, steps the graph, and reports.
use nobleport.Prelude.{
  ℕ, zero, suc, ◌-◌, Bool, true, false, Option, none, some, ◌++◌, take, if◌then◌else◌,
}
use nobleport.Python.Text.{Text, codes}
use nobleport.Python.Int.{pos}
use nobleport.Python.Json.{
  Json, null, int, text, arr, obj, nil, Fields, end, field, get, set, get_truthy,
}
use nobleport.World.{
  Env, Exn, audit_error, failure, cancelled, stepped, Result, ok, raised, Exec, raise, pure, ◌>>=◌,
  ◌>>◌, emit, reading,
}
use nobleport.RedisBus
use nobleport.Db.Audit.{or_uuid, insert_audit}
use nobleport.Db.Metrics.{record_invoke_latency}
use nobleport.Agent.State.{set_thread_status, is_kill_requested}
use nobleport.Agent.Checkpoint.{CheckpointTuple, put, get_latest}

-- `Supervisor`; its database and bus are the world's
pub record Supervisor : Type 0 where
  pub step_fn : Fields → Exec Fields
  pub max_steps : ℕ
  pub redis_channel : Text

-- `Supervisor.set_graph`
unfoldable pub set_graph : (Fields → Exec Fields) → Supervisor → Supervisor
set_graph step_fn sup = record sup { step_fn = step_fn }

-- the local variable `outcome`
pub data Outcome : Type 0 where
  ok_outcome killed max_steps_exceeded cancelled_outcome error_outcome : Outcome

abbrev pub outcome_text : Outcome → Text
outcome_text ok_outcome = codes "ok"
outcome_text killed = codes "killed"
outcome_text max_steps_exceeded = codes "max_steps_exceeded"
outcome_text cancelled_outcome = codes "cancelled"
outcome_text error_outcome = codes "error"

-- `outcome == "ok"`
abbrev pub is_ok : Outcome → Bool
is_ok ok_outcome = true
is_ok _ = false

-- what `invoke` returns
pub record InvokeResult : Type 0 where
  pub thread_id : Text
  pub request_id : Text
  pub outcome : Outcome
  pub state : Fields

-- `state.get("step")` as a JSON value
abbrev pub step_of : Fields → Json
step_of state = elim (get (codes "step") state) [ none ↦ null | some v ↦ v ]

abbrev pub request_payload : Text → Fields → Fields
request_payload request_id rest = field (codes "request_id") (text request_id) rest

abbrev pub audit_payload : Text → Text → Fields → Fields
audit_payload request_id input_text metadata =
    request_payload request_id
      (field (codes "input") (text input_text) (field (codes "metadata") (obj metadata) end))

abbrev pub audit_message : Text → Text
audit_message tid = codes "agent invoke requested for thread " ++ tid

-- the state that a run starts from, and the checkpoint before it
abbrev pub resumed : Option CheckpointTuple → Fields × Option Text
resumed none = (field (codes "messages") (arr nil) (field (codes "step") (int (pos 0)) end), none)
resumed (some cp) = (cp.state, some cp.checkpoint_id)

-- the value of `outcome` when the `try` statement is left
abbrev pub outcome_of : Result (Outcome × Fields) → Outcome
outcome_of (ok (o, state)) = o
outcome_of (raised cancelled) = cancelled_outcome
outcome_of (raised e) = error_outcome

module _ (env : Env) (sup : Supervisor) where
  -- `Supervisor._publish`
  unfoldable pub publish : Text → Text → Fields → Exec ℕ
  publish event_type thread_id payload = do
    now ← reading env.utcnow
    RedisBus.publish env sup.redis_channel
        (record { type = event_type; thread_id = thread_id; payload = payload; ts = now })

  -- a call of `self.step_fn`, noted in the trace
  unfoldable pub call_step : Fields → Exec Fields
  unfolding emit
  call_step state w = sup.step_fn state (emit stepped w)

  -- the branch of the loop that a kill request takes
  unfoldable pub killed_exit : Text → Text → Fields → Exec (Outcome × Fields)
  unfolding publish
  killed_exit tid request_id state = do
    publish (codes "agent.invoke.killed") tid
        (request_payload request_id (field (codes "reason") (text (codes "cooperative_kill")) end))
    set_thread_status env tid (codes "killed") (some (codes "agent.invoke.killed"))
    pure (killed, state)

  -- one round of the loop after the kill check: the new state and the new checkpoint
  unfoldable pub round : Text → Text → Fields → Option Text → Exec (Fields × Text)
  unfolding publish call_step
  round tid request_id state parent_id = do
    publish (codes "agent.step.start") tid
        (request_payload request_id (field (codes "step") (step_of state) end))
    state' ← call_step state
    cp ← put env tid state' parent_id none
    publish (codes "agent.step.end") tid (
        request_payload request_id (
          field (codes "step") (step_of state')
            (field (codes "checkpoint_id") (text cp.checkpoint_id) end)))
    pure (state', cp.checkpoint_id)

  -- `for _ in range(n): … else: …`
  unfoldable pub loop : ℕ → Text → Text → Fields → Option Text → Exec (Outcome × Fields)
  unfolding killed_exit round
  loop zero tid request_id state parent_id = pure (max_steps_exceeded, state)
  loop (suc n) tid request_id state parent_id = do
    kill ← is_kill_requested env tid
    let rest = loop n tid request_id
    if kill then killed_exit tid request_id state else do
      next ← round tid request_id state parent_id
      let go_on = rest next.0 (some next.1)
      if get_truthy (codes "completed") next.0 then pure (ok_outcome, next.0) else go_on

  -- the `try` block
  unfoldable pub run_graph : Text → Text → Text → Exec (Outcome × Fields)
  unfolding loop
  run_graph tid request_id input_text = do
    latest ← get_latest env tid
    let start = resumed latest
    let state = set (codes "thread_id") (text tid) (set (codes "input") (text input_text) start.0)
    loop sup.max_steps tid request_id state start.1

  -- the `except` clauses, which raise the exception again
  unfoldable pub handle : {A : Type 0} → Text → Text → Exn → Exec A
  unfolding publish
  handle tid request_id cancelled = do
    set_thread_status env tid (codes "cancelled") (some (codes "cancelled"))
    publish (codes "agent.invoke.cancelled") tid (request_payload request_id end)
    raise cancelled
  handle tid request_id (failure k) = do
    set_thread_status env tid (codes "error") (some (take 200 (env.str (failure k))))
    publish (codes "agent.invoke.error") tid
        (request_payload request_id (field (codes "error") (text (env.str (failure k))) end))
    raise (failure k)
  handle tid request_id (audit_error m) = do
    set_thread_status env tid (codes "error") (some (take 200 (env.str (audit_error m))))
    publish (codes "agent.invoke.error") tid
        (request_payload request_id (field (codes "error") (text (env.str (audit_error m))) end))
    raise (audit_error m)

  abbrev pub handled : Text → Text → Result (Outcome × Fields) → Exec (Outcome × Fields)
  handled tid request_id (ok x) = pure x
  handled tid request_id (raised e) = handle tid request_id e

  -- the `finally` block: the latency is recorded, and then the `try` ends as it would have
  unfoldable pub finish :
      Text → Text → ℕ → Outcome → Result (Outcome × Fields) → Exec (Outcome × Fields)
  finish tid request_id started outcome r = do
    stopped ← reading env.perf_counter
    record_invoke_latency env (some tid) (some request_id) (stopped - started)
        (outcome_text outcome) (codes "agent_invoke_latency_ms")
    (λ w. (r, w))

  -- the `try` statement
  unfoldable pub supervised : Text → Text → Text → ℕ → Exec (Outcome × Fields)
  unfolding run_graph handle finish
  supervised tid request_id input_text started w =
      let (r, w1) = run_graph tid request_id input_text w in
      let (r', w2) = handled tid request_id r w1 in
      finish tid request_id started (outcome_of r) r' w2

  -- what follows the `try` statement
  unfoldable pub conclude : Text → Text → Outcome × Fields → Exec InvokeResult
  unfolding publish
  conclude tid request_id (outcome, state) = do
    if is_ok outcome
        then (do
          set_thread_status env tid (codes "completed") (some (codes "agent.invoke.end"))
          publish (codes "agent.invoke.end") tid
              (request_payload request_id (field (codes "step") (step_of state) end))
          pure tt)
        else pure tt
    pure (record { thread_id = tid; request_id = request_id; outcome = outcome; state = state })

  -- `invoke` from the audit on: the rest of it runs when the row is in
  unfoldable pub execute : Text → Text → Text → Exec InvokeResult
  unfolding publish supervised conclude
  execute tid request_id input_text = do
    set_thread_status env tid (codes "running") (some (codes "agent.invoke.start"))
    publish (codes "agent.invoke.start") tid
        (request_payload request_id (field (codes "input") (text input_text) end))
    started ← reading env.perf_counter
    r ← supervised tid request_id input_text started
    conclude tid request_id r

  unfoldable pub audit_request : Text → Text → Text → Fields → Exec Unit
  audit_request tid request_id input_text metadata = do
    insert_audit env (codes "agent.invoke.requested") (audit_payload request_id input_text metadata)
        (some tid) (some (audit_message tid)) (some request_id)
    pure tt

  unfoldable pub invoke : Option Text → Text → Fields → Exec InvokeResult
  unfolding execute audit_request or_uuid
  invoke thread_id input_text metadata = do
    tid ← or_uuid env thread_id
    request_id ← reading env.uuid4
    audit_request tid request_id input_text metadata
    execute tid request_id input_text
