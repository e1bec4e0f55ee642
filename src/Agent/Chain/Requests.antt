-- ===== src/Agent/Chain/Requests.antt =====
-- The calls of the API keep the histories of the threads, `Supervisor.invoke` among them.
use nobleport.Prelude.{
  ℕ, zero, suc, refl, sym, subst, ◌∙◌, Bool, true, false, Option, some, List, [], ◌∷◌,
  if◌then◌else◌,
}
use nobleport.Python.Text.{Text, codes}
use nobleport.Python.Json.{Fields, get_truthy}
use nobleport.World.{Env, Exec, World, pure}
use nobleport.World.Respects.{Respects, Respects-pure, Respects-reading}
use nobleport.Agent.Runtime.{
  Supervisor, Outcome, ok_outcome, resumed, round, loop, run_graph, handled, outcome_of, supervised,
  conclude, invoke,
}
use nobleport.Agent.Runtime
use nobleport.Agent.Admission.{
  thread_of, request_of, admitted, audited_run, invoke-eq-audited_run, rel-admitted,
}
use nobleport.Agent.Kill.Permanent.{ApiCall, invoke_call, kill_call, serve}
use nobleport.Agent.Stable.{IsStable, is_kill_requested-Respects}
use nobleport.Agent.Stable.Requests.{
  send-Respects, audit_request-Respects, killed_exit-Respects, handled-Respects, finish-Respects,
  conclude-Respects, call_step-Respects,
}
use nobleport.Agent.Chain.{
  HasChains, same_checkpoints, tip, Chained, Continues, Chained-same, Continues-same, Chained-bind,
  Continues-bind, Continues-pure, Chained-then,
}
use nobleport.Agent.Chain.Operations.{
  set_thread_status-same, request_kill-same, same-IsStable, put-Continues, get_latest-Continues,
}

module _ (env : Env) (sup : Supervisor) (tid : Text)
    (step : (state : Fields) → Respects same_checkpoints (sup.step_fn state)) where
  abbrev stable : IsStable same_checkpoints tid sup.redis_channel env
  stable = same-IsStable env tid sup.redis_channel

  abbrev saved_id : Fields × Text → Option Text
  saved_id next = some next.1

  -- one round: what it returns names the checkpoint that it has saved
  round-Continues :
      (rid : Text) (state : Fields) (parent : Option Text)
      → Continues tid parent saved_id (round env sup tid rid state parent)
  unfolding round
  round-Continues rid state parent =
      Continues-bind tid parent (λ n. parent) _ _
        (Continues-same tid parent _ (send-Respects sup stable _ _)) saved_id
        (λ n.
          Continues-bind tid parent (λ s. parent) _ _
            (Continues-same tid parent _ (call_step-Respects sup stable step state)) saved_id
            (λ state'.
              Continues-bind tid parent (λ cp. some cp.checkpoint_id) _ _
                (put-Continues env tid state' parent) saved_id
                (λ cp.
                  Continues-bind tid (some cp.checkpoint_id) (λ n. some cp.checkpoint_id) _ _
                    (Continues-same tid (some cp.checkpoint_id) _ (send-Respects sup stable _ _))
                    saved_id (λ n. Continues-pure tid (some cp.checkpoint_id) saved_id _ refl))))

  ends : (parent : Option Text) (r : Outcome × Fields) → Chained tid parent (pure r)
  ends parent r = Chained-same tid parent _ (Respects-pure same_checkpoints r)

  Chained-if :
      (parent : Option Text) (b : Bool) (m n : Exec (Outcome × Fields))
      → Chained tid parent m
      → Chained tid parent n
      → Chained tid parent (if b then m else n)
  Chained-if parent true m n km kn = km
  Chained-if parent false m n km kn = kn

  loop-Chained :
      (n : ℕ) (rid : Text) (state : Fields) (parent : Option Text)
      → Chained tid parent (loop env sup n tid rid state parent)
  unfolding loop
  loop-Chained zero rid state parent = ends parent _
  loop-Chained (suc n) rid state parent =
      Chained-bind tid parent (λ kill. parent) _ _
        (Continues-same tid parent _ (is_kill_requested-Respects stable tid))
        (λ kill.
          Chained-if parent kill _ _
            (Chained-same tid parent _ (killed_exit-Respects sup stable rid state))
            (Chained-bind tid parent saved_id _ _ (round-Continues rid state parent) (λ next.
              Chained-if (some next.1) (get_truthy (codes "completed") next.0) _ _
                (ends (some next.1) _) (loop-Chained n rid next.0 (some next.1)))))

  run_graph-Chained :
      (rid input : Text) (parent : Option Text)
      → Chained tid parent (run_graph env sup tid rid input)
  unfolding run_graph
  run_graph-Chained rid input parent =
      Chained-bind tid parent (λ found. (resumed found).1) _ _
        (get_latest-Continues env tid sup.redis_channel parent)
        (λ found. loop-Chained sup.max_steps rid _ (resumed found).1)

  -- the `except` and `finally` clauses save nothing
  supervised-Chained :
      (rid input : Text) (started : ℕ) (parent : Option Text)
      → Chained tid parent (supervised env sup tid rid input started)
  unfolding supervised
  supervised-Chained rid input started parent = record {
    chains = λ w h.
        let (r, w1) = run_graph env sup tid rid input w in
        let (r', w2) = handled env sup tid rid r w1 in
        subst HasChains
          (sym (
            (finish-Respects sup stable rid started (outcome_of r) r').at w2
            ∙ (handled-Respects sup stable rid r).at w1))
          ((run_graph-Chained rid input parent).chains w h);
  }

  execute-Chained :
      (rid input : Text) (parent : Option Text)
      → Chained tid parent (Runtime.execute env sup tid rid input)
  unfolding Runtime.execute
  execute-Chained rid input parent =
      Chained-bind tid parent (λ u. parent) _ _
        (Continues-same tid parent _ (set_thread_status-same env tid _ _))
        (λ u.
          Chained-bind tid parent (λ n. parent) _ _
            (Continues-same tid parent _ (send-Respects sup stable _ _))
            (λ n.
              Chained-bind tid parent (λ t. parent) _ _
                (Continues-same tid parent _ (Respects-reading same_checkpoints _))
                (λ started.
                  Chained-then tid parent _ _ (supervised-Chained rid input started parent)
                    (conclude-Respects sup stable rid))))

  audited-Chained :
      (rid input : Text) (metadata : Fields) (parent : Option Text)
      → Chained tid parent (audited_run env sup input metadata tid rid)
  audited-Chained rid input metadata parent =
      Chained-bind tid parent (λ u. parent) _ _
        (Continues-same tid parent _ (audit_request-Respects sup stable rid input metadata))
        (λ u. execute-Chained rid input parent)

module _ (env : Env) (sup : Supervisor)
    (step : (state : Fields) → Respects same_checkpoints (sup.step_fn state)) where
  invoke-HasChains :
      (given : Option Text) (input : Text) (metadata : Fields) (w : World)
      → HasChains w.tables.langgraph_checkpoints
      → HasChains (invoke env sup given input metadata w).1.tables.langgraph_checkpoints
  invoke-HasChains given input metadata w h = rw (invoke-eq-audited_run env sup input metadata) (
      (audited-Chained env sup (thread_of env given w) step (request_of env given w) input metadata
          (tip (thread_of env given w) (admitted given w))).chains
        (admitted given w)
        (record {
          chains = subst HasChains (sym (rel-admitted same_checkpoints given w)) h;
          latest = refl;
        }))

  -- If the step function saves no checkpoint itself, then calls of the API, one after the other and
  -- however each of them ends, keep the history of every thread a chain: its first checkpoint has
  -- no parent, and each later one has the checkpoint before it as its parent, across the requests
  -- and also after a call that raised halfway.
  pub serve-HasChains :
      (calls : List ApiCall) (w : World)
      → HasChains w.tables.langgraph_checkpoints
      → HasChains (serve env sup calls w).tables.langgraph_checkpoints
  unfolding serve
  serve-HasChains [] w h = h
  serve-HasChains (invoke_call given input metadata ∷ calls) w h =
      serve-HasChains calls _ (invoke-HasChains given input metadata w h)
  serve-HasChains (kill_call tid ∷ calls) w h =
      serve-HasChains calls _ (subst HasChains (sym ((request_kill-same env tid).at w)) h)
