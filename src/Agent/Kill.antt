-- ===== src/Agent/Kill.antt =====
-- Cooperative kill: what a kill flag does to the requests of its thread.
pub mod Ending
pub mod Permanent
use nobleport.Prelude.{
  ℕ, zero, suc, ◌<◌, ◌≡◌, refl, sym, ap, fun_ext, ◌⊎◌, inl, inr, Bool, true, false, Option, none,
  some, arith, if◌then◌else◌,
}
use nobleport.Python.Text.{Text, codes}
use nobleport.Python.Json.{Fields}
use nobleport.Schema.{ThreadRow, Tables, find_thread}
use nobleport.World.{
  Env, Exn, World, Result, ok, raised, Exec, continue, ◌>>=◌, ◌>>◌, tick, reading,
}
use nobleport.World.Respects.{Respects, Respects-reading}
use nobleport.Db.Connection.Calls.{fetch_cases}
use nobleport.Agent.State.{is_kill_requested, flag_of}
use nobleport.Agent.Runtime.{
  Supervisor, set_graph, Outcome, killed, max_steps_exceeded, InvokeResult, publish, killed_exit,
  loop, run_graph, handle, handled, finish, supervised, conclude, execute, audit_request, invoke,
  resumed, outcome_of,
}
use nobleport.Agent.Admission.{thread_of, request_of, admitted, invoke-eq-audited_run, rel-admitted}
use nobleport.Agent.Isolation.Requests.{get_latest-Within, send-Within, audit_request-Within}
use nobleport.Agent.Isolation.Operations.{set_thread_status-Within}
use nobleport.Agent.Isolation.{Within, within, kill_flag}

-- Under a flag the check answers `true`, or raises.
abbrev pub CheckCases : Env → Text → World → Type 0
CheckCases env tid w =
    (is_kill_requested env tid w ≡ (ok true, tick w))
    ⊎ ((e : Exn) × (w' : World) × (is_kill_requested env tid w ≡ (raised e, w')))

pub check_cases :
    (env : Env) (tid : Text) (w : World) → kill_flag tid w.tables ≡ true → CheckCases env tid w
unfolding is_kill_requested ◌>>=◌
check_cases env tid w h = elim (fetch_cases env (λ t. find_thread tid t.agent_thread_state) w) [
  | inl e ↦ inl (rw (e, h))
  | inr (inl (x, e)) ↦ inr (x, tick w, rw e)
  | inr (inr (x, e)) ↦ inr (x, w, rw e)
]

-- Two ways to go on that agree, after the same beginning or after two that agree here.
bind_same :
    {A B : Type 0} (m m' : Exec A) (f f' : A → Exec B) (w : World)
    → m w ≡ m' w
    → ((a : A) (w' : World) → f a w' ≡ f' a w')
    → (m >>= f) w ≡ (m' >>= f') w
unfolding ◌>>=◌
bind_same m m' f f' w e h =
    let agree : f ≡ f' = fun_ext (λ a. fun_ext (h a)) in rw agree (rw (e, ◌>>=◌))

module _ (tid : Text) {A B : Type 0} (m : Exec A) (f f' : A → Exec B) where
  -- ways to go on that agree under the flag, after a beginning that keeps it
  flagged_bind :
      Respects (within tid) m
      → ((a : A) (w : World) → kill_flag tid w.tables ≡ true → f a w ≡ f' a w)
      → (w : World) → kill_flag tid w.tables ≡ true
      → (m >>= f) w ≡ (m >>= f') w
  unfolding ◌>>=◌
  flagged_bind k same w h = continue_same (m w).0 (m w).1 ((k.at w).flags tid h)
    where
      continue_same :
          (r : Result A) (w' : World)
          → kill_flag tid w'.tables ≡ true
          → continue r f w' ≡ continue r f' w'
      continue_same (ok a) w' k' = same a w' k'
      continue_same (raised e) w' k' = refl

module _ (env : Env) (sup : Supervisor) (g : Fields → Exec Fields) where
  abbrev other : Supervisor
  other = set_graph g sup

  killed_exit-set_graph :
      (tid rid : Text) (state : Fields) (w : World)
      → killed_exit env other tid rid state w ≡ killed_exit env sup tid rid state w
  unfolding killed_exit set_graph
  killed_exit-set_graph tid rid state w = refl

  handled-set_graph :
      (tid rid : Text) (r : Result (Outcome × Fields)) (w : World)
      → handled env other tid rid r w ≡ handled env sup tid rid r w
  unfolding handle set_graph
  handled-set_graph tid rid (ok x) w = refl
  handled-set_graph tid rid (raised (Exn.audit_error m)) w = refl
  handled-set_graph tid rid (raised (Exn.failure k)) w = refl
  handled-set_graph tid rid (raised Exn.cancelled) w = refl

  conclude-set_graph :
      (tid rid : Text) (r : Outcome × Fields) (w : World)
      → conclude env other tid rid r w ≡ conclude env sup tid rid r w
  unfolding conclude set_graph
  conclude-set_graph tid rid r w = refl

  -- under a flag the loop runs no step
  loop-set_graph :
      (n : ℕ) (tid rid : Text) (state : Fields) (parent : Option Text) (w : World)
      → kill_flag tid w.tables ≡ true
      → loop env other n tid rid state parent w ≡ loop env sup n tid rid state parent w
  unfolding loop ◌>>=◌
  loop-set_graph zero tid rid state parent w h = refl
  loop-set_graph (suc n) tid rid state parent w h = elim (check_cases env tid w h) [
    | inl e ↦ rw e (killed_exit-set_graph tid rid state (tick w))
    | inr (x, w', e) ↦ rw e
  ]

  module _ (tid rid input : Text) where
    run_graph-set_graph :
        (w : World)
        → kill_flag tid w.tables ≡ true
        → run_graph env other tid rid input w ≡ run_graph env sup tid rid input w
    unfolding run_graph set_graph
    run_graph-set_graph w h =
        flagged_bind tid _ _ _ (get_latest-Within tid env tid)
          (λ latest w' k. loop-set_graph sup.max_steps tid rid _ _ w' k) w h

    supervised-set_graph :
        (started : ℕ) (w : World)
        → kill_flag tid w.tables ≡ true
        → supervised env other tid rid input started w ≡ supervised env sup tid rid input started w
    unfolding supervised finish
    supervised-set_graph started w h =
        let out = run_graph env sup tid rid input w in
        rw (run_graph-set_graph w h) (
          ap
            (λ (o : Result (Outcome × Fields) × World).
              finish env sup tid rid started (outcome_of out.0) o.0 o.1)
            (handled-set_graph tid rid out.0 out.1))

    execute-set_graph :
        (w : World)
        → kill_flag tid w.tables ≡ true
        → execute env other tid rid input w ≡ execute env sup tid rid input w
    unfolding execute publish set_graph
    execute-set_graph w h =
        flagged_bind tid _ _ _ (set_thread_status-Within tid env _ _)
          (λ _ w1 h1.
            flagged_bind tid _ _ _ (send-Within tid env sup _ _)
              (λ _ w2 h2.
                flagged_bind tid _ _ _ (Respects-reading (within tid) _)
                  (λ started w3 h3.
                    bind_same _ _ _ _ w3 (supervised-set_graph started w3 h3)
                      (conclude-set_graph tid rid))
                  w2 h2)
              w1 h1)
          w h

-- Once a thread is marked for a kill, its requests do not depend on the step function any more,
-- however the calls of the environment end: no step is run.
pub invoke-set_graph :
    (env : Env) (sup : Supervisor) (g : Fields → Exec Fields) (given : Option Text) (input : Text)
    (metadata : Fields) (w : World)
    → kill_flag (thread_of env given w) w.tables ≡ true
    → invoke env (set_graph g sup) given input metadata w ≡ invoke env sup given input metadata w
unfolding audit_request
invoke-set_graph env sup g given input metadata w h =
    let tid = thread_of env given w in
    let rid = request_of env given w in
    rw
      (
        invoke-eq-audited_run env sup input metadata,
        invoke-eq-audited_run env (set_graph g sup) input metadata,
      )
      (flagged_bind tid _ _ _ (audit_request-Within tid env sup rid input metadata)
        (λ _. execute-set_graph env sup g tid rid input) (admitted given w)
        ((rel-admitted (within tid) given w).flags tid h))
