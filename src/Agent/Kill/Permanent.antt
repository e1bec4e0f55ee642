-- ===== src/Agent/Kill/Permanent.antt =====
-- No operation takes a kill back: calls of the API, one after the other, keep every kill flag.
use nobleport.Prelude.{◌<◌, ◌≡◌, true, Option, some, List, [], ◌∷◌}
use nobleport.Python.Text.{Text, is_nonempty}
use nobleport.Python.Json.{Fields}
use nobleport.World.{Env, World, ok, Exec}
use nobleport.World.Respects.{Change, Respects}
use nobleport.Agent.State.{request_kill, KillResult}
use nobleport.Agent.State.Laws.{request_kill_lem}
use nobleport.Agent.Runtime.{Supervisor, set_graph, InvokeResult, killed, invoke}
use nobleport.Agent.Admission.{thread_of}
use nobleport.Agent.Isolation.{within, kill_flag}
use nobleport.Agent.Isolation.Operations.{within-IsStable, within-IsSaving, request_kill-Within}
use nobleport.Agent.Stable.{IsStable, IsSaving}
use nobleport.Agent.Stable.Requests.{invoke-rel}
use nobleport.Agent.Kill.{invoke-set_graph}
use nobleport.Agent.Kill.Ending.{invoke-EndsKilled}

-- the calls of the API that write
pub data ApiCall : Type 0 where
  invoke_call : Option Text → Text → Fields → ApiCall
  kill_call : Text → ApiCall

-- One call after the other. An exception ends its own call only.
unfoldable pub serve : Env → Supervisor → List ApiCall → World → World
serve env sup [] w = w
serve env sup (invoke_call given input metadata ∷ calls) w =
    serve env sup calls (invoke env sup given input metadata w).1
serve env sup (kill_call tid ∷ calls) w = serve env sup calls (request_kill env tid w).1

-- a change that does not clear the kill flag of `tid`
abbrev pub keeps_flag : Text → Change
keeps_flag tid = record {
  rel = λ u w. kill_flag tid u.tables ≡ true → kill_flag tid w.tables ≡ true;
  rel_refl = λ w h. h;
  rel_trans = λ u v w f g h. g (f h);
  rel_tick = λ w h. h;
}

-- what stays within some thread clears no flag
within-flag :
    (tid t : Text) {A : Type 0} (m : Exec A) → Respects (within t) m → Respects (keeps_flag tid) m
within-flag tid t m k = record { at = λ w. (k.at w).flags tid }

keeps_flag-IsStable : (tid t channel : Text) (env : Env) → IsStable (keeps_flag tid) t channel env
keeps_flag-IsStable tid t channel env =
    let own = within-IsStable t env channel in
    record {
      audit = λ r e w u h. (own.audit r e w u h).flags tid;
      metric = λ r e w u h. (own.metric r e w u h).flags tid;
      thread = λ status last_event. within-flag tid t _ (own.thread status last_event);
      mark = λ e w. (own.mark e w).flags tid;
      event = λ event now mine. within-flag tid t _ (own.event event now mine);
    }

keeps_flag-IsSaving : (tid t : Text) (env : Env) → IsSaving (keeps_flag tid) t
keeps_flag-IsSaving tid t env = record {
  checkpoint = λ cid parent state e w u h.
      ((within-IsSaving t env).checkpoint cid parent state e w u h).flags tid;
}

-- a step function that does not clear the kill flag of `tid`
abbrev pub StepsKeepFlag : Text → Supervisor → Type 0
StepsKeepFlag tid sup = (state : Fields) → Respects (keeps_flag tid) (sup.step_fn state)

pub serve-flag :
    (env : Env) (sup : Supervisor) (tid : Text)
    → StepsKeepFlag tid sup
    → (calls : List ApiCall) (w : World) → kill_flag tid w.tables ≡ true
    → kill_flag tid (serve env sup calls w).tables ≡ true
unfolding serve
serve-flag env sup tid step [] w h = h
serve-flag env sup tid step (invoke_call given input metadata ∷ calls) w h =
    serve-flag env sup tid step calls _ (
      invoke-rel (keeps_flag tid) env sup given input metadata w
        (keeps_flag-IsStable tid (thread_of env given w) sup.redis_channel env)
        (keeps_flag-IsSaving tid (thread_of env given w) env) step h)
serve-flag env sup tid step (kill_call t ∷ calls) w h =
    serve-flag env sup tid step calls _ (((request_kill-Within t env).at w).flags tid h)

pub request_kill-flag :
    (env : Env) (tid : Text) (w : World) (r : KillResult)
    → (request_kill env tid w).0 ≡ ok r
    → kill_flag tid (request_kill env tid w).1.tables ≡ true
request_kill-flag env tid w r h =
    let wrote = (request_kill_lem env tid w r h).0 in rw (wrote.found) (wrote.flag_written)

module _ (env : Env) (sup : Supervisor) (tid : Text) (w : World) (r : KillResult)
    (calls : List ApiCall) where
  -- the world when the kill of `tid` and the later calls have been served
  abbrev pub later : World
  later = serve env sup calls (request_kill env tid w).1

  -- A kill of a thread with a nonempty id that was acknowledged holds for ever, if the step function
  -- does not clear its flag and the limit of steps is not 0: whatever calls are served
  -- after the kill, a request for that thread runs no step (its result and its effects are the same
  -- under any other step function), and if it returns, its outcome is "killed".
  pub kill_is_permanent :
      (input : Text) (metadata : Fields)
      → is_nonempty tid ≡ true
      → StepsKeepFlag tid sup
      → 0 < sup.max_steps
      → (request_kill env tid w).0 ≡ ok r
      → ((g : Fields → Exec Fields)
          → invoke env (set_graph g sup) (some tid) input metadata later
            ≡ invoke env sup (some tid) input metadata later)
        × ((x : InvokeResult)
            → (invoke env sup (some tid) input metadata later).0 ≡ ok x
            → x.outcome ≡ killed)
  kill_is_permanent input metadata named step pos h =
      let flag = serve-flag env sup tid step calls _ (request_kill-flag env tid w r h) in
      let mine : thread_of env (some tid) later ≡ tid = rw named in
      (
        λ g. invoke-set_graph env sup g (some tid) input metadata later (rw mine flag),
        λ x. invoke-EndsKilled env sup (some tid) input metadata later x (rw mine flag) pos,
      )
