-- ===== src/Agent/Kill/Ending.antt =====
-- A request of a thread that is marked for a kill ends as killed, if it ends without an exception.
use nobleport.Prelude.{ℕ, zero, suc, ◌<◌, ◌≡◌, refl, subst, inl, inr, true, Option, arith}
use nobleport.Python.Text.{Text}
use nobleport.Python.Json.{Fields}
use nobleport.World.{
  Env, Exn, audit_error, failure, cancelled, World, Result, ok, raised, Exec, pure, raise, continue,
  ◌>>=◌,
}
use nobleport.World.Respects.{Respects, Respects-reading}
use nobleport.Agent.Runtime.{
  Supervisor, Outcome, killed, InvokeResult, killed_exit, loop, run_graph, handle, handled, finish,
  supervised, conclude, execute, invoke, outcome_of,
}
use nobleport.Agent.Admission.{thread_of, request_of, admitted, invoke-eq-audited_run, rel-admitted}
use nobleport.Agent.Isolation.{within, kill_flag}
use nobleport.Agent.Isolation.Requests.{get_latest-Within, send-Within, audit_request-Within}
use nobleport.Agent.Isolation.Operations.{set_thread_status-Within}
use nobleport.Agent.Kill.{check_cases}

-- every value that `m` returns satisfies `P`
record Yields {A : Type 0} (P : A → Type 0) (m : Exec A) : Type 0 where
  at : (w : World) (a : A) → (m w).0 ≡ ok a → P a

-- the same of a run that begins under the kill flag of `tid`
record Flagged (tid : Text) {A : Type 0} (P : A → Type 0) (m : Exec A) : Type 0 where
  at : (w : World) → kill_flag tid w.tables ≡ true → (a : A) → (m w).0 ≡ ok a → P a

module _ {A B : Type 0} (P : B → Type 0) (f : A → Exec B) where
  continue_yields :
      (r : Result A) (w : World) (b : B)
      → ((a : A) → r ≡ ok a → Yields P (f a))
      → (continue r f w).0 ≡ ok b
      → P b
  continue_yields (ok a) w b k h = (k a refl).at w b h
  continue_yields (raised e) w b k h = absurd (ground arith)

  Yields-bind : (m : Exec A) → ((a : A) → Yields P (f a)) → Yields P (m >>= f)
  unfolding ◌>>=◌
  Yields-bind m k = record { at = λ w b h. continue_yields (m w).0 (m w).1 b (λ a _. k a) h }

  -- what the first part returns under the flag may serve the second
  Flagged-then :
      (tid : Text) (Q : A → Type 0) (m : Exec A)
      → Flagged tid Q m
      → ((a : A) → Q a → Yields P (f a))
      → Flagged tid P (m >>= f)
  unfolding ◌>>=◌
  Flagged-then tid Q m km kf = record {
    at = λ w flag b h. continue_yields (m w).0 (m w).1 b (λ a e. kf a (km.at w flag a e)) h;
  }

  continue_flagged :
      (tid : Text) (r : Result A) (w : World) (b : B)
      → ((a : A) → Flagged tid P (f a))
      → kill_flag tid w.tables ≡ true
      → (continue r f w).0 ≡ ok b
      → P b
  continue_flagged tid (ok a) w b k flag h = (k a).at w flag b h
  continue_flagged tid (raised e) w b k flag h = absurd (ground arith)

  Flagged-bind :
      (tid : Text) (m : Exec A)
      → Respects (within tid) m
      → ((a : A) → Flagged tid P (f a))
      → Flagged tid P (m >>= f)
  unfolding ◌>>=◌
  Flagged-bind tid m km kf = record {
    at = λ w flag b h. continue_flagged tid (m w).0 (m w).1 b kf ((km.at w).flags tid flag) h;
  }

Yields-pure : {A : Type 0} (P : A → Type 0) (a : A) → P a → Yields P (pure a)
unfolding ◌>>=◌
Yields-pure P a p = record { at = λ w b h. subst P (ground (arith, h)) p }

Yields-raise : {A : Type 0} (P : A → Type 0) (e : Exn) → Yields P (raise e)
unfolding ◌>>=◌
Yields-raise P e = record { at = λ w b h. absurd (ground (arith, h)) }

abbrev IsKilled : Outcome × Fields → Type 0
IsKilled r = r.0 ≡ killed

module _ (env : Env) (sup : Supervisor) (tid rid : Text) where
  killed_exit-IsKilled : (state : Fields) → Yields IsKilled (killed_exit env sup tid rid state)
  unfolding killed_exit
  killed_exit-IsKilled state =
      Yields-bind _ _ _ λ _. Yields-bind _ _ _ λ _. Yields-pure IsKilled (killed, state) refl

  loop-IsKilled :
      (n : ℕ) (state : Fields) (parent : Option Text)
      → 0 < n
      → Flagged tid IsKilled (loop env sup n tid rid state parent)
  unfolding loop ◌>>=◌
  loop-IsKilled zero state parent pos = absurd (omega arith)
  loop-IsKilled (suc n) state parent pos = record {
    at = λ w flag r h. elim (check_cases env tid w flag) [
      | inl e ↦ (killed_exit-IsKilled state).at _ r (rw (e, ◌>>=◌) at h)
      | inr (x, w', e) ↦ absurd (ground (arith, h, e))
    ];
  }

  run_graph-IsKilled :
      (input : Text) → 0 < sup.max_steps → Flagged tid IsKilled (run_graph env sup tid rid input)
  unfolding run_graph
  run_graph-IsKilled input pos =
      Flagged-bind _ _ tid _ (get_latest-Within tid env tid)
        (λ latest. loop-IsKilled sup.max_steps _ _ pos)

  -- a handler returns no value
  handle-raises : {A : Type 0} (P : A → Type 0) (e : Exn) → Yields P (handle env sup tid rid e)
  unfolding handle
  handle-raises P cancelled = Yields-bind _ _ _ λ _. Yields-bind _ _ _ λ _. Yields-raise P _
  handle-raises P (failure k) = Yields-bind _ _ _ λ _. Yields-bind _ _ _ λ _. Yields-raise P _
  handle-raises P (audit_error m) = Yields-bind _ _ _ λ _. Yields-bind _ _ _ λ _. Yields-raise P _

  handled-Yields :
      (P : Outcome × Fields → Type 0) (r : Result (Outcome × Fields))
      → ((a : Outcome × Fields) → r ≡ ok a → P a)
      → Yields P (handled env sup tid rid r)
  handled-Yields P (ok a) k = Yields-pure P a (k a refl)
  handled-Yields P (raised e) k = handle-raises P e

  finish-Yields :
      (P : Outcome × Fields → Type 0) (started : ℕ) (o : Outcome) (r : Result (Outcome × Fields))
      → ((a : Outcome × Fields) → r ≡ ok a → P a)
      → Yields P (finish env sup tid rid started o r)
  unfolding finish
  finish-Yields P started o r k =
      Yields-bind _ _ _ λ _. Yields-bind _ _ _ λ _. record { at = λ w a h. k a h }

  supervised-IsKilled :
      (input : Text) (started : ℕ)
      → 0 < sup.max_steps
      → Flagged tid IsKilled (supervised env sup tid rid input started)
  unfolding supervised
  supervised-IsKilled input started pos = record {
    at = λ w flag a h.
        let (r, w1) = run_graph env sup tid rid input w in
        let (r', w2) = handled env sup tid rid r w1 in
        (finish-Yields IsKilled started (outcome_of r) r' (λ b e.
            (handled-Yields IsKilled r ((run_graph-IsKilled input pos).at w flag)).at w1 b e)).at
          w2 a h;
  }

  abbrev EndsKilled : InvokeResult → Type 0
  EndsKilled r = r.outcome ≡ killed

  conclude-EndsKilled :
      (r : Outcome × Fields) → IsKilled r → Yields EndsKilled (conclude env sup tid rid r)
  unfolding conclude
  conclude-EndsKilled (o, state) e = Yields-bind _ _ _ λ _. Yields-pure EndsKilled _ e

  execute-EndsKilled :
      (input : Text) → 0 < sup.max_steps → Flagged tid EndsKilled (execute env sup tid rid input)
  unfolding execute
  execute-EndsKilled input pos = Flagged-bind _ _ tid _ (set_thread_status-Within tid env _ _) λ _.
      Flagged-bind _ _ tid _ (send-Within tid env sup _ _) λ _.
        Flagged-bind _ _ tid _ (Respects-reading (within tid) _) λ started.
          Flagged-then _ _ tid IsKilled _ (supervised-IsKilled input started pos)
            conclude-EndsKilled

-- If the thread of a request is marked for a kill, and the loop may run at all, then a request
-- that returns has the outcome "killed".
pub invoke-EndsKilled :
    (env : Env) (sup : Supervisor) (given : Option Text) (input : Text) (metadata : Fields)
    (w : World) (r : InvokeResult)
    → kill_flag (thread_of env given w) w.tables ≡ true
    → 0 < sup.max_steps
    → (invoke env sup given input metadata w).0 ≡ ok r
    → r.outcome ≡ killed
invoke-EndsKilled env sup given input metadata w r flag pos h =
    let tid = thread_of env given w in
    let rid = request_of env given w in
    (Flagged-bind _ _ tid _ (audit_request-Within tid env sup rid input metadata)
        (λ _. execute-EndsKilled env sup tid rid input pos)).at
      (admitted given w) ((rel-admitted (within tid) given w).flags tid flag) r
      (rw (invoke-eq-audited_run env sup input metadata) at h)
