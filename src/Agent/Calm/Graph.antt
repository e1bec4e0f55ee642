-- ===== src/Agent/Calm/Graph.antt =====
-- The loop over the graph, in a calm environment, against its specification by a pure step.
use nobleport.Prelude.{
  ℕ, zero, suc, ◌<◌, ◌≡◌, refl, ap, sym, ◌∙◌, false, Option, some, arith, Bool-cases, ◌⊎◌, inl, inr,
  if◌then◌else◌,
}
use nobleport.Python.Text.{Text, codes}
use nobleport.Python.Json.{Fields, get_truthy, dumps_fields}
use nobleport.Schema.{CheckpointRow, Tables, latest_checkpoint}
use nobleport.World.{Env, World, ok, stepped, pure, tick, emit}
use nobleport.World.Runs.{Runs, Runs-pure, Runs-reading, Runs-bind, Runs-mono}
use nobleport.Agent.Runtime.{
  Supervisor, Outcome, ok_outcome, max_steps_exceeded, publish, call_step, round, loop,
}
use nobleport.Agent.Isolation.{kill_flag}
use nobleport.Agent.Calm.{IsCalm, IsReady, IsReady-tick}
use nobleport.Agent.Calm.Operations.{publish-Runs}
use nobleport.Agent.Calm.Threads.{is_kill_requested-Runs}
use nobleport.Agent.Calm.Writes.{put-Runs}

-- `step_fn` computes the pure function `f` on the states of `Inv`, does nothing else, stays among
-- them, and gives states that can be serialised.
pub record IsPureStep (sup : Supervisor) (f : Fields → Fields) (Inv : Fields → Type 0)
    : Type 0 where
  pub computes : (s : Fields) (w : World) → Inv s → sup.step_fn s w ≡ (ok (f s), w)
  pub stays : (s : Fields) → Inv s → Inv (f s)
  pub serialises : (s : Fields) → Inv s → (d : Fields) × (dumps_fields (f s) ≡ some d)

-- What a run of the graph is to compute: the first iterate of the step, among the first `n`, that
-- is marked as completed, or the n-th with the outcome that says so.
unfoldable pub run_spec : (Fields → Fields) → ℕ → Fields → Outcome × Fields
run_spec f zero s = (max_steps_exceeded, s)
run_spec f (suc n) s =
    let rest = run_spec f n (f s) in
    if get_truthy (codes "completed") (f s) then (ok_outcome, f s) else rest

-- `w'` is calm and the thread states are as in `w`
pub record Kept (env : Env) (w w' : World) : Type 0 where
  pub ready : IsReady env w'
  pub threads : w'.tables.agent_thread_state ≡ w.tables.agent_thread_state

IsReady-emit : {env : Env} {w : World} → IsReady env w → IsReady env (emit stepped w)
unfolding emit
IsReady-emit r = record {
  connected = r.connected;
  in_memory = r.in_memory;
  fresh_audit = r.fresh_audit;
  fresh_metric = r.fresh_metric;
  fresh_checkpoint = r.fresh_checkpoint;
}

-- the state of the latest checkpoint of a thread is the serialisation of `s`
abbrev pub IsSaved : Text → Fields → World → Type 0
IsSaved tid s w =
    (row : CheckpointRow) × (latest_checkpoint tid w.tables.langgraph_checkpoints ≡ some row)
    × (dumps_fields s ≡ some row.state)

module _ (env : Env) (calm : IsCalm env) (sup : Supervisor) where
  pub send-Runs :
      (event_type thread_id : Text) (payload : Fields) (w : World)
      → IsReady env w
      → Runs
          (publish env sup event_type thread_id payload)
          (λ _ w'. IsReady env w' × (w'.tables ≡ w.tables))
          w
  unfolding publish
  send-Runs event_type thread_id payload w ready =
      Runs-bind (λ _ u. u ≡ tick w) _ _ _ w (Runs-reading _ _ w refl)
        (λ now w1 e. rw e (publish-Runs env calm (tick w) (IsReady-tick ready) _ _))

  module _ (f : Fields → Fields) (Inv : Fields → Type 0) (pure_step : IsPureStep sup f Inv)
      (tid rid : Text) where
    call_step-Runs :
        (s : Fields) (w : World)
        → Inv s
        → Runs (call_step env sup s) (λ s' w'. (s' ≡ f s) × (w' ≡ emit stepped w)) w
    unfolding call_step
    call_step-Runs s w i = record {
      value = f s;
      world = emit stepped w;
      runs = pure_step.computes s (emit stepped w) i;
      post = (refl, refl);
    }

    -- what one round leaves: the next state, saved, and the thread states as they were
    record Advanced (s : Fields) (w : World) (next : Fields × Text) (w' : World) : Type 0 where
      computed : next.0 ≡ f s
      kept : Kept env w w'
      saved : IsSaved tid (f s) w'

    round-Runs :
        (s : Fields) (parent : Option Text) (w : World)
        → IsReady env w
        → Inv s
        → Runs (round env sup tid rid s parent) (Advanced s w) w
    unfolding round emit
    round-Runs s parent w ready i = Runs-bind _ _ _ _ w (send-Runs _ _ _ w ready) (λ _ w1 (r1, t1).
        Runs-bind _ _ _ _ w1 (call_step-Runs s w1 i) (λ s' w2 (es, ew).
          rw (es, ew)
            (Runs-bind _ _ _ _ (emit stepped w1)
              (put-Runs env calm (emit stepped w1) (IsReady-emit r1) tid (f s)
                (pure_step.serialises s i).0 parent (pure_step.serialises s i).1)
              (λ cp w3 saved.
                Runs-bind _ _ _ _ w3 (send-Runs _ _ _ w3 saved.ready) (λ _ w4 (r4, t4).
                  Runs-pure _ _ w4 (record {
                    computed = refl;
                    kept = record {
                      ready = r4;
                      threads =
                          ap (λ (u : Tables). u.agent_thread_state) t4
                          ∙ saved.threads
                          ∙ ap (λ (u : Tables). u.agent_thread_state) t1;
                    };
                    saved = (
                      saved.row,
                      rw t4 saved.latest,
                      (pure_step.serialises s i).1 ∙ ap some (sym saved.stored_state),
                    );
                  }))))))

    -- what the loop leaves: the specified outcome and state, saved if a round was run
    pub record Looped (n : ℕ) (s : Fields) (w : World) (r : Outcome × Fields) (w' : World)
        : Type 0 where
      pub computed : r ≡ run_spec f n s
      pub kept : Kept env w w'
      pub saved : (0 < n) ⊎ IsSaved tid s w → IsSaved tid r.1 w'

    pub loop-Runs :
        (n : ℕ) (s : Fields) (parent : Option Text) (w : World)
        → IsReady env w
        → kill_flag tid w.tables ≡ false
        → Inv s
        → Runs (loop env sup n tid rid s parent) (Looped n s w) w
    unfolding loop run_spec
    loop-Runs zero s parent w ready flag i = Runs-pure _ _ w (record {
      computed = refl;
      kept = record { ready = ready; threads = refl };
      saved = λ h. elim h [ inl none_left ↦ absurd (omega arith) | inr now ↦ now ];
    })
    loop-Runs (suc n) s parent w ready flag i =
        Runs-bind _ _ _ _ w (is_kill_requested-Runs env calm tid w ready) (λ kill w1 (ek, e1).
          rw (ek, flag, e1)
            (Runs-bind _ _ _ _ (tick w) (round-Runs s parent (tick w) (IsReady-tick ready) i)
              (λ next w2 a. after_round next w2 a (λ p.
                loop-Runs n (f s) p w2 a.kept.ready (rw a.kept.threads flag)
                  (pure_step.stays s i)))))
      where
        after_round :
            (next : Fields × Text) (w2 : World)
            → Advanced s (tick w) next w2
            → ((p : Option Text) → Runs (loop env sup n tid rid (f s) p) (Looped n (f s) w2) w2)
            → Runs
                (if get_truthy (codes "completed") next.0
                  then pure (ok_outcome, next.0)
                  else loop env sup n tid rid next.0 (some next.1))
                (Looped (suc n) s w)
                w2
        after_round next w2 a rest =
            rw a.computed (elim (Bool-cases (get_truthy (codes "completed") (f s))) [
              | inl e ↦ rw e (
                  Runs-pure _ _ w2 (record {
                    computed = rw e;
                    kept = record { ready = a.kept.ready; threads = a.kept.threads };
                    saved = λ _. a.saved;
                  }))
              | inr e ↦ rw e (
                  Runs-mono _ _ _ w2 (rest (some next.1)) (λ r w3 l. record {
                    computed = rw e l.computed;
                    kept = record {
                      ready = l.kept.ready;
                      threads = l.kept.threads ∙ a.kept.threads;
                    };
                    saved = λ _. l.saved (inr a.saved);
                  }))
            ])
