-- ===== src/Agent/Isolation/Operations.antt =====
-- Every operation that a request makes stays within its thread.
use nobleport.Prelude.{
  sym, append-nil, [], ◌≡◌, ◌≢◌, refl, subst, Bool, true, false, Option, none, some, arith, inl,
  inr,
}
use nobleport.Python.Text.{Text}
use nobleport.Schema.{Cell, to_bool, ThreadRow, find_thread}
use nobleport.World.{Env, reading, Dialect, World, Event, tick, ◌>>=◌}
use nobleport.World.Respects.{Respects, respects_rules}
use nobleport.Db.Connection.Calls.{fetch_cases, Respects-fetch, execute_at}
use nobleport.RedisBus.{note_event}
use nobleport.Agent.State.{
  flag_of, kept_flag, write_thread, upsert, set_thread_status, request_kill,
}
use nobleport.Agent.Stable.{IsStable, IsSaving}
use nobleport.Agent.Isolation.{Within, within, Within-refl, Within-trans, Within-tick}
use nobleport.Agent.Isolation.Statements.{
  insert_audit_row-Within, insert_metric_row-Within, insert_checkpoint_row-Within,
  insert_thread_row-Within, update_thread_row-Within, emit-Within,
}

module _ (tid : Text) (env : Env) where
  -- a flag that was set survives the UPDATE, unless the caller clears it
  kept_flag_set :
      (d : Dialect) (old : Cell) (asked : Option Bool)
      → asked ≢ some false
      → to_bool old ≡ true
      → to_bool (kept_flag d old asked) ≡ true
  unfolding kept_flag
  kept_flag_set d old asked ne h = ground arith

  write_thread-Within :
      (status : Text) (asked : Option Bool) (last_event : Option Text) (o : Option ThreadRow)
      (now : Text) (d : Dialect) (w : World)
      → asked ≢ some false
      → find_thread tid w.tables.agent_thread_state ≡ o
      → Within tid w (write_thread env tid status asked last_event o now d w).1
  unfolding write_thread
  write_thread-Within status asked last_event none now d w ne e =
      execute_at (within tid) env _ _ w λ t h. insert_thread_row-Within tid (tick w) _ _ t refl h
  write_thread-Within status asked last_event (some r) now d w ne e =
      execute_at (within tid) env _ _ w λ t h.
        update_thread_row-Within tid (tick w) _ _ t refl
          (λ k. kept_flag_set d r.kill_requested asked ne (subst (λ o. flag_of o ≡ true) e k)) h

  upsert-Within :
      (status : Text) (asked : Option Bool) (last_event : Option Text)
      → asked ≢ some false
      → Respects (within tid) (upsert env tid status asked last_event)
  unfolding upsert ◌>>=◌ reading
  upsert-Within status asked last_event ne = record {
    at = λ w. elim (fetch_cases env (λ t. find_thread tid t.agent_thread_state) w) [
      | inl e ↦ rw e (
          Within-trans tid w (tick (tick w)) _
            (Within-trans tid w (tick w) _ (Within-tick tid w) (Within-tick tid (tick w)))
            (write_thread-Within status asked last_event _ _ _ (tick (tick w)) ne refl))
      | inr (inl (x, e)) ↦ rw e (Within-tick tid w)
      | inr (inr (x, e)) ↦ rw e (Within-refl tid w)
    ];
  }

  not_cleared : ◌≢◌ {A = Option Bool} none (some false)
  not_cleared e = cc

  pub set_thread_status-Within :
      (status : Text) (last_event : Option Text)
      → Respects (within tid) (set_thread_status env tid status last_event)
  unfolding set_thread_status
  set_thread_status-Within status last_event = upsert-Within status none last_event not_cleared

  asked_for : ◌≢◌ {A = Option Bool} (some true) (some false)
  asked_for e = cc

  pub request_kill-Within : Respects (within tid) (request_kill env tid)
  unfolding request_kill
  request_kill-Within = search (respects_rules, Respects-fetch, upsert-Within, asked_for)

  note_event-Within :
      (channel : Text) (event : Event) (now : Text)
      → Respects (within tid) (note_event channel event now)
  unfolding note_event
  note_event-Within channel event now = record {
    at = λ w. record {
      audit = ([], sym (append-nil _));
      trace = ([], sym (append-nil _));
      threads = λ t ne. refl;
      flags = λ t h. h;
      checkpoints = λ t ne. refl;
      database = refl;
    };
  }

  pub within-IsStable : (channel : Text) → IsStable (within tid) tid channel env
  within-IsStable channel = record {
    audit = λ r e w t h. insert_audit_row-Within tid w e r t h;
    metric = λ r e w t h. insert_metric_row-Within tid w e r t h;
    thread = set_thread_status-Within;
    mark = emit-Within tid;
    event = λ event now _. note_event-Within channel event now;
  }

  pub within-IsSaving : IsSaving (within tid) tid
  within-IsSaving = record {
    checkpoint =
        λ cid parent state e w t h. insert_checkpoint_row-Within tid w e cid parent state t h;
  }
