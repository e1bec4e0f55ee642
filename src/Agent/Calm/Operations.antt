-- ===== src/Agent/Calm/Operations.antt =====
-- The operations of the supervisor in a calm environment: each returns, and keeps it calm.
use nobleport.Prelude.{◌+◌, ◌≡◌, refl, Option, some, arith}
use nobleport.Python.Text.{Text}
use nobleport.Schema.{Tables}
use nobleport.World.{Env, World, Effect, ◌>>=◌, Event, tick, emit, reading, external_call}
use nobleport.World.Runs.{Runs}
use nobleport.RedisBus
use nobleport.RedisBus.{append_event, null_publish, publish_to}
use nobleport.Db.Connection.{execute, fetch}
use nobleport.Db.Connection.Outcomes.{written, execute_calm}
use nobleport.Agent.Calm.{IsCalm, IsReady}

module _ (env : Env) (calm : IsCalm env) (w : World) (ready : IsReady env w) where
  pub execute-Runs :
      (statement : Tables → Option Tables) (effect : Effect) (t : Tables)
      → statement w.tables ≡ some t
      → Runs (execute env statement effect) (λ _ w'. w' ≡ written effect w t) w
  execute-Runs statement effect t st = record {
    value = tt;
    world = written effect w t;
    runs = execute_calm env statement effect w t (calm.faultless _) ready.connected st;
    post = refl;
  }

  pub fetch-Runs :
      {A : Type 0} (query : Tables → A)
      → Runs (fetch env query) (λ a w'. (a ≡ query w.tables) × (w' ≡ tick w)) w
  unfolding fetch external_call ◌>>=◌
  fetch-Runs query = record {
    value = query w.tables;
    world = tick w;
    runs = ground (arith, calm.faultless w.calls, ready.connected);
    post = (refl, refl);
  }

  -- a statement that leaves the three tables with drawn ids alone
  pub IsReady-written :
      (effect : Effect) (t : Tables)
      → t.audit_log ≡ w.tables.audit_log
      → t.agent_metrics ≡ w.tables.agent_metrics
      → t.langgraph_checkpoints ≡ w.tables.langgraph_checkpoints
      → IsReady env (written effect w t)
  unfolding emit
  IsReady-written effect t a m c = record {
    connected = ready.connected;
    in_memory = ready.in_memory;
    fresh_audit = λ n h. rw a (ready.fresh_audit n (omega arith));
    fresh_metric = λ n h. rw m (ready.fresh_metric n (omega arith));
    fresh_checkpoint = λ n tid h. rw c (ready.fresh_checkpoint n tid (omega arith));
  }

  -- an event is published, and no table changes
  pub publish-Runs :
      (channel : Text) (event : Event)
      → Runs
          (RedisBus.publish env channel event)
          (λ _ w'. IsReady env w' × (w'.tables ≡ w.tables))
          w
  unfolding RedisBus.publish publish_to null_publish append_event external_call reading emit ◌>>=◌
  publish-Runs channel event = record {
    value = 1;
    world = (append_event channel event (env.utcnow w.calls) (tick (tick w))).1;
    runs = ground (arith, calm.faultless (w.calls + 1), ready.in_memory);
    post = (
      record {
        connected = ready.connected;
        in_memory = ready.in_memory;
        fresh_audit = λ n h. ready.fresh_audit n (omega arith);
        fresh_metric = λ n h. ready.fresh_metric n (omega arith);
        fresh_checkpoint = λ n tid h. ready.fresh_checkpoint n tid (omega arith);
      },
      refl,
    );
  }
