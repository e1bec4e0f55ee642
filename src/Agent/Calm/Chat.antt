-- ===== src/Agent/Calm/Chat.antt =====
-- Requests served by `default_supervisor_step` in a calm environment.
use nobleport.Prelude.{
  ℕ, zero, suc, ◌<◌, ◌≡◌, refl, ap, sym, ◌∙◌, true, false, Option, none, some, arith, if◌then◌else◌,
}
use nobleport.Python.Text.{Text, codes, text_eq, is_nonempty}
use nobleport.Python.Int.{ℤ, pos, ◌+ℤ◌}
use nobleport.Python.Json.{
  int, text, arr, Items, nil, Fields, get, set, dumps, dumps_items, dumps_fields, get-set,
}
use nobleport.Python.Dumps.{
  dumps_fields-get, dumps_fields-set, dumps_fields-dumps_fields, to_arr-some,
}
use nobleport.Schema.{CheckpointRow, latest_checkpoint}
use nobleport.World.{Env, World, ok}
use nobleport.Agent.Checkpoint.{to_tuple?}
use nobleport.Agent.Step.{Builtins, default_supervisor_step}
use nobleport.Agent.Step.Chat.{
  IsChat, answered, next_state, chat_step, chat_step-IsChat, step-computes, next_state-step,
  next_state-messages, next_state-completed, next-IsChat,
}
use nobleport.Agent.Runtime.{Supervisor, InvokeResult, Outcome, is_ok, ok_outcome, resumed, invoke}
use nobleport.Agent.Admission.{thread_of}
use nobleport.Agent.Isolation.{kill_flag}
use nobleport.Agent.Calm.{IsCalm, IsReady}
use nobleport.Agent.Calm.Threads.{status_at}
use nobleport.Agent.Calm.Graph.{IsPureStep, run_spec}
use nobleport.Agent.Calm.Requests.{start_state}
use nobleport.Agent.Calm.Totality.{invoke_total}

-- a state that a chat can go on from
pub record IsResumable (s : Fields) : Type 0 where
  pub step : ℤ
  pub msgs : Items
  pub stored : Fields
  pub has_step : get (codes "step") s ≡ some (int step)
  pub has_messages : get (codes "messages") s ≡ some (arr msgs)
  pub serialises : dumps_fields s ≡ some stored

-- the latest state of the thread, or the initial one
abbrev pub latest_state : Text → World → Fields
latest_state tid w = (resumed (to_tuple? (latest_checkpoint tid w.tables.langgraph_checkpoints))).0

dumps-text : (t : Text) → dumps (text t) ≡ some (text t)
unfolding dumps
dumps-text t = refl

other_keys :
    (k : Text) (tid input : Text) (s : Fields)
    → text_eq (codes "thread_id") k ≡ false
    → text_eq (codes "input") k ≡ false
    → get k (set (codes "thread_id") (text tid) (set (codes "input") (text input) s)) ≡ get k s
other_keys k tid input s h g = rw (get-set, h, get-set, g) refl

input_key :
    (tid input : Text) (s : Fields)
    → get (codes "input") (set (codes "thread_id") (text tid) (set (codes "input") (text input) s))
      ≡ some (text input)
unfolding codes text_eq
input_key tid input s = rw (get-set, get-set) refl

pub start-IsChat :
    (tid input : Text) (w : World)
    → IsResumable (latest_state tid w)
    → is_nonempty input ≡ true
    → IsChat (start_state tid input w)
unfolding codes text_eq
start-IsChat tid input w c h =
    let s = latest_state tid w in
    record {
      step = c.step;
      msgs = c.msgs;
      input = input;
      stored = set (codes "thread_id") (text tid) (set (codes "input") (text input) c.stored);
      has_step = other_keys (codes "step") tid input s refl refl ∙ c.has_step;
      has_messages = other_keys (codes "messages") tid input s refl refl ∙ c.has_messages;
      has_input = input_key tid input s;
      nonempty = h;
      serialises =
          dumps_fields-set _ _ _ _ _ (dumps_fields-set _ _ _ _ _ c.serialises (dumps-text input))
            (dumps-text tid);
    }

-- a thread without checkpoints can be chatted with
pub initial-IsResumable : IsResumable (resumed none).0
unfolding codes text_eq get dumps_fields
initial-IsResumable = record {
  step = pos 0;
  msgs = nil;
  stored = (resumed none).0;
  has_step = refl;
  has_messages = refl;
  serialises = refl;
}

-- what was saved of a state that a chat can go on from is such a state
saved-IsResumable : (s d : Fields) → IsChat s → dumps_fields s ≡ some d → IsResumable d
unfolding dumps
saved-IsResumable s d c h =
    let (u, du, found) = dumps_fields-get _ _ s d h c.has_step in
    let (v, dv, found') = dumps_fields-get _ _ s d h c.has_messages in
    let (m, dm, same) = to_arr-some (dumps_items c.msgs) v dv in
    record {
      step = c.step;
      msgs = m;
      stored = d;
      has_step = found ∙ sym du;
      has_messages = found' ∙ ap some same;
      serialises = dumps_fields-dumps_fields s d h;
    }

module _ (py : Builtins) (limit : ℕ) (channel : Text) where
  -- `Supervisor` as it is made without a step function
  abbrev pub default_supervisor : Supervisor
  default_supervisor = record {
    step_fn = default_supervisor_step py;
    max_steps = limit;
    redis_channel = channel;
  }

  chat_stays : (s : Fields) → IsChat s → IsChat (chat_step s)
  chat_stays s c = rw (chat_step-IsChat c) (next-IsChat c)

  pub default-IsPureStep : IsPureStep default_supervisor chat_step IsChat
  default-IsPureStep = record {
    computes = step-computes py;
    stays = chat_stays;
    serialises = λ s c. ((chat_stays s c).stored, (chat_stays s c).serialises);
  }

run_spec-chat :
    (n : ℕ) (s : Fields) (c : IsChat s)
    → 0 < n
    → run_spec chat_step n s ≡ (ok_outcome, next_state c.step c.msgs c.input s)
unfolding run_spec
run_spec-chat zero s c h = absurd (omega arith)
run_spec-chat (suc n) s c h =
    rw (run_spec, chat_step-IsChat c, next_state-completed c.step c.msgs c.input s) refl

-- what the default supervisor leaves of a request: the answer, and the saved state
pub record Chatted (tid input : Text) (step : ℤ) (msgs : Items) (r : InvokeResult) (w' : World)
    : Type 0 where
  pub outcome : r.outcome ≡ ok_outcome
  pub step_counted : get (codes "step") r.state ≡ some (int (step +ℤ pos 1))
  pub answer : get (codes "messages") r.state ≡ some (arr (answered msgs input))
  pub status : status_at tid w' ≡ some (codes "completed")
  pub saved : dumps_fields r.state ≡ some (latest_state tid w')
  pub resumable : IsResumable (latest_state tid w')

latest_state-some :
    (tid : Text) (w : World) (row : CheckpointRow)
    → latest_checkpoint tid w.tables.langgraph_checkpoints ≡ some row
    → latest_state tid w ≡ row.state
latest_state-some tid w row h = ap (λ o. (resumed (to_tuple? o)).0) h

completed_status :
    (tid : Text) (w' : World) (o : Outcome)
    → o ≡ ok_outcome
    → status_at tid w' ≡ some (if is_ok o then codes "completed" else codes "running")
    → status_at tid w' ≡ some (codes "completed")
completed_status tid w' o e h = rw e at h

module _ (env : Env) (calm : IsCalm env) (py : Builtins) (limit : ℕ) (channel : Text)
    (given : Option Text) (input : Text) (metadata stored : Fields) (w : World) where
  abbrev tid : Text
  tid = thread_of env given w

  abbrev sup : Supervisor
  sup = default_supervisor py limit channel

  -- In a calm environment and a ready world, the default supervisor, with a limit of at least one
  -- step, answers a nonempty request, with metadata that can be serialised, of a thread that is not
  -- marked for a kill and whose latest state, if it has one, is one that a chat can go on from: the
  -- outcome is "ok", the step count is one more, the messages are those of the latest checkpoint
  -- with the input and its acknowledgement after them, and the thread is completed. The state is
  -- saved as the thread's latest checkpoint, from which a chat can go on again.
  pub default_invoke :
      IsReady env w
      → kill_flag tid w.tables ≡ false
      → dumps_fields metadata ≡ some stored
      → is_nonempty input ≡ true
      → 0 < limit
      → (c : IsResumable (latest_state tid w))
      → (r : InvokeResult) × (w' : World) × (invoke env sup given input metadata w ≡ (ok r, w'))
        × Chatted tid input c.step c.msgs r w'
  unfolding start-IsChat
  default_invoke ready flag h given_input some_steps c =
      let chat = start-IsChat tid input w c given_input in
      let (r, w', run, served) =
        invoke_total env calm sup chat_step IsChat (default-IsPureStep py limit channel) given input
          metadata stored w ready flag h chat in
      let spec = run_spec-chat limit (start_state tid input w) chat some_steps in
      let state = served.state ∙ ap (λ (p : Outcome × Fields). p.1) spec in
      let (row, found, kept) = served.saved some_steps in
      let now = latest_state-some tid w' row found in
      (
        r,
        w',
        run,
        record {
          outcome = served.outcome ∙ ap (λ (p : Outcome × Fields). p.0) spec;
          step_counted = rw state (next_state-step chat.step chat.msgs chat.input _);
          answer = rw state (next_state-messages chat.step chat.msgs chat.input _);
          status =
              completed_status tid w' r.outcome
                (served.outcome ∙ ap (λ (p : Outcome × Fields). p.0) spec) served.status;
          saved = rw now kept;
          resumable =
              rw now (saved-IsResumable r.state row.state (rw state (next-IsChat chat)) kept);
        },
      )
