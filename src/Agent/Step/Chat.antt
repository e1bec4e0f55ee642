-- ===== src/Agent/Step/Chat.antt =====
-- `default_supervisor_step` of app/agent/runtime.py on the states that it makes itself: there it
-- computes a pure function.
use nobleport.Prelude.{◌≡◌, refl, true, Option, some, ◌++◌, ◌∙◌}
use nobleport.Python.Text.{Text, codes, text_eq, is_nonempty}
use nobleport.Python.Int.{ℤ, pos, ◌+ℤ◌}
use nobleport.Python.Json.{
  Json, bool, int, text, arr, Items, nil, cons, Fields, get, set, append_item, truthy, get_truthy,
  dumps, dumps_items, dumps_fields, get-set,
}
use nobleport.Python.Dumps.{
  dumps_fields-get, dumps_fields-set, dumps_items-append_item, to_arr-some,
}
use nobleport.World.{World, ok, pure, ◌>>=◌}
use nobleport.Agent.Step.{
  Builtins, to_int, to_list, read_step, read_messages, message, append_input, ack,
  default_supervisor_step,
}

-- a state with a step count, a list of messages and a nonempty input text
pub record IsChat (s : Fields) : Type 0 where
  pub step : ℤ
  pub msgs : Items
  pub input : Text
  pub stored : Fields
  pub has_step : get (codes "step") s ≡ some (int step)
  pub has_messages : get (codes "messages") s ≡ some (arr msgs)
  pub has_input : get (codes "input") s ≡ some (text input)
  pub nonempty : is_nonempty input ≡ true
  pub serialises : dumps_fields s ≡ some stored

-- the two messages of a step: the input and its acknowledgement
abbrev pub answered : Items → Text → Items
answered msgs input =
    append_item (append_item msgs (message (codes "user") (text input)))
      (message (codes "supervisor") (text (codes "ack:" ++ input)))

abbrev pub next_state : ℤ → Items → Text → Fields → Fields
next_state step msgs input s = set (codes "completed") (bool true) (
    set (codes "messages") (arr (answered msgs input)) (set (codes "step") (int (step +ℤ pos 1)) s))

abbrev chat_from : Option Json → Option Json → Option Json → Fields → Fields
chat_from (some (int step)) (some (arr msgs)) (some (text input)) s = next_state step msgs input s
chat_from _ _ _ s = s

-- what a step makes of a state; a state that is no chat is left alone
unfoldable pub chat_step : Fields → Fields
chat_step s = chat_from (get (codes "step") s) (get (codes "messages") s) (get (codes "input") s) s

pub chat_step-IsChat :
    {s : Fields} (c : IsChat s) → chat_step s ≡ next_state c.step c.msgs c.input s
unfolding chat_step
chat_step-IsChat c = rw (c.has_step, c.has_messages, c.has_input) refl

read_step-int :
    (py : Builtins) (s : Fields) (n : ℤ)
    → get (codes "step") s ≡ some (int n)
    → read_step py s ≡ pure n
unfolding read_step to_int
read_step-int py s n h = rw (h, read_step) refl

read_messages-arr :
    (py : Builtins) (s : Fields) (l : Items) (w : World)
    → get (codes "messages") s ≡ some (arr l)
    → read_messages py s w ≡ (ok l, w)
unfolding read_messages to_list ◌>>=◌ truthy
read_messages-arr py s nil w h = rw (h, read_messages) refl
read_messages-arr py s (cons v l) w h = rw (h, read_messages) refl

append_input-text :
    (msgs : Items) (input : Text)
    → is_nonempty input ≡ true
    → append_input msgs (some (text input)) ≡ append_item msgs (message (codes "user") (text input))
unfolding append_input truthy
append_input-text msgs input h = rw h refl

pub step-computes :
    (py : Builtins) (s : Fields) (w : World)
    → IsChat s
    → default_supervisor_step py s w ≡ (ok (chat_step s), w)
unfolding default_supervisor_step ack ◌>>=◌
step-computes py s w c =
    rw
      (
        chat_step-IsChat c,
        read_step-int py s c.step c.has_step,
        read_messages-arr py s c.msgs w c.has_messages,
        c.has_input,
        append_input-text c.msgs c.input c.nonempty,
      )
      refl

-- the other keys of the next state
next_state-input :
    (n : ℤ) (l : Items) (t : Text) (s : Fields)
    → get (codes "input") (next_state n l t s) ≡ get (codes "input") s
unfolding codes text_eq
next_state-input n l t s = rw (get-set, get-set, get-set) refl

pub next_state-messages :
    (n : ℤ) (l : Items) (t : Text) (s : Fields)
    → get (codes "messages") (next_state n l t s) ≡ some (arr (answered l t))
unfolding codes text_eq
next_state-messages n l t s = rw (get-set, get-set) refl

pub next_state-step :
    (n : ℤ) (l : Items) (t : Text) (s : Fields)
    → get (codes "step") (next_state n l t s) ≡ some (int (n +ℤ pos 1))
unfolding codes text_eq
next_state-step n l t s = rw (get-set, get-set, get-set) refl

pub next_state-completed :
    (n : ℤ) (l : Items) (t : Text) (s : Fields)
    → get_truthy (codes "completed") (next_state n l t s) ≡ true
unfolding get_truthy truthy codes text_eq
next_state-completed n l t s = rw (get_truthy, get-set) refl

dumps-message :
    (role input : Text) → dumps (message role (text input)) ≡ some (message role (text input))
unfolding dumps
dumps-message role input = refl

dumps_items-answered :
    (l stored : Items) (t : Text)
    → dumps_items l ≡ some stored
    → dumps_items (answered l t) ≡ some (answered stored t)
dumps_items-answered l stored t h =
    dumps_items-append_item _ _ _ _ (dumps_items-append_item l stored _ _ h (dumps-message _ _))
      (dumps-message _ _)

arr-dumps : (l m : Items) → dumps_items l ≡ some m → dumps (arr l) ≡ some (arr m)
unfolding dumps
arr-dumps l m h = rw h refl

-- the serialisation of a chat's messages
stored_messages : {s : Fields} (c : IsChat s) → (m : Items) × (dumps_items c.msgs ≡ some m)
unfolding dumps
stored_messages c =
    let (u, du, found) =
      dumps_fields-get (codes "messages") (arr c.msgs) _ c.stored c.serialises c.has_messages in
    let (m, dm, same) = to_arr-some (dumps_items c.msgs) u du in (m, dm)

dumps-int : (n : ℤ) → dumps (int n) ≡ some (int n)
unfolding dumps
dumps-int n = refl

dumps-bool : dumps (bool true) ≡ some (bool true)
unfolding dumps
dumps-bool = refl

next_state-dumps :
    {s : Fields} (c : IsChat s) (m : Items)
    → dumps_items c.msgs ≡ some m
    → dumps_fields (next_state c.step c.msgs c.input s)
      ≡ some (next_state c.step m c.input c.stored)
next_state-dumps c m h =
    dumps_fields-set _ _ _ _ _
      (dumps_fields-set _ _ _ _ _ (dumps_fields-set _ _ _ _ _ c.serialises (dumps-int _))
        (arr-dumps _ _ (dumps_items-answered c.msgs m c.input h)))
      dumps-bool

pub next-IsChat : {s : Fields} (c : IsChat s) → IsChat (next_state c.step c.msgs c.input s)
next-IsChat {s} c =
    let m = stored_messages c in
    record {
      step = c.step +ℤ pos 1;
      msgs = answered c.msgs c.input;
      input = c.input;
      stored = next_state c.step m.0 c.input c.stored;
      has_step = next_state-step c.step c.msgs c.input s;
      has_messages = next_state-messages c.step c.msgs c.input s;
      has_input = next_state-input c.step c.msgs c.input s ∙ c.has_input;
      nonempty = c.nonempty;
      serialises = next_state-dumps c m.0 m.1;
    }
