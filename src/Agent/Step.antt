-- ===== src/Agent/Step.antt =====
-- `default_supervisor_step` of app/agent/runtime.py.
pub mod Chat
pub mod Pure
use nobleport.Prelude.{Option, none, some, true, false, ◌++◌, [], ◌∷◌, if◌then◌else◌}
use nobleport.Python.Text.{Text, codes}
use nobleport.Python.Int.{ℤ, pos, ◌+ℤ◌}
use nobleport.Python.Json.{
  Json, null, bool, int, text, arr, obj, other, circular, Items, nil, cons, Fields, end, field, get,
  set, append_item, truthy, get_truthy,
}
use nobleport.World.{Exn, failure, value_error, type_error, Exec, raise, pure, ◌>>=◌}

-- What `int`, `list` and `str` make of values whose treatment the program leaves to the language:
-- `int` of a text or of an object of another class, `list` of such an object, and the text of a
-- value that is no text.
pub record Builtins : Type 0 where
  pub int_of_text : Text → Option ℤ
  pub int_of_object : Text → Option ℤ
  pub list_of_object : Text → Option Items
  pub show : Json → Text

abbrev or_raise : {A : Type 0} → Exn → Option A → Exec A
or_raise e none = raise e
or_raise e (some a) = pure a

-- `int(v)`
unfoldable pub to_int : Builtins → Json → Exec ℤ
to_int py (int n) = pure n
to_int py (bool true) = pure (pos 1)
to_int py (bool false) = pure (pos 0)
to_int py (text s) = or_raise (failure value_error) (py.int_of_text s)
to_int py (other s) = or_raise (failure type_error) (py.int_of_object s)
to_int py null = raise (failure type_error)
to_int py (arr l) = raise (failure type_error)
to_int py (obj d) = raise (failure type_error)
to_int py circular = raise (failure type_error)

unfoldable pub chars : Text → Items
chars [] = nil
chars (c ∷ s) = cons (text (c ∷ [])) (chars s)

unfoldable pub keys : Fields → Items
keys end = nil
keys (field k v d) = cons (text k) (keys d)

-- `list(v)` of a value that is true
unfoldable pub to_list : Builtins → Json → Exec Items
unfolding chars keys
to_list py (arr l) = pure l
to_list py (text s) = pure (chars s)
to_list py (obj d) = pure (keys d)
to_list py (other s) = or_raise (failure type_error) (py.list_of_object s)
to_list py null = raise (failure type_error)
to_list py (bool b) = raise (failure type_error)
to_list py (int n) = raise (failure type_error)
to_list py circular = raise (failure type_error)

-- `int(state.get("step", 0))`
unfoldable pub read_step : Builtins → Fields → Exec ℤ
unfolding to_int
read_step py state = elim (get (codes "step") state) [ none ↦ pure (pos 0) | some v ↦ to_int py v ]

-- `list(state.get("messages") or [])`
unfoldable pub read_messages : Builtins → Fields → Exec Items
unfolding to_list get_truthy
read_messages py state = elim (get (codes "messages") state) [
  | none ↦ pure nil
  | some v ↦ if truthy v then to_list py v else pure nil
]

abbrev pub message : Text → Json → Json
message role content = obj (field (codes "role") (text role) (field (codes "content") content end))

-- `if state.get("input"): msgs.append(…)`
unfoldable pub append_input : Items → Option Json → Items
unfolding append_item truthy
append_input msgs none = msgs
append_input msgs (some v) = if truthy v then append_item msgs (message (codes "user") v) else msgs

-- `f"ack:{state.get('input', '')}"`
unfoldable pub ack : Builtins → Option Json → Text
ack py none = codes "ack:"
ack py (some (text s)) = codes "ack:" ++ s
ack py (some v) = codes "ack:" ++ py.show v

unfoldable pub default_supervisor_step : Builtins → Fields → Exec Fields
unfolding read_step read_messages append_input ack
default_supervisor_step py state = do
  step ← read_step py state
  msgs ← read_messages py state
  let input = get (codes "input") state
  let msgs' =
      append_item (append_input msgs input) (message (codes "supervisor") (text (ack py input)))
  pure (
      set (codes "completed") (bool true)
        (set (codes "messages") (arr msgs') (set (codes "step") (int (step +ℤ pos 1)) state)))
