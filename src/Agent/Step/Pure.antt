-- ===== src/Agent/Step/Pure.antt =====
-- `default_supervisor_step` of app/agent/runtime.py acts on nothing but its state.
use nobleport.Prelude.{Option, none, some, true, false, if◌then◌else◌}
use nobleport.Python.Text.{codes}
use nobleport.Python.Int.{pos}
use nobleport.Python.Json.{
  Json, null, bool, int, text, arr, obj, nil, other, circular, Fields, get, truthy,
}
use nobleport.World.{Exn, pure}
use nobleport.World.Respects.{
  Change, Respects, Respects-pure, Respects-raise, Respects-bind, Respects-if,
}
use nobleport.Agent.Step.{
  Builtins, or_raise, to_int, to_list, read_step, read_messages, default_supervisor_step,
}

module _ (R : Change) (py : Builtins) where
  or_raise-Respects : {A : Type 0} (e : Exn) (o : Option A) → Respects R (or_raise e o)
  or_raise-Respects e none = Respects-raise R e
  or_raise-Respects e (some a) = Respects-pure R a

  to_int-Respects : (v : Json) → Respects R (to_int py v)
  unfolding to_int
  to_int-Respects (int n) = Respects-pure R _
  to_int-Respects (bool true) = Respects-pure R _
  to_int-Respects (bool false) = Respects-pure R _
  to_int-Respects (text s) = or_raise-Respects _ _
  to_int-Respects (other s) = or_raise-Respects _ _
  to_int-Respects null = Respects-raise R _
  to_int-Respects (arr l) = Respects-raise R _
  to_int-Respects (obj d) = Respects-raise R _
  to_int-Respects circular = Respects-raise R _

  to_list-Respects : (v : Json) → Respects R (to_list py v)
  unfolding to_list
  to_list-Respects (arr l) = Respects-pure R _
  to_list-Respects (text s) = Respects-pure R _
  to_list-Respects (obj d) = Respects-pure R _
  to_list-Respects (other s) = or_raise-Respects _ _
  to_list-Respects null = Respects-raise R _
  to_list-Respects (bool b) = Respects-raise R _
  to_list-Respects (int n) = Respects-raise R _
  to_list-Respects circular = Respects-raise R _

  int_or_zero :
      (o : Option Json) → Respects R (elim o [ none ↦ pure (pos 0) | some v ↦ to_int py v ])
  int_or_zero none = Respects-pure R _
  int_or_zero (some v) = to_int-Respects v

  list_or_nil :
      (o : Option Json)
      → Respects R
          (elim o [ none ↦ pure nil | some v ↦ if truthy v then to_list py v else pure nil ])
  list_or_nil none = Respects-pure R _
  list_or_nil (some v) = Respects-if R (truthy v) _ _ (to_list-Respects v) (Respects-pure R _)

  -- The default step changes nothing of the world, whether it returns or raises.
  pub default_supervisor_step-Respects :
      (state : Fields) → Respects R (default_supervisor_step py state)
  unfolding default_supervisor_step read_step read_messages
  default_supervisor_step-Respects state =
      Respects-bind R _ _ (int_or_zero (get (codes "step") state))
        λ _. Respects-bind R _ _ (list_or_nil (get (codes "messages") state)) λ _. Respects-pure R _
