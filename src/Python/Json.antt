-- ===== src/Python/Json.antt =====
-- Python values as far as a state dict or a payload holds them, and what `json.dumps` followed by
-- `json.loads` makes of one. A dict is an association list in the order of insertion.
use nobleport.Prelude.{◌≡◌, refl, Bool, true, false, Option, none, some, arith, if◌then◌else◌}
use nobleport.Python.Text.{Text, text_eq, text_eq_iff, text_eq_refl, is_nonempty}
use nobleport.Python.Int.{ℤ, is_nonzero}

-- There is no float. `other s` is an object that is no JSON value and whose `str` is `s`; `circular` is a container
-- that holds itself.
mutual
  pub data Json : Type 0 where
    null : Json
    bool : Bool → Json
    int : ℤ → Json
    text : Text → Json
    arr : Items → Json
    obj : Fields → Json
    other : Text → Json
    circular : Json

  pub data Items : Type 0 where
    nil : Items
    cons : Json → Items → Items

  pub data Fields : Type 0 where
    end : Fields
    field : Text → Json → Fields → Fields

-- `d.get(k)`
unfoldable pub get : Text → Fields → Option Json
get k end = none
get k (field j v d) = if text_eq j k then some v else get k d

-- `d[k] = v`
unfoldable pub set : Text → Json → Fields → Fields
set k v end = field k v end
set k v (field j w d) = if text_eq j k then field j v d else field j w (set k v d)

-- `[*l, v]`
unfoldable pub append_item : Items → Json → Items
append_item nil v = cons v nil
append_item (cons w l) v = cons w (append_item l v)

-- `bool(v)`; an object of another class is taken to be true
unfoldable pub truthy : Json → Bool
truthy null = false
truthy (bool b) = b
truthy (int n) = is_nonzero n
truthy (text s) = is_nonempty s
truthy (arr nil) = false
truthy (arr (cons v l)) = true
truthy (obj end) = false
truthy (obj (field k v d)) = true
truthy (other s) = true
truthy circular = true

-- `bool(d.get(k))`
unfoldable pub get_truthy : Text → Fields → Bool
unfolding truthy
get_truthy k d = elim (get k d) [ none ↦ false | some v ↦ truthy v ]

abbrev pub json_cons : Option Json → Option Items → Option Items
json_cons none l = none
json_cons (some v) none = none
json_cons (some v) (some l) = some (cons v l)

abbrev pub json_field : Text → Option Json → Option Fields → Option Fields
json_field k none d = none
json_field k (some v) none = none
json_field k (some v) (some d) = some (field k v d)

abbrev pub to_arr : Option Items → Option Json
to_arr none = none
to_arr (some l) = some (arr l)

abbrev pub to_obj : Option Fields → Option Json
to_obj none = none
to_obj (some d) = some (obj d)

-- The value that `json.loads(json.dumps(v, default=str))` gives back; `none` is the ValueError of a
-- circular value. The order in which `sort_keys` writes the keys is not modelled.
unfoldable mutual
  pub dumps : Json → Option Json
  dumps null = some null
  dumps (bool b) = some (bool b)
  dumps (int n) = some (int n)
  dumps (text s) = some (text s)
  dumps (arr l) = to_arr (dumps_items l)
  dumps (obj d) = to_obj (dumps_fields d)
  dumps (other s) = some (text s)
  dumps circular = none

  pub dumps_items : Items → Option Items
  dumps_items nil = some nil
  dumps_items (cons v l) = json_cons (dumps v) (dumps_items l)

  pub dumps_fields : Fields → Option Fields
  dumps_fields end = some end
  dumps_fields (field k v d) = json_field k (dumps v) (dumps_fields d)

pub get-set :
    (k j : Text) (v : Json) (d : Fields)
    → get j (set k v d) ≡ (if text_eq k j then some v else get j d)
unfolding get set
get-set k j v end = refl
get-set k j v (field i w d) =
    ground
      (arith, text_eq_iff k j, text_eq_iff i k, text_eq_iff i j, text_eq_refl k, get-set k j v d)
