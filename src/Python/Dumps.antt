-- ===== src/Python/Dumps.antt =====
-- Which dicts `json.dumps` can serialise: the keys that are set and looked up.
use nobleport.Prelude.{◌≡◌, refl, subst, Option, none, some, arith, Bool-cases, inl, inr}
use nobleport.Python.Text.{Text, text_eq}
use nobleport.Python.Json.{
  Json, null, bool, int, text, other, circular, arr, obj, Items, nil, cons, Fields, end, field, get,
  set, append_item, json_cons, json_field, to_arr, to_obj, dumps, dumps_items, dumps_fields,
}

-- a serialised field is the serialisation of a field
json_field-some :
    (k : Text) (o : Option Json) (p : Option Fields) (d : Fields)
    → json_field k o p ≡ some d
    → (v : Json) × (e : Fields) × (o ≡ some v) × (p ≡ some e) × (d ≡ field k v e)
json_field-some k none p d h = absurd (ground (arith, h))
json_field-some k (some v) none d h = absurd (ground (arith, h))
json_field-some k (some v) (some e) d h = (v, e, refl, refl, ground (arith, h))

json_cons-some :
    (o : Option Json) (p : Option Items) (l : Items)
    → json_cons o p ≡ some l
    → (v : Json) × (m : Items) × (o ≡ some v) × (p ≡ some m) × (l ≡ cons v m)
json_cons-some none p l h = absurd (ground (arith, h))
json_cons-some (some v) none l h = absurd (ground (arith, h))
json_cons-some (some v) (some m) l h = (v, m, refl, refl, ground (arith, h))

some_inj : {A : Type 0} (a b : A) → some a ≡ some b → a ≡ b
some_inj a b h = ground (arith, h)

to_obj-some :
    (o : Option Fields) (v : Json) → to_obj o ≡ some v → (d : Fields) × (o ≡ some d) × (v ≡ obj d)
to_obj-some none v h = absurd (ground (arith, h))
to_obj-some (some d) v h = (d, refl, ground (arith, h))

same_again : (v u : Json) → some v ≡ some u → dumps v ≡ some v → dumps u ≡ some u
same_again v u h e = subst (λ x. dumps x ≡ some x) (some_inj v u h) e

stored_end : (d : Fields) → dumps_fields end ≡ some d → d ≡ end
unfolding dumps_fields
stored_end d h = ground (arith, h)

stored_nil : (l : Items) → dumps_items nil ≡ some l → l ≡ nil
unfolding dumps_items
stored_nil l h = ground (arith, h)

pub to_arr-some :
    (o : Option Items) (v : Json) → to_arr o ≡ some v → (l : Items) × (o ≡ some l) × (v ≡ arr l)
to_arr-some none v h = absurd (ground (arith, h))
to_arr-some (some l) v h = (l, refl, ground (arith, h))

-- A value of a dict that can be serialised can be, and is stored under its key.
pub dumps_fields-get :
    (k : Text) (v : Json) (d stored : Fields)
    → dumps_fields d ≡ some stored
    → get k d ≡ some v
    → (u : Json) × (dumps v ≡ some u) × (get k stored ≡ some u)
unfolding dumps_fields get
dumps_fields-get k v end stored h g = absurd (ground (arith, g))
dumps_fields-get k v (field j w d) stored h g =
    let (u, e, du, de, same) = json_field-some j (dumps w) (dumps_fields d) stored h in
    elim (Bool-cases (text_eq j k)) [
      | inl e1 ↦
          (u, subst (λ x. dumps x ≡ some u) (some_inj _ _ (rw e1 at g)) du, rw (same, e1) refl)
      | inr e2 ↦
          let (u', dv, found) = dumps_fields-get k v d e de (rw e2 at g) in
          (u', dv, rw (same, e2) found)
    ]

pub dumps_fields-set :
    (k : Text) (v u : Json) (d stored : Fields)
    → dumps_fields d ≡ some stored
    → dumps v ≡ some u
    → dumps_fields (set k v d) ≡ some (set k u stored)
unfolding dumps_fields set
dumps_fields-set k v u end stored h g = rw (g, stored_end stored h) refl
dumps_fields-set k v u (field j w d) stored h g =
    let (x, e, dx, de, same) = json_field-some j (dumps w) (dumps_fields d) stored h in
    elim (Bool-cases (text_eq j k)) [
      | inl e1 ↦ rw (same, e1, dumps_fields, g, de) refl
      | inr e2 ↦ rw (same, e2, dumps_fields, dx, dumps_fields-set k v u d e de g) refl
    ]

pub dumps_items-append_item :
    (l stored : Items) (v u : Json)
    → dumps_items l ≡ some stored
    → dumps v ≡ some u
    → dumps_items (append_item l v) ≡ some (append_item stored u)
unfolding dumps_items append_item
dumps_items-append_item nil stored v u h g = rw (g, stored_nil stored h) refl
dumps_items-append_item (cons w l) stored v u h g =
    let (x, m, dx, dm, same) = json_cons-some (dumps w) (dumps_items l) stored h in
    rw (same, dx, dumps_items-append_item l m v u dm g) refl

mutual
  unfolding dumps dumps_items dumps_fields

  json_again : (v u : Json) → dumps v ≡ some u → dumps u ≡ some u
  json_again null u h = same_again null u h refl
  json_again (bool b) u h = same_again (bool b) u h refl
  json_again (int n) u h = same_again (int n) u h refl
  json_again (text s) u h = same_again (text s) u h refl
  json_again (other s) u h = same_again (text s) u h refl
  json_again circular u h = absurd (ground (arith, h))
  json_again (arr l) u h =
      let (m, dm, same) = to_arr-some (dumps_items l) u h in
      rw (same, dumps, items_again l m dm) refl
  json_again (obj d) u h =
      let (e, de, same) = to_obj-some (dumps_fields d) u h in
      rw (same, dumps, fields_again d e de) refl

  items_again : (l m : Items) → dumps_items l ≡ some m → dumps_items m ≡ some m
  items_again nil m h = rw (stored_nil m h) refl
  items_again (cons v l) m h =
      let (u, k, du, dk, same) = json_cons-some (dumps v) (dumps_items l) m h in
      rw (same, json_again v u du, items_again l k dk) refl

  fields_again : (d e : Fields) → dumps_fields d ≡ some e → dumps_fields e ≡ some e
  fields_again end e h = rw (stored_end e h) refl
  fields_again (field k v d) e h =
      let (u, x, du, dx, same) = json_field-some k (dumps v) (dumps_fields d) e h in
      rw (same, json_again v u du, fields_again d x dx) refl

-- a state that was serialised and read back is serialised as itself
pub dumps_fields-dumps_fields : (d e : Fields) → dumps_fields d ≡ some e → dumps_fields e ≡ some e
dumps_fields-dumps_fields d e h = fields_again d e h
