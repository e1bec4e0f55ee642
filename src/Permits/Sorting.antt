-- ===== src/Permits/Sorting.antt =====
-- `sorted(…, key=lambda x: -x…)` and `.sort(key=…, reverse=True)` in scripts/: the largest key first,
-- elements of the same key in their order.
pub mod Laws
use nobleport.Prelude.{ℕ, ◌+◌, List, [], ◌∷◌, leb, if◌then◌else◌}

-- `sum(f(x) for x in xs)`
unfoldable pub sum_by : {A : Type 0} → (A → ℕ) → List A → ℕ
sum_by f [] = 0
sum_by f (x ∷ xs) = f x + sum_by f xs

module _ {A : Type 0} (key : A → ℕ) where
  unfoldable pub insert_by : A → List A → List A
  insert_by x [] = x ∷ []
  insert_by x (y ∷ ys) =
      let rest = insert_by x ys in if leb (key y) (key x) then x ∷ y ∷ ys else y ∷ rest

  unfoldable pub sort_by : List A → List A
  unfolding insert_by
  sort_by [] = []
  sort_by (x ∷ xs) = insert_by x (sort_by xs)
