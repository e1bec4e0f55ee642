-- ===== src/Permits/Sorting/Laws.antt =====
-- A sorted list is the list rearranged, in descending order of the keys.
use nobleport.Prelude.{
  ℕ, suc, ◌+◌, ◌≤◌, ◌≡◌, refl, ap, ◌∙◌, List, [], ◌∷◌, map, arith, length, leb, Bool-cases, inl,
  inr,
}
use nobleport.Permits.Sorting.{sum_by, insert_by, sort_by}

module _ {A : Type 0} (key : A → ℕ) where
  -- each key is at least as large as the next
  abbrev pub IsDescending : List A → Type 0
  IsDescending [] = Unit
  IsDescending (x ∷ []) = Unit
  IsDescending (x ∷ y ∷ xs) = (key y ≤ key x) × IsDescending (y ∷ xs)

  insert_by-IsDescending :
      (x : A) (xs : List A) → IsDescending xs → IsDescending (insert_by key x xs)
  unfolding insert_by
  insert_by-IsDescending x [] h = tt
  insert_by-IsDescending x (y ∷ []) h = ground arith
  insert_by-IsDescending x (y ∷ z ∷ xs) h = ground (arith, insert_by-IsDescending x (z ∷ xs) h.1)

  pub sort_by-IsDescending : (xs : List A) → IsDescending (sort_by key xs)
  unfolding sort_by
  sort_by-IsDescending [] = tt
  sort_by-IsDescending (x ∷ xs) =
      insert_by-IsDescending x (sort_by key xs) (sort_by-IsDescending xs)

  -- Every sum is the same: lists that agree on every sum are rearrangements of each other.
  sum_by-insert :
      (f : A → ℕ) (x : A) (xs : List A) → sum_by f (insert_by key x xs) ≡ f x + sum_by f xs
  unfolding sum_by insert_by
  sum_by-insert f x [] = refl
  sum_by-insert f x (y ∷ ys) = ground (arith, sum_by-insert f x ys)

  pub sum_by-sort : (f : A → ℕ) (xs : List A) → sum_by f (sort_by key xs) ≡ sum_by f xs
  unfolding sum_by sort_by
  sum_by-sort f [] = refl
  sum_by-sort f (x ∷ xs) = sum_by-insert f x (sort_by key xs) ∙ ap (λ n. f x + n) (sum_by-sort f xs)

  length-insert : (x : A) (xs : List A) → length (insert_by key x xs) ≡ suc (length xs)
  unfolding insert_by
  length-insert x [] = refl
  length-insert x (y ∷ ys) = ground (arith, length-insert x ys)

  pub length-sort : (xs : List A) → length (sort_by key xs) ≡ length xs
  unfolding sort_by
  length-sort [] = refl
  length-sort (x ∷ xs) = length-insert x (sort_by key xs) ∙ ap suc (length-sort xs)

-- the keys alone decide on the order
module _ {A B : Type 0} (key : A → ℕ) (key' : B → ℕ) (f : A → B)
    (same : (x : A) → key' (f x) ≡ key x) where
  map-insert : (x : A) (xs : List A) → insert_by key' (f x) (map f xs) ≡ map f (insert_by key x xs)
  unfolding insert_by
  map-insert x [] = refl
  map-insert x (y ∷ ys) = elim (Bool-cases (leb (key y) (key x))) [
    | inl e ↦ rw (same x, same y, e) refl
    | inr e ↦ rw (same x, same y, e) (ap (λ l. f y ∷ l) (map-insert x ys))
  ]

  pub sort_by-map : (xs : List A) → sort_by key' (map f xs) ≡ map f (sort_by key xs)
  unfolding sort_by
  sort_by-map [] = refl
  sort_by-map (x ∷ xs) = ap (insert_by key' (f x)) (sort_by-map xs) ∙ map-insert x (sort_by key xs)
