-- ===== src/Permits/Groups/Laws/Alone.antt =====
-- The row of a name in a table is found by its name.
use nobleport.Prelude.{
  ℕ, zero, suc, ◌≤◌, ◌≡◌, refl, ap, ◌∙◌, false, some, List, [], ◌∷◌, map, arith, take, take-zero,
  take-suc, take-nil, Bool-cases, inl, inr,
}
use nobleport.Python.Text.{Text, text_eq, text_eq_refl}
use nobleport.Permits.Sorting.{sum_by}
use nobleport.Permits.Groups.{Stats, total_of}
use nobleport.Permits.Groups.Laws.{rows_of, count_in, column, text_eq_apart}

abbrev pub All : (Stats → Type 0) → List Stats → Type 0
All P [] = Unit
All P (s ∷ stats) = P s × All P stats

pub All-take :
    (P : Stats → Type 0) (n : ℕ) (stats : List Stats) → All P stats → All P (take n stats)
All-take P zero stats h = rw take-zero tt
All-take P (suc n) [] h = rw (take-nil {A = Stats} (suc n) [] refl) tt
All-take P (suc n) (s ∷ stats) h = rw take-suc (h.0, All-take P n stats h.1)

-- a row that is the only one with its name
abbrev pub IsAlone : List Stats → Stats → Type 0
IsAlone rows s = (rows_of s.name rows ≡ 1) × (count_in s.name rows ≡ s.count)

text_eq_swap : (a b : Text) → text_eq b a ≡ false → text_eq a b ≡ false
text_eq_swap a b h = text_eq_apart b a b (text_eq_refl b) h

other_names :
    (n : Text) (stats : List Stats)
    → rows_of n stats ≡ 0
    → (count_in n stats ≡ 0) × All (λ t. text_eq n t.name ≡ false) stats
unfolding sum_by
other_names n [] h = (refl, tt)
other_names n (t ∷ stats) h = elim (Bool-cases (text_eq t.name n)) [
  | inl e ↦ absurd (omega (arith, rw e at h))
  | inr e ↦
      let (none_counted, apart) = other_names n stats (omega (arith, rw e at h)) in
      rw e (omega (arith, none_counted), (text_eq_swap n t.name e, apart))
]

-- one more row with another name
All-cons :
    (s : Stats) (rows stats : List Stats)
    → All (IsAlone rows) stats
    → All (λ t. text_eq s.name t.name ≡ false) stats
    → All (IsAlone (s ∷ rows)) stats
unfolding sum_by
All-cons s rows [] h k = tt
All-cons s rows (t ∷ stats) h k =
    (rw k.0 (omega (arith, h.0.0), omega (arith, h.0.1)), All-cons s rows stats h.1 k.1)

pub All-IsAlone :
    (stats : List Stats) → ((n : Text) → rows_of n stats ≤ 1) → All (IsAlone stats) stats
unfolding sum_by
All-IsAlone [] h = tt
All-IsAlone (s ∷ stats) h =
    let mine = text_eq_refl s.name in
    let others : rows_of s.name stats ≡ 0 = omega (arith, rw mine at (h s.name)) in
    let (none_counted, apart) = other_names s.name stats others in
    (
      rw mine (omega (arith, others), omega (arith, none_counted)),
      All-cons s stats stats (All-IsAlone stats (λ n. omega (arith, h n))) apart,
    )

-- the count of a name with one row is found
pub total_of-column :
    (n : Text) (stats : List Stats)
    → rows_of n stats ≡ 1
    → total_of n (map (column (λ s. s.count)) stats) ≡ some (count_in n stats)
unfolding sum_by total_of
total_of-column n [] h = absurd (omega (arith, h))
total_of-column n (s ∷ stats) h = elim (Bool-cases (text_eq s.name n)) [
  | inl e ↦
      let no_more : rows_of n stats ≡ 0 = omega (arith, rw e at h) in
      rw e (ap some (omega (arith, (other_names n stats no_more).0)))
  | inr e ↦
      let found = total_of-column n stats (omega (arith, rw e at h)) in
      rw e (found ∙ ap some (omega arith))
]
