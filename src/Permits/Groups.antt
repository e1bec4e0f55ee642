-- ===== src/Permits/Groups.antt =====
-- scripts/generate_digest.py and scripts/process_and_notify.py: dicts that group permits by a text,
-- in the order in which the texts are first met.
pub mod Laws
use nobleport.Prelude.{ℕ, ◌+◌, Option, none, some, List, [], ◌∷◌, ◌++◌, if◌then◌else◌}
use nobleport.Python.Text.{Text, text_eq}
use nobleport.Permits.Process.{Permit}
use nobleport.Permits.Sorting.{sort_by}

-- an item of `muni_stats` or `type_stats`
pub record Stats : Type 0 where
  pub name : Text
  pub count : ℕ
  pub val : ℕ

abbrev pub first_of : Text → ℕ → Stats
first_of name v = record { name = name; count = 1; val = v }

abbrev pub one_more : ℕ → Stats → Stats
one_more v s = record s { count = s.count + 1; val = s.val + v }

unfoldable pub add_stats : Text → ℕ → List Stats → List Stats
add_stats name v [] = first_of name v ∷ []
add_stats name v (s ∷ stats) =
    let rest = add_stats name v stats in
    if text_eq s.name name then one_more v s ∷ stats else s ∷ rest

-- `totals[name] = totals.get(name, 0) + n`
unfoldable pub add_total : Text → ℕ → List (Text × ℕ) → List (Text × ℕ)
add_total name n [] = (name, n) ∷ []
add_total name n ((k, m) ∷ totals) =
    let rest = add_total name n totals in
    if text_eq k name then (k, m + n) ∷ totals else (k, m) ∷ rest

-- `totals[name]`, with `none` for the KeyError
unfoldable pub total_of : Text → List (Text × ℕ) → Option ℕ
total_of name [] = none
total_of name ((k, m) ∷ totals) = if text_eq k name then some m else total_of name totals

module _ (key : Permit → Text) where
  -- the loop over the permits
  unfoldable pub stats_from : List Stats → List Permit → List Stats
  unfolding add_stats
  stats_from stats [] = stats
  stats_from stats (p ∷ permits) = stats_from (add_stats (key p) p.valuation stats) permits

  -- `muni_totals` and `muni_counts`, for the amounts of the permits and for ones
  unfoldable pub totals_from : (Permit → ℕ) → List (Text × ℕ) → List Permit → List (Text × ℕ)
  unfolding add_total
  totals_from amount totals [] = totals
  totals_from amount totals (p ∷ permits) =
      totals_from amount (add_total (key p) (amount p) totals) permits

-- `sorted(stats.items(), key=lambda x: -x[1]["val"])` of the whole loop
unfoldable pub table : (Permit → Text) → List Permit → List Stats
unfolding stats_from sort_by
table key permits = sort_by (λ s. s.val) (stats_from key [] permits)
