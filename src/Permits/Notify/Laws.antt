-- ===== src/Permits/Notify/Laws.antt =====
-- What the messages say, and what `main` sends.
use nobleport.Prelude.{
  ℕ, ◌≡◌, refl, sym, ap, ◌∙◌, some, List, [], ◌∷◌, map, arith, length, take, length-map, take-map,
}
use nobleport.Python.Text.{Text, text_eq}
use nobleport.Permits.Process.{Permit, rate, process_permits}
use nobleport.Permits.Process.Laws.{process_permits-Classes}
use nobleport.Permits.Sorting.{sort_by}
use nobleport.Permits.Sorting.Laws.{sum_by-sort, sort_by-map}
use nobleport.Permits.Groups.{Stats, stats_from, table, total_of}
use nobleport.Permits.Groups.Laws.{when, column, table-Tabulated, totals_from-column}
use nobleport.Permits.Groups.Laws.Alone.{All, All-take, IsAlone, All-IsAlone, total_of-column}
use nobleport.Permits.Notify.Summaries.{
  breakdown_line, breakdown_lines, breakdown_from, muni_counts, sorted_munis, breakdown_text,
  breakdown_message,
}

abbrev muni_of : Permit → Text
muni_of p = p.municipality

-- the line of a row of the digest's table
abbrev pub line_of : Stats → Text
line_of s = breakdown_line s.name s.count s.val

sorted_munis-table :
    (permits : List Permit)
    → sorted_munis permits ≡ map (column (λ s. s.val)) (table muni_of permits)
unfolding table
sorted_munis-table permits =
    ap (sort_by (λ item. item.1)) (
      totals_from-column (λ s. s.val) (λ s v. refl) muni_of (λ p. p.valuation) (λ p. refl) []
        permits)
    ∙ sort_by-map (λ s. s.val) (λ item. item.1) (column (λ s. s.val)) (λ s. refl)
        (stats_from muni_of [] permits)

muni_counts-stats :
    (permits : List Permit)
    → muni_counts permits ≡ map (column (λ s. s.count)) (stats_from muni_of [] permits)
muni_counts-stats permits =
    totals_from-column (λ s. s.count) (λ s v. refl) muni_of (λ p. 1) (λ p. refl) [] permits

-- the count of a row of the table is found
found_count :
    (permits : List Permit) (s : Stats)
    → IsAlone (table muni_of permits) s
    → total_of s.name (muni_counts permits) ≡ some s.count
unfolding table
found_count permits s h =
    let stats = stats_from muni_of [] permits in
    let same_rows = sum_by-sort (λ s. s.val) (λ t. when (text_eq t.name s.name) 1) stats in
    let same_count = sum_by-sort (λ s. s.val) (λ t. when (text_eq t.name s.name) t.count) stats in
    rw (muni_counts-stats permits)
      (total_of-column s.name stats (sym same_rows ∙ h.0) ∙ ap some (sym same_count ∙ h.1))

breakdown_lines-All :
    (counts : List (Text × ℕ)) (rows : List Stats)
    → All (λ s. total_of s.name counts ≡ some s.count) rows
    → breakdown_lines counts (map (column (λ s. s.val)) rows) ≡ some (map line_of rows)
unfolding breakdown_lines
breakdown_lines-All counts [] h = refl
breakdown_lines-All counts (s ∷ rows) h =
    rw (h.0, breakdown_lines, breakdown_lines-All counts rows h.1) refl

All-total_of :
    (permits : List Permit) (rows : List Stats)
    → All (IsAlone (table muni_of permits)) rows
    → All (λ s. total_of s.name (muni_counts permits) ≡ some s.count) rows
All-total_of permits [] h = tt
All-total_of permits (s ∷ rows) h = (found_count permits s h.0, All-total_of permits rows h.1)

table-IsAlone :
    (permits : List Permit) → All (IsAlone (table muni_of permits)) (table muni_of permits)
table-IsAlone permits =
    All-IsAlone (table muni_of permits)
      (λ n. let one = (table-Tabulated muni_of permits).one_row n in omega (arith, one))

all-permits : (permits : List Permit) → map (λ r. r.permit) (process_permits permits).all ≡ permits
all-permits permits =
    ap (map (λ r. r.permit)) (process_permits-Classes permits).all ∙ unrated permits
  where
    unrated : (ps : List Permit) → map (λ r. r.permit) (map rate ps) ≡ ps
    unrated [] = refl
    unrated (p ∷ ps) = ap (λ l. p ∷ l) (unrated ps)

breakdown_from-rows :
    (counts : List (Text × ℕ)) (rows : List Stats)
    → All (λ s. total_of s.name counts ≡ some s.count) (take 15 rows)
    → breakdown_from counts (map (column (λ s. s.val)) rows)
      ≡ some (breakdown_text (length rows) (map line_of (take 15 rows)))
unfolding breakdown_from
breakdown_from-rows counts rows h =
    let lines =
      ap (breakdown_lines counts) (take-map (column (λ s. s.val)) 15 rows)
      ∙ breakdown_lines-All counts (take 15 rows) h in
    rw (lines, breakdown_from, length-map) refl

-- The breakdown never looks up a municipality in vain. It states how many municipalities the
-- digest's table has, and its lines are the first 15 rows of that table, in their order, with the
-- same counts and worths.
pub breakdown_message-table :
    (permits : List Permit)
    → let rows = table (λ p. p.municipality) permits in
      breakdown_message (process_permits permits)
      ≡ some (breakdown_text (length rows) (map line_of (take 15 rows)))
unfolding breakdown_message
breakdown_message-table permits =
    let rows = table muni_of permits in
    ap (λ ps. breakdown_from (muni_counts ps) (sorted_munis ps)) (all-permits permits)
    ∙ ap (breakdown_from (muni_counts permits)) (sorted_munis-table permits)
    ∙ breakdown_from-rows (muni_counts permits) rows (
        All-total_of permits (take 15 rows)
          (All-take (IsAlone rows) 15 rows (table-IsAlone permits)))
