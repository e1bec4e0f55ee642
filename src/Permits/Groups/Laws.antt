-- ===== src/Permits/Groups/Laws.antt =====
-- What the groups of permits hold.
pub mod Alone
use Prim.Native.Nat.{max}
use nobleport.Prelude.{
  ℕ, ◌+◌, ◌≤◌, ◌≡◌, refl, sym, ap, ◌∙◌, subst, min, Bool, true, false, List, [], ◌∷◌, map, arith,
  length, Bool-cases, inl, inr, if◌then◌else◌,
}
use nobleport.Python.Text.{Text, text_eq, text_eq→eq, text_eq_refl}
use nobleport.Permits.Process.{Permit}
use nobleport.Permits.Sorting.{sum_by, sort_by}
use nobleport.Permits.Sorting.Laws.{IsDescending, sort_by-IsDescending, sum_by-sort}
use nobleport.Permits.Groups.{
  Stats, first_of, one_more, add_stats, add_total, stats_from, totals_from, table,
}

-- `n` if the test holds, else nothing
abbrev pub when : Bool → ℕ → ℕ
when b n = if b then n else 0

when_add : (b : Bool) (m n : ℕ) → when b (m + n) ≡ when b m + when b n
when_add true m n = refl
when_add false m n = refl

-- the number of rows with a name, and what they count
abbrev pub rows_of : Text → List Stats → ℕ
rows_of n = sum_by (λ s. when (text_eq s.name n) 1)

abbrev pub count_in : Text → List Stats → ℕ
count_in n = sum_by (λ s. when (text_eq s.name n) s.count)

abbrev pub val_in : Text → List Stats → ℕ
val_in n = sum_by (λ s. when (text_eq s.name n) s.val)

-- a measure of a row that grows by that of a new row when a permit is added
abbrev IsAdditive : (Stats → ℕ) → Type 0
IsAdditive f = (s : Stats) (v : ℕ) → f (one_more v s) ≡ f s + f (first_of s.name v)

module _ (f : Stats → ℕ) (additive : IsAdditive f) where
  sum_by-add_stats :
      (name : Text) (v : ℕ) (stats : List Stats)
      → sum_by f (add_stats name v stats) ≡ sum_by f stats + f (first_of name v)
  unfolding add_stats sum_by
  sum_by-add_stats name v [] = omega arith
  sum_by-add_stats name v (s ∷ stats) = elim (Bool-cases (text_eq s.name name)) [
    | inl e ↦ rw (e, ← text_eq→eq s.name name e) (omega (arith, additive s v))
    | inr e ↦ rw e (omega (arith, sum_by-add_stats name v stats))
  ]

  sum_by-stats_from :
      (key : Permit → Text) (stats : List Stats) (permits : List Permit)
      → sum_by f (stats_from key stats permits)
        ≡ sum_by f stats + sum_by (λ p. f (first_of (key p) p.valuation)) permits
  unfolding stats_from sum_by
  sum_by-stats_from key stats [] = omega arith
  sum_by-stats_from key stats (p ∷ permits) = omega (
    arith,
    sum_by-stats_from key (add_stats (key p) p.valuation stats) permits,
    sum_by-add_stats (key p) p.valuation stats,
  )

pub text_eq_apart : (a b n : Text) → text_eq a n ≡ true → text_eq a b ≡ false → text_eq b n ≡ false
text_eq_apart a b n t e = elim (Bool-cases (text_eq b n)) [
  | inl u ↦
      let same : text_eq a b ≡ true =
        subst (λ c. text_eq a c ≡ true) (text_eq→eq a n t ∙ sym (text_eq→eq b n u))
          (text_eq_refl a) in
      absurd (ground (arith, same, e))
  | inr u ↦ u
]

-- a name gets at most one row
rows_of-add_stats :
    (n name : Text) (v : ℕ) (stats : List Stats)
    → rows_of n (add_stats name v stats) ≡ max (rows_of n stats) (when (text_eq name n) 1)
unfolding add_stats sum_by
rows_of-add_stats n name v [] = omega arith
rows_of-add_stats n name v (s ∷ stats) = elim (Bool-cases (text_eq s.name name)) [
  | inl e ↦
      rw (e, ← text_eq→eq s.name name e)
        (elim (Bool-cases (text_eq s.name n)) [
          | inl t ↦ rw t (omega arith)
          | inr t ↦ rw t (omega arith)
        ])
  | inr e ↦ rw e (elim (Bool-cases (text_eq s.name n)) [
    | inl t ↦
        let apart = text_eq_apart s.name name n t e in
        let more =
          rows_of-add_stats n name v stats ∙ ap (λ b. max (rows_of n stats) (when b 1)) apart in
        rw (t, apart) (omega (arith, more))
    | inr t ↦ rw t (omega (arith, rows_of-add_stats n name v stats))
  ])
]

module _ (key : Permit → Text) where
  -- how many of the permits have a name, and what they are worth
  abbrev pub count_of : Text → List Permit → ℕ
  count_of n = sum_by (λ p. when (text_eq (key p) n) 1)

  abbrev pub worth_of : Text → List Permit → ℕ
  worth_of n = sum_by (λ p. when (text_eq (key p) n) p.valuation)

  rows_of-stats_from :
      (n : Text) (stats : List Stats) (permits : List Permit)
      → rows_of n (stats_from key stats permits)
        ≡ max (rows_of n stats) (min 1 (count_of n permits))
  unfolding stats_from sum_by
  rows_of-stats_from n stats [] = omega arith
  rows_of-stats_from n stats (p ∷ permits) =
      rows_of-stats_from n (add_stats (key p) p.valuation stats) permits
      ∙ rw (rows_of-add_stats n (key p) p.valuation stats) (elim (Bool-cases (text_eq (key p) n)) [
        | inl e ↦ rw e (omega arith)
        | inr e ↦ rw e (omega arith)
      ])

  -- What the rows of a table say of the permits: a row for each name that occurs and no second
  -- one, with the number and the worth of its permits, in descending order of the worth.
  pub record Tabulated (permits : List Permit) (rows : List Stats) : Type 0 where
    pub one_row : (n : Text) → rows_of n rows ≡ min 1 (count_of n permits)
    pub counted : (n : Text) → count_in n rows ≡ count_of n permits
    pub valued : (n : Text) → val_in n rows ≡ worth_of n permits
    pub total_count : sum_by (λ s. s.count) rows ≡ length permits
    pub total_val : sum_by (λ s. s.val) rows ≡ sum_by (λ p. p.valuation) permits
    pub descending : IsDescending (λ s. s.val) rows

  length-sum_by : (permits : List Permit) → sum_by (λ p. 1) permits ≡ length permits
  unfolding sum_by
  length-sum_by [] = refl
  length-sum_by (p ∷ permits) = omega (arith, length-sum_by permits)

  -- an additive measure of the rows of the table
  measured :
      (f : Stats → ℕ)
      → IsAdditive f
      → (permits : List Permit)
      → sum_by f (table key permits) ≡ sum_by (λ p. f (first_of (key p) p.valuation)) permits
  unfolding table sum_by
  measured f additive permits =
      sum_by-sort (λ s. s.val) f (stats_from key [] permits)
      ∙ omega (arith, sum_by-stats_from f additive key [] permits)

  -- The table has one row for each name that occurs, with the number and the sum of the valuations
  -- of its permits; together the rows have all permits and their whole worth; and the worth does
  -- not rise from one row to the next.
  pub table-Tabulated : (permits : List Permit) → Tabulated permits (table key permits)
  unfolding table sum_by
  table-Tabulated permits = record {
    one_row = λ n.
        sum_by-sort (λ s. s.val) _ (stats_from key [] permits)
        ∙ rows_of-stats_from n [] permits
        ∙ omega arith;
    counted = λ n.
        measured (λ s. when (text_eq s.name n) s.count)
          (λ s v. when_add (text_eq s.name n) s.count 1) permits;
    valued = λ n.
        measured (λ s. when (text_eq s.name n) s.val) (λ s v. when_add (text_eq s.name n) s.val v)
          permits;
    total_count = measured (λ s. s.count) (λ s v. refl) permits ∙ length-sum_by permits;
    total_val = measured (λ s. s.val) (λ s v. refl) permits;
    descending = sort_by-IsDescending (λ s. s.val) (stats_from key [] permits);
  }

-- the item of a dict of totals
abbrev pub column : (Stats → ℕ) → Stats → Text × ℕ
column f s = (s.name, f s)

-- the pair of dicts `muni_totals` and `muni_counts` is the dict of both
module _ (f : Stats → ℕ) (additive : IsAdditive f) where
  add_total-column :
      (name : Text) (v : ℕ) (stats : List Stats)
      → add_total name (f (first_of name v)) (map (column f) stats)
        ≡ map (column f) (add_stats name v stats)
  unfolding add_total add_stats
  add_total-column name v [] = refl
  add_total-column name v (s ∷ stats) = elim (Bool-cases (text_eq s.name name)) [
    | inl e ↦ rw (e, ← text_eq→eq s.name name e, additive s v) refl
    | inr e ↦ rw e (ap (λ l. (s.name, f s) ∷ l) (add_total-column name v stats))
  ]

  pub totals_from-column :
      (key : Permit → Text) (amount : Permit → ℕ)
      → ((p : Permit) → amount p ≡ f (first_of (key p) p.valuation))
      → (stats : List Stats) (permits : List Permit)
      → totals_from key amount (map (column f) stats) permits
        ≡ map (column f) (stats_from key stats permits)
  unfolding totals_from stats_from
  totals_from-column key amount same stats [] = refl
  totals_from-column key amount same stats (p ∷ permits) =
      rw (same p, add_total-column (key p) p.valuation stats)
        (totals_from-column key amount same (add_stats (key p) p.valuation stats) permits)
