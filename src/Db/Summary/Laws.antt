-- ===== src/Db/Summary/Laws.antt =====
-- What the summary says of each metric.
use nobleport.Prelude.{
  ℕ, suc, ◌≤◌, ◌≡◌, refl, sym, ap, ◌∙◌, Bool, true, false, Option, none, some, List, [], ◌∷◌, ◌++◌,
  arith, length, append_assoc, append-nil, map, if◌then◌else◌,
}
use nobleport.Python.Text.{Text, text_eq, text_eq_iff}
use nobleport.Schema.{MetricRow}
use nobleport.Db.Percentile.{round3}
use nobleport.Db.Percentile.Laws.{IsAscending, percentile_mono}
use nobleport.Db.Summary.{
  Gate, Groups, add_value, group_from, insert_sorted, sort, summarise, summary_of_rows,
}

-- rounding keeps the order
round3_mono : (x y : ℕ) → x ≤ y → round3 x ≤ round3 y
unfolding round3
round3_mono x y h = ground arith

insert_sorted-IsAscending :
    (x : ℕ) (ys : List ℕ) → IsAscending ys → IsAscending (insert_sorted x ys)
unfolding insert_sorted
insert_sorted-IsAscending x [] h = tt
insert_sorted-IsAscending x (y ∷ []) h = ground arith
insert_sorted-IsAscending x (y ∷ z ∷ ys) h =
    ground (arith, insert_sorted-IsAscending x (z ∷ ys) h.1)

sort-IsAscending : (xs : List ℕ) → IsAscending (sort xs)
unfolding sort
sort-IsAscending [] = tt
sort-IsAscending (x ∷ xs) = insert_sorted-IsAscending x (sort xs) (sort-IsAscending xs)

length-insert_sorted : (x : ℕ) (ys : List ℕ) → length (insert_sorted x ys) ≡ suc (length ys)
unfolding insert_sorted
length-insert_sorted x [] = refl
length-insert_sorted x (y ∷ ys) = ground (arith, length-insert_sorted x ys)

length-sort : (xs : List ℕ) → length (sort xs) ≡ length xs
unfolding sort
length-sort [] = refl
length-sort (x ∷ xs) = length-insert_sorted x (sort xs) ∙ ap suc (length-sort xs)

-- the sample of a metric: its measured values in the order of the rows
unfoldable pub sample : Text → List MetricRow → List ℕ
sample name [] = []
sample name (r ∷ rows) =
    let rest = sample name rows in if text_eq r.metric_name name then r.metric_ms ∷ rest else rest

unfoldable pub find {ℓ} : {A : Type ℓ} → Text → List (Text × A) → Option A
find name [] = none
find name ((k, a) ∷ l) = if text_eq k name then some a else find name l

-- a group with further values
abbrev grown : Option (List ℕ) → List ℕ → Option (List ℕ)
grown (some vals) more = some (vals ++ more)
grown none [] = none
grown none (v ∷ more) = some (v ∷ more)

grown-nil : (o : Option (List ℕ)) → o ≡ grown o []
grown-nil none = refl
grown-nil (some vals) = ap some (sym (append-nil vals))

grown-if :
    (b : Bool) (o : Option (List ℕ)) (v : ℕ) (rest : List ℕ)
    → grown (if b then grown o (v ∷ []) else o) rest ≡ grown o (if b then v ∷ rest else rest)
grown-if true (some vals) v rest = ap some (append_assoc vals (v ∷ []) rest)
grown-if true none v rest = refl
grown-if false o v rest = refl

find-add_value :
    (name k : Text) (v : ℕ) (groups : Groups)
    → find name (add_value k v groups)
      ≡ (if text_eq k name then grown (find name groups) (v ∷ []) else find name groups)
unfolding find add_value
find-add_value name k v [] = ground arith
find-add_value name k v ((j, vals) ∷ groups) =
    ground (
      arith,
      text_eq_iff j k,
      text_eq_iff j name,
      text_eq_iff k name,
      find-add_value name k v groups,
    )

find-group_from :
    (name : Text) (groups : Groups) (rows : List MetricRow)
    → find name (group_from groups rows) ≡ grown (find name groups) (sample name rows)
unfolding group_from sample
find-group_from name groups [] = grown-nil (find name groups)
find-group_from name groups (r ∷ rows) =
    rw (find-group_from name (add_value r.metric_name r.metric_ms groups) rows, find-add_value)
      (grown-if (text_eq r.metric_name name) (find name groups) r.metric_ms (sample name rows))

find-map :
    {A B : Type 0} (name : Text) (f : A → B) (l : List (Text × A))
    → find name (map (λ (p : Text × A). (p.0, f p.1)) l)
      ≡ elim (find name l) [ none ↦ none | some a ↦ some (f a) ]
unfolding find
find-map name f [] = refl
find-map name f ((k, a) ∷ l) = ground (arith, find-map name f l)

-- what is to be known of the figures of a sample
pub record IsGate (vals : List ℕ) (g : Gate) : Type 0 where
  pub count : g.count ≡ length vals
  pub ordered_low : g.min_ms ≤ g.p50_ms
  pub ordered_mid : g.p50_ms ≤ g.p95_ms
  pub ordered_high : g.p95_ms ≤ g.max_ms

summarise-IsGate : (vals : List ℕ) → IsGate vals (summarise vals)
unfolding summarise
summarise-IsGate vals =
    let (low, mid, high) =
      percentile_mono (sort vals) 50 95 (sort-IsAscending vals) (omega arith) (omega arith) in
    record {
      count = length-sort vals;
      ordered_low = round3_mono _ _ low;
      ordered_mid = round3_mono _ _ mid;
      ordered_high = round3_mono _ _ high;
    }

-- what the summary is to say of a metric with the given sample: nothing, if it is empty
abbrev pub Reports : List ℕ → Option Gate → Type 0
Reports [] o = o ≡ none
Reports (v ∷ vals) o = (g : Gate) × (o ≡ some g) × IsGate (v ∷ vals) g

Reports-sample :
    (vals : List ℕ)
    → Reports vals (elim (grown none vals) [ none ↦ none | some s ↦ some (summarise s) ])
Reports-sample [] = refl
Reports-sample (v ∷ vals) = (summarise (v ∷ vals), refl, summarise-IsGate (v ∷ vals))

-- The summary lists exactly the metrics that have rows; of each it gives the number of its rows,
-- and figures with min <= p50 <= p95 <= max, rounding included.
pub summary_of_rows-Reports :
    (name : Text) (rows : List MetricRow)
    → Reports (sample name rows) (find name (summary_of_rows rows))
unfolding summary_of_rows
summary_of_rows-Reports name rows =
    rw (find-map name summarise (group_from [] rows), find-group_from name [] rows)
      (unfold find in Reports-sample (sample name rows))
