-- ===== src/Permits/Digest/Laws.antt =====
-- What the digest shows, and when there is none.
use nobleport.Prelude.{
  ℕ, zero, suc, ◌+◌, ◌-◌, ◌≤◌, ◌<◌, ◌≡◌, ◌≢◌, refl, sym, ap, ◌∙◌, ◌↔◌, min, none, some, List, [],
  ◌∷◌, ◌++◌, map, arith, length, take, leb, le_of_leb, lt_of_leb, take-zero, take-suc, take-nil,
  Bool-cases, inl, inr, if◌then◌else◌,
}
use nobleport.Python.Text.{Text}
use nobleport.Permits.Process.{
  Permit, Rated, PermitFile, ProcessedOutput, is_among, process_permits, processed_output,
}
use nobleport.Permits.Process.Laws.{rated_if, is_critical, is_high, process_permits-Classes}
use nobleport.Permits.Sorting.{sum_by}
use nobleport.Permits.Groups.{Stats, table}
use nobleport.Permits.Groups.Laws.{Tabulated, table-Tabulated}
use nobleport.Permits.Digest.Rows.{critical_row, high_row}
use nobleport.Permits.Digest.{
  opportunity_types, high_rows, opportunity_rows, type_row, type_rows, digest_lines, join_lines,
  generate_markdown,
}

-- the high-value permits of the types that are listed
abbrev pub listed : List Rated → List Rated
listed [] = []
listed (r ∷ high) =
    let rest = listed high in
    if is_among r.permit.permit_type opportunity_types then r ∷ rest else rest

high_rows_lem :
    (count : ℕ) (high : List Rated)
    → high_rows count high ≡ map high_row (take (40 - count) (listed high))
unfolding high_rows
high_rows_lem count [] = rw (take-nil {A = Rated} (40 - count) [] refl) refl
high_rows_lem count (r ∷ high) = elim (Bool-cases (leb 40 count)) [
  | inl full ↦
      let none_left : 40 - count ≡ 0 = omega (arith, le_of_leb 40 count full) in
      rw (full, none_left, take-zero) refl
  | inr room ↦ rw room (elim (Bool-cases (is_among r.permit.permit_type opportunity_types)) [
    | inl e ↦
        let more : 40 - count ≡ suc (40 - (count + 1)) = omega (arith, lt_of_leb 40 count room) in
        rw (e, more, take-suc) (ap (λ l. high_row r ∷ l) (high_rows_lem (count + 1) high))
    | inr e ↦ rw e (high_rows_lem count high)
  ])
]

-- the rows of the opportunities, with `count` of them there
opportunity_rows_lem :
    (count : ℕ) (critical high : List Rated)
    → count ≤ 30
    → opportunity_rows count critical high
      ≡ map critical_row (take (30 - count) critical)
        ++ map high_row (take (40 - (count + min (30 - count) (length critical))) (listed high))
unfolding opportunity_rows
opportunity_rows_lem count [] high h =
    let same : count + min (30 - count) 0 ≡ count = omega arith in
    rw (take-nil {A = Rated} (30 - count) [] refl, same) (high_rows_lem count high)
opportunity_rows_lem count (r ∷ critical) high h = elim (Bool-cases (leb 30 count)) [
  | inl full ↦
      let none_left : 30 - count ≡ 0 = omega (arith, le_of_leb 30 count full) in
      let same : count + min 0 (length (r ∷ critical)) ≡ count = omega arith in
      rw (full, none_left, take-zero, same) (high_rows_lem count high)
  | inr room ↦
      let below : count < 30 = lt_of_leb 30 count room in
      let more : 30 - count ≡ suc (30 - (count + 1)) = omega arith in
      let same : count + min (suc (30 - (count + 1))) (length (r ∷ critical))
          ≡ count + 1 + min (30 - (count + 1)) (length critical) =
        omega arith in
      rw (room, more, take-suc, same)
        (ap (λ l. critical_row r ∷ l)
          (opportunity_rows_lem (count + 1) critical high (omega arith)))
]

-- The opportunities of the permits of a day: the first 30 critical ones, in their order, and then
-- as many of the high-value ones of the three listed types as make up 40 rows.
pub opportunity_rows-process_permits :
    (loaded : PermitFile)
    → let output = processed_output loaded (process_permits loaded.permits) in
      let critical = rated_if is_critical loaded.permits in
      opportunity_rows 0 output.critical_permits output.high_permits
      ≡ map critical_row (take 30 critical)
        ++ map high_row
            (take (40 - min 30 (length critical)) (listed (rated_if is_high loaded.permits)))
opportunity_rows-process_permits loaded =
    let permits = loaded.permits in
    let c = process_permits-Classes permits in
    let same : 0 + min 30 (length (rated_if is_critical permits))
        ≡ min 30 (length (rated_if is_critical permits)) =
      omega arith in
    rw (c.critical, c.high, ← same)
      (opportunity_rows_lem 0 (rated_if is_critical permits) (rated_if is_high permits)
        (omega arith))

length-table :
    (key : Permit → Text) (permits : List Permit)
    → (length (table key permits) ≡ 0) ↔ (length permits ≡ 0)
unfolding sum_by table
length-table key permits = (forth (table key permits) (table-Tabulated key permits), back permits)
  where
    forth : (rows : List Stats) → Tabulated key permits rows → length rows ≡ 0 → length permits ≡ 0
    forth [] t h = sym t.total_count
    forth (s ∷ rows) t h = absurd (omega arith)

    back : (ps : List Permit) → length ps ≡ 0 → length (table key ps) ≡ 0
    back [] h = refl
    back (p ∷ ps) h = absurd (omega arith)

-- the shares fail exactly for rows of a total of 0
data Shares (total : ℕ) (rows : List Stats) : Type 0 where
  fails : type_rows total rows ≡ none → total ≡ 0 → length rows ≢ 0 → Shares total rows
  works :
      (shares : List Text)
      → type_rows total rows ≡ some shares
      → (total ≡ 0 → length rows ≡ 0)
      → Shares total rows

type_rows-Shares : (total : ℕ) (rows : List Stats) → Shares total rows
unfolding type_rows
type_rows-Shares total [] = works [] refl (λ h. refl)
type_rows-Shares zero (s ∷ rows) = fails refl refl (λ h. omega (arith, h))
type_rows-Shares (suc n) (s ∷ rows) =
    works (map (type_row (suc n)) (s ∷ rows)) (ground arith) (λ h. absurd (omega (arith, h)))

differ : {x : Text} → some x ≢ none
differ h = cc

-- No digest is made, for a division by zero, exactly if there are permits but the total valuation
-- that the file states is 0.
pub generate_markdown-none :
    (now : Text) (processed : ProcessedOutput) (raw : PermitFile)
    → (generate_markdown now processed raw ≡ none)
      ↔ ((raw.total_valuation ≡ 0) × (length raw.permits ≢ 0))
unfolding generate_markdown
generate_markdown-none now processed raw =
    let rows = table (λ p. p.permit_type) raw.permits in
    let (empty→, →empty) = length-table (λ p. p.permit_type) raw.permits in
    elim (type_rows-Shares raw.total_valuation rows) [
      | fails e no_total rows_there ↦ (
        λ h. (no_total, λ none_there. rows_there (→empty none_there)),
        λ h. rw (e, generate_markdown) refl,
      )
      | works shares e safe ↦
          let made : generate_markdown now processed raw
              ≡ some (join_lines (digest_lines now processed raw shares)) =
            rw (e, generate_markdown) refl in
          (λ h. absurd (differ (sym made ∙ h)), λ h. absurd (h.1 (empty→ (safe h.0))))
    ]
