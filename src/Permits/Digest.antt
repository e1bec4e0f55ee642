-- ===== src/Permits/Digest.antt =====
-- scripts/generate_digest.py: the daily digest of the permits, a text in Markdown. `none` is the
-- ZeroDivisionError of the shares.
pub mod Rows
pub mod Laws
use nobleport.Prelude.{
  ℕ, ◌+◌, Bool, Option, none, some, List, [], ◌∷◌, ◌++◌, map, leb, ◌==◌, if◌then◌else◌,
}
use nobleport.Python.Text.{Text, codes}
use nobleport.Python.Float.{Float, quotient, multiply, fixed}
use nobleport.Db.Params.{decimal}
use nobleport.Permits.Process.{Permit, Rated, PermitFile, ProcessedOutput, is_among}
use nobleport.Permits.Money.{Number, whole, real, format_valuation}
use nobleport.Permits.Groups.{Stats, table}
use nobleport.Permits.Digest.Rows.{
  header, summary_rows, critical_heading, critical_row, high_row, municipality_heading,
  type_heading, register_heading, register_row, cells, rule,
}

-- `"\n".join(md)`
unfoldable pub join_lines : List Text → Text
join_lines [] = []
join_lines (l ∷ []) = l
join_lines (l ∷ m ∷ lines) = l ++ codes "\n" ++ join_lines (m ∷ lines)

-- the types of the high-value permits that are listed
abbrev pub opportunity_types : List Text
opportunity_types =
    codes "New Construction - Residential"
    ∷ codes "New Construction - Commercial"
    ∷ codes "Addition / Alteration - Commercial"
    ∷ []

-- The two loops over the opportunities: the rows that they append, with `count` rows before.
unfoldable pub high_rows : ℕ → List Rated → List Text
unfolding high_row is_among
high_rows count [] = []
high_rows count (r ∷ high) =
    let next = high_row r ∷ high_rows (count + 1) high in
    let skip = high_rows count high in
    if leb 40 count
    then []
    else if is_among r.permit.permit_type opportunity_types
    then next
    else skip

unfoldable pub opportunity_rows : ℕ → List Rated → List Rated → List Text
unfolding critical_row high_rows
opportunity_rows count [] high = high_rows count high
opportunity_rows count (r ∷ critical) high =
    let next = critical_row r ∷ opportunity_rows (count + 1) critical high in
    let done = high_rows count high in if leb 30 count then done else next

-- a row of the municipalities; the average is a float
unfoldable pub municipality_row : Stats → Text
unfolding cells format_valuation quotient
municipality_row s =
    let avg = quotient s.val s.count in
    cells
      (s.name ∷ decimal s.count ∷ format_valuation (whole s.val) ∷ format_valuation (real avg) ∷ [])

-- a row of the types; `total` is not 0
unfoldable pub type_row : ℕ → Stats → Text
unfolding cells format_valuation quotient multiply fixed
type_row total s =
    let pct = multiply (quotient s.val total) 100 in
    cells
      (s.name ∷ decimal s.count ∷ format_valuation (whole s.val) ∷ (fixed 1 pct ++ codes "%") ∷ [])

unfoldable pub type_rows : ℕ → List Stats → Option (List Text)
unfolding type_row
type_rows total [] = some []
type_rows total (s ∷ stats) = if total == 0 then none else some (map (type_row total) (s ∷ stats))

-- `for i, p in enumerate(raw["permits"], 1)`
unfoldable pub register_rows : ℕ → List Permit → List Text
unfolding register_row
register_rows i [] = []
register_rows i (p ∷ permits) = register_row i p ∷ register_rows (i + 1) permits

abbrev pub digest_lines : Text → ProcessedOutput → PermitFile → List Text → List Text
digest_lines now processed raw shares =
    header now
    ++ summary_rows raw.total_permits raw.total_valuation raw.active_municipalities processed
    ++ critical_heading
    ++ opportunity_rows 0 processed.critical_permits processed.high_permits
    ++ rule ∷ municipality_heading
    ++ map municipality_row (table (λ p. p.municipality) raw.permits)
    ++ rule ∷ type_heading
    ++ shares
    ++ rule ∷ register_heading
    ++ register_rows 1 raw.permits

-- `generate_markdown`, with the time of the day as a text
unfoldable pub generate_markdown : Text → ProcessedOutput → PermitFile → Option Text
unfolding header summary_rows opportunity_rows municipality_row table type_rows register_rows
    join_lines
generate_markdown now processed raw =
    elim (type_rows raw.total_valuation (table (λ p. p.permit_type) raw.permits)) [
      | none ↦ none
      | some shares ↦ some (join_lines (digest_lines now processed raw shares))
    ]

-- what `main` leaves: the file of the digest, and whether it was converted
pub record Digest : Type 0 where
  pub markdown : Text
  pub pdf : Bool

-- `main`; `returncode markdown` is how the converter ends on the file
unfoldable pub make_digest : (Text → ℕ) → Text → ProcessedOutput → PermitFile → Option Digest
unfolding generate_markdown
make_digest returncode now processed raw = elim (generate_markdown now processed raw) [
  | none ↦ none
  | some md_content ↦ some (record { markdown = md_content; pdf = returncode md_content == 0 })
]
