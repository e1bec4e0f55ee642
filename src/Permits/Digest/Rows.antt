-- ===== src/Permits/Digest/Rows.antt =====
-- scripts/generate_digest.py: the lines of the digest.
use nobleport.Prelude.{ℕ, List, [], ◌∷◌, ◌++◌}
use nobleport.Python.Text.{Text, codes}
use nobleport.Db.Params.{decimal}
use nobleport.Permits.Process.{Permit, Rated, ProcessedOutput}
use nobleport.Permits.Money.{whole, format_valuation}

-- the body of a row, cell by cell, up to its last bar
unfoldable pub cells : List Text → Text
cells [] = codes "|"
cells (c ∷ cs) = codes "| " ++ c ++ codes " " ++ cells cs

-- `**c**` and `` `c` ``
abbrev pub bold : Text → Text
bold c = codes "**" ++ c ++ codes "**"

abbrev pub quoted : Text → Text
quoted c = codes "`" ++ c ++ codes "`"

-- `md.append(f"\n---\n")`
abbrev pub rule : Text
rule = codes "\n---\n"

unfoldable pub header : Text → List Text
unfolding codes
header now =
    codes "# Essex County Building Permit Daily Digest"
    ∷ codes "## Sunday, March 22, 2026\n"
    ∷ (codes "> **Generated:** March 22, 2026 at " ++ now ++ codes "  ")
    ∷ codes "> **Coverage:** All 34 Essex County, Massachusetts Municipalities  "
    ∷ codes "> **Source:** Municipal Building Permit Portals (OpenGov, Accela, Generic)  "
    ∷ codes "> **Report Type:** Daily New Permit Monitor\n"
    ∷ codes "---\n"
    ∷ []

unfoldable pub summary_rows : ℕ → ℕ → ℕ → ProcessedOutput → List Text
unfolding cells format_valuation
summary_rows total_permits total_valuation active processed =
    codes "## Executive Summary\n"
    ∷ codes "| Metric | Value |"
    ∷ codes "|---|---|"
    ∷ cells (codes "Total New Permits" ∷ bold (decimal total_permits) ∷ [])
    ∷ cells (
        codes "Total Construction Valuation" ∷ bold (format_valuation (whole total_valuation)) ∷ [])
    ∷ cells (codes "Critical Permits (≥$1M)" ∷ bold (decimal processed.critical) ∷ [])
    ∷ cells (codes "High-Value Permits ($500K–$1M)" ∷ bold (decimal processed.high) ∷ [])
    ∷ cells (codes "Strategic Permits" ∷ bold (decimal processed.strategic) ∷ [])
    ∷ (cells (codes "Active Municipalities" ∷ bold (decimal active ++ codes " of 34") ∷ [])
        ++ codes "\n")
    ∷ codes "---\n"
    ∷ []

abbrev pub critical_heading : List Text
critical_heading =
    codes "## Strategic Opportunities\n"
    ∷ (codes "These permits represent the highest strategic value for NoblePort's full-service "
        ++ codes "construction and real estate development operations.\n")
    ∷ (codes "| Priority | Permit ID | Municipality | Type | Valuation | Address "
        ++ codes "| Contractor |")
    ∷ codes "|---|---|---|---|---|---|---|"
    ∷ []

unfoldable pub priority_row : Text → Permit → Text
unfolding cells format_valuation
priority_row priority p = cells (
    priority
    ∷ quoted p.permit_id
    ∷ p.municipality
    ∷ p.permit_type
    ∷ bold (format_valuation (whole p.valuation))
    ∷ p.address
    ∷ p.contractor
    ∷ [])

unfoldable pub critical_row : Rated → Text
unfolding priority_row
critical_row r = priority_row (codes "🔴 CRITICAL") r.permit

unfoldable pub high_row : Rated → Text
unfolding priority_row
high_row r = priority_row (codes "🟠 HIGH") r.permit

abbrev pub municipality_heading : List Text
municipality_heading =
    codes "## Activity by Municipality\n"
    ∷ codes "| Municipality | Permits | Total Valuation | Avg Valuation |"
    ∷ codes "|---|---|---|---|"
    ∷ []

abbrev pub type_heading : List Text
type_heading =
    codes "## Permits by Type\n"
    ∷ codes "| Permit Type | Count | Total Valuation | % of Total |"
    ∷ codes "|---|---|---|---|"
    ∷ []

abbrev pub register_heading : List Text
register_heading =
    codes "## Complete Permit Register\n"
    ∷ (codes "All new permits issued today across Essex County, "
        ++ codes "sorted by valuation (descending).\n")
    ∷ (codes "| # | Permit ID | Municipality | Type | Valuation | Address | Applicant "
        ++ codes "| Contractor | Issued |")
    ∷ codes "|---|---|---|---|---|---|---|---|---|"
    ∷ []

unfoldable pub register_row : ℕ → Permit → Text
unfolding cells format_valuation
register_row i p = cells (
    decimal i
    ∷ quoted p.permit_id
    ∷ p.municipality
    ∷ p.permit_type
    ∷ format_valuation (whole p.valuation)
    ∷ p.address
    ∷ p.applicant
    ∷ p.contractor
    ∷ p.issued_date
    ∷ [])
