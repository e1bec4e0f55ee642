-- ===== src/Permits/Notify/Summaries.antt =====
-- scripts/process_and_notify.py: the daily summary, the breakdown by municipality and the strategic
-- summary.
use nobleport.Prelude.{
  ℕ, ◌+◌, ◌-◌, Option, none, some, List, [], ◌∷◌, ◌++◌, map, length, take, ltb, if◌then◌else◌,
}
use nobleport.Python.Text.{Text, codes, text_eq}
use nobleport.Db.Params.{decimal}
use nobleport.Permits.Process.{Permit, Rated, Processed, PermitFile}
use nobleport.Permits.Fetch.{today}
use nobleport.Permits.Sorting.{sum_by, sort_by}
use nobleport.Permits.Groups.{total_of, totals_from}
use nobleport.Permits.Digest.{join_lines}
use nobleport.Permits.Notify.Messages.{bar, emoji_style, money, ljust, rjust, repeated}

-- an item of the list of the most valuable permits
unfoldable pub ranked : ℕ → List Rated → Text
unfolding codes
ranked i [] = []
ranked i (r ∷ top) =
    let p = r.permit in
    codes "  "
    ++ decimal i
    ++ codes ". `"
    ++ p.permit_id
    ++ codes "` | "
    ++ p.municipality
    ++ codes " | "
    ++ p.permit_type
    ++ codes " | "
    ++ money p.valuation
    ++ codes "\n"
    ++ ranked (i + 1) top

-- `send_daily_summary_notification`, with the time of the day as a text
unfoldable pub daily_message : Text → Processed → PermitFile → Text
unfolding ranked codes
daily_message now processed loaded =
    codes "📋 *ESSEX COUNTY PERMIT MONITOR — Daily Summary*\n"
    ++ codes "📅 *Date:* "
    ++ today
    ++ codes " | ⏰ *Generated:* "
    ++ now
    ++ codes "\n"
    ++ bar
    ++ codes "\n"
    ++ codes "*Total New Permits:* "
    ++ decimal loaded.total_permits
    ++ codes "\n"
    ++ codes "*Total Valuation:* "
    ++ money loaded.total_valuation
    ++ codes "\n"
    ++ codes "*Active Municipalities:* "
    ++ decimal loaded.active_municipalities
    ++ codes " of 34\n"
    ++ bar
    ++ codes "\n"
    ++ codes "🔴 *Critical (≥$1M):* "
    ++ decimal (length processed.critical)
    ++ codes " permits\n"
    ++ codes "🟠 *High ($500K–$1M):* "
    ++ decimal (length processed.high)
    ++ codes " permits\n"
    ++ codes "🏗"
    ++ emoji_style
    ++ codes " *Strategic Types:* "
    ++ decimal (length processed.strategic)
    ++ codes " permits\n"
    ++ bar
    ++ codes "\n"
    ++ codes "*Top 5 by Valuation:*\n"
    ++ ranked 1 (take 5 processed.all)
    ++ bar
    ++ codes "\n"
    ++ codes "_Full daily digest report generated. "
    ++ decimal (length processed.critical)
    ++ codes " individual critical alerts sent._\n"
    ++ codes "_Powered by NoblePort PermitStream.ai | Stephanie.ai_"

-- a line of the breakdown
unfoldable pub breakdown_line : Text → ℕ → ℕ → Text
unfolding ljust rjust codes
breakdown_line muni count total_val =
    ljust 28 muni ++ codes " " ++ rjust 7 (decimal count) ++ codes " " ++ rjust 12 (money total_val)

-- the loop over the totals; `none` is a KeyError of `muni_counts[muni]`
unfoldable pub breakdown_lines : List (Text × ℕ) → List (Text × ℕ) → Option (List Text)
unfolding breakdown_line total_of
breakdown_lines counts [] = some []
breakdown_lines counts ((muni, total_val) ∷ munis) = elim (total_of muni counts) [
  | none ↦ none
  | some count ↦ elim (breakdown_lines counts munis) [
    | none ↦ none
    | some lines ↦ some (breakdown_line muni count total_val ∷ lines)
  ]
]

abbrev pub muni_totals : List Permit → List (Text × ℕ)
muni_totals = totals_from (λ p. p.municipality) (λ p. p.valuation) []

abbrev pub muni_counts : List Permit → List (Text × ℕ)
muni_counts = totals_from (λ p. p.municipality) (λ p. 1) []

abbrev pub sorted_munis : List Permit → List (Text × ℕ)
sorted_munis permits = sort_by (λ item. item.1) (muni_totals permits)

abbrev pub more_munis : ℕ → List Text
more_munis n =
    if ltb 15 n
    then (codes "... and " ++ decimal (n - 15) ++ codes " more municipalities") ∷ []
    else []

abbrev pub breakdown_text : ℕ → List Text → Text
breakdown_text active lines =
    codes "```\n"
    ++ join_lines (
        (codes "🗺"
            ++ emoji_style
            ++ codes " *MUNICIPALITY BREAKDOWN* — Essex County, MA | "
            ++ today)
          ∷ bar
          ∷ (codes "*" ++ decimal active ++ codes " active municipalities* out of 34 total")
          ∷ []
          ∷ (ljust 28 (codes "Municipality")
              ++ codes " "
              ++ rjust 7 (codes "Permits")
              ++ codes " "
              ++ rjust 12 (codes "Total Val"))
          ∷ (repeated 28 (codes "─")
              ++ codes " "
              ++ repeated 7 (codes "─")
              ++ codes " "
              ++ repeated 12 (codes "─"))
          ∷ lines
        ++ more_munis active
        ++ []
          ∷ codes "_Municipalities with no activity today: Georgetown, Lynn, Marblehead, Salem_"
          ∷ [])
    ++ codes "\n```"

-- the message from the counts and the sorted totals
unfoldable pub breakdown_from : List (Text × ℕ) → List (Text × ℕ) → Option Text
unfolding breakdown_lines join_lines ljust rjust repeated codes
breakdown_from counts munis = elim (breakdown_lines counts (take 15 munis)) [
  | none ↦ none
  | some lines ↦ some (breakdown_text (length munis) lines)
]

-- `send_municipality_breakdown_notification`
unfoldable pub breakdown_message : Processed → Option Text
unfolding breakdown_from totals_from sort_by
breakdown_message processed =
    let permits = map (λ r. r.permit) processed.all in
    breakdown_from (muni_counts permits) (sorted_munis permits)

-- `by_type.setdefault(t, []).append(p)`
unfoldable pub add_member : Permit → List (Text × List Permit) → List (Text × List Permit)
add_member p [] = (p.permit_type, p ∷ []) ∷ []
add_member p ((t, ps) ∷ groups) =
    let rest = add_member p groups in
    if text_eq t p.permit_type then (t, ps ++ p ∷ []) ∷ groups else (t, ps) ∷ rest

unfoldable pub by_type_from : List (Text × List Permit) → List Permit → List (Text × List Permit)
unfolding add_member
by_type_from groups [] = groups
by_type_from groups (p ∷ permits) = by_type_from (add_member p groups) permits

abbrev pub group_val : Text × List Permit → ℕ
group_val group = sum_by (λ p. p.valuation) group.1

unfoldable pub by_type : List Permit → List (Text × List Permit)
unfolding by_type_from sort_by sum_by
by_type strategic = sort_by group_val (by_type_from [] strategic)

unfoldable pub top_line : Permit → Text
unfolding codes
top_line p =
    codes "  • `"
    ++ p.permit_id
    ++ codes "` | "
    ++ p.municipality
    ++ codes " | "
    ++ money p.valuation
    ++ codes " | "
    ++ p.contractor

-- the lines of a type: its heading, its three most valuable permits, and an empty line
unfoldable pub type_lines : Text × List Permit → List Text
unfolding top_line sort_by sum_by codes
type_lines (ptype, permits) =
    (codes "*"
        ++ ptype
        ++ codes "* — "
        ++ decimal (length permits)
        ++ codes " permit(s) | Total: "
        ++ money (sum_by (λ p. p.valuation) permits))
      ∷ map top_line (take 3 (sort_by (λ p. p.valuation) permits))
    ++ [] ∷ []

unfoldable pub types_lines : List (Text × List Permit) → List Text
unfolding type_lines
types_lines [] = []
types_lines (group ∷ groups) = type_lines group ++ types_lines groups

-- `send_strategic_summary_notification`; `none` is no message, for want of strategic permits
unfoldable pub strategic_message : List Rated → Option Text
unfolding types_lines by_type join_lines codes
strategic_message [] = none
strategic_message (r ∷ strategic) =
    let permits = map (λ r. r.permit) (r ∷ strategic) in
    some (
      join_lines (
        (codes "🏗"
            ++ emoji_style
            ++ codes " *STRATEGIC PERMIT SUMMARY* — Essex County, MA | "
            ++ today)
          ∷ bar
          ∷ (codes "*"
              ++ decimal (length permits)
              ++ codes " strategic permits* identified "
              ++ codes "(New Construction, Commercial, Demolition, Foundation, Renovation)")
          ∷ []
          ∷ types_lines (by_type permits)
        ++ codes "_Full digest available in the daily permit report._" ∷ []))
