-- ===== src/Tests/Digest.antt =====
-- The notifications and the digest of concrete permits.
use nobleport.Prelude.{
  ◌-◌, ◌≡◌, ◌↔◌, ◌≢◌, none, some, List, [], ◌++◌, map, min, length, take, arith,
}
use nobleport.Python.Text.{Text, codes}
use nobleport.Permits.Process.{PermitFile, ProcessedOutput, processed_output, process_permits}
use nobleport.Permits.Process.Laws.{rated_if, is_critical, is_high}
use nobleport.Permits.Money.{whole, format_valuation}
use nobleport.Permits.Money.Laws.{Accurate, format_valuation-Accurate}
use nobleport.Permits.Groups.{table}
use nobleport.Permits.Groups.Laws.{Tabulated, table-Tabulated}
use nobleport.Permits.Gather.{FetchResult, fetch_all_permits}
use nobleport.Permits.Digest.Rows.{critical_row, high_row}
use nobleport.Permits.Digest.{opportunity_rows, generate_markdown}
use nobleport.Permits.Digest.Laws.{listed, opportunity_rows-process_permits, generate_markdown-none}
use nobleport.Permits.Notify.Summaries.{breakdown_text, breakdown_message}
use nobleport.Permits.Notify.Laws.{line_of, breakdown_message-table}
use nobleport.Permits.Notify.{Completed, Run, main}
use nobleport.Permits.Notify.Sending.{Notified, main-Notified}
use nobleport.Permits.Daily.{load_permits, daily-Works}
use nobleport.Tests.Permits.{permits1}

abbrev file1 : PermitFile
file1 = record {
  permits = permits1;
  total_permits = 3;
  total_valuation = 2_600_010;
  active_municipalities = 1;
}

abbrev output1 : ProcessedOutput
output1 = processed_output file1 (process_permits permits1)

abbrev slack1 : List Text → Text → Completed
slack1 before message = record { returncode = length before; stdout = message; stderr = [] }

format_valuation-Accurate_example : Accurate 999_600 (format_valuation (whole 999_600))
format_valuation-Accurate_example = format_valuation-Accurate 999_600 (omega arith)

table-Tabulated_example :
    Tabulated (λ p. p.municipality) permits1 (table (λ p. p.municipality) permits1)
table-Tabulated_example = table-Tabulated (λ p. p.municipality) permits1

opportunity_rows-process_permits_example :
    let output = processed_output file1 (process_permits file1.permits) in
    let critical = rated_if is_critical file1.permits in
    opportunity_rows 0 output.critical_permits output.high_permits
    ≡ map critical_row (take 30 critical)
      ++ map high_row
          (take (40 - min 30 (length critical)) (listed (rated_if is_high file1.permits)))
opportunity_rows-process_permits_example = opportunity_rows-process_permits file1

generate_markdown-none_example :
    (generate_markdown (codes "07:00 AM") output1 file1 ≡ none)
    ↔ ((file1.total_valuation ≡ 0) × (length file1.permits ≢ 0))
generate_markdown-none_example = generate_markdown-none (codes "07:00 AM") output1 file1

breakdown_message-table_example :
    let rows = table (λ p. p.municipality) permits1 in
    breakdown_message (process_permits permits1)
    ≡ some (breakdown_text (length rows) (map line_of (take 15 rows)))
breakdown_message-table_example = breakdown_message-table permits1

main-Notified_example :
    (r : Run) × (main slack1 (codes "07:00 AM") file1 ≡ some r)
    × Notified slack1 (codes "07:00 AM") file1 r
main-Notified_example = main-Notified slack1 (codes "07:00 AM") file1

daily-Works_example :
    (r : FetchResult) × (run : Run) × (md : Text) × (fetch_all_permits (λ seed. 3) ≡ some r)
    × (main slack1 (codes "07:00 AM") (load_permits r) ≡ some run)
    × (generate_markdown (codes "07:05 AM") run.saved (load_permits r) ≡ some md)
daily-Works_example = daily-Works (λ seed. 3) slack1 (codes "07:00 AM") (codes "07:05 AM")
