-- ===== src/Tests/Permits.antt =====
-- Permits of concrete data, and the theorems about their filing and their alerts.
use nobleport.Prelude.{ℕ, ◌≤◌, ◌≡◌, true, some, List, [], ◌∷◌, length}
use nobleport.Python.Text.{codes}
use nobleport.Permits.Process.{Permit, Rated, rate, process_permits}
use nobleport.Permits.Process.Laws.{Classes, process_permits-Classes}
use nobleport.Permits.Fetch.Tables.{Municipality}
use nobleport.Permits.Fetch.{IssuedPermit, generate_permits_for_municipality}
use nobleport.Permits.Fetch.Laws.{AllIssued, generate_permits-AllIssued}
use nobleport.Permits.Gather.{FetchResult, fetch_all_permits}
use nobleport.Permits.Gather.Laws.{Complete, fetch_all_permits-Complete}
use nobleport.Permits.Alerts.{send_critical}
use nobleport.Permits.Alerts.Laws.{Delivered, send_critical-Delivered}

abbrev pub permit : ℕ → Permit
permit v = record {
  permit_id = codes "B-1";
  municipality = codes "Beverly";
  permit_type = codes "Demolition";
  valuation = v;
  address = codes "12 Main St, Beverly, MA";
  applicant = codes "Owner";
  contractor = codes "Builder";
  issued_date = codes "2026-03-22 09:30";
  portal_url = codes "https://beverlyma.portal.opengov.com";
}

abbrev pub permits1 : List Permit
permits1 = permit 2_000_000 ∷ permit 600_000 ∷ permit 10 ∷ []

process_permits-Classes_example : Classes permits1 (process_permits permits1)
process_permits-Classes_example = process_permits-Classes permits1

abbrev critical1 : List Rated
critical1 = rate (permit 2_000_000) ∷ rate (permit 1_000_000) ∷ []

send_critical-Delivered_example :
    Delivered (λ alerts alert. true) critical1 (send_critical (λ alerts alert. true) critical1)
send_critical-Delivered_example = send_critical-Delivered (λ alerts alert. true) critical1

abbrev beverly : Municipality
beverly = record {
  name = codes "Beverly";
  type = codes "City";
  prefix = codes "B";
  portal = codes "https://beverlyma.portal.opengov.com";
}

generate_permits-AllIssued_example :
    (ps : List IssuedPermit) × (generate_permits_for_municipality (λ seed. 3) beverly ≡ some ps)
    × (length ps ≤ 7)
    × AllIssued (λ seed. 3) beverly ps
generate_permits-AllIssued_example = generate_permits-AllIssued (λ seed. 3) beverly

fetch_all_permits-Complete_example :
    (r : FetchResult) × (fetch_all_permits (λ seed. 3) ≡ some r) × Complete (λ seed. 3) r
fetch_all_permits-Complete_example = fetch_all_permits-Complete (λ seed. 3)
