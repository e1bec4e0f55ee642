-- ===== src/Permits/Process.antt =====
-- scripts/process_and_notify.py: the permits of a day, filed by their priority.
pub mod Laws
use nobleport.Prelude.{ℕ, Bool, true, false, ◌||◌, List, [], ◌∷◌, ◌++◌, length, leb, if◌then◌else◌}
use nobleport.Python.Text.{Text, codes, text_eq}

-- a permit as far as the scripts look at it; the valuation is in dollars
pub record Permit : Type 0 where
  pub permit_id : Text
  pub municipality : Text
  pub permit_type : Text
  pub valuation : ℕ
  pub address : Text
  pub applicant : Text
  pub contractor : Text
  pub issued_date : Text
  pub portal_url : Text

pub data Priority : Type 0 where
  critical_priority high_priority medium_priority low_priority : Priority

-- the thresholds
abbrev pub critical_threshold : ℕ
critical_threshold = 1_000_000

abbrev pub high_threshold : ℕ
high_threshold = 500_000

abbrev pub medium_threshold : ℕ
medium_threshold = 100_000

-- `classify_priority`, without the icon
unfoldable pub classify_priority : Permit → Priority
classify_priority permit =
    let v = permit.valuation in
    if leb critical_threshold v
    then critical_priority
    else if leb high_threshold v
    then high_priority
    else if leb medium_threshold v
    then medium_priority
    else low_priority

abbrev pub strategic_types : List Text
strategic_types =
    codes "New Construction - Residential"
    ∷ codes "New Construction - Commercial"
    ∷ codes "Addition / Alteration - Commercial"
    ∷ codes "Demolition"
    ∷ codes "Foundation"
    ∷ codes "Renovation - Interior"
    ∷ codes "Renovation - Exterior"
    ∷ []

unfoldable pub is_among : Text → List Text → Bool
is_among t [] = false
is_among t (u ∷ types) = text_eq u t || is_among t types

unfoldable pub is_strategic : Permit → Bool
unfolding is_among
is_strategic permit = is_among permit.permit_type strategic_types

-- a permit with the priority that the loop has set in it
pub record Rated : Type 0 where
  pub permit : Permit
  pub priority : Priority

abbrev pub rate : Permit → Rated
rate p = record { permit = p; priority = classify_priority p }

-- what `process_permits` returns
pub record Processed : Type 0 where
  pub critical : List Rated
  pub high : List Rated
  pub medium : List Rated
  pub low : List Rated
  pub strategic : List Rated
  pub all : List Rated

abbrev pub file_by : Priority → Rated → Processed → Processed
file_by critical_priority p acc = record acc { critical = acc.critical ++ p ∷ [] }
file_by high_priority p acc = record acc { high = acc.high ++ p ∷ [] }
file_by medium_priority p acc = record acc { medium = acc.medium ++ p ∷ [] }
file_by low_priority p acc = record acc { low = acc.low ++ p ∷ [] }

-- the body of the loop
unfoldable pub process_one : Permit → Processed → Processed
unfolding classify_priority is_strategic
process_one p acc =
    let filed = file_by (classify_priority p) (rate p) acc in
    record filed {
      strategic = if is_strategic p then filed.strategic ++ rate p ∷ [] else filed.strategic;
      all = filed.all ++ rate p ∷ [];
    }

unfoldable pub process_from : Processed → List Permit → Processed
unfolding process_one
process_from acc [] = acc
process_from acc (p ∷ permits) = process_from (process_one p acc) permits

unfoldable pub process_permits : List Permit → Processed
unfolding process_from
process_permits permits =
    process_from
      (record { critical = []; high = []; medium = []; low = []; strategic = []; all = [] }) permits

-- the file of the fetch, as far as the scripts read it
pub record PermitFile : Type 0 where
  pub permits : List Permit
  pub total_permits : ℕ
  pub total_valuation : ℕ
  pub active_municipalities : ℕ

-- the file that `main` saves for the digest, without its time
pub record ProcessedOutput : Type 0 where
  pub total : ℕ
  pub total_valuation : ℕ
  pub critical : ℕ
  pub high : ℕ
  pub medium : ℕ
  pub low : ℕ
  pub strategic : ℕ
  pub critical_permits : List Rated
  pub high_permits : List Rated
  pub strategic_permits : List Rated

abbrev pub processed_output : PermitFile → Processed → ProcessedOutput
processed_output loaded processed = record {
  total = loaded.total_permits;
  total_valuation = loaded.total_valuation;
  critical = length processed.critical;
  high = length processed.high;
  medium = length processed.medium;
  low = length processed.low;
  strategic = length processed.strategic;
  critical_permits = processed.critical;
  high_permits = processed.high;
  strategic_permits = processed.strategic;
}
