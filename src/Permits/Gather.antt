-- ===== src/Permits/Gather.antt =====
-- scripts/fetch_permits.py: `fetch_all_permits`, the permits of all municipalities in one list, the
-- most valuable first, with their totals.
pub mod Laws
use nobleport.Prelude.{
  ℕ, ◌+◌, Option, none, some, List, [], ◌∷◌, ◌++◌, length, leb, ltb, if◌then◌else◌,
}
use nobleport.Python.Text.{Text, codes, text_eq}
use nobleport.Permits.Sorting.{sort_by, sum_by}
use nobleport.Permits.Fetch.Tables.{Municipality, municipalities}
use nobleport.Permits.Fetch.{IssuedPermit, today, generate_permits_for_municipality}

-- what `fetch_all_permits` returns, without the time of the fetch
pub record FetchResult : Type 0 where
  pub date : Text
  pub county : Text
  pub state : Text
  pub total_permits : ℕ
  pub total_valuation : ℕ
  pub active_municipalities : ℕ
  pub total_municipalities : ℕ
  pub municipality_summary : List (Text × ℕ)
  pub permits : List IssuedPermit

-- `municipality_results[name] = n`
unfoldable pub set_count : Text → ℕ → List (Text × ℕ) → List (Text × ℕ)
set_count name n [] = (name, n) ∷ []
set_count name n ((k, m) ∷ counts) =
    if text_eq k name then (k, n) ∷ counts else (k, m) ∷ set_count name n counts

-- `all_permits.sort(key=lambda x: x["valuation"], reverse=True)`
abbrev pub sort_by_valuation : List IssuedPermit → List IssuedPermit
sort_by_valuation = sort_by (λ p. p.valuation)

-- `sum(p["valuation"] for p in permits)`
abbrev pub sum_valuations : List IssuedPermit → ℕ
sum_valuations = sum_by (λ p. p.valuation)

-- `sum(1 for v in counts.values() if v > 0)`
unfoldable pub count_active : List (Text × ℕ) → ℕ
count_active [] = 0
count_active ((name, n) ∷ counts) =
    let rest = count_active counts in if ltb 0 n then 1 + rest else rest

abbrev pub fetch_result : List IssuedPermit → List (Text × ℕ) → FetchResult
fetch_result all_permits counts =
    let permits = sort_by_valuation all_permits in
    record {
      date = today;
      county = codes "Essex County";
      state = codes "Massachusetts";
      total_permits = length permits;
      total_valuation = sum_valuations permits;
      active_municipalities = count_active counts;
      total_municipalities = length municipalities;
      municipality_summary = counts;
      permits = permits;
    }

module _ (digest : Text → ℕ) where
  -- the loop over the municipalities, and what follows it
  unfoldable pub fetch_from :
      List Municipality → List IssuedPermit → List (Text × ℕ) → Option FetchResult
  unfolding set_count sort_by sum_by count_active
  fetch_from [] all_permits counts = some (fetch_result all_permits counts)
  fetch_from (muni ∷ munis) all_permits counts =
      elim (generate_permits_for_municipality digest muni) [
        | none ↦ none
        | some permits ↦
            fetch_from munis (all_permits ++ permits) (set_count muni.name (length permits) counts)
      ]

  unfoldable pub fetch_all_permits : Option FetchResult
  unfolding fetch_from
  fetch_all_permits = fetch_from municipalities [] []
