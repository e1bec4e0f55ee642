-- ===== src/Permits/Gather/Laws.antt =====
-- What `fetch_all_permits` of scripts/fetch_permits.py returns.
use nobleport.Prelude.{
  ℕ, ◌*◌, ◌≤◌, ◌≡◌, refl, sym, ap, ◌∙◌, Bool, some, List, [], ◌∷◌, ◌++◌, arith, length, append-nil,
  append_assoc, length-append, if◌then◌else◌,
}
use nobleport.Python.Text.{Text}
use nobleport.Permits.Fetch.Tables.{Municipality, municipalities}
use nobleport.Permits.Fetch.{IssuedPermit, generate_permits_for_municipality}
use nobleport.Permits.Fetch.Laws.{generate_permits-AllIssued}
use nobleport.Permits.Sorting.{sum_by}
use nobleport.Permits.Sorting.Laws.{IsDescending, sort_by-IsDescending, sum_by-sort, length-sort}
use nobleport.Permits.Gather.{
  FetchResult, set_count, sort_by_valuation, sum_valuations, fetch_result, fetch_from,
  fetch_all_permits,
}

-- How many permits pass a test; lists that agree on every test are rearrangements of each other.
abbrev pub count_if : (IssuedPermit → Bool) → List IssuedPermit → ℕ
count_if f = sum_by (λ p. if f p then 1 else 0)

module _ (digest : Text → ℕ) where
  -- the permits that were generated for the municipalities, one after the other
  pub data Gathered : List Municipality → List IssuedPermit → Type 0 where
    nowhere : Gathered [] []
    also :
        (muni : Municipality) (munis : List Municipality) (permits rest : List IssuedPermit)
        → generate_permits_for_municipality digest muni ≡ some permits
        → Gathered munis rest
        → Gathered (muni ∷ munis) (permits ++ rest)

  -- the result for the permits gathered before, and then from `munis`
  record Fetched (munis : List Municipality) (before : List IssuedPermit) (r : FetchResult)
      : Type 0 where
    gathered : List IssuedPermit
    source : Gathered munis gathered
    few : length gathered ≤ length munis * 7
    permits : r.permits ≡ sort_by_valuation (before ++ gathered)
    total : r.total_permits ≡ length r.permits
    worth : r.total_valuation ≡ sum_valuations r.permits

  fetch_from-Fetched :
      (munis : List Municipality) (before : List IssuedPermit) (counts : List (Text × ℕ))
      → (r : FetchResult) × (fetch_from digest munis before counts ≡ some r)
        × Fetched munis before r
  unfolding fetch_from
  fetch_from-Fetched [] before counts = (
    fetch_result before counts,
    refl,
    record {
      gathered = [];
      source = nowhere;
      few = omega arith;
      permits = ap sort_by_valuation (sym (append-nil before));
      total = refl;
      worth = refl;
    },
  )
  fetch_from-Fetched (muni ∷ munis) before counts =
      let (ps, made, seven, _) = generate_permits-AllIssued digest muni in
      let (r, run, f) =
        fetch_from-Fetched munis (before ++ ps) (set_count muni.name (length ps) counts) in
      (
        r,
        rw (made, fetch_from) run,
        record {
          gathered = ps ++ f.gathered;
          source = also muni munis ps f.gathered made f.source;
          few = omega (arith, f.few, seven, length-append ps f.gathered);
          permits = f.permits ∙ ap sort_by_valuation (append_assoc before ps f.gathered);
          total = f.total;
          worth = f.worth;
        },
      )

  -- the whole fetch
  pub record Complete (r : FetchResult) : Type 0 where
    pub gathered : List IssuedPermit
    pub source : Gathered municipalities gathered
    pub rearranged : (f : IssuedPermit → Bool) → count_if f r.permits ≡ count_if f gathered
    pub descending : IsDescending (λ p. p.valuation) r.permits
    pub total : r.total_permits ≡ length gathered
    pub few : r.total_permits ≤ 238
    pub worth : r.total_valuation ≡ sum_valuations r.permits

  -- Whatever the digest, the fetch returns. Its permits are those that were generated for the 34
  -- municipalities, rearranged so that their valuations do not rise; their number, at most 238,
  -- and the sum of their valuations are reported.
  pub fetch_all_permits-Complete :
      (r : FetchResult) × (fetch_all_permits digest ≡ some r) × Complete r
  unfolding fetch_all_permits
  fetch_all_permits-Complete =
      let (r, run, f) = fetch_from-Fetched municipalities [] [] in
      let count : r.total_permits ≡ length f.gathered =
        f.total ∙ ap length f.permits ∙ length-sort (λ p. p.valuation) f.gathered in
      (
        r,
        run,
        record {
          gathered = f.gathered;
          source = f.source;
          rearranged = λ g.
              ap (count_if g) f.permits
              ∙ sum_by-sort (λ p. p.valuation) (λ p. if g p then 1 else 0) f.gathered;
          descending = rw f.permits (sort_by-IsDescending (λ p. p.valuation) f.gathered);
          total = count;
          few = omega (arith, count, f.few);
          worth = f.worth;
        },
      )
