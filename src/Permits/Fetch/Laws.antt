-- ===== src/Permits/Fetch/Laws.antt =====
-- The permits that scripts/fetch_permits.py makes, whatever the digest.
use native.Mathlib.Nat.{mod-lt}
use nobleport.Prelude.{
  ℕ, zero, suc, ◌+◌, ◌-◌, ◌%◌, ◌≤◌, ◌<◌, ◌≡◌, refl, Bool, true, false, some, List, [], ◌∷◌, ◌++◌,
  arith, length, ltb, Bool-cases, inl, inr, if◌then◌else◌,
}
use nobleport.Python.Text.{Text, codes}
use nobleport.Permits.Fetch.Tables.{
  Municipality, permit_types, contractors, applicants, street_types,
}
use nobleport.Permits.Fetch.{
  IssuedPermit, today, nth, valuation_range, deterministic_rand, choose, seed_of, permit_of,
  generate_one, generate_from, generate_permits_for_municipality,
}

nth-some : (xs : List Text) (i : ℕ) → i < length xs → (x : Text) × (nth xs i ≡ some x)
unfolding nth
nth-some [] i h = absurd (omega arith)
nth-some (x ∷ xs) zero h = (x, refl)
nth-some (x ∷ xs) (suc i) h = nth-some xs i (omega arith)

-- a range of valuations between $5,000 and $3,500,000
abbrev IsRange : ℕ × ℕ → Type 0
IsRange p = (5_000 ≤ p.0) × (p.0 ≤ p.1) × (p.1 ≤ 3_500_000)

if-IsRange : (b : Bool) (p q : ℕ × ℕ) → IsRange p → IsRange q → IsRange (if b then p else q)
if-IsRange true p q h k = h
if-IsRange false p q h k = k

range : (low high : ℕ) → 5_000 ≤ low → low ≤ high → high ≤ 3_500_000 → IsRange (low, high)
range low high a b c = (a, b, c)

valuation_range-IsRange : (t : Text) → IsRange (valuation_range t)
unfolding valuation_range
valuation_range-IsRange t =
    if-IsRange _ _ _ (range 150_000 3_500_000 (omega arith) (omega arith) (omega arith)) (
      if-IsRange _ _ _ (range 50_000 2_500_000 (omega arith) (omega arith) (omega arith)) (
        if-IsRange _ _ _ (range 75_000 2_800_000 (omega arith) (omega arith) (omega arith)) (
          if-IsRange _ _ _ (range 15_000 2_200_000 (omega arith) (omega arith) (omega arith)) (
            if-IsRange _ _ _ (range 20_000 1_800_000 (omega arith) (omega arith) (omega arith)) (
              if-IsRange _ _ _ (range 10_000 2_000_000 (omega arith) (omega arith) (omega arith))
                (range 5_000 1_500_000 (omega arith) (omega arith) (omega arith)))))))

module _ (digest : Text → ℕ) where
  deterministic_rand-within :
      (seed : Text) (low high : ℕ)
      → low ≤ high
      → (low ≤ deterministic_rand digest seed low high)
        × (deterministic_rand digest seed low high ≤ high)
  unfolding deterministic_rand
  deterministic_rand-within seed low high h =
      let small : digest seed % (high - low + 1) < high - low + 1 =
        mod-lt (digest seed) (omega arith) in
      (omega arith, omega (arith, small))

  choose-some :
      (seed : Text) (table : List Text)
      → 0 < length table
      → (t : Text) × (choose digest seed table ≡ some t)
  unfolding choose
  choose-some seed table h =
      nth-some table (deterministic_rand digest seed 0 (length table - 1))
        (omega (arith, (deterministic_rand-within seed 0 (length table - 1) (omega arith)).1))

  -- what an issued permit of a municipality is like
  pub record Issued (muni : Municipality) (p : IssuedPermit) : Type 0 where
    pub place : p.municipality ≡ muni.name
    pub portal : p.portal_url ≡ muni.portal
    pub low : (valuation_range p.permit_type).0 ≤ p.valuation
    pub high : p.valuation ≤ (valuation_range p.permit_type).1
    pub least : 5_000 ≤ p.valuation
    pub most : p.valuation ≤ 3_500_000

  pub data AllIssued (muni : Municipality) : List IssuedPermit → Type 0 where
    no_permits : AllIssued muni []
    one_more :
        (p : IssuedPermit) (ps : List IssuedPermit)
        → Issued muni p
        → AllIssued muni ps
        → AllIssued muni (p ∷ ps)

  permit_of-Issued :
      (muni : Municipality) (seed t street applicant contractor : Text)
      → Issued muni (permit_of digest muni seed t street applicant contractor)
  permit_of-Issued muni seed t street applicant contractor =
      let (least, ordered, most) = valuation_range-IsRange t in
      let (above, below) =
        deterministic_rand-within (codes "val-" ++ seed) (valuation_range t).0 (valuation_range t).1
          ordered in
      record {
        place = refl;
        portal = refl;
        low = above;
        high = below;
        least = omega (arith, least, above);
        most = omega (arith, below, most);
      }

  generate_one-Issued :
      (muni : Municipality) (i : ℕ)
      → (p : IssuedPermit) × (generate_one digest muni i ≡ some p) × Issued muni p
  unfolding generate_one
  generate_one-Issued muni i =
      let seed = seed_of digest muni i in
      let (t, et) = choose-some (codes "type-" ++ seed) permit_types (omega arith) in
      let (street, es) = choose-some (codes "street-" ++ seed) street_types (omega arith) in
      let (applicant, ea) = choose-some (codes "app-" ++ seed) applicants (omega arith) in
      let (contractor, ec) = choose-some (codes "cont-" ++ seed) contractors (omega arith) in
      (
        permit_of digest muni seed t street applicant contractor,
        rw (et, es, ea, ec) refl,
        permit_of-Issued muni seed t street applicant contractor,
      )

  generate_from-AllIssued :
      (n i : ℕ) (muni : Municipality)
      → (ps : List IssuedPermit) × (generate_from digest n i muni ≡ some ps)
        × (length ps ≡ n)
        × AllIssued muni ps
  unfolding generate_from
  generate_from-AllIssued zero i muni = ([], refl, refl, no_permits)
  generate_from-AllIssued (suc n) i muni =
      let (p, ep, issued) = generate_one-Issued muni i in
      let (ps, eps, count, rest) = generate_from-AllIssued n (i + 1) muni in
      (p ∷ ps, rw (ep, eps) refl, omega (arith, count), one_more p ps issued rest)

  -- Whatever the digest, the permits of a municipality are generated without an index out of
  -- range: there are at most seven, each names its municipality and its portal, and has a
  -- valuation within the range of its type, which lies between $5,000 and $3,500,000.
  pub generate_permits-AllIssued :
      (muni : Municipality)
      → (ps : List IssuedPermit) × (generate_permits_for_municipality digest muni ≡ some ps)
        × (length ps ≤ 7)
        × AllIssued muni ps
  unfolding generate_permits_for_municipality
  generate_permits-AllIssued muni =
      let key = muni.name ++ codes "-" ++ today in
      elim (Bool-cases (ltb (deterministic_rand digest (codes "skip-" ++ key) 0 9) 2)) [
        | inl e ↦ ([], rw e refl, omega arith, no_permits)
        | inr e ↦
            let n = deterministic_rand digest (codes "count-" ++ key) 1 7 in
            let (ps, eps, count, rest) = generate_from-AllIssued n 0 muni in
            let few = (deterministic_rand-within (codes "count-" ++ key) 1 7 (omega arith)).1 in
            (ps, rw (e, eps) refl, omega (arith, count, few), rest)
      ]
