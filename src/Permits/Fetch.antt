-- ===== src/Permits/Fetch.antt =====
-- scripts/fetch_permits.py: the simulated permits of a day. Every choice is drawn from the digest
-- of a seed text; the digest, MD5 read as a number, is a parameter.
pub mod Tables
pub mod Laws
use nobleport.Prelude.{
  ℕ, zero, suc, ◌+◌, ◌-◌, ◌%◌, Option, none, some, List, [], ◌∷◌, ◌++◌, length, leb, ltb,
  if◌then◌else◌,
}
use nobleport.Python.Text.{Text, codes}
use nobleport.Db.Params.{decimal}
use nobleport.Permits.Process.{is_among}
use nobleport.Permits.Fetch.Tables.{
  Municipality, municipalities, permit_types, contractors, applicants, street_types,
}

pub record IssuedPermit : Type 0 where
  pub permit_id : Text
  pub municipality : Text
  pub municipality_type : Text
  pub address : Text
  pub permit_type : Text
  pub applicant : Text
  pub contractor : Text
  pub valuation : ℕ
  pub sq_ft : Option ℕ
  pub issued_date : Text
  pub status : Text
  pub portal_url : Text

abbrev pub today : Text
today = codes "2026-03-22"

-- `l[i]`, with `none` for the IndexError
unfoldable pub nth : List Text → ℕ → Option Text
nth [] i = none
nth (x ∷ xs) zero = some x
nth (x ∷ xs) (suc i) = nth xs i

-- `f"{n:02d}"`
abbrev pub two_digits : ℕ → Text
two_digits n = if ltb n 10 then b'0' ∷ decimal n else decimal n

-- the range of the valuations of a type
unfoldable pub valuation_range : Text → ℕ × ℕ
valuation_range t =
    if is_among t
      (codes "New Construction - Commercial" ∷ codes "New Construction - Residential" ∷ [])
    then (150_000, 3_500_000)
    else if is_among t (
        codes "Addition / Alteration - Commercial"
        ∷ codes "Renovation - Interior"
        ∷ codes "Renovation - Exterior"
        ∷ [])
    then (50_000, 2_500_000)
    else if is_among t (codes "Demolition" ∷ codes "Foundation" ∷ [])
    then (75_000, 2_800_000)
    else if is_among t (codes "Electrical" ∷ codes "Plumbing" ∷ codes "HVAC / Mechanical" ∷ [])
    then (15_000, 2_200_000)
    else if is_among t (codes "Solar Installation" ∷ [])
    then (20_000, 1_800_000)
    else if is_among t (codes "Roofing" ∷ codes "Deck / Porch" ∷ codes "Pool / Spa" ∷ [])
    then (10_000, 2_000_000)
    else (5_000, 1_500_000)

abbrev pub new_construction : List Text
new_construction =
    codes "New Construction - Residential" ∷ codes "New Construction - Commercial" ∷ []

module _ (digest : Text → ℕ) where
  unfoldable pub deterministic_rand : Text → ℕ → ℕ → ℕ
  deterministic_rand seed_str low high = low + digest seed_str % (high - low + 1)

  -- `table[deterministic_rand(seed, 0, len(table) - 1)]`
  unfoldable pub choose : Text → List Text → Option Text
  unfolding deterministic_rand nth
  choose seed_str table = nth table (deterministic_rand seed_str 0 (length table - 1))

  abbrev pub seed_of : Municipality → ℕ → Text
  seed_of muni i = muni.name ++ codes "-" ++ today ++ codes "-" ++ decimal i

  -- the permit, when the four choices from the tables are made
  abbrev pub permit_of : Municipality → Text → Text → Text → Text → Text → IssuedPermit
  permit_of muni seed permit_type street applicant contractor =
      let (low, high) = valuation_range permit_type in
      record {
        permit_id =
            muni.prefix
            ++ codes "-BP-2026-"
            ++ decimal (deterministic_rand (codes "id-" ++ seed) 1000 9999);
        municipality = muni.name;
        municipality_type = muni.type;
        address =
            decimal (deterministic_rand (codes "addr-" ++ seed) 10 999)
            ++ codes " "
            ++ street
            ++ codes ", "
            ++ muni.name
            ++ codes ", MA";
        permit_type = permit_type;
        applicant = applicant;
        contractor = contractor;
        valuation = deterministic_rand (codes "val-" ++ seed) low high;
        sq_ft =
            if is_among permit_type new_construction
            then some (deterministic_rand (codes "sqft-" ++ seed) 800 8500)
            else none;
        issued_date =
            today
            ++ codes " "
            ++ two_digits (deterministic_rand (codes "hour-" ++ seed) 0 23)
            ++ codes ":"
            ++ two_digits (deterministic_rand (codes "min-" ++ seed) 0 59);
        status = codes "Issued";
        portal_url = muni.portal;
      }

  abbrev pub assemble :
      Municipality
      → Text
      → Option Text
      → Option Text
      → Option Text
      → Option Text
      → Option IssuedPermit
  assemble muni seed (some t) (some street) (some applicant) (some contractor) =
      some (permit_of muni seed t street applicant contractor)
  assemble muni seed _ _ _ _ = none

  -- the body of the loop
  unfoldable pub generate_one : Municipality → ℕ → Option IssuedPermit
  unfolding choose
  generate_one muni i =
      let seed = seed_of muni i in
      assemble muni seed (choose (codes "type-" ++ seed) permit_types)
        (choose (codes "street-" ++ seed) street_types) (choose (codes "app-" ++ seed) applicants)
        (choose (codes "cont-" ++ seed) contractors)

  abbrev pub cons? : Option IssuedPermit → Option (List IssuedPermit) → Option (List IssuedPermit)
  cons? none rest = none
  cons? (some p) none = none
  cons? (some p) (some rest) = some (p ∷ rest)

  -- `for i in range(i, i + n)`
  unfoldable pub generate_from : ℕ → ℕ → Municipality → Option (List IssuedPermit)
  unfolding generate_one
  generate_from zero i muni = some []
  generate_from (suc n) i muni = cons? (generate_one muni i) (generate_from n (i + 1) muni)

  unfoldable pub generate_permits_for_municipality : Municipality → Option (List IssuedPermit)
  unfolding generate_from deterministic_rand
  generate_permits_for_municipality muni =
      let key = muni.name ++ codes "-" ++ today in
      if ltb (deterministic_rand (codes "skip-" ++ key) 0 9) 2
      then some []
      else generate_from (deterministic_rand (codes "count-" ++ key) 1 7) 0 muni
