-- ===== src/Permits/Process/Laws.antt =====
-- What the filed permits of scripts/process_and_notify.py are.
use nobleport.Prelude.{
  ◌+◌, ◌≡◌, refl, ap, sym, Bool, true, false, List, [], ◌∷◌, ◌++◌, map, arith, length, leb,
  append-nil, append_assoc, Bool-cases, inl, inr, if◌then◌else◌,
}
use nobleport.Permits.Process.{
  Permit, Priority, critical_priority, high_priority, medium_priority, low_priority,
  classify_priority, is_strategic, Rated, rate, Processed, file_by, process_one, process_from,
  process_permits,
}

-- the permits that satisfy `p`, rated, in their order
abbrev pub rated_if : (Permit → Bool) → List Permit → List Rated
rated_if p [] = []
rated_if p (x ∷ xs) = let rest = rated_if p xs in if p x then rate x ∷ rest else rest

-- what it takes to be in each class, by the valuation alone
abbrev pub is_critical : Permit → Bool
is_critical p = leb 1_000_000 p.valuation

abbrev pub is_high : Permit → Bool
is_high p = if leb 1_000_000 p.valuation then false else leb 500_000 p.valuation

abbrev pub is_medium : Permit → Bool
is_medium p = if leb 500_000 p.valuation then false else leb 100_000 p.valuation

abbrev pub is_low : Permit → Bool
is_low p = if leb 100_000 p.valuation then false else true

-- `r` is `acc` with the permits filed
pub record Filed (acc : Processed) (permits : List Permit) (r : Processed) : Type 0 where
  pub critical : r.critical ≡ acc.critical ++ rated_if is_critical permits
  pub high : r.high ≡ acc.high ++ rated_if is_high permits
  pub medium : r.medium ≡ acc.medium ++ rated_if is_medium permits
  pub low : r.low ≡ acc.low ++ rated_if is_low permits
  pub strategic : r.strategic ≡ acc.strategic ++ rated_if is_strategic permits
  pub all : r.all ≡ acc.all ++ map rate permits

file_by-strategic :
    (k : Priority) (r : Rated) (acc : Processed) → (file_by k r acc).strategic ≡ acc.strategic
file_by-strategic critical_priority r acc = refl
file_by-strategic high_priority r acc = refl
file_by-strategic medium_priority r acc = refl
file_by-strategic low_priority r acc = refl

file_by-all : (k : Priority) (r : Rated) (acc : Processed) → (file_by k r acc).all ≡ acc.all
file_by-all critical_priority r acc = refl
file_by-all high_priority r acc = refl
file_by-all medium_priority r acc = refl
file_by-all low_priority r acc = refl

append_if :
    (b : Bool) (l : List Rated) (r : Rated)
    → (if b then l ++ r ∷ [] else l) ≡ l ++ (if b then r ∷ [] else [])
append_if true l r = refl
append_if false l r = sym (append-nil l)

process_one-Filed : (p : Permit) (acc : Processed) → Filed acc (p ∷ []) (process_one p acc)
unfolding process_one classify_priority
process_one-Filed p acc = record {
  critical = ground (arith, append-nil acc.critical);
  high = ground (arith, append-nil acc.high);
  medium = ground (arith, append-nil acc.medium);
  low = ground (arith, append-nil acc.low);
  strategic =
      rw (file_by-strategic (classify_priority p) (rate p) acc)
        (append_if (is_strategic p) acc.strategic (rate p));
  all = ap (λ l. l ++ rate p ∷ []) (file_by-all (classify_priority p) (rate p) acc);
}

rated_if_cons :
    (f : Permit → Bool) (p : Permit) (ps : List Permit) (l : List Rated)
    → (l ++ rated_if f (p ∷ [])) ++ rated_if f ps ≡ l ++ rated_if f (p ∷ ps)
rated_if_cons f p ps l = elim (Bool-cases (f p)) [
  | inl e ↦ rw e (append_assoc l (rate p ∷ []) (rated_if f ps))
  | inr e ↦ rw (e, append-nil) refl
]

Filed-trans :
    (acc mid r : Processed) (p : Permit) (ps : List Permit)
    → Filed acc (p ∷ []) mid
    → Filed mid ps r
    → Filed acc (p ∷ ps) r
Filed-trans acc mid r p ps a b = record {
  critical = rw (b.critical, a.critical) (rated_if_cons is_critical p ps acc.critical);
  high = rw (b.high, a.high) (rated_if_cons is_high p ps acc.high);
  medium = rw (b.medium, a.medium) (rated_if_cons is_medium p ps acc.medium);
  low = rw (b.low, a.low) (rated_if_cons is_low p ps acc.low);
  strategic = rw (b.strategic, a.strategic) (rated_if_cons is_strategic p ps acc.strategic);
  all = rw (b.all, a.all) (append_assoc acc.all (rate p ∷ []) (map rate ps));
}

process_from-Filed : (acc : Processed) (ps : List Permit) → Filed acc ps (process_from acc ps)
unfolding process_from
process_from-Filed acc [] = record {
  critical = sym (append-nil acc.critical);
  high = sym (append-nil acc.high);
  medium = sym (append-nil acc.medium);
  low = sym (append-nil acc.low);
  strategic = sym (append-nil acc.strategic);
  all = sym (append-nil acc.all);
}
process_from-Filed acc (p ∷ ps) =
    Filed-trans acc (process_one p acc) (process_from (process_one p acc) ps) p ps
      (process_one-Filed p acc) (process_from-Filed (process_one p acc) ps)

-- what the result of filing `permits` is, class by class
pub record Classes (permits : List Permit) (r : Processed) : Type 0 where
  pub critical : r.critical ≡ rated_if is_critical permits
  pub high : r.high ≡ rated_if is_high permits
  pub medium : r.medium ≡ rated_if is_medium permits
  pub low : r.low ≡ rated_if is_low permits
  pub strategic : r.strategic ≡ rated_if is_strategic permits
  pub all : r.all ≡ map rate permits
  pub counts : length r.critical + length r.high + length r.medium + length r.low ≡ length permits

counted :
    (ps : List Permit)
    → length (rated_if is_critical ps)
        + length (rated_if is_high ps)
        + length (rated_if is_medium ps)
        + length (rated_if is_low ps)
      ≡ length ps
counted [] = refl
counted (p ∷ ps) = ground (arith, counted ps)

-- Each class has the permits of its range of valuations, in the order of the input: from $1M,
-- from $500K, from $100K, and below. The classes have together as many permits as the input, the
-- strategic list has those of a strategic type, and the full list has all, in order.
pub process_permits-Classes : (permits : List Permit) → Classes permits (process_permits permits)
unfolding process_permits
process_permits-Classes permits =
    let f = process_from-Filed _ permits in
    record {
      critical = f.critical;
      high = f.high;
      medium = f.medium;
      low = f.low;
      strategic = f.strategic;
      all = f.all;
      counts = rw (f.critical, f.high, f.medium, f.low) (counted permits);
    }
