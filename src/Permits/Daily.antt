-- ===== src/Permits/Daily.antt =====
-- scripts/: the three scripts of a day, one after the other. Each reads the files of those before
-- it; a file is read back as it was written.
use nobleport.Prelude.{
  ℕ, Bool, ◌+◌, ◌*◌, ◌≤◌, ◌≡◌, refl, subst, sym, ap, ◌∙◌, Option, none, some, false, List, [], ◌∷◌,
  ◌++◌, map, arith, length, ltb, length-map, Option-cases, Bool-cases, inl, inr, if◌then◌else◌,
}
use nobleport.Python.Text.{Text}
use nobleport.Permits.Process.{Permit, PermitFile}
use nobleport.Permits.Fetch.Tables.{Municipality, municipalities}
use nobleport.Permits.Fetch.{IssuedPermit}
use nobleport.Permits.Fetch.Laws.{AllIssued, no_permits, one_more, generate_permits-AllIssued}
use nobleport.Permits.Sorting.{sum_by}
use nobleport.Permits.Gather.{FetchResult, fetch_all_permits}
use nobleport.Permits.Gather.Laws.{
  count_if, Gathered, nowhere, also, Complete, fetch_all_permits-Complete,
}
use nobleport.Permits.Digest.{generate_markdown}
use nobleport.Permits.Digest.Laws.{generate_markdown-none}
use nobleport.Permits.Notify.{Completed, Run, main}
use nobleport.Permits.Notify.Sending.{main-Notified}

-- a permit of the file of the fetch
abbrev pub loaded_permit : IssuedPermit → Permit
loaded_permit p = record {
  permit_id = p.permit_id;
  municipality = p.municipality;
  permit_type = p.permit_type;
  valuation = p.valuation;
  address = p.address;
  applicant = p.applicant;
  contractor = p.contractor;
  issued_date = p.issued_date;
  portal_url = p.portal_url;
}

-- `load_permits` and `load_raw_data`, after the fetch has saved its result
abbrev pub load_permits : FetchResult → PermitFile
load_permits r = record {
  permits = map loaded_permit r.permits;
  total_permits = r.total_permits;
  total_valuation = r.total_valuation;
  active_municipalities = r.active_municipalities;
}

sum_by-append :
    (f : IssuedPermit → ℕ) (xs ys : List IssuedPermit)
    → sum_by f (xs ++ ys) ≡ sum_by f xs + sum_by f ys
unfolding sum_by
sum_by-append f [] ys = omega arith
sum_by-append f (x ∷ xs) ys = omega (arith, sum_by-append f xs ys)

abbrev is_small : IssuedPermit → Bool
is_small p = ltb p.valuation 5_000

-- a list without a permit below $5,000
worth_each :
    (ps : List IssuedPermit)
    → count_if is_small ps ≡ 0
    → 5_000 * length ps ≤ sum_by (λ p. p.valuation) ps
unfolding sum_by
worth_each [] h = omega arith
worth_each (p ∷ ps) h = elim (Bool-cases (is_small p)) [
  | inl e ↦ absurd (omega (arith, rw e at h))
  | inr e ↦
      let least : 5_000 ≤ p.valuation = ground (arith, e) in
      omega (arith, least, worth_each ps (omega (arith, rw e at h)))
]

abbrev or_empty : Option (List IssuedPermit) → List IssuedPermit
or_empty none = []
or_empty (some ps) = ps

module _ (digest : Text → ℕ) where
  count_if-AllIssued :
      (muni : Municipality) (ps : List IssuedPermit)
      → AllIssued digest muni ps
      → count_if is_small ps ≡ 0
  unfolding sum_by
  count_if-AllIssued muni _ no_permits = refl
  count_if-AllIssued muni _ (one_more p ps i all) =
      let large : is_small p ≡ false = ground (arith, i.least) in
      rw large (omega (arith, count_if-AllIssued muni ps all))

  count_if-Gathered :
      (munis : List Municipality) (ps : List IssuedPermit)
      → Gathered digest munis ps
      → count_if is_small ps ≡ 0
  unfolding sum_by
  count_if-Gathered _ _ nowhere = refl
  count_if-Gathered _ _ (also muni munis ps rest made g) =
      let (ps', made', _, all) = generate_permits-AllIssued digest muni in
      let same : ps' ≡ ps = ap or_empty (sym made' ∙ made) in
      let large = count_if-AllIssued muni ps (subst (AllIssued digest muni) same all) in
      omega (
        arith,
        large,
        count_if-Gathered munis rest g,
        sum_by-append (λ p. if is_small p then 1 else 0) ps rest,
      )

  -- a fetch that reports no worth has no permit
  worth_something :
      (r : FetchResult) → Complete digest r → r.total_valuation ≡ 0 → length r.permits ≡ 0
  worth_something r c h =
      let large : count_if is_small r.permits ≡ 0 =
        c.rearranged is_small ∙ count_if-Gathered municipalities c.gathered c.source in
      omega (arith, worth_each r.permits large, c.worth, h)

  -- Whatever the digest of the seeds and whatever Slack answers, the three scripts of a day run to
  -- their end: the fetch returns, the notifications are sent from its file without a failed
  -- lookup, and the digest is made from both files without a division by zero.
  pub daily-Works :
      (slack : List Text → Text → Completed) (now later : Text)
      → (r : FetchResult) × (run : Run) × (md : Text) × (fetch_all_permits digest ≡ some r)
        × (main slack now (load_permits r) ≡ some run)
        × (generate_markdown later run.saved (load_permits r) ≡ some md)
  daily-Works slack now later =
      let (r, fetched, c) = fetch_all_permits-Complete digest in
      let (run, sent, n) = main-Notified slack now (load_permits r) in
      elim (Option-cases (generate_markdown later run.saved (load_permits r))) [
        | inl failed ↦
            let (zero_total, some_permits) =
              (generate_markdown-none later run.saved (load_permits r)).0 failed in
            absurd
              (some_permits (length-map loaded_permit r.permits ∙ worth_something r c zero_total))
        | inr (md, made) ↦ (r, run, md, fetched, sent, made)
      ]
