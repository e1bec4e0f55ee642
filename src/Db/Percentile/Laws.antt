-- ===== src/Db/Percentile/Laws.antt =====
-- A percentile of a sorted sample lies between its ends and grows with the rank.
use native.Mathlib.Decide.{dec_lt}
use native.Mathlib.Nat.{add-zero}
use nobleport.Prelude.{
  ℕ, zero, suc, ◌+◌, ◌-◌, ◌*◌, ◌/◌, ◌%◌, ◌≤◌, ◌<◌, ◌≡◌, sym, ap, subst, ◌∙◌, false, List, [], ◌∷◌,
  arith, ◌==◌, length,
}
use nobleport.Db.Percentile.{item, at_rank, percentile}

-- each value is at most the next
abbrev pub IsAscending : List ℕ → Type 0
IsAscending [] = Unit
IsAscending (x ∷ []) = Unit
IsAscending (x ∷ y ∷ xs) = (x ≤ y) × IsAscending (y ∷ xs)

item_step :
    (vals : List ℕ) (i : ℕ)
    → IsAscending vals
    → suc i < length vals
    → item vals i ≤ item vals (suc i)
unfolding item
item_step [] i h lt = absurd (omega arith)
item_step (x ∷ []) i h lt = absurd (omega arith)
item_step (x ∷ y ∷ xs) zero h lt = h.0
item_step (x ∷ y ∷ xs) (suc i) h lt = item_step (y ∷ xs) i h.1 (omega arith)

-- the weighted mean of two neighbours, `f` hundredths of the way from `a` to `b`
abbrev mix : ℕ → ℕ → ℕ → ℕ
mix a b f = a * (100 - f) + b * f

mix_step : (a b f : ℕ) → a ≤ b → f < 100 → mix a b f ≤ mix a b (suc f)
mix_step a b f h lt =
    let k = 99 - f in
    let e : 100 - f ≡ suc k = omega arith in
    let e' : 100 - suc f ≡ k = omega arith in rw (e, e') (omega arith)

mix_exact : (a b f : ℕ) → f ≤ 100 → a * 100 + b * f - a * f ≡ mix a b f
mix_exact a b f lt =
    let k = 100 - f in
    let e : a * 100 ≡ a * k + a * f =
      let s : 100 ≡ k + f = omega arith in ap (λ (t : ℕ). a * t) s ∙ omega arith in
    omega arith

at_rank-mix :
    (vals : List ℕ) (lo f : ℕ)
    → f < 100
    → at_rank vals (lo * 100 + f) ≡ mix (item vals lo) (item vals (suc lo)) f
unfolding at_rank
at_rank-mix vals lo zero lt =
    let e : (lo * 100 + 0) / 100 ≡ lo = omega arith in
    let e' : (lo * 100 + 0 + 99) / 100 ≡ lo = omega arith in rw (e, e') (ground arith)
at_rank-mix vals lo (suc f) lt =
    let e : (lo * 100 + suc f) / 100 ≡ lo = omega arith in
    let e' : (lo * 100 + suc f + 99) / 100 ≡ suc lo = omega arith in
    let e'' : lo * 100 + suc f - lo * 100 ≡ suc f = omega arith in
    let ne : (lo == suc lo) ≡ false = ground arith in
    rw (e, e', e'', ne) (mix_exact (item vals lo) (item vals (suc lo)) (suc f) (omega arith))

at_rank-mix_next :
    (vals : List ℕ) (lo f : ℕ)
    → f < 100
    → at_rank vals (lo * 100 + suc f) ≡ mix (item vals lo) (item vals (suc lo)) (suc f)
at_rank-mix_next vals lo f lt = elim (dec_lt (suc f) 100) [
  | yes more ↦ at_rank-mix vals lo (suc f) more
  | no last ↦
      let e : f ≡ 99 = omega arith in
      let e' : lo * 100 + suc f ≡ suc lo * 100 + 0 = omega arith in
      rw (e', at_rank-mix vals (suc lo) 0 (omega arith), e) (omega arith)
]

-- one hundredth more
at_rank_step :
    (vals : List ℕ) (r : ℕ)
    → IsAscending vals
    → suc r ≤ (length vals - 1) * 100
    → at_rank vals r ≤ at_rank vals (suc r)
at_rank_step vals r h lt =
    let lo = r / 100 in
    let f = r % 100 in
    let small : f < 100 = omega arith in
    let here : at_rank vals r ≡ mix (item vals lo) (item vals (suc lo)) f =
      ap (at_rank vals) (omega arith) ∙ at_rank-mix vals lo f small in
    let next : at_rank vals (suc r) ≡ mix (item vals lo) (item vals (suc lo)) (suc f) =
      ap (at_rank vals) (omega arith) ∙ at_rank-mix_next vals lo f small in
    rw (here, next)
      (mix_step (item vals lo) (item vals (suc lo)) f (item_step vals lo h (omega arith)) small)

pub at_rank_mono :
    (vals : List ℕ) (r k : ℕ)
    → IsAscending vals
    → r + k ≤ (length vals - 1) * 100
    → at_rank vals r ≤ at_rank vals (r + k)
at_rank_mono vals r zero h lt = rw (add-zero r) (omega arith)
at_rank_mono vals r (suc k) h lt =
    let e : r + suc k ≡ suc (r + k) = omega arith in
    rw e (
      omega
        (arith, at_rank_mono vals r k h (omega arith), at_rank_step vals (r + k) h (omega arith)))

at_rank-le :
    (vals : List ℕ) (r s : ℕ)
    → IsAscending vals
    → r ≤ s
    → s ≤ (length vals - 1) * 100
    → at_rank vals r ≤ at_rank vals s
at_rank-le vals r s h le top =
    let e : s ≡ r + (s - r) = omega arith in
    subst (λ u. at_rank vals r ≤ at_rank vals u) (sym e)
      (at_rank_mono vals r (s - r) h (omega arith))

-- at a whole rank stands the value itself
at_rank_whole : (vals : List ℕ) (i : ℕ) → at_rank vals (i * 100) ≡ item vals i * 100
at_rank_whole vals i =
    let e : i * 100 ≡ i * 100 + 0 = omega arith in
    ap (at_rank vals) e ∙ at_rank-mix vals i 0 (omega arith) ∙ omega arith

mul_mono : (p q n : ℕ) → p ≤ q → p * n ≤ q * n
mul_mono p q n h = grind arith

-- the smallest and the largest value of a sorted sample
abbrev pub first : List ℕ → ℕ
first vals = item vals 0

abbrev pub last : List ℕ → ℕ
last vals = item vals (length vals - 1)

-- A higher percentile of a sorted sample, up to the hundredth, is no smaller, and every percentile
-- lies between the smallest value and the largest.
pub percentile_mono :
    (vals : List ℕ) (p q : ℕ)
    → IsAscending vals
    → p ≤ q
    → q ≤ 100
    → (first vals * 100 ≤ percentile vals p)
      × (percentile vals p ≤ percentile vals q)
      × (percentile vals q ≤ last vals * 100)
unfolding percentile
percentile_mono [] p q h le top = omega arith
percentile_mono (x ∷ []) p q h le top = unfold item in omega arith
percentile_mono (x ∷ y ∷ xs) p q h le top =
    let vals = x ∷ y ∷ xs in
    let n = length vals - 1 in
    let top_rank : q * n ≤ n * 100 = omega (arith, mul_mono q 100 n top) in
    (
      rw (← at_rank_whole vals 0)
          (at_rank-le vals 0 (p * n) h (omega arith) (omega (arith, mul_mono p q n le))),
      at_rank-le vals (p * n) (q * n) h (mul_mono p q n le) top_rank,
      rw (← at_rank_whole vals n) (at_rank-le vals (q * n) (n * 100) h top_rank (omega arith)),
    )
