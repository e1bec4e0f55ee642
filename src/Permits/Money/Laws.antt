-- ===== src/Permits/Money/Laws.antt =====
-- How exact the texts of `format_valuation` are.
use nobleport.Prelude.{
  ℕ, ◌+◌, ◌*◌, ◌≤◌, ◌<◌, ◌≡◌, ap, arith, ◌++◌, leb, le_of_leb, lt_of_leb, Bool-cases, inl, inr,
}
use native.Mathlib.Nat.{mul-le-mul_right}
use native.Mathlib.Decide.{dec_le}
use nobleport.Python.Text.{Text, codes}
use nobleport.Python.Float.{Float, quotient, fixed, with_places}
use nobleport.Python.Float.Rounding.{Nearest, half_even-Nearest, Rounded, quotient-Rounded}
use nobleport.Db.Params.{decimal}
use nobleport.Permits.Money.{whole, at_least, over, plain, format_valuation}

den_pos : (a b : ℕ) (x : Float) → 0 < b → Rounded a b x → 0 < x.den
den_pos a b x pb r = elim (dec_le 1 x.den) [
  | yes h ↦ h
  | no h ↦
      let e : x.den ≡ 0 = omega arith in absurd (omega (arith, r.fine_enough, ap (λ d. a * d) e))
]

-- `h` thousands, or hundredths of a million, are as near to `v` as any
millions_close :
    (v h : ℕ) (x : Float)
    → 1 ≤ v
    → v ≤ 4_503_599_627_370_496
    → Rounded v 1_000_000 x
    → Nearest (100 * x.num) x.den h
    → (10_000 * h ≤ v + 5_000) × (v ≤ 10_000 * h + 5_000)
millions_close v h x pos bound r n = elim (dec_le (10_000 * h) (v + 5_000)) [
  | no far ↦
      let wide : (v + 5_001) * x.den ≤ 10_000 * h * x.den = mul-le-mul_right x.den (omega arith) in
      let fine : v * x.den ≤ 4_503_599_627_370_496 * x.den = mul-le-mul_right x.den bound in
      absurd
        (omega (arith, wide, fine, r.nearest.low, r.nearest.high, r.fine_enough, n.low, n.high))
  | yes below ↦ elim (dec_le v (10_000 * h + 5_000)) [
    | yes above ↦ (below, above)
    | no far ↦
        let wide : (10_000 * h + 5_001) * x.den ≤ v * x.den =
          mul-le-mul_right x.den (omega arith) in
        let fine : v * x.den ≤ 4_503_599_627_370_496 * x.den = mul-le-mul_right x.den bound in
        absurd
          (omega (arith, wide, fine, r.nearest.low, r.nearest.high, r.fine_enough, n.low, n.high))
  ]
]

thousands_close :
    (v h : ℕ) (x : Float)
    → 1 ≤ v
    → v ≤ 4_503_599_627_370_496
    → Rounded v 1_000 x
    → Nearest (1 * x.num) x.den h
    → (1_000 * h ≤ v + 500) × (v ≤ 1_000 * h + 500)
thousands_close v h x pos bound r n = elim (dec_le (1_000 * h) (v + 500)) [
  | no far ↦
      let wide : (v + 501) * x.den ≤ 1_000 * h * x.den = mul-le-mul_right x.den (omega arith) in
      let fine : v * x.den ≤ 4_503_599_627_370_496 * x.den = mul-le-mul_right x.den bound in
      absurd
        (omega (arith, wide, fine, r.nearest.low, r.nearest.high, r.fine_enough, n.low, n.high))
  | yes below ↦ elim (dec_le v (1_000 * h + 500)) [
    | yes above ↦ (below, above)
    | no far ↦
        let wide : (1_000 * h + 501) * x.den ≤ v * x.den = mul-le-mul_right x.den (omega arith) in
        let fine : v * x.den ≤ 4_503_599_627_370_496 * x.den = mul-le-mul_right x.den bound in
        absurd
          (omega (arith, wide, fine, r.nearest.low, r.nearest.high, r.fine_enough, n.low, n.high))
  ]
]

-- What the text of an amount says: the dollars, the thousands or the hundredths of a million that
-- are nearest to it.
pub data Accurate : ℕ → Text → Type 0 where
  dollars : (v : ℕ) → v < 1_000 → Accurate v (codes "$" ++ decimal v)
  thousands :
      (v h : ℕ)
      → 1_000 ≤ v
      → v < 1_000_000
      → 1_000 * h ≤ v + 500
      → v ≤ 1_000 * h + 500
      → Accurate v (codes "$" ++ decimal h ++ codes "K")
  millions :
      (v h : ℕ)
      → 1_000_000 ≤ v
      → 10_000 * h ≤ v + 5_000
      → v ≤ 10_000 * h + 5_000
      → Accurate v (codes "$" ++ with_places 2 h ++ codes "M")

-- An amount of up to 2^52 dollars is shown below $1,000 as it is, below $1,000,000 as a whole
-- number of thousands that is at most $500 off, and from there on in millions with two decimals
-- that are at most $5,000 off.
pub format_valuation-Accurate :
    (v : ℕ) → v ≤ 4_503_599_627_370_496 → Accurate v (format_valuation (whole v))
unfolding format_valuation at_least over plain fixed
format_valuation-Accurate v bound = elim (Bool-cases (leb 1_000_000 v)) [
  | inl m ↦ rw m (
      let pos : 1 ≤ v = omega (arith, le_of_leb 1_000_000 v m) in
      let x = quotient v 1_000_000 in
      let r = quotient-Rounded v 1_000_000 pos (omega arith) (omega arith) in
      let close =
        millions_close v _ x pos bound r
          (half_even-Nearest (100 * x.num) x.den (den_pos v 1_000_000 x (omega arith) r)) in
      millions v _ (le_of_leb 1_000_000 v m) close.0 close.1)
  | inr s ↦ rw s (elim (Bool-cases (leb 1_000 v)) [
    | inl k ↦ rw k (
        let pos : 1 ≤ v = omega (arith, le_of_leb 1_000 v k) in
        let x = quotient v 1_000 in
        let r = quotient-Rounded v 1_000 pos (omega arith) (omega arith) in
        let close =
          thousands_close v _ x pos bound r
            (half_even-Nearest (1 * x.num) x.den (den_pos v 1_000 x (omega arith) r)) in
        thousands v _ (le_of_leb 1_000 v k) (lt_of_leb 1_000_000 v s) close.0 close.1)
    | inr u ↦ rw u (dollars v (lt_of_leb 1_000 v u))
  ])
]
