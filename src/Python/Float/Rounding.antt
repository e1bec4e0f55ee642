-- ===== src/Python/Float/Rounding.antt =====
-- How far a rounded number is from the exact one.
use native.Mathlib.Nat.{div-add-mod', mod-lt, mul-le-mul_right}
use nobleport.Prelude.{
  ℕ, zero, suc, ◌+◌, ◌*◌, ◌/◌, ◌%◌, ◌≤◌, ◌<◌, ◌≡◌, refl, sym, subst, arith, Bool, true, false,
  if◌then◌else◌, ltb, ◌==◌, Bool-cases, inl, inr,
}
use nobleport.Python.Float.{Float, half_even, scale_up, scale_down, quotient}

-- `2 * |h * b - a| ≤ b`
pub record Nearest (a b h : ℕ) : Type 0 where
  pub low : 2 * (h * b) ≤ 2 * a + b
  pub high : 2 * a ≤ 2 * (h * b) + b

-- the three ways to round a quotient `q` with a remainder `r`
down : (a b q r : ℕ) → q * b + r ≡ a → 2 * r ≤ b → Nearest a b q
down a b q r whole h = record { low = omega (arith, whole); high = omega (arith, whole, h) }

up : (a b q r : ℕ) → q * b + r ≡ a → r < b → b ≤ 2 * r → Nearest a b (q + 1)
up a b q r whole small h = record {
  low = omega (arith, whole, h);
  high = omega (arith, whole, small);
}

either_way : (P : ℕ → Type 0) (b : Bool) (x y : ℕ) → P x → P y → P (if b then x else y)
either_way P true x y p q = p
either_way P false x y p q = q

pub half_even-Nearest : (a b : ℕ) → 0 < b → Nearest a b (half_even a b)
unfolding half_even
half_even-Nearest a b h =
    let q = a / b in
    let r = a % b in
    let whole = div-add-mod' a b in
    let small = mod-lt a h in
    elim (Bool-cases (ltb (2 * r) b)) [
      | inl e ↦ rw e (down a b q r whole (ground (arith, e)))
      | inr e ↦ rw e (elim (Bool-cases (ltb b (2 * r))) [
        | inl f ↦ rw f (up a b q r whole small (ground (arith, f)))
        | inr f ↦ rw f (
            either_way (Nearest a b) (q % 2 == 0) q (q + 1) (down a b q r whole (ground (arith, f)))
              (up a b q r whole small (ground (arith, e))))
      ])
    ]

pub scale_up-enough :
    (fuel a b d : ℕ)
    → 0 < a
    → 0 < d
    → 4_503_599_627_370_496 * b ≤ a * d + fuel
    → 4_503_599_627_370_496 * b ≤ a * scale_up fuel a b d
unfolding scale_up
scale_up-enough zero a b d pa pd h = omega arith
scale_up-enough (suc fuel) a b d pa pd h =
    let grows : 1 * d ≤ a * d = mul-le-mul_right d pa in
    let rest = λ (l : a * d < 4_503_599_627_370_496 * b).
      scale_up-enough fuel a b (2 * d) pa (omega arith) (omega arith) in
    elim (Bool-cases (ltb (a * d) (4_503_599_627_370_496 * b))) [
      | inl e ↦ rw e (rest (ground (arith, e)))
      | inr e ↦ rw e (ground (arith, e))
    ]

-- a number below 2 ^ 53 is not scaled down
pub scale_down-small : (fuel a b : ℕ) → a < 9_007_199_254_740_992 * b → scale_down fuel a b 1 ≡ 1
unfolding scale_down
scale_down-small zero a b h = refl
scale_down-small (suc fuel) a b h = ground arith

-- A rounded quotient below 2 ^ 53: the numerator is nearest to the exact one, and either it has 53
-- bits or more, or the denominator makes up for it.
pub record Rounded (a b : ℕ) (x : Float) : Type 0 where
  pub nearest : Nearest (a * x.den) b x.num
  pub fine_enough : 4_503_599_627_370_496 * b ≤ a * x.den

at_one : (n b : ℕ) → 0 < b → Nearest n b (half_even n (b * 1) * 1)
at_one n b pb =
    let same : b * 1 ≡ b = omega arith in
    let whole : half_even n (b * 1) * 1 ≡ half_even n (b * 1) = omega arith in
    rw (whole, same) (half_even-Nearest n b pb)

pub quotient-Rounded :
    (a b : ℕ) → 0 < a → 0 < b → a < 9_007_199_254_740_992 * b → Rounded a b (quotient a b)
unfolding quotient
quotient-Rounded zero b pa pb h = absurd (omega arith)
quotient-Rounded (suc k) b pa pb h =
    let d = scale_up (4_503_599_627_370_496 * b) (suc k) b 1 in
    let one = scale_down-small (suc k) (suc k) b h in
    record {
      nearest =
          subst (λ e. Nearest (suc k * d) b (half_even (suc k * d) (b * e) * e)) (sym one)
            (at_one (suc k * d) b pb);
      fine_enough =
          scale_up-enough (4_503_599_627_370_496 * b) (suc k) b 1 pa (omega arith) (omega arith);
    }
