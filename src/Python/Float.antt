-- ===== src/Python/Float.antt =====
-- Python's `float` for results that are not negative: a dyadic fraction `num / den`. A quotient is
-- rounded to the nearest number of 53 bits, ties to even; there is no overflow and no underflow.
pub mod Rounding
use Prim.Native.Nat.{◌^◌}
use nobleport.Prelude.{
  ℕ, zero, suc, ◌+◌, ◌*◌, ◌-◌, ◌/◌, ◌%◌, List, [], ◌∷◌, ◌++◌, length, ltb, leb, ◌==◌, if◌then◌else◌,
}
use nobleport.Python.Text.{Text}
use nobleport.Db.Params.{decimal}

pub record Float : Type 0 where
  pub num : ℕ
  pub den : ℕ

-- `a / b` rounded to a whole number, ties to even
unfoldable pub half_even : ℕ → ℕ → ℕ
half_even a b =
    let q = a / b in
    let r = a % b in
    if ltb (2 * r) b then q else if ltb b (2 * r) then q + 1 else if q % 2 == 0 then q else q + 1

-- the least power of two, from `d` on, that brings `a * d / b` to 53 bits
unfoldable pub scale_up : ℕ → ℕ → ℕ → ℕ → ℕ
scale_up zero a b d = d
scale_up (suc fuel) a b d =
    let more = scale_up fuel a b (2 * d) in
    if ltb (a * d) (4_503_599_627_370_496 * b) then more else d

-- the least power of two, from `e` on, that brings `a / (b * e)` to 53 bits
unfoldable pub scale_down : ℕ → ℕ → ℕ → ℕ → ℕ
scale_down zero a b e = e
scale_down (suc fuel) a b e =
    let more = scale_down fuel a b (2 * e) in
    if leb (9_007_199_254_740_992 * (b * e)) a then more else e

-- `a / b` for whole numbers, `b` not 0
unfoldable pub quotient : ℕ → ℕ → Float
unfolding half_even scale_up scale_down
quotient zero b = record { num = 0; den = 1 }
quotient (suc k) b =
    let a = suc k in
    let d = scale_up (4_503_599_627_370_496 * b) a b 1 in
    let e = scale_down a a b 1 in record { num = half_even (a * d) (b * e) * e; den = d }

-- `x / n`, `x * n`
unfoldable pub divide : Float → ℕ → Float
unfolding quotient
divide x n = quotient x.num (x.den * n)

unfoldable pub multiply : Float → ℕ → Float
unfolding quotient
multiply x n = quotient (x.num * n) x.den

-- leading zeros up to a width
unfoldable pub zeros : ℕ → Text
zeros zero = []
zeros (suc n) = b'0' ∷ zeros n

unfoldable pub zero_padded : ℕ → Text → Text
unfolding zeros
zero_padded width s = zeros (width - length s) ++ s

-- a number of units of the `places`-th decimal place
unfoldable pub with_places : ℕ → ℕ → Text
unfolding zero_padded
with_places zero n = decimal n
with_places (suc p) n =
    decimal (n / 10 ^ suc p) ++ b'.' ∷ zero_padded (suc p) (decimal (n % 10 ^ suc p))

-- `f"{x:.{places}f}"`
unfoldable pub fixed : ℕ → Float → Text
unfolding with_places half_even
fixed places x = with_places places (half_even (10 ^ places * x.num) x.den)

-- The shortest decimal that is read back as `x`, from `places` places on.
unfoldable pub shortest : ℕ → ℕ → Float → Text
unfolding fixed half_even quotient
shortest zero places x = fixed places x
shortest (suc fuel) places x =
    let back = quotient (half_even (10 ^ places * x.num) x.den) (10 ^ places) in
    let more = shortest fuel (places + 1) x in
    if back.num * x.den == x.num * back.den then fixed places x else more

-- `repr(x)` for `x` below 10 ** 16 that is 0 or at least 0.0001: 17 digits tell any two apart, so
-- 21 places are enough.
unfoldable pub repr : Float → Text
unfolding shortest
repr = shortest 20 1
