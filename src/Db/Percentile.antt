-- ===== src/Db/Percentile.antt =====
-- `_percentile` and the rounding of app/db/metrics.py, in exact arithmetic: a value is a number of
-- nanoseconds, a percentile a number of hundredths of a nanosecond, and a rounded figure a number
-- of microseconds (the third decimal of a millisecond).
pub mod Laws
use nobleport.Prelude.{
  ℕ, zero, suc, ◌+◌, ◌-◌, ◌*◌, ◌/◌, ◌%◌, List, [], ◌∷◌, ◌==◌, leb, ltb, length, if◌then◌else◌,
}

-- `vals[i]`, with 0 for an index out of range
unfoldable pub item : List ℕ → ℕ → ℕ
item [] i = 0
item (x ∷ xs) zero = x
item (x ∷ xs) (suc i) = item xs i

-- `math.ceil` of a number of hundredths
abbrev pub ceil : ℕ → ℕ
ceil r = (r + 99) / 100

-- The part behind the tests on the length, at the rank `r / 100`. The difference of the two
-- neighbours is written so that it is exact whichever of them is larger.
unfoldable pub at_rank : List ℕ → ℕ → ℕ
unfolding item
at_rank vals r =
    let lo = r / 100 in
    let hi = ceil r in
    if lo == hi
    then item vals lo * 100
    else item vals lo * 100 + item vals hi * (r - lo * 100) - item vals lo * (r - lo * 100)

-- `_percentile(sorted_vals, pct)` for a whole number `pct`
unfoldable pub percentile : List ℕ → ℕ → ℕ
unfolding at_rank
percentile [] pct = 0
percentile (x ∷ []) pct = x * 100
percentile (x ∷ y ∷ vals) pct = at_rank (x ∷ y ∷ vals) (pct * (length (x ∷ y ∷ vals) - 1))

-- hundredths of a nanosecond in a microsecond
abbrev pub unit : ℕ
unit = 100_000

-- `round(x, 3)`: to the nearest, and to the even one of two
unfoldable pub round3 : ℕ → ℕ
round3 x =
    let q = x / unit in
    let rest = x % unit * 2 in
    if ltb rest unit then q else if ltb unit rest then q + 1 else q + q % 2
