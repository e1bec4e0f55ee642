-- ===== src/Permits/Money.antt =====
-- `format_valuation`, which scripts/process_and_notify.py and scripts/generate_digest.py share.
pub mod Laws
use nobleport.Prelude.{ℕ, Bool, ◌*◌, ◌++◌, ◌∷◌, leb, if◌then◌else◌}
use nobleport.Python.Text.{Text, codes}
use nobleport.Python.Float.{Float, quotient, divide, fixed, repr}
use nobleport.Db.Params.{decimal}

-- a number of Python that is not negative
pub data Number : Type 0 where
  whole : ℕ → Number
  real : Float → Number

-- `v >= n`
unfoldable pub at_least : ℕ → Number → Bool
at_least n (whole v) = leb n v
at_least n (real x) = leb (n * x.den) x.num

-- `v / n`
unfoldable pub over : Number → ℕ → Float
unfolding quotient divide
over (whole v) n = quotient v n
over (real x) n = divide x n

-- `f"{v:,}"` for a number below 1000
unfoldable pub plain : Number → Text
unfolding repr
plain (whole v) = decimal v
plain (real x) = repr x

unfoldable pub format_valuation : Number → Text
unfolding at_least over plain fixed codes
format_valuation v =
    if at_least 1_000_000 v
    then codes "$" ++ fixed 2 (over v 1_000_000) ++ codes "M"
    else if at_least 1_000 v
    then codes "$" ++ fixed 0 (over v 1_000) ++ codes "K"
    else codes "$" ++ plain v
