-- ===== src/Db/Params.antt =====
-- `Database._convert_params` of app/db/connection.py: the placeholders of a statement.
pub mod Laws
use nobleport.Prelude.{
  ℕ, zero, suc, ◌+◌, ◌/◌, ◌%◌, ◌<◌, ◌≡◌, refl, ap, Bool, true, false, ◌||◌, List, [], ◌∷◌, ◌++◌,
  arith, ◌==◌, ltb, Bool-cases, inl, inr, append_assoc, append-nil, if◌then◌else◌,
}
use nobleport.Python.Text.{Text, codes}
use nobleport.World.{Dialect, sqlite, postgres}

-- The decimal digits of `n` before `rest`. `n + 1` rounds are enough.
unfoldable pub decimal_loop : ℕ → ℕ → Text → Text
decimal_loop zero n rest = rest
decimal_loop (suc f) n rest =
    let digit = b'0' + n % 10 in
    let more = decimal_loop f (n / 10) (digit ∷ rest) in if ltb n 10 then digit ∷ rest else more

-- `str(n)`
unfoldable pub decimal : ℕ → Text
unfolding decimal_loop
decimal n = decimal_loop (suc n) n []

-- `"?" in sql`
unfoldable pub has_placeholder : Text → Bool
has_placeholder [] = false
has_placeholder (c ∷ s) = c == b'?' || has_placeholder s

-- The loop over the characters, with `n` placeholders seen.
unfoldable pub number_params : ℕ → Text → Text
number_params n [] = []
number_params n (c ∷ s) =
    if c == b'?' then b'$' ∷ decimal (n + 1) ++ number_params (n + 1) s else c ∷ number_params n s

unfoldable pub convert_params : Dialect → Text → Text
unfolding number_params has_placeholder
convert_params sqlite sql = sql
convert_params postgres sql = if has_placeholder sql then number_params 0 sql else sql
