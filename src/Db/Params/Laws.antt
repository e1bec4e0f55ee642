-- ===== src/Db/Params/Laws.antt =====
-- `convert_params` numbers the placeholders from 1 in their order, and changes nothing else.
use nobleport.Prelude.{
  ℕ, zero, suc, ◌+◌, ◌/◌, ◌%◌, ◌≡◌, refl, ap, ◌∙◌, true, false, ◌||◌, List, [], ◌∷◌, ◌++◌, arith,
  ◌==◌, append-nil,
}
use nobleport.Python.Text.{Text}
use nobleport.World.{sqlite, postgres}
use nobleport.Db.Params.{decimal_loop, decimal, has_placeholder, number_params, convert_params}

-- the texts of `parts`, each behind its mark, numbered from `n`
unfoldable pub marked : (ℕ → Text) → ℕ → List Text → Text
marked mark n [] = []
marked mark n (p ∷ parts) = mark n ++ (p ++ marked mark (n + 1) parts)

-- `?`
abbrev pub question : ℕ → Text
question n = b'?' ∷ []

-- `$n`
abbrev pub dollar : ℕ → Text
dollar n = b'$' ∷ decimal n

abbrev pub NoPlaceholder : List Text → Type 0
NoPlaceholder [] = Unit
NoPlaceholder (p ∷ parts) = (has_placeholder p ≡ false) × NoPlaceholder parts

number_params-append :
    (n : ℕ) (p s : Text)
    → has_placeholder p ≡ false
    → number_params n (p ++ s) ≡ p ++ number_params n s
unfolding number_params has_placeholder
number_params-append n [] s h = refl
number_params-append n (c ∷ p) s h = ground (arith, number_params-append n p s)

number_params-marked :
    (n : ℕ) (parts : List Text)
    → NoPlaceholder parts
    → number_params n (marked question (n + 1) parts) ≡ marked dollar (n + 1) parts
unfolding number_params marked
number_params-marked n [] h = refl
number_params-marked n (p ∷ parts) h =
    rw (number_params-append (n + 1) p _ h.0, number_params-marked (n + 1) parts h.1)

has_placeholder-append :
    (s t : Text) → has_placeholder (s ++ t) ≡ (has_placeholder s || has_placeholder t)
unfolding has_placeholder
has_placeholder-append [] t = refl
has_placeholder-append (c ∷ s) t = ground (arith, has_placeholder-append s t)

has_placeholder-decimal_loop :
    (f n : ℕ) (rest : Text)
    → has_placeholder rest ≡ false
    → has_placeholder (decimal_loop f n rest) ≡ false
unfolding has_placeholder decimal_loop
has_placeholder-decimal_loop zero n rest h = h
has_placeholder-decimal_loop (suc f) n rest h =
    let d = b'0' + n % 10 in
    let no_mark : (d == b'?') ≡ false = ground arith in
    ground (arith, no_mark, has_placeholder-decimal_loop f (n / 10) (d ∷ rest))

has_placeholder-number_params : (n : ℕ) (s : Text) → has_placeholder (number_params n s) ≡ false
unfolding has_placeholder number_params decimal
has_placeholder-number_params n [] = refl
has_placeholder-number_params n (c ∷ s) = ground (
  arith,
  has_placeholder-number_params (n + 1) s,
  has_placeholder-number_params n s,
  has_placeholder-append (decimal (n + 1)) (number_params (n + 1) s),
  has_placeholder-decimal_loop (suc (n + 1)) (n + 1) [],
)

convert-marked :
    (first : Text) (parts : List Text)
    → NoPlaceholder (first ∷ parts)
    → convert_params postgres (first ++ marked question 1 parts) ≡ first ++ marked dollar 1 parts
unfolding convert_params marked
convert-marked first [] h = rw (append-nil, h.0)
convert-marked first (p ∷ parts) h =
    let found : has_placeholder (first ++ marked question 1 (p ∷ parts)) ≡ true =
      rw (has_placeholder-append, h.0, has_placeholder) in
    rw found (
      number_params-append 0 first _ h.0
      ∙ ap (λ s. first ++ s) (number_params-marked 0 (p ∷ parts) h.1))

-- For Postgres, a statement of parts without a question mark, joined by placeholders, becomes the
-- same parts joined by $1, $2 and so on. For SQLite it stays.
pub convert_params-marked :
    (first : Text) (parts : List Text)
    → NoPlaceholder (first ∷ parts)
    → (convert_params postgres (first ++ marked question 1 parts) ≡ first ++ marked dollar 1 parts)
      × (convert_params sqlite (first ++ marked question 1 parts)
          ≡ first ++ marked question 1 parts)
unfolding convert_params
convert_params-marked first parts h = (convert-marked first parts h, refl)

-- No placeholder of SQLite is left in a statement for Postgres.
has_placeholder-convert_params :
    (sql : Text) → has_placeholder (convert_params postgres sql) ≡ false
unfolding convert_params
has_placeholder-convert_params sql = ground (arith, has_placeholder-number_params 0 sql)
