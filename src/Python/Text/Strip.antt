-- ===== src/Python/Text/Strip.antt =====
-- `str.strip` and `str.split(",")`.
use nobleport.Prelude.{
  ==_iff, ℕ, ◌≡◌, refl, Bool, false, ◌&&◌, ◌||◌, List, [], ◌∷◌, ◌++◌, arith, ◌==◌, leb, not,
  Bool-cases, inl, inr, ◌∙◌, ap, if◌then◌else◌,
}
use nobleport.Python.Text.{Text, is_nonempty}

-- `c.isspace()` of one character
unfoldable pub is_space : ℕ → Bool
is_space c =
    (leb 9 c && leb c 13)
    || (leb 28 c && leb c 32)
    || c == 133
    || c == 160
    || c == 5760
    || (leb 8192 c && leb c 8202)
    || (leb 8232 c && leb c 8233)
    || c == 8239
    || c == 8287
    || c == 12288

unfoldable pub lstrip : Text → Text
lstrip [] = []
lstrip (c ∷ s) = let rest = lstrip s in if is_space c then rest else c ∷ s

unfoldable pub rstrip : Text → Text
rstrip [] = []
rstrip (c ∷ s) =
    let rest = rstrip s in if is_space c && not (is_nonempty rest) then [] else c ∷ rest

-- `s.strip()`
unfoldable pub strip : Text → Text
unfolding lstrip rstrip
strip s = rstrip (lstrip s)

-- a character more at the head of the first part
unfoldable pub push_char : ℕ → List Text → List Text
push_char c [] = (c ∷ []) ∷ []
push_char c (part ∷ parts) = (c ∷ part) ∷ parts

-- `s.split(",")`
unfoldable pub split_commas : Text → List Text
unfolding push_char
split_commas [] = [] ∷ []
split_commas (c ∷ s) =
    let rest = split_commas s in if c == b',' then [] ∷ rest else push_char c rest

rstrip_twice : (s : Text) → rstrip (rstrip s) ≡ rstrip s
unfolding rstrip
rstrip_twice [] = refl
rstrip_twice (c ∷ s) = ground (arith, rstrip_twice s)

-- a text that does not begin with a space
abbrev IsTrimmed : Text → Type 0
IsTrimmed [] = Unit
IsTrimmed (c ∷ s) = is_space c ≡ false

lstrip-IsTrimmed : (s : Text) → IsTrimmed (lstrip s)
unfolding lstrip
lstrip-IsTrimmed [] = tt
lstrip-IsTrimmed (c ∷ s) = elim (Bool-cases (is_space c)) [
  | inl e ↦ rw e (lstrip-IsTrimmed s)
  | inr e ↦ rw e e
]

rstrip-IsTrimmed : (s : Text) → IsTrimmed s → IsTrimmed (rstrip s)
unfolding rstrip
rstrip-IsTrimmed [] h = tt
rstrip-IsTrimmed (c ∷ s) h = rw h h

lstrip_trimmed : (s : Text) → IsTrimmed s → lstrip s ≡ s
unfolding lstrip
lstrip_trimmed [] h = refl
lstrip_trimmed (c ∷ s) h = rw h refl

-- stripping once is enough
pub strip_twice : (s : Text) → strip (strip s) ≡ strip s
unfolding strip
strip_twice s =
    ap rstrip
      (lstrip_trimmed (rstrip (lstrip s)) (rstrip-IsTrimmed (lstrip s) (lstrip-IsTrimmed s)))
    ∙ rstrip_twice (lstrip s)

-- the parts, joined by commas
abbrev pub join_commas : List Text → Text
join_commas [] = []
join_commas (part ∷ []) = part
join_commas (part ∷ next ∷ parts) = part ++ b',' ∷ join_commas (next ∷ parts)

abbrev pub has_comma : Text → Bool
has_comma [] = false
has_comma (c ∷ s) = c == b',' || has_comma s

-- no part has a comma in it
abbrev pub NoComma : List Text → Type 0
NoComma [] = Unit
NoComma (part ∷ parts) = (has_comma part ≡ false) × NoComma parts

split_cons : (s : Text) → (part : Text) × (parts : List Text) × (split_commas s ≡ part ∷ parts)
unfolding split_commas
split_cons [] = ([], [], refl)
split_cons (c ∷ s) = elim (Bool-cases (c == b',')) [
  | inl e ↦ ([], split_commas s, rw e refl)
  | inr e ↦ let (part, parts, eq) = split_cons s in (c ∷ part, parts, rw (e, eq) refl)
]

join-push_char :
    (c : ℕ) (part : Text) (parts : List Text)
    → join_commas ((c ∷ part) ∷ parts) ≡ c ∷ join_commas (part ∷ parts)
join-push_char c part [] = refl
join-push_char c part (next ∷ parts) = refl

-- Splitting loses nothing: the parts joined by commas are the text.
pub join-split : (s : Text) → join_commas (split_commas s) ≡ s
unfolding split_commas
join-split [] = refl
join-split (c ∷ s) =
    let (part, parts, eq) = split_cons s in
    let again : join_commas (part ∷ parts) ≡ s = rw eq at (join-split s) in
    elim (Bool-cases (c == b',')) [
      | inl e ↦ rw (e, eq, again, (==_iff c b',').0 e) refl
      | inr e ↦ rw (e, eq) (join-push_char c part parts ∙ ap (λ t. c ∷ t) again)
    ]

pub split-NoComma : (s : Text) → NoComma (split_commas s)
unfolding split_commas
split-NoComma [] = (refl, tt)
split-NoComma (c ∷ s) =
    let (part, parts, eq) = split_cons s in
    let (one, others) = rw eq at (split-NoComma s) in
    elim (Bool-cases (c == b',')) [
      | inl e ↦ rw e (refl, split-NoComma s)
      | inr e ↦ rw (e, eq) (rw (e, one) refl, others)
    ]
