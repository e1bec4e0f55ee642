-- ===== src/Db/Audit/Listing/Order.antt =====
-- The order of a listing: the rows, rearranged from the latest on.
use nobleport.Prelude.{
  suc, ◌≡◌, refl, ◌∙◌, ap, Bool, true, false, ◌&&◌, ◌||◌, List, [], ◌∷◌, all, length, arith,
}
use nobleport.Python.Text.{Text, text_eq}
use nobleport.Schema.{AuditRow, has_audit}
use nobleport.Db.Audit.Listing.{text_leb, insert_row, latest_first}

-- of two texts one is at most the other
text_leb-total : (s t : Text) → text_leb s t ≡ false → text_leb t s ≡ true
unfolding text_leb
text_leb-total [] t h = cc
text_leb-total (c ∷ s) [] h = refl
text_leb-total (c ∷ s) (d ∷ t) h = ground (arith, text_leb-total s t)

-- no row is older than the next
abbrev pub IsLatestFirst : List AuditRow → Type 0
IsLatestFirst [] = Unit
IsLatestFirst (r ∷ []) = Unit
IsLatestFirst (r ∷ s ∷ rows) =
    (text_leb s.created_at r.created_at ≡ true) × IsLatestFirst (s ∷ rows)

insert_row-IsLatestFirst :
    (r : AuditRow) (rows : List AuditRow) → IsLatestFirst rows → IsLatestFirst (insert_row r rows)
unfolding insert_row
insert_row-IsLatestFirst r [] h = tt
insert_row-IsLatestFirst r (s ∷ []) h = ground (arith, text_leb-total s.created_at r.created_at)
insert_row-IsLatestFirst r (s ∷ u ∷ rows) h =
    ground
      (arith, text_leb-total s.created_at r.created_at, insert_row-IsLatestFirst r (u ∷ rows) h.1)

pub latest_first-IsLatestFirst : (rows : List AuditRow) → IsLatestFirst (latest_first rows)
unfolding latest_first
latest_first-IsLatestFirst [] = tt
latest_first-IsLatestFirst (r ∷ rows) =
    insert_row-IsLatestFirst r (latest_first rows) (latest_first-IsLatestFirst rows)

module _ (i : Text) where
  has_audit-insert_row :
      (r : AuditRow) (rows : List AuditRow)
      → has_audit i (insert_row r rows) ≡ (text_eq r.id i || has_audit i rows)
  unfolding has_audit insert_row
  has_audit-insert_row r [] = refl
  has_audit-insert_row r (s ∷ rows) = ground (arith, has_audit-insert_row r rows)

  pub has_audit-latest_first :
      (rows : List AuditRow) → has_audit i (latest_first rows) ≡ has_audit i rows
  unfolding has_audit latest_first
  has_audit-latest_first [] = refl
  has_audit-latest_first (r ∷ rows) =
      has_audit-insert_row r (latest_first rows)
      ∙ ap (λ b. text_eq r.id i || b) (has_audit-latest_first rows)

all-insert_row :
    (p : AuditRow → Bool) (r : AuditRow) (rows : List AuditRow)
    → all p (insert_row r rows) ≡ (p r && all p rows)
unfolding insert_row
all-insert_row p r [] = refl
all-insert_row p r (s ∷ rows) = ground (arith, all-insert_row p r rows)

pub all-latest_first :
    (p : AuditRow → Bool) (rows : List AuditRow) → all p (latest_first rows) ≡ all p rows
unfolding latest_first
all-latest_first p [] = refl
all-latest_first p (r ∷ rows) =
    all-insert_row p r (latest_first rows) ∙ ap (λ b. p r && b) (all-latest_first p rows)

length-insert_row :
    (r : AuditRow) (rows : List AuditRow) → length (insert_row r rows) ≡ suc (length rows)
unfolding insert_row
length-insert_row r [] = refl
length-insert_row r (s ∷ rows) = ground (arith, length-insert_row r rows)

pub length-latest_first : (rows : List AuditRow) → length (latest_first rows) ≡ length rows
unfolding latest_first
length-latest_first [] = refl
length-latest_first (r ∷ rows) =
    length-insert_row r (latest_first rows) ∙ ap suc (length-latest_first rows)
