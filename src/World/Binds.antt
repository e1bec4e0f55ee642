-- ===== src/World/Binds.antt =====
-- What follows for the parts from a sequence that returned.
use nobleport.Prelude.{◌≡◌, refl, ap, ◌⊎◌, inl, inr, arith}
use nobleport.World.{Exn, World, Result, ok, raised, Exec, pure, ◌>>=◌, ◌>>◌}

pub Result-cases :
    {A : Type 0} (r : Result A) → ((a : A) × (r ≡ ok a)) ⊎ ((e : Exn) × (r ≡ raised e))
Result-cases (ok a) = inl (a, refl)
Result-cases (raised e) = inr (e, refl)

-- A sequence that returned has a first part that returned.
pub >>=-ok :
    {A B : Type 0} (m : Exec A) (f : A → Exec B) (w : World) (b : B)
    → ((m >>= f) w).0 ≡ ok b
    → (a : A) × ((m w).0 ≡ ok a) × ((m >>= f) w ≡ f a (m w).1)
unfolding ◌>>=◌
>>=-ok m f w b h = elim (Result-cases (m w).0) [
  | inl (a, e) ↦ (a, e, rw (e, ◌>>=◌))
  | inr (x, e) ↦ absurd (ground (arith, rw (e, ◌>>=◌) at h))
]

-- A sequence that goes on to return `x` ends in the world of its first part.
pub then_pure-ok :
    {A B : Type 0} (m : Exec A) (x r : B) (w : World)
    → ((m >> pure x) w).0 ≡ ok r
    → (a : A) × ((m w).0 ≡ ok a) × (r ≡ x) × ((m >> pure x) w ≡ (ok x, (m w).1))
unfolding ◌>>=◌
then_pure-ok m x r w h = elim (Result-cases (m w).0) [
  | inl (a, e) ↦ (a, e, ground (arith, rw (e, ◌>>=◌) at h), rw (e, ◌>>=◌))
  | inr (y, e) ↦ absurd (ground (arith, rw (e, ◌>>=◌) at h))
]

pub eq_of_ok : {A : Type 0} (a b : A) → ok a ≡ ok b → a ≡ b
eq_of_ok a b e = ap (λ r. elim r [ ok x ↦ x | raised x ↦ a ]) e
