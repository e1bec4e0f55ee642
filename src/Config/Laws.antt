-- ===== src/Config/Laws.antt =====
-- What the settings that were read from the environment are like.
use nobleport.Prelude.{
  Option, none, some, all, subst, arith, ◌≡◌, refl, Bool-cases, inl, inr, true, List, [], ◌∷◌,
  if◌then◌else◌,
}
use nobleport.Python.Int.{ℤ}
use nobleport.World.{null_bus, redis_bus}
use nobleport.Python.Text.{Text, codes, is_nonempty}
use nobleport.Python.Text.Strip.{strip, strip_twice}
use nobleport.Config.{Settings, environ_get, clean, settings_of, settings_with, from_env, bus_of}

-- cleaning once is enough
pub clean_twice : (names : List Text) → clean (clean names) ≡ clean names
unfolding clean
clean_twice [] = refl
clean_twice (c ∷ names) = elim (Bool-cases (is_nonempty (strip c))) [
  | inl e ↦ rw (e, clean, strip_twice c, e, clean_twice names) refl
  | inr e ↦ rw (e, clean) (clean_twice names)
]

all-is_nonempty-clean : (names : List Text) → all is_nonempty (clean names) ≡ true
unfolding clean
all-is_nonempty-clean [] = refl
all-is_nonempty-clean (c ∷ names) = elim (Bool-cases (is_nonempty (strip c))) [
  | inl e ↦ rw (e, clean, e) (all-is_nonempty-clean names)
  | inr e ↦ rw (e, clean) (all-is_nonempty-clean names)
]

-- what the settings are like, whatever the environment variables are
pub record Sound (int_of_text : Text → Option ℤ) (environ : Text → Option Text) (s : Settings)
    : Type 0 where
  pub names_kept : clean s.allowed_commands ≡ s.allowed_commands
  pub named : all is_nonempty s.allowed_commands ≡ true
  pub bus : bus_of s ≡ (if is_nonempty s.redis_url then redis_bus else null_bus)
  pub timeout :
      int_of_text (environ_get environ (codes "SANDBOX_TIMEOUT_SECONDS") (codes "60"))
      ≡ some s.sandbox_timeout_seconds

settings-Sound :
    (int_of_text : Text → Option ℤ) (environ : Text → Option Text) (o : Option ℤ) (s : Settings)
    → int_of_text (environ_get environ (codes "SANDBOX_TIMEOUT_SECONDS") (codes "60")) ≡ o
    → settings_with environ o ≡ some s
    → Sound int_of_text environ s
settings-Sound int_of_text environ none s e h = absurd (ground (arith, h))
settings-Sound int_of_text environ (some n) s e h =
    let made : settings_of environ n ≡ s = ground (arith, h) in
    subst (Sound int_of_text environ) made (record {
      names_kept = clean_twice _;
      named = all-is_nonempty-clean _;
      bus = refl;
      timeout = e;
    })

-- Settings that were read from any environment allow no command with an empty name, name the
-- commands as `is_allowed` will look for them (cleaning the list again changes nothing), choose
-- the Redis bus exactly if a Redis URL is given, and have the timeout that the variable, or else
-- its default, stands for.
pub from_env-Sound :
    (int_of_text : Text → Option ℤ) (environ : Text → Option Text) (s : Settings)
    → from_env int_of_text environ ≡ some s
    → Sound int_of_text environ s
unfolding from_env
from_env-Sound int_of_text environ s h = settings-Sound int_of_text environ _ s refl h
