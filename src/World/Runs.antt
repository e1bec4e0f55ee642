-- ===== src/World/Runs.antt =====
-- Total correctness of a coroutine at a world: it returns, and the result and the new world satisfy
-- a condition.
use nobleport.Prelude.{ℕ, ◌≡◌, refl}
use nobleport.World.{Env, fine, World, ok, Exec, pure, gets, ◌>>=◌, tick, external_call, reading}

pub record Runs {A : Type 0} (m : Exec A) (P : A → World → Type 0) (w : World) : Type 0 where
  pub value : A
  pub world : World
  pub runs : m w ≡ (ok value, world)
  pub post : P value world

module _ {A : Type 0} where
  pub Runs-pure : (P : A → World → Type 0) (a : A) (w : World) → P a w → Runs (pure a) P w
  unfolding ◌>>=◌
  Runs-pure P a w p = record { value = a; world = w; runs = refl; post = p }

  pub Runs-gets :
      (P : A → World → Type 0) (f : World → A) (w : World) → P (f w) w → Runs (gets f) P w
  unfolding ◌>>=◌
  Runs-gets P f w p = record { value = f w; world = w; runs = refl; post = p }

  pub Runs-reading :
      (P : A → World → Type 0) (f : ℕ → A) (w : World)
      → P (f w.calls) (tick w)
      → Runs (reading f) P w
  unfolding reading
  Runs-reading P f w p = record { value = f w.calls; world = tick w; runs = refl; post = p }

  pub Runs-external_call :
      (P : A → World → Type 0) (env : Env) (act : Exec A) (w : World)
      → env.fault w.calls ≡ fine
      → Runs act P (tick w)
      → Runs (external_call env act) P w
  unfolding external_call
  Runs-external_call P env act w f r = record {
    value = r.value;
    world = r.world;
    runs = rw (f, external_call) r.runs;
    post = r.post;
  }

module _ {A B : Type 0} where
  pub Runs-bind :
      (P : A → World → Type 0) (Q : B → World → Type 0) (m : Exec A) (f : A → Exec B) (w : World)
      → Runs m P w
      → ((a : A) (w' : World) → P a w' → Runs (f a) Q w')
      → Runs (m >>= f) Q w
  unfolding ◌>>=◌
  Runs-bind P Q m f w r k =
      let next = k r.value r.world r.post in
      record {
        value = next.value;
        world = next.world;
        runs = rw (r.runs, ◌>>=◌) next.runs;
        post = next.post;
      }

-- a weaker condition
pub Runs-mono :
    {A : Type 0} (P Q : A → World → Type 0) (m : Exec A) (w : World)
    → Runs m P w
    → ((a : A) (w' : World) → P a w' → Q a w')
    → Runs m Q w
Runs-mono P Q m w r k = record {
  value = r.value;
  world = r.world;
  runs = r.runs;
  post = k r.value r.world r.post;
}
