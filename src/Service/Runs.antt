-- ===== src/Service/Runs.antt =====
-- Total correctness of code on the process at a state: it returns, and the result and the new state
-- satisfy a condition.
use nobleport.Prelude.{◌≡◌, refl, ◌∙◌}
use nobleport.World.{Exn, World, ok, Exec}
use nobleport.World.Runs.{Runs}
use nobleport.Service.Monad.{State, App, return, reads, lift, try_except, ◌>>=◌}

pub record Returns {A : Type 0} (m : App A) (P : A → State → Type 0) (s : State) : Type 0 where
  pub value : A
  pub state : State
  pub runs : m s ≡ (ok value, state)
  pub post : P value state

pub Returns-return :
    {A : Type 0} (P : A → State → Type 0) (a : A) (s : State) → P a s → Returns (return a) P s
Returns-return P a s p = record { value = a; state = s; runs = refl; post = p }

-- a coroutine of the world that returns
pub Returns-lift :
    {A : Type 0} (Q : A → World → Type 0) (P : A → State → Type 0) (m : Exec A) (s : State)
    → Runs m Q s.world
    → ((a : A) (w : World) → Q a w → P a (record s { world = w }))
    → Returns (lift m) P s
Returns-lift Q P m s r k = record {
  value = r.value;
  state = record s { world = r.world };
  runs = rw r.runs refl;
  post = k r.value r.world r.post;
}

pub Returns-bind :
    {A B : Type 0} (P : A → State → Type 0) (Q : B → State → Type 0) (m : App A) (f : A → App B)
    (s : State)
    → Returns m P s
    → ((a : A) (s' : State) → P a s' → Returns (f a) Q s')
    → Returns (m >>= f) Q s
unfolding ◌>>=◌
Returns-bind P Q m f s r k =
    let next = k r.value r.state r.post in
    record {
      value = next.value;
      state = next.state;
      runs = rw (r.runs, ◌>>=◌) next.runs;
      post = next.post;
    }

-- code that returns needs no handler
pub Returns-try_except :
    {A : Type 0} (P : A → State → Type 0) (m : App A) (handler : Exn → App A) (s : State)
    → Returns m P s
    → Returns (try_except m handler) P s
Returns-try_except P m handler s r = record {
  value = r.value;
  state = r.state;
  runs = rw r.runs refl;
  post = r.post;
}

-- code that goes on with a part of the state
pub Returns-reads :
    {A B : Type 0} (P : B → State → Type 0) (f : State → A) (g : A → App B) (s : State)
    → Returns (g (f s)) P s
    → Returns (reads f >>= g) P s
unfolding ◌>>=◌
Returns-reads P f g s r = record { value = r.value; state = r.state; runs = r.runs; post = r.post }

-- code that computes as other code does
pub Returns-same :
    {A : Type 0} (P : A → State → Type 0) (m n : App A) (s : State)
    → m s ≡ n s
    → Returns n P s
    → Returns m P s
Returns-same P m n s e r = record {
  value = r.value;
  state = r.state;
  runs = e ∙ r.runs;
  post = r.post;
}
