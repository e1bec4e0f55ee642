-- ===== src/World/Respects.antt =====
-- How a coroutine may change the world: a relation that is reflexive and transitive, with one rule
-- for each way to build a coroutine.
use nobleport.Prelude.{ℕ, Bool, true, false, if◌then◌else◌}
use nobleport.World.{
  Env, Fault, fine, before, after, interrupt, Exn, World, Result, ok, raised, Exec, pure, raise,
  gets, catch, recover, continue, ◌>>=◌, tick, external_call, reading,
}

pub record Change : Type 1 where
  pub rel : World → World → Type 0
  pub rel_refl : (w : World) → rel w w
  pub rel_trans : (u v w : World) → rel u v → rel v w → rel u w
  pub rel_tick : (w : World) → rel w (tick w)

-- `m` changes the world by `R` only, whether it returns or raises
pub record Respects (R : Change) {A : Type 0} (m : Exec A) : Type 0 where
  pub at : (w : World) → R.rel w (m w).1

module _ (R : Change) {A : Type 0} where
  pub Respects-pure : (a : A) → Respects R (pure a)
  unfolding pure
  Respects-pure a = record { at = λ w. R.rel_refl w }

  pub Respects-raise : (e : Exn) → Respects R (raise {A = A} e)
  unfolding raise
  Respects-raise e = record { at = λ w. R.rel_refl w }

  pub Respects-gets : (f : World → A) → Respects R (gets f)
  unfolding gets
  Respects-gets f = record { at = λ w. R.rel_refl w }

  pub Respects-reading : (f : ℕ → A) → Respects R (reading f)
  unfolding reading
  Respects-reading f = record { at = λ w. R.rel_tick w }

  pub Respects-if :
      (b : Bool) (m n : Exec A) → Respects R m → Respects R n → Respects R (if b then m else n)
  Respects-if true m n km kn = km
  Respects-if false m n km kn = kn

  recover_change :
      (handler : Exn → Exec A) (kh : (e : Exn) → Respects R (handler e)) (r : Result A)
      (u w : World)
      → R.rel u w
      → R.rel u (recover handler r w).1
  recover_change handler kh (ok a) u w h = h
  recover_change handler kh (raised e) u w h = R.rel_trans u w (handler e w).1 h ((kh e).at w)

  pub Respects-catch :
      (m : Exec A) (handler : Exn → Exec A)
      → Respects R m
      → ((e : Exn) → Respects R (handler e))
      → Respects R (catch m handler)
  unfolding catch
  Respects-catch m handler km kh = record {
    at = λ w. recover_change handler kh (m w).0 w (m w).1 (km.at w);
  }

  fault_change :
      (f : Fault) (act : Exec A) (w : World)
      → Respects R act
      → R.rel w (
          let out : Result A × World = elim f [
            | fine ↦ act (tick w)
            | before i ↦ (raised (interrupt i), tick w)
            | after i ↦ (raised (interrupt i), (act (tick w)).1)
          ] in
          out.1)
  fault_change fine act w k = R.rel_trans w (tick w) (act (tick w)).1 (R.rel_tick w) (k.at (tick w))
  fault_change (before i) act w k = R.rel_tick w
  fault_change (after i) act w k =
      R.rel_trans w (tick w) (act (tick w)).1 (R.rel_tick w) (k.at (tick w))

  pub Respects-external_call :
      (env : Env) (act : Exec A) → Respects R act → Respects R (external_call env act)
  unfolding external_call
  Respects-external_call env act k = record { at = λ w. fault_change (env.fault w.calls) act w k }

module _ (R : Change) {A B : Type 0} where
  continue_change :
      (f : A → Exec B) (kf : (a : A) → Respects R (f a)) (r : Result A) (u w : World)
      → R.rel u w
      → R.rel u (continue r f w).1
  continue_change f kf (ok a) u w h = R.rel_trans u w (f a w).1 h ((kf a).at w)
  continue_change f kf (raised e) u w h = h

  pub Respects-bind :
      (m : Exec A) (f : A → Exec B)
      → Respects R m
      → ((a : A) → Respects R (f a))
      → Respects R (m >>= f)
  unfolding ◌>>=◌
  Respects-bind m f km kf = record { at = λ w. continue_change f kf (m w).0 w (m w).1 (km.at w) }

pub ruleset respects_rules = (
  Respects-pure, Respects-raise, Respects-gets, Respects-reading, Respects-if, Respects-catch,
  Respects-external_call, Respects-bind,
)
