-- ===== src/Service/Laws.antt =====
-- What the code on the process keeps, and how a sequence of it goes on.
use nobleport.Prelude.{◌≡◌, refl, ◌∙◌, Bool, true, false, Option, none, some, arith, inl, inr}
use nobleport.World.{
  Env, Exn, audit_error, failure, cancelled, Result, ok, raised, Exec, external_call, reading,
  null_bus, redis_bus, BusKind,
}
use nobleport.World.Binds.{Result-cases}
use nobleport.World.Respects.{
  Change, Respects, Respects-reading, Respects-external_call, respects_rules,
}
use nobleport.Config.{Settings, from_env}
use nobleport.Db.Lifecycle.{driver_call}
use nobleport.Service.Monad.{
  State, App, return, throw, reads, lift, on_exception, try_except, proceed, ◌>>=◌,
}
use nobleport.Service.{
  Boot, settings_or_read, read_settings, get_settings, new_event_bus, bus_if, client_if,
  database_if, open_database, get_database, get_event_bus, redis_connect, redis_ping, ping_of, ping,
  put_settings,
}

-- whether the database is made, the database, and the supervisor are as they were
pub record SameDatabase (s s' : State) : Type 0 where
  pub made : s'.database_made ≡ s.database_made
  pub database : s'.world.database ≡ s.world.database
  pub supervisor : s'.supervisor ≡ s.supervisor

SameDatabase-refl : (s : State) → SameDatabase s s
SameDatabase-refl s = record { made = refl; database = refl; supervisor = refl }

SameDatabase-trans : (s t u : State) → SameDatabase s t → SameDatabase t u → SameDatabase s u
SameDatabase-trans s t u a b = record {
  made = b.made ∙ a.made;
  database = b.database ∙ a.database;
  supervisor = b.supervisor ∙ a.supervisor;
}

-- code that keeps them, whether it returns or raises
pub record Keeps {A : Type 0} (m : App A) : Type 0 where
  pub at : (s : State) → SameDatabase s (m s).1

module _ {A : Type 0} where
  pub Keeps-return : (a : A) → Keeps (return a)
  Keeps-return a = record { at = λ s. SameDatabase-refl s }

  pub Keeps-throw : (e : Exn) → Keeps (throw {A = A} e)
  Keeps-throw e = record { at = λ s. SameDatabase-refl s }

  pub Keeps-reads : (f : State → A) → Keeps (reads f)
  Keeps-reads f = record { at = λ s. SameDatabase-refl s }

  handled :
      (handler : Exn → App A)
      → ((e : Exn) → Keeps (handler e))
      → (r : Result A) (s t : State) → SameDatabase s t
      → SameDatabase s (on_exception handler r t).1
  handled handler kh (ok a) s t h = h
  handled handler kh (raised cancelled) s t h = h
  handled handler kh (raised (failure k)) s t h = SameDatabase-trans s t _ h ((kh (failure k)).at t)
  handled handler kh (raised (audit_error m)) s t h =
      SameDatabase-trans s t _ h ((kh (audit_error m)).at t)

  pub Keeps-try_except :
      (m : App A) (handler : Exn → App A)
      → Keeps m
      → ((e : Exn) → Keeps (handler e))
      → Keeps (try_except m handler)
  Keeps-try_except m handler km kh = record {
    at = λ s. handled handler kh (m s).0 s (m s).1 (km.at s);
  }

module _ {A B : Type 0} where
  proceeded :
      (f : A → App B)
      → ((a : A) → Keeps (f a))
      → (r : Result A) (s t : State) → SameDatabase s t
      → SameDatabase s (proceed r f t).1
  proceeded f kf (ok a) s t h = SameDatabase-trans s t _ h ((kf a).at t)
  proceeded f kf (raised e) s t h = h

  pub Keeps-bind : (m : App A) (f : A → App B) → Keeps m → ((a : A) → Keeps (f a)) → Keeps (m >>= f)
  unfolding ◌>>=◌
  Keeps-bind m f km kf = record { at = λ s. proceeded f kf (m s).0 s (m s).1 (km.at s) }

abbrev same_database : Change
same_database = record {
  rel = λ w w'. w'.database ≡ w.database;
  rel_refl = λ w. refl;
  rel_trans = λ u v w a b. b ∙ a;
  rel_tick = λ w. refl;
}

Keeps-lift : {A : Type 0} (m : Exec A) → Respects same_database m → Keeps (lift m)
Keeps-lift m k = record {
  at = λ s. record { made = refl; database = k.at s.world; supervisor = refl };
}

pub Keeps-driver_call : (env : Env) → Keeps (lift (driver_call env))
Keeps-driver_call env = Keeps-lift (driver_call env) (search respects_rules)

module _ (boot : Boot) where
  read_settings-Keeps : (o : Option Settings) → Keeps (read_settings boot o)
  read_settings-Keeps none = Keeps-throw _
  read_settings-Keeps (some settings) =
      Keeps-bind (put_settings (some settings)) _
        (record { at = λ s. record { made = refl; database = refl; supervisor = refl } })
        λ u. Keeps-return settings

  settings_or_read-Keeps : (o : Option Settings) → Keeps (settings_or_read boot o)
  settings_or_read-Keeps none = read_settings-Keeps (from_env boot.int_of_text boot.environ)
  settings_or_read-Keeps (some settings) = Keeps-return settings

  pub get_settings-Keeps : Keeps (get_settings boot)
  unfolding get_settings
  get_settings-Keeps = Keeps-bind _ _ (Keeps-reads _) settings_or_read-Keeps

  new_event_bus-Keeps : Keeps (new_event_bus boot)
  unfolding new_event_bus
  new_event_bus-Keeps =
      Keeps-bind _ _ get_settings-Keeps
        λ settings. record { at = λ s. record { made = refl; database = refl; supervisor = refl } }

  bus_if-Keeps : (b : Bool) → Keeps (bus_if boot b)
  bus_if-Keeps true = Keeps-return tt
  bus_if-Keeps false = new_event_bus-Keeps

  pub get_event_bus-Keeps : Keeps (get_event_bus boot)
  unfolding get_event_bus
  get_event_bus-Keeps = Keeps-bind _ _ (Keeps-reads _) bus_if-Keeps

  client_if-Keeps : (b : Bool) → Keeps (client_if boot b)
  client_if-Keeps true = Keeps-return tt
  client_if-Keeps false =
      Keeps-bind _ _ (Keeps-driver_call boot.env)
        λ u. record { at = λ s. record { made = refl; database = refl; supervisor = refl } }

  redis_connect-Keeps : Keeps (redis_connect boot)
  unfolding redis_connect
  redis_connect-Keeps = Keeps-bind _ _ (Keeps-reads _) client_if-Keeps

  redis_ping-Keeps : Keeps (redis_ping boot)
  unfolding redis_ping
  redis_ping-Keeps =
      Keeps-try_except _ _
        (Keeps-bind _ _ redis_connect-Keeps λ u.
          Keeps-lift (external_call boot.env (reading boot.pong))
            (Respects-external_call same_database boot.env _ (Respects-reading same_database _)))
        (λ e. Keeps-return false)

  ping_of-Keeps : (kind : BusKind) → Keeps (ping_of boot kind)
  ping_of-Keeps null_bus = Keeps-return true
  ping_of-Keeps redis_bus = redis_ping-Keeps

  pub ping-Keeps : Keeps (ping boot)
  unfolding ping
  ping-Keeps = Keeps-bind _ _ (Keeps-reads _) ping_of-Keeps

-- a sequence that returned has a first part that returned
pub proceed-ok :
    {A B : Type 0} (m : App A) (f : A → App B) (s : State) (b : B)
    → ((m >>= f) s).0 ≡ ok b
    → (a : A) × ((m s).0 ≡ ok a) × ((m >>= f) s ≡ f a (m s).1)
unfolding ◌>>=◌
proceed-ok m f s b h = elim (Result-cases (m s).0) [
  | inl (a, e) ↦ (a, e, rw (e, ◌>>=◌))
  | inr (x, e) ↦ absurd (ground (arith, rw (e, ◌>>=◌) at h))
]

module _ (boot : Boot) where
  -- a database that is made is returned
  pub get_database-made : (s : State) → s.database_made ≡ true → get_database boot s ≡ (ok tt, s)
  unfolding get_database ◌>>=◌
  get_database-made s h = returned s.database_made h
    where
      returned : (b : Bool) → b ≡ true → database_if boot b s ≡ (ok tt, s)
      returned true e = refl
      returned false e = absurd (ground (arith, e))

  -- one that is not made is opened
  pub get_database-unmade :
      (s : State) → s.database_made ≡ false → get_database boot s ≡ open_database boot s
  unfolding get_database ◌>>=◌
  get_database-unmade s h = made s.database_made h
    where
      made : (b : Bool) → b ≡ false → database_if boot b s ≡ open_database boot s
      made true e = absurd (ground (arith, e))
      made false e = refl

  -- settings that are known are returned
  pub get_settings-known :
      (settings : Settings) (s : State)
      → s.settings ≡ some settings
      → get_settings boot s ≡ (ok settings, s)
  unfolding get_settings ◌>>=◌
  get_settings-known settings s h = rw h refl
