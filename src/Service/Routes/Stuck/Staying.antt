-- ===== src/Service/Routes/Stuck/Staying.antt =====
-- A process whose database is kept but not connected stays so, whatever it answers.
use nobleport.Prelude.{
  ◌≡◌, refl, sym, subst, ◌∙◌, ap, Bool, true, false, Option, none, some, List, [], ◌∷◌,
}
use nobleport.Python.Text.{Text, codes}
use nobleport.World.{failure, assertion_error, Result, ok, raised}
use nobleport.World.Binds.{eq_of_ok}
use nobleport.Config.{Settings}
use nobleport.Db.Connection.{is_connected}
use nobleport.Db.Connection.Calls.{fetch-unconnected}
use nobleport.Service.Monad.{Service, State, App, reads, return, proceed, ◌>>=◌}
use nobleport.Service.{
  Boot, get_settings, get_database, get_supervisor, supervisor_or_new, new_supervisor,
  put_supervisor, get_event_bus,
}
use nobleport.Service.Laws.{
  SameDatabase, Keeps, Keeps-return, Keeps-bind, Keeps-try_except, get_settings-Keeps, Keeps-reads,
  get_event_bus-Keeps, ping-Keeps, proceed-ok, get_database-made, proceed-ok,
}
use nobleport.Service.Routes.{
  ReadyResponse, probe_database, check_database, check_redis, redis_detail, ready_response, ready,
  health,
}

-- a database that is kept but not connected
pub record IsStuck (s : State) : Type 0 where
  pub made : s.database_made ≡ true
  pub unconnected : is_connected s.world.database ≡ false

abbrev pub db_error : Boot → Bool × List (Text × Text)
db_error boot = (false, (codes "db_error", boot.env.str (failure assertion_error)) ∷ [])

check_redis-Keeps : (boot : Boot) (b : Bool) → Keeps (check_redis boot b)
unfolding check_redis
check_redis-Keeps boot true =
    Keeps-try_except _ _
      (Keeps-bind _ _ (get_event_bus-Keeps boot) λ u.
        Keeps-bind _ _ (ping-Keeps boot)
          λ redis_ok. Keeps-return (some redis_ok, redis_detail redis_ok))
      (λ e. Keeps-return (some false, (codes "redis_error", boot.env.str e) ∷ []))
check_redis-Keeps boot false =
    Keeps-return
      (none, (codes "redis", codes "not configured (REDIS_URL unset) — skipping check") ∷ [])

IsStuck-Same : (s s' : State) → SameDatabase s s' → IsStuck s → IsStuck s'
IsStuck-Same s s' k h = record {
  made = k.made ∙ h.made;
  unconnected = ap is_connected k.database ∙ h.unconnected;
}

-- code that leaves a stuck process stuck, whether it returns or raises
record Stays {A : Type 0} (m : App A) : Type 0 where
  at : (s : State) → IsStuck s → IsStuck (m s).1

Stays-Keeps : {A : Type 0} (m : App A) → Keeps m → Stays m
Stays-Keeps m k = record { at = λ s. IsStuck-Same s (m s).1 (k.at s) }

Stays-bind :
    {A B : Type 0} (m : App A) (f : A → App B) → Stays m → ((a : A) → Stays (f a)) → Stays (m >>= f)
unfolding ◌>>=◌
Stays-bind {A = A} m f km kf = record { at = λ s h. go (m s).0 (m s).1 (km.at s h) }
  where
    go : (r : Result A) (t : State) → IsStuck t → IsStuck (proceed r f t).1
    go (ok a) t h = (kf a).at t h
    go (raised e) t h = h

module _ (boot : Boot) where
  -- it is never connected again
  pub get_database-stuck : (s : State) → IsStuck s → get_database boot s ≡ (ok tt, s)
  get_database-stuck s h = get_database-made boot s h.made

  probe_database-stuck :
      (s : State) → IsStuck s → probe_database boot s ≡ (raised (failure assertion_error), s)
  unfolding probe_database ◌>>=◌
  probe_database-stuck s h =
      rw (get_database-stuck s h, fetch-unconnected boot.env (λ t. tt) s.world h.unconnected) refl

  check_database-stuck : (s : State) → IsStuck s → check_database boot s ≡ (ok (db_error boot), s)
  unfolding check_database
  check_database-stuck s h = rw (probe_database-stuck s h) refl

  abbrev answer_with : Bool × List (Text × Text) → Settings → App ReadyResponse
  answer_with database settings =
      check_redis boot settings.enable_redis >>= λ redis. return (ready_response database redis)

  -- what is answered when the check of the database failed
  answer_with-failed :
      (settings : Settings) (s : State) (r : ReadyResponse)
      → (answer_with (db_error boot) settings s).0 ≡ ok r
      → (r.ready ≡ false) × (r.db ≡ false)
  answer_with-failed settings s r h =
      let (redis, checked, run) = proceed-ok _ _ s r h in
      let same = eq_of_ok _ r (rw run at h) in
      (sym (ap (λ x. x.ready) same), sym (ap (λ x. x.db) same))

  answer_with-Keeps :
      (database : Bool × List (Text × Text)) (settings : Settings)
      → Keeps (answer_with database settings)
  answer_with-Keeps database settings =
      Keeps-bind _ _ (check_redis-Keeps boot settings.enable_redis)
        λ redis. Keeps-return (ready_response database redis)

  -- what follows the settings
  abbrev check_with : Settings → App ReadyResponse
  check_with settings = check_database boot >>= λ database. answer_with database settings

  check_with-stuck :
      (settings : Settings) (s : State)
      → IsStuck s
      → check_with settings s ≡ answer_with (db_error boot) settings s
  unfolding ◌>>=◌
  check_with-stuck settings s h = rw (check_database-stuck s h) refl

  settings_read : (s : State) → IsStuck s → IsStuck (get_settings boot s).1
  settings_read s h = IsStuck-Same s _ ((get_settings-Keeps boot).at s) h

  -- a stuck process is not ready
  pub ready-stuck :
      (s : State) (r : ReadyResponse)
      → IsStuck s
      → (ready boot s).0 ≡ ok r
      → (r.ready ≡ false) × (r.db ≡ false)
  unfolding ready
  ready-stuck s r h e =
      let (settings, known, run) = proceed-ok (get_settings boot) check_with s r e in
      let s1 = (get_settings boot s).1 in
      let same = run ∙ check_with-stuck settings s1 (settings_read s h) in
      answer_with-failed settings s1 r (rw same at e)

  -- making the supervisor leaves the database as it is
  supervisor_or_new-Stays : (o : Option Service) → Stays (supervisor_or_new boot o)
  supervisor_or_new-Stays (some service) = Stays-Keeps _ (Keeps-return service)
  supervisor_or_new-Stays none =
      Stays-bind (get_database boot) _ (record { at = λ s h. rw (get_database-stuck s h) h })
        (λ u. Stays-bind (get_event_bus boot) _ (Stays-Keeps _ (get_event_bus-Keeps boot)) (λ v.
          Stays-bind (get_settings boot) _ (Stays-Keeps _ (get_settings-Keeps boot)) (λ settings.
            Stays-bind (put_supervisor (some (new_supervisor boot settings))) _
              (record { at = λ s h. record { made = h.made; unconnected = h.unconnected } })
              (λ x. Stays-Keeps _ (Keeps-return (new_supervisor boot settings))))))

  health-Stays : Stays (health boot)
  unfolding health get_supervisor
  health-Stays =
      Stays-bind (get_supervisor boot) _
        (Stays-bind (reads (λ s. s.supervisor)) _ (Stays-Keeps _ (Keeps-reads (λ s. s.supervisor)))
          supervisor_or_new-Stays)
        (λ sup. Stays-Keeps _ (Keeps-return _))

  -- a request leaves it stuck
  ready-IsStuck : (s : State) → IsStuck s → IsStuck (ready boot s).1
  unfolding ready ◌>>=◌
  ready-IsStuck s h = read (get_settings boot s).0
    where
      read : (x : Result Settings) → IsStuck (proceed x check_with (get_settings boot s).1).1
      read (ok settings) =
          let s1 = (get_settings boot s).1 in
          let stuck = settings_read s h in
          subst (λ (x : Result ReadyResponse × State). IsStuck x.1)
            (sym (check_with-stuck settings s1 stuck))
            (IsStuck-Same s1 _ ((answer_with-Keeps (db_error boot) settings).at s1) stuck)
      read (raised x) = settings_read s h

-- the requests that may be served in between
pub data Probe : Type 0 where
  ready_probe : Probe
  health_probe : Probe

abbrev probed : Probe → Boot → State → State
probed ready_probe boot s = (ready boot s).1
probed health_probe boot s = (health boot s).1

-- the state after some requests to /ready and /health, each in surroundings of its own
abbrev pub after_probes : List (Probe × Boot) → State → State
after_probes [] s = s
after_probes ((p, boot) ∷ probes) s = after_probes probes (probed p boot s)

probed-IsStuck : (p : Probe) (boot : Boot) (s : State) → IsStuck s → IsStuck (probed p boot s)
probed-IsStuck ready_probe boot s h = ready-IsStuck boot s h
probed-IsStuck health_probe boot s h = (health-Stays boot).at s h

pub after_probes-IsStuck :
    (probes : List (Probe × Boot)) (s : State) → IsStuck s → IsStuck (after_probes probes s)
after_probes-IsStuck [] s h = h
after_probes-IsStuck ((p, boot) ∷ probes) s h =
    after_probes-IsStuck probes (probed p boot s) (probed-IsStuck p boot s h)
