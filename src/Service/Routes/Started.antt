-- ===== src/Service/Routes/Started.antt =====
-- What a start leaves where no call fails: a process that is ready.
use nobleport.Prelude.{◌≡◌, refl, sym, subst, ap, Bool, true, false, Option, none, some, [], ◌∷◌}
use nobleport.Python.Text.{codes}
use nobleport.World.{Database, World, Result, ok, gets, external_call}
use nobleport.World.Runs.{Runs-gets}
use nobleport.Config.{Settings}
use nobleport.Db.Connection.{fetch}
use nobleport.Db.Connection.Calls.{fetch-connected}
use nobleport.Service.Monad.{State, Service, App, return, lift, ◌>>=◌}
use nobleport.Service.Runs.{
  Returns, Returns-return, Returns-bind, Returns-reads, Returns-same, Returns-try_except,
}
use nobleport.Service.Laws.{get_settings-known, get_database-made}
use nobleport.Service.{
  Boot, get_settings, get_database, new_supervisor, supervisor_or_new, put_supervisor,
  get_supervisor,
}
use nobleport.Service.Routes.{
  ReadyResponse, HealthResponse, probe_database, check_database, redis_detail, none_or_true,
  ready_response, check_redis, ready, health, startup,
}
use nobleport.Service.Routes.Opening.{
  IsFresh, IsUp, IsFaultless, get_database-Returns, get_event_bus-Returns, IsUp-call, ping-Returns,
}

-- an answer of /ready that says yes
abbrev pub SaysReady : ReadyResponse → Type 0
SaysReady r = (r.ready ≡ true) × (r.db ≡ true)

module _ {boot : Boot} {settings : Settings} {db : Database}
    (calm : IsFaultless boot settings db) where
  get_database-IsUp :
      (s : State) → IsUp settings s → Returns (get_database boot) (λ u s'. IsUp settings s') s
  get_database-IsUp s up = record {
    value = tt;
    state = s;
    runs = get_database-made boot s up.made;
    post = up;
  }

  get_settings-IsUp :
      (s : State)
      → IsUp settings s
      → Returns (get_settings boot) (λ x s'. (x ≡ settings) × IsUp settings s') s
  get_settings-IsUp s up = record {
    value = settings;
    state = s;
    runs = get_settings-known boot settings s up.known;
    post = (refl, up);
  }

  select-Returns :
      (s : State)
      → IsUp settings s
      → Returns (lift (fetch boot.env (λ t. tt))) (λ u s'. Unit × IsUp settings s') s
  select-Returns s up =
      Returns-same _ _ (lift (external_call boot.env (gets (λ w. tt)))) s
        (ap (λ (x : Result Unit × World). (x.0, record s { world = x.1 }))
          (fetch-connected boot.env (λ t. tt) s.world up.connected))
        (IsUp-call calm (λ u. Unit) (gets (λ w. tt)) s (λ w. Runs-gets _ _ w (tt, refl)) up)

  probe_database-Returns :
      (s : State)
      → IsUp settings s
      → Returns (probe_database boot) (λ x s'. (x ≡ (true, [])) × IsUp settings s') s
  unfolding probe_database
  probe_database-Returns s up =
      Returns-bind (λ u s'. IsUp settings s') _ _ _ s (get_database-IsUp s up)
        λ u s1 k1.
          Returns-bind (λ u s'. Unit × IsUp settings s') _ _ _ s1 (select-Returns s1 k1)
            λ u s2 k2. Returns-return _ (true, []) s2 (refl, k2.1)

  check_redis-Returns :
      (b : Bool) (s : State)
      → IsUp settings s
      → Returns (check_redis boot b) (λ x s'. (none_or_true x.0 ≡ true) × IsUp settings s') s
  unfolding check_redis
  check_redis-Returns false s up = Returns-return _ _ s (refl, up)
  check_redis-Returns true s up =
      Returns-try_except _ _ (λ e. return (some false, (codes "redis_error", boot.env.str e) ∷ []))
        s
        (Returns-bind (λ u s'. IsUp settings s') _ _ _ s (get_event_bus-Returns calm s up)
          λ u s1 k1.
            Returns-bind (λ b s'. (b ≡ true) × IsUp settings s') _ _ _ s1 (ping-Returns calm s1 k1)
              λ b s2 k2. Returns-return _ (some b, redis_detail b) s2 k2)

  check_database-Returns :
      (s : State)
      → IsUp settings s
      → Returns (check_database boot) (λ x s'. (x ≡ (true, [])) × IsUp settings s') s
  unfolding check_database
  check_database-Returns s up =
      Returns-try_except _ _ (λ e. return (false, (codes "db_error", boot.env.str e) ∷ [])) s
        (probe_database-Returns s up)

  ready-Returns :
      (s : State)
      → IsUp settings s
      → Returns (ready boot) (λ r s'. SaysReady r × IsUp settings s') s
  unfolding ready
  ready-Returns s up =
      Returns-bind (λ x s'. (x ≡ settings) × IsUp settings s') _ _ _ s (get_settings-IsUp s up)
        λ x s1 k1.
          Returns-bind (λ x s'. (x ≡ (true, [])) × IsUp settings s') _ _ _ s1
            (check_database-Returns s1 k1.1)
            λ d s2 k2.
              Returns-bind (λ x s'. (none_or_true x.0 ≡ true) × IsUp settings s') _ _ _ s2
                (check_redis-Returns x.enable_redis s2 k2.1)
                λ redis s3 k3.
                  Returns-return _ (ready_response d redis) s3 (rw k2.0 (k3.0, refl), k3.1)

  supervisor_or_new-Returns :
      (o : Option Service) (s : State)
      → IsUp settings s
      → Returns (supervisor_or_new boot o) (λ x s'. IsUp settings s') s
  unfolding ◌>>=◌
  supervisor_or_new-Returns (some service) s up = Returns-return _ service s up
  supervisor_or_new-Returns none s up =
      Returns-bind (λ u s'. IsUp settings s') _ _ _ s (get_database-IsUp s up)
        λ u s1 k1.
          Returns-bind (λ u s'. IsUp settings s') _ _ _ s1 (get_event_bus-Returns calm s1 k1)
            λ u s2 k2.
              Returns-bind (λ x s'. (x ≡ settings) × IsUp settings s') _ _ _ s2
                (get_settings-IsUp s2 k2)
                λ x s3 k3. record {
                  value = new_supervisor boot x;
                  state = (put_supervisor (some (new_supervisor boot x)) s3).1;
                  runs = refl;
                  post = record {
                    known = k3.1.known;
                    made = k3.1.made;
                    connected = k3.1.connected;
                  };
                }

  get_supervisor-Returns :
      (s : State) → IsUp settings s → Returns (get_supervisor boot) (λ x s'. IsUp settings s') s
  unfolding get_supervisor
  get_supervisor-Returns s up = Returns-reads _ _ _ s (supervisor_or_new-Returns s.supervisor s up)

  startup-Returns : (s : State) → IsFresh s → Returns (startup boot) (λ u s'. IsUp settings s') s
  unfolding startup
  startup-Returns s f =
      Returns-bind (λ u s'. IsUp settings s') _ _ _ s (get_database-Returns calm s f)
        λ u s1 k1.
          Returns-bind (λ u s'. IsUp settings s') _ _ _ s1 (get_event_bus-Returns calm s1 k1)
            λ u s2 k2.
              Returns-bind (λ x s'. IsUp settings s') _ _ _ s2 (get_supervisor-Returns s2 k2)
                λ x s3 k3. Returns-return _ tt s3 k3

  health-Returns :
      (s : State)
      → IsUp settings s
      → Returns (health boot) (λ r s'. (r.status ≡ codes "ok") × IsUp settings s') s
  unfolding health
  health-Returns s up =
      Returns-bind (λ x s'. IsUp settings s') _ _ _ s (get_supervisor-Returns s up)
        λ x s1 k1. Returns-return _ _ s1 (refl, k1)

  -- the states of the process once it has started, between requests to /ready and /health
  pub data Serves (s : State) : State → Type 0 where
    started : (s1 : State) → startup boot s ≡ (ok tt, s1) → Serves s s1
    after_ready : (t : State) → Serves s t → Serves s (ready boot t).1
    after_health : (t : State) → Serves s t → Serves s (health boot t).1

  state_after :
      {A : Type 0} (P : A → State → Type 0) (m : App A) (s : State)
      → ((a : A) (s' : State) → P a s' → IsUp settings s')
      → Returns m P s
      → IsUp settings (m s).1
  state_after {A = A} P m s k r =
      subst (λ (x : Result A × State). IsUp settings x.1) (sym r.runs) (k r.value r.state r.post)

  Serves-IsUp : (s t : State) → IsFresh s → Serves s t → IsUp settings t
  Serves-IsUp s _ f (started s1 run) =
      subst (λ (x : Result Unit × State). IsUp settings x.1) run
        (state_after _ (startup boot) s (λ u s' k. k) (startup-Returns s f))
  Serves-IsUp s _ f (after_ready t v) =
      state_after _ (ready boot) t (λ r s' k. k.1) (ready-Returns t (Serves-IsUp s t f v))
  Serves-IsUp s _ f (after_health t v) =
      state_after _ (health boot) t (λ r s' k. k.1) (health-Returns t (Serves-IsUp s t f v))

  -- Where no call fails, Redis answers to pings and the settings can be read, the application
  -- starts, and in every state that it reaches by requests to /ready and /health, /ready answers
  -- that it is ready, and /health that its status is ok.
  pub startup-Serves :
      (s : State)
      → IsFresh s
      → ((s1 : State) × (startup boot s ≡ (ok tt, s1)))
        × ((t : State)
            → Serves s t
            → ((r : ReadyResponse) × ((ready boot t).0 ≡ ok r) × SaysReady r)
              × ((h : HealthResponse) × ((health boot t).0 ≡ ok h) × (h.status ≡ codes "ok")))
  startup-Serves s f =
      let start = startup-Returns s f in
      (
        (start.state, start.runs),
        λ t v.
            let up = Serves-IsUp s t f v in
            let r = ready-Returns t up in
            let h = health-Returns t up in
            ((r.value, ap (λ x. x.0) r.runs, r.post.0), (h.value, ap (λ x. x.0) h.runs, h.post.0)),
      )
