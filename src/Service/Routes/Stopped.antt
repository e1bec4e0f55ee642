-- ===== src/Service/Routes/Stopped.antt =====
-- What the end of the lifespan leaves.
use nobleport.Prelude.{◌≡◌, refl, ap, ◌∙◌, Bool, true, false, none, arith}
use nobleport.World.{BusKind, null_bus, redis_bus, Result, ok}
use nobleport.Db.Connection.{is_connected}
use nobleport.Db.Lifecycle.{close}
use nobleport.Db.Lifecycle.Laws.{close-not_connected}
use nobleport.Service.Monad.{State, lift, ◌>>=◌}
use nobleport.Service.Laws.{
  Keeps, Keeps-return, Keeps-bind, Keeps-reads, Keeps-driver_call, proceed-ok,
}
use nobleport.Service.{
  Boot, close_database_if, reset_database, close_client_if, redis_close, close_bus_of, close_bus,
  close_bus_if, reset_event_bus, reset_supervisor, forget_bus, forget_database,
}
use nobleport.Service.Routes.{shutdown}

module _ (boot : Boot) where
  close_client_if-Keeps : (b : Bool) → Keeps (close_client_if boot b)
  close_client_if-Keeps true =
      Keeps-bind _ _ (Keeps-driver_call boot.env)
        λ u. record { at = λ s. record { made = refl; database = refl; supervisor = refl } }
  close_client_if-Keeps false = Keeps-return tt

  close_bus_of-Keeps : (bus : BusKind) → Keeps (close_bus_of boot bus)
  unfolding redis_close
  close_bus_of-Keeps null_bus = Keeps-return tt
  close_bus_of-Keeps redis_bus = Keeps-bind _ _ (Keeps-reads _) close_client_if-Keeps

  close_bus_if-Keeps : (b : Bool) → Keeps (close_bus_if boot b)
  unfolding close_bus
  close_bus_if-Keeps true =
      Keeps-bind _ _ (Keeps-bind _ _ (Keeps-reads _) close_bus_of-Keeps)
        λ u. record { at = λ s. record { made = refl; database = refl; supervisor = refl } }
  close_bus_if-Keeps false = Keeps-return tt

  reset_event_bus-Keeps : Keeps (reset_event_bus boot)
  unfolding reset_event_bus
  reset_event_bus-Keeps = Keeps-bind _ _ (Keeps-reads _) close_bus_if-Keeps

  -- what a shutdown from `s` leaves
  pub record IsDown (s t : State) : Type 0 where
    pub no_database : t.database_made ≡ false
    pub no_supervisor : t.supervisor ≡ none
    pub no_bus : t.bus_made ≡ false
    pub closed : s.database_made ≡ true → is_connected t.world.database ≡ false

  bus_if-closed :
      (b : Bool) (t : State)
      → t.bus_made ≡ b
      → (close_bus_if boot b t).0 ≡ ok tt
      → (close_bus_if boot b t).1.bus_made ≡ false
  bus_if-closed true t e h =
      let (u, closed, run) = proceed-ok (close_bus boot) (λ u. forget_bus) t tt h in
      ap (λ (x : Result Unit × State). x.1.bus_made) run
  bus_if-closed false t e h = e

  bus_closed :
      (t : State) → (reset_event_bus boot t).0 ≡ ok tt → (reset_event_bus boot t).1.bus_made ≡ false
  unfolding reset_event_bus ◌>>=◌
  bus_closed t h = bus_if-closed t.bus_made t refl h

  -- what `reset_database` leaves of `t`
  record Dropped (b : Bool) (t t' : State) : Type 0 where
    made : t'.database_made ≡ false
    supervisor : t'.supervisor ≡ t.supervisor
    bus : t'.bus_made ≡ t.bus_made
    closed : b ≡ true → is_connected t'.world.database ≡ false

  database_if-Dropped :
      (b : Bool) (t : State)
      → t.database_made ≡ b
      → (close_database_if boot b t).0 ≡ ok tt
      → Dropped b t (close_database_if boot b t).1
  database_if-Dropped true t e h =
      let (u, returned, run) = proceed-ok (lift (close boot.env)) (λ u. forget_database) t tt h in
      rw run (record {
        made = refl;
        supervisor = refl;
        bus = refl;
        closed = λ x. close-not_connected boot.env t.world returned;
      })
  database_if-Dropped false t e h = record {
    made = e;
    supervisor = refl;
    bus = refl;
    closed = λ x. absurd (ground (arith, x));
  }

  reset_database-Dropped :
      (t : State)
      → (reset_database boot t).0 ≡ ok tt
      → Dropped t.database_made t (reset_database boot t).1
  unfolding reset_database ◌>>=◌
  reset_database-Dropped t h = database_if-Dropped t.database_made t refl h

  -- A shutdown that returned has dropped the supervisor, the bus and the database, and has closed the
  -- connection of a database that was made; the next use of each makes a new one.
  pub shutdown-IsDown : (s : State) → (shutdown boot s).0 ≡ ok tt → IsDown s (shutdown boot s).1
  unfolding shutdown ◌>>=◌
  shutdown-IsDown s h =
      let s1 = (reset_supervisor boot s).1 in
      let (u, bus, run) = proceed-ok (reset_event_bus boot) (λ u. reset_database boot) s1 tt h in
      let s2 = (reset_event_bus boot s1).1 in
      let kept = (reset_event_bus-Keeps).at s1 in
      let d = reset_database-Dropped s2 (rw run at h) in
      rw run (record {
        no_database = d.made;
        no_supervisor = d.supervisor ∙ kept.supervisor;
        no_bus = d.bus ∙ bus_closed s1 bus;
        closed = λ x. d.closed (kept.made ∙ x);
      })
