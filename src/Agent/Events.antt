-- ===== src/Agent/Events.antt =====
-- What a request puts on the event bus.
use nobleport.Prelude.{
  ◌≡◌, refl, sym, ◌∙◌, Bool, true, ◌&&◌, Option, none, some, List, [], ◌∷◌, ◌++◌, append-nil,
  append_assoc, all, all-append,
}
use nobleport.Python.Text.{Text, text_eq, text_eq_refl}
use nobleport.Python.Json.{Fields}
use nobleport.Schema.{ThreadRow}
use nobleport.World.{Env, Dialect, World, Event, Published, emit, tick}
use nobleport.World.Respects.{Change, Respects, respects_rules}
use nobleport.Db.Connection.Calls.{Respects-execute, Respects-fetch}
use nobleport.RedisBus.{note_event}
use nobleport.Agent.State.{write_thread, upsert, set_thread_status}
use nobleport.Agent.Runtime.{Supervisor, invoke}
use nobleport.Agent.Admission.{thread_of}
use nobleport.Agent.Stable.{IsStable, IsSaving}
use nobleport.Agent.Stable.Requests.{invoke-rel}

module _ (tid channel : Text) where
  -- an event of the thread `tid` on the channel
  abbrev pub is_own : Published → Bool
  is_own p = text_eq p.channel channel && text_eq p.event.thread_id tid

  -- the bus of `w` is that of `u` and then events of the thread
  pub record Announces (u w : World) : Type 0 where
    pub new : List Published
    pub events : w.events ≡ u.events ++ new
    pub own : all is_own new ≡ true

  pub quiet : (u w : World) → w.events ≡ u.events → Announces u w
  quiet u w e = record { new = []; events = e ∙ sym (append-nil u.events); own = refl }

  abbrev pub announces : Change
  announces = record {
    rel = Announces;
    rel_refl = λ w. quiet w w refl;
    rel_trans = λ u v w a b. record {
      new = a.new ++ b.new;
      events = rw (b.events, a.events, append_assoc) refl;
      own = all-append is_own a.new b.new a.own b.own;
    };
    rel_tick = λ w. quiet w (tick w) refl;
  }

  announces-IsSaving : IsSaving announces tid
  unfolding emit
  announces-IsSaving = record { checkpoint = λ cid parent state e w t h. quiet w _ refl }

  module _ (env : Env) where
    write_thread-Announces :
        (status : Text) (asked : Option Bool) (last_event : Option Text) (o : Option ThreadRow)
        (now : Text) (d : Dialect)
        → Respects announces (write_thread env tid status asked last_event o now d)
    unfolding write_thread emit
    write_thread-Announces status asked last_event none now d =
        Respects-execute announces _ _ (λ w t h. quiet w _ refl) env
    write_thread-Announces status asked last_event (some r) now d =
        Respects-execute announces _ _ (λ w t h. quiet w _ refl) env

    set_thread_status-Announces :
        (status : Text) (last_event : Option Text)
        → Respects announces (set_thread_status env tid status last_event)
    unfolding set_thread_status upsert
    set_thread_status-Announces status last_event =
        search (respects_rules, Respects-fetch, write_thread-Announces) depth 8

    note_event-Announces :
        (event : Event) (now : Text)
        → event.thread_id ≡ tid
        → Respects announces (note_event channel event now)
    unfolding note_event emit
    note_event-Announces event now mine = record {
      at = λ w. record {
        new = record { channel = channel; event = event; ts = now } ∷ [];
        events = refl;
        own = rw (mine, text_eq_refl channel, text_eq_refl tid) refl;
      };
    }

    announces-IsStable : IsStable announces tid channel env
    unfolding emit
    announces-IsStable = record {
      audit = λ r e w t h. quiet w _ refl;
      metric = λ r e w t h. quiet w _ refl;
      thread = set_thread_status-Announces;
      mark = λ e w. quiet w _ refl;
      event = note_event-Announces;
    }

-- If its step function does, a request only appends events to the bus, all of them events of its
-- own thread on the channel of the supervisor, however its calls end.
pub invoke-Announces :
    (env : Env) (sup : Supervisor) (given : Option Text) (input : Text) (metadata : Fields)
    (w : World)
    → ((state : Fields)
        → Respects (announces (thread_of env given w) sup.redis_channel) (sup.step_fn state))
    → Announces
        (thread_of env given w)
        sup.redis_channel
        w
        (invoke env sup given input metadata w).1
invoke-Announces env sup given input metadata w =
    let tid = thread_of env given w in
    invoke-rel (announces tid sup.redis_channel) env sup given input metadata w
      (announces-IsStable tid sup.redis_channel env) (announces-IsSaving tid sup.redis_channel)
