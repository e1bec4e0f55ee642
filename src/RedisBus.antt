-- ===== src/RedisBus.antt =====
-- app/redis_bus/events.py: the in-memory bus and the Redis publisher.
use nobleport.Prelude.{ℕ, ◌∷◌, [], ◌++◌, Option, none, some}
use nobleport.Python.Text.{Text}
use nobleport.Python.Json.{Fields, dumps_fields}
use nobleport.World.{
  Env, Event, BusKind, null_bus, redis_bus, Exec, failure, value_error, published, ok, raise, pure,
  gets, ◌>>=◌, ◌>>◌, external_call, emit, reading,
}

-- `self._events.append(…)`, `self._published.append(…)`
unfoldable pub note_event : Text → Event → Text → Exec Unit
note_event channel event now w = (
  ok tt,
  record w { events = w.events ++ record { channel = channel; event = event; ts = now } ∷ [] },
)

-- the trace marks an event when it is on its way: noted by the in-memory bus, taken by Redis
unfoldable pub append_event : Text → Event → Text → Exec Unit
unfolding note_event emit
append_event channel event now w =
    (ok tt, emit (published event.type) (note_event channel event now w).1)

-- Redis takes the message and answers with the number of its receivers
unfoldable pub take_message : Env → Event → Exec ℕ
unfolding emit
take_message env event w = reading env.receivers (emit (published event.type) w)

-- `NullEventBus.publish`: the one await is on the lock
unfoldable pub null_publish : Env → Text → Event → Exec ℕ
unfolding append_event
null_publish env channel event = do
  now ← reading env.utcnow
  external_call env (append_event channel event now)
  pure 1

-- The event is sent, and noted when Redis has answered. A call that raises after Redis took the
-- message leaves the mark, but no note. `none` is a payload that is no JSON
unfoldable pub redis_send : Env → Text → Event → Option Fields → Exec ℕ
unfolding take_message note_event
redis_send env channel event none = raise (failure value_error)
redis_send env channel event (some sent) = do
  n ← external_call env (take_message env event)
  now ← reading env.utcnow
  note_event channel event now
  pure n

-- `RedisEventBus.publish`
unfoldable pub redis_publish : Env → Text → Event → Exec ℕ
unfolding redis_send
redis_publish env channel event = redis_send env channel event (dumps_fields event.payload)

-- the method of the bus that `get_event_bus` has chosen
unfoldable pub publish_to : Env → BusKind → Text → Event → Exec ℕ
unfolding null_publish redis_publish
publish_to env null_bus channel event = null_publish env channel event
publish_to env redis_bus channel event = redis_publish env channel event

unfoldable pub publish : Env → Text → Event → Exec ℕ
unfolding publish_to
publish env channel event = do kind ← gets (λ w. w.bus_kind); publish_to env kind channel event
