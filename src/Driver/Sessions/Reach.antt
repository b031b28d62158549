-- ===== src/Driver/Sessions/Reach.antt =====
-- crates/lockframe-server/src/driver.rs: the states that a driver reaches, whatever events arrive.
use kalandra.Prelude.{
  ℕ, ◌≡◌, refl, subst, Option-cases, inl, inr, some, List, Result, ok, err, get, contains_key,
  entry_count, arith,
}
use kalandra.Registry.{ConnectionRegistry, has_session, unsubscribe}
use kalandra.Registry.Consistency.{leave, apply-IsConsistent, new-IsConsistent}
use kalandra.Rooms.{RoomError}
use kalandra.Rooms.Manager.{RoomManager}
use kalandra.Driver
use kalandra.Driver.{
  Libraries, ServerDriver, ServerConfig, ServerError, ServerEvent, ServerAction, set_registry,
  set_rooms,
}
use kalandra.Driver.Events.{process_event}
use kalandra.Driver.Control.{create_room, room_made, subscribe_to_room, unsubscribe_from_room}
use kalandra.Driver.Sessions.{
  IsLinked, AllLinked, process_event-AllLinked, subscribe-IsLinked, set_registry-IsLinked,
  set_rooms-IsLinked,
}

unsubscribe-has_session :
    (g : ConnectionRegistry) (id room j : ℕ)
    → has_session (unsubscribe g id room).1 j ≡ has_session g j
unfolding has_session unsubscribe
unsubscribe-has_session g id room j = refl

module _ (L : Libraries) where
  -- A call of the driver that returns, or a change of the storage, which the driver shares.
  pub data Step : ServerDriver L → ServerDriver L → Type 0 where
    processed :
        (now : ℕ) (event : ServerEvent) (d d' : ServerDriver L)
        (answer : Result ServerError (List ServerAction))
        → process_event L now event d ≡ some (answer, d')
        → Step d d'
    created :
        (room_id creator now : ℕ) (d : ServerDriver L)
        → Step d (create_room L room_id creator now d).1
    subscribed : (id room_id : ℕ) (d : ServerDriver L) → Step d (subscribe_to_room L id room_id d).1
    unsubscribed :
        (id room_id : ℕ) (d : ServerDriver L) → Step d (unsubscribe_from_room L id room_id d).1
    written : (store : L.storage.Store) (d : ServerDriver L) → Step d (record d { storage = store })

  pub data Reachable : ServerDriver L → Type 0 where
    start :
        (store : L.storage.Store) (config : ServerConfig) → Reachable (Driver.new L store config)
    step : (d d' : ServerDriver L) → Reachable d → Step d d' → Reachable d'

  new-IsLinked :
      (store : L.storage.Store) (config : ServerConfig) → IsLinked L (Driver.new L store config)
  unfolding contains_key get has_session entry_count
  new-IsLinked store config = record {
    linked = λ j. refl;
    consistent = new-IsConsistent;
    few = omega arith;
  }

  room_made-IsLinked :
      (room_id creator now : ℕ) (d : ServerDriver L)
      (done : Result RoomError (Unit {0}) × RoomManager L.storage L.groups L.dalek)
      → IsLinked L d
      → IsLinked L (room_made L room_id creator now d done).1
  room_made-IsLinked room_id creator now d (err e, m) v = set_rooms-IsLinked L m d v
  room_made-IsLinked room_id creator now d (ok _, m) v =
      subscribe-IsLinked L creator room_id (set_rooms L m d) (set_rooms-IsLinked L m d v)

  create_room-IsLinked :
      (room_id creator now : ℕ) (d : ServerDriver L)
      → IsLinked L d
      → IsLinked L (create_room L room_id creator now d).1
  unfolding create_room
  create_room-IsLinked room_id creator now d v =
      elim (Option-cases (get d.registry.sessions creator)) [
        | inl unknown ↦ rw unknown v
        | inr (known, found) ↦ rw found (room_made-IsLinked room_id creator now d _ v)
      ]

  Step-IsLinked : {d d' : ServerDriver L} → Step d d' → IsLinked L d → IsLinked L d'
  unfolding subscribe_to_room unsubscribe_from_room
  Step-IsLinked (processed now event d d' answer returned) v =
      subst (AllLinked L) returned (process_event-AllLinked L now event d v)
  Step-IsLinked (created room_id creator now d) v = create_room-IsLinked room_id creator now d v
  Step-IsLinked (subscribed id room_id d) v = subscribe-IsLinked L id room_id d v
  Step-IsLinked (unsubscribed id room_id d) v =
      set_registry-IsLinked L _ d (apply-IsConsistent d.registry (leave id room_id) v.consistent)
        (unsubscribe-has_session d.registry id room_id) v
  Step-IsLinked (written store d) v = record {
    linked = v.linked;
    consistent = v.consistent;
    few = v.few;
  }

  -- In every state that a driver reaches, by events, by its operations on rooms and subscriptions,
  -- and by changes of its storage, the connections are those of the registered sessions, the two
  -- maps of subscriptions agree, and there are at most as many connections as are configured.
  pub Reachable-IsLinked : {d : ServerDriver L} → Reachable d → IsLinked L d
  Reachable-IsLinked (start store config) = new-IsLinked store config
  Reachable-IsLinked (step before d reached moved) =
      Step-IsLinked moved (Reachable-IsLinked reached)
