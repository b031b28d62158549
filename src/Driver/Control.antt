-- ===== src/Driver/Control.antt =====
-- crates/lockframe-server/src/driver.rs: the operations on rooms and subscriptions, and the queries.
use kalandra.Prelude.{
  ℕ, Bool, Option, none, some, [], ◌∷◌, Result, ok, err, HashSet, get, entry_count,
}
use kalandra.Registry
use kalandra.Registry.{SessionInfo, subscribe, unsubscribe}
use kalandra.Rooms.{RoomError}
use kalandra.Rooms.Manager
use kalandra.Rooms.Manager.{RoomManager}
use kalandra.Driver.{
  Libraries, ServerDriver, session_not_found, room, log, info, room_created, set_registry,
  set_rooms,
}
use kalandra.Driver.Events.{Answer}

module _ (L : Libraries) where
  abbrev unwrap_or : Option ℕ → ℕ → ℕ
  unwrap_or none fallback = fallback
  unwrap_or (some n) fallback = n

  abbrev pub room_made :
      (room_id creator now : ℕ)
      → ServerDriver L
      → Result RoomError (Unit {0}) × RoomManager L.storage L.groups L.dalek
      → Answer L
  room_made room_id creator now d (err e, m) = (err (room e), set_rooms L m d)
  room_made room_id creator now d (ok _, m) = (
    ok (log info (room_created room_id creator) now ∷ []),
    set_registry L (subscribe d.registry creator room_id).1 (set_rooms L m d),
  )

  abbrev pub create_for : (room_id creator now : ℕ) → ServerDriver L → Option SessionInfo → Answer L
  create_for room_id creator now d none = (err (session_not_found creator), d)
  create_for room_id creator now d (some known) = room_made room_id creator now d (
      Manager.create_room L.storage L.groups L.dalek room_id (unwrap_or known.user_id creator) now
        d.room_manager)

  unfoldable pub create_room : (room_id creator_session_id now : ℕ) → ServerDriver L → Answer L
  create_room room_id creator now d =
      create_for room_id creator now d (get d.registry.sessions creator)

  unfoldable pub subscribe_to_room :
      (session_id room_id : ℕ) → ServerDriver L → Bool × ServerDriver L
  subscribe_to_room session_id room_id d =
      let (done, registry) = subscribe d.registry session_id room_id in
      (done, set_registry L registry d)

  unfoldable pub unsubscribe_from_room :
      (session_id room_id : ℕ) → ServerDriver L → Bool × ServerDriver L
  unsubscribe_from_room session_id room_id d =
      let (done, registry) = unsubscribe d.registry session_id room_id in
      (done, set_registry L registry d)

  unfoldable pub sessions_in_room : ServerDriver L → ℕ → HashSet
  sessions_in_room d room_id = Registry.sessions_in_room d.registry room_id

  unfoldable pub connection_count : ServerDriver L → ℕ
  connection_count d = entry_count d.connections

  unfoldable pub has_room : ServerDriver L → ℕ → Bool
  has_room d room_id = Manager.has_room L.storage L.groups L.dalek d.room_manager room_id

  unfoldable pub room_epoch : ServerDriver L → ℕ → Option ℕ
  room_epoch d room_id = Manager.epoch L.storage L.groups L.dalek d.room_manager room_id
