-- ===== src/Driver/Welcome.antt =====
-- crates/lockframe-server/src/driver.rs: a Welcome frame subscribes its sender.
use kalandra.Prelude.{
  ℕ, ◌≡◌, refl, sym, ap, ◌∙◌, ==_refl, true, some, List, [], ◌∷◌, Result, ok, err, get,
  contains_key,
}
use kalandra.Proto.Opcode.{Opcode}
use kalandra.Proto.Header
use kalandra.Proto.Frame.{Frame}
use kalandra.Connection
use kalandra.Connection.{Connection}
use kalandra.Registry.{ConnectionRegistry, has_session, is_subscribed, subscribe}
use kalandra.Registry.Consistency.{IsConsistent, join}
use kalandra.Registry.Effects.{apply-is_subscribed}
use kalandra.Rooms.{RoomAction, RoomError}
use kalandra.Rooms.Manager.{RoomManager, process_frame}
use kalandra.Driver.{
  Libraries, ServerDriver, ServerAction, ServerError, frame_received, log, debug,
  subscribed_via_welcome, set_connection, set_registry,
}
use kalandra.Driver.Events.{
  Answer, after_rooms, room_frame, welcome_frame, handle_frame_received, process_event,
}
use kalandra.Driver.Sessions.{IsLinked}

module _ (L : Libraries) where
  after_rooms-registry :
      (id now : ℕ) (before : List ServerAction) (d : ServerDriver L)
      (done : Result RoomError (List RoomAction) × RoomManager L.storage L.groups L.dalek)
      → (after_rooms L id now before d done).1.registry ≡ d.registry
  after_rooms-registry id now before d (err e, m) = refl
  after_rooms-registry id now before d (ok actions, m) = refl

  room_frame-registry :
      (id now : ℕ) (before : List ServerAction) (frame : Frame) (d : ServerDriver L)
      → (room_frame L id now before frame d).1.registry ≡ d.registry
  unfolding room_frame
  room_frame-registry id now before frame d =
      after_rooms-registry id now before d
        (process_frame L.storage L.groups L.dalek frame now d.storage d.room_manager)

  welcome_frame-registry :
      (id now : ℕ) (frame : Frame) (d : ServerDriver L)
      → (welcome_frame L id now frame d).1.registry
        ≡ (subscribe d.registry id (Header.room_id frame.header)).1
  unfolding welcome_frame
  welcome_frame-registry id now frame d =
      let room : ℕ = Header.room_id frame.header in
      room_frame-registry id now (log debug (subscribed_via_welcome id room) now ∷ []) frame
        (set_registry L (subscribe d.registry id room).1 d)

  subscribed_now :
      (g : ConnectionRegistry) (id room : ℕ)
      → IsConsistent g
      → has_session g id ≡ true
      → is_subscribed (subscribe g id room).1 id room ≡ true
  subscribed_now g id room v known =
      apply-is_subscribed g (join id room) id room v ∙ rw (known, ==_refl id, ==_refl room) refl

  -- A Welcome from a connection subscribes its session to the frame's room, whatever the frame is
  -- otherwise, and whether the room manager accepts it or not.
  pub welcome-is_subscribed :
      (id now : ℕ) (frame : Frame) (d d' : ServerDriver L) (conn : Connection)
      (answer : Result ServerError (List ServerAction))
      → IsLinked L d
      → get d.connections id ≡ some conn
      → Header.opcode_enum frame.header ≡ some Opcode.welcome
      → process_event L now (frame_received id frame) d ≡ some (answer, d')
      → is_subscribed d'.registry id (Header.room_id frame.header) ≡ true
  unfolding process_event handle_frame_received contains_key
  welcome-is_subscribed id now frame d d' conn answer v found code e =
      let went = rw (found, code) at e in
      let moved = set_connection L id (Connection.update_activity now conn) d in
      let room : ℕ = Header.room_id frame.header in
      let same : welcome_frame L id now frame moved ≡ (answer, d') = cc in
      let registry : d'.registry ≡ (subscribe d.registry id room).1 =
        ap (λ (a : Answer L). a.1.registry) (sym same)
        ∙ welcome_frame-registry id now frame moved in
      let there : has_session d.registry id ≡ true = sym (v.linked id) ∙ rw found refl in
      rw registry (subscribed_now d.registry id room v.consistent there)
