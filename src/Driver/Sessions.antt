-- ===== src/Driver/Sessions.antt =====
-- crates/lockframe-server/src/driver.rs: the connections and the registered sessions stay the same
-- ones, whatever happens.
mod Known
pub mod Reach
use kalandra.Prelude.{
  ℕ, suc, ◌≤◌, ◌<◌, ◌≡◌, refl, sym, ap, ◌∙◌, ◌==◌, ==_refl, ==_iff, leb, if◌then◌else◌, Bool, true,
  false, Bool-cases, Option-cases, inl, inr, Option, none, some, List, [], ◌∷◌, length, Result, ok,
  err, HashMap, get, insert, remove, contains_key, entry_count, get-insert, get-remove,
  contains_key-insert, contains_key-remove, contains_key-reinsert, entry_count-insert,
  entry_count-reinsert, entry_count-remove, arith, is_some_and,
}
use kalandra.Proto.Opcode
use kalandra.Proto.Opcode.{Opcode}
use kalandra.Proto.Frame.{Frame}
use kalandra.Connection
use kalandra.Connection.{Connection, ConnectionAction, ConnectionError}
use kalandra.Proto.Header
use kalandra.Rooms.{RoomAction, RoomError}
use kalandra.Rooms.Manager.{RoomManager}
use kalandra.Registry.{
  ConnectionRegistry, SessionInfo, has_session, register_session, unregister_session, is_subscribed,
  subscribe, session_info,
}
use kalandra.Registry.Consistency
use kalandra.Registry.Consistency.{
  IsConsistent, Command, register, unregister, join, leave, apply, apply-IsConsistent,
  new-IsConsistent,
}
use kalandra.Driver
use kalandra.Driver.{
  Libraries, ServerDriver, ServerConfig, ServerEvent, ServerAction, log, debug,
  subscribed_via_welcome, connection_accepted, frame_received, connection_closed, server_tick,
  set_connection, set_registry, set_rooms,
}
use kalandra.Driver.Events.{
  Answer, handle_connection_accepted, after_session, after_rooms, sync_answer, session_frame,
  set_user, room_frame, welcome_frame, on_opcode, handle_frame_received, handle_connection_closed,
  tick_all, handle_tick, process_event, sync_request,
}
use kalandra.Driver.Control.{create_room, subscribe_to_room, unsubscribe_from_room}
use kalandra.Driver.Sessions.Known.{
  contains_key-tick_all, entry_count-tick_all, register-has_session, unregister-has_session,
  set_user-has_session, set_user-IsConsistent, subscribe-has_session,
}

module _ (L : Libraries) where
  -- The connections are those of the registered sessions, the registry is consistent, and there
  -- are at most as many connections as the configuration allows.
  pub record IsLinked (d : ServerDriver L) : Type 0 where
    pub linked : (session : ℕ) → contains_key d.connections session ≡ has_session d.registry session
    pub consistent : IsConsistent d.registry
    pub few : entry_count d.connections ≤ d.config.max_connections

  handle_connection_accepted-IsLinked :
      (id now : ℕ) (d : ServerDriver L)
      → IsLinked d
      → IsLinked (handle_connection_accepted L id now d).1
  unfolding handle_connection_accepted
  handle_connection_accepted-IsLinked id now d v =
      elim (Bool-cases (leb d.config.max_connections (entry_count d.connections))) [
        | inl full ↦ rw full v
        | inr free ↦ rw free (record {
          linked = λ j. ground (
            arith,
            contains_key-insert d.connections id
                (Connection.set_session_id id (Connection.new now d.config.connection)) j,
            register-has_session d.registry id session_info j,
            v.linked j,
          );
          consistent = apply-IsConsistent d.registry (register id session_info) v.consistent;
          few = ground (
            arith,
            entry_count-insert d.connections id
                (Connection.set_session_id id (Connection.new now d.config.connection)),
          );
        })
      ]

  -- A connection that is there is written again.
  set_connection-IsLinked :
      (id : ℕ) (known conn : Connection) (d : ServerDriver L)
      → get d.connections id ≡ some known
      → IsLinked d
      → IsLinked (set_connection L id conn d)
  set_connection-IsLinked id known conn d found v = record {
    linked = λ j. contains_key-reinsert d.connections id conn known j found ∙ v.linked j;
    consistent = v.consistent;
    few = omega (arith, entry_count-reinsert d.connections id conn known found, v.few);
  }

  -- A registry with the same sessions takes the place of the driver's.
  pub set_registry-IsLinked :
      (g : ConnectionRegistry) (d : ServerDriver L)
      → IsConsistent g
      → ((j : ℕ) → has_session g j ≡ has_session d.registry j)
      → IsLinked d
      → IsLinked (set_registry L g d)
  set_registry-IsLinked g d consistent same v = record {
    linked = λ j. v.linked j ∙ sym (same j);
    consistent = consistent;
    few = v.few;
  }

  pub subscribe-IsLinked :
      (id room : ℕ) (d : ServerDriver L)
      → IsLinked d
      → IsLinked (set_registry L (subscribe d.registry id room).1 d)
  subscribe-IsLinked id room d v =
      set_registry-IsLinked _ d (apply-IsConsistent d.registry (join id room) v.consistent)
        (subscribe-has_session d.registry id room) v

  after_session-IsLinked :
      (is_hello : Bool) (id : ℕ) (known : Connection) (d : ServerDriver L)
      (done : Result ConnectionError (List ConnectionAction) × Connection)
      → get d.connections id ≡ some known
      → IsLinked d
      → IsLinked (after_session L id is_hello d done).1
  after_session-IsLinked is_hello id known d (err e, conn) found v =
      set_connection-IsLinked id known conn d found v
  after_session-IsLinked false id known d (ok actions, conn) found v =
      set_connection-IsLinked id known conn d found v
  after_session-IsLinked true id known d (ok actions, conn) found v =
      set_registry-IsLinked (set_user id conn d.registry) _
        (set_user-IsConsistent d.registry id conn v.consistent)
        (set_user-has_session d.registry id conn) (set_connection-IsLinked id known conn d found v)

  pub set_rooms-IsLinked :
      (m : RoomManager L.storage L.groups L.dalek) (d : ServerDriver L)
      → IsLinked d
      → IsLinked (set_rooms L m d)
  set_rooms-IsLinked m d v = record { linked = v.linked; consistent = v.consistent; few = v.few }

  after_rooms-IsLinked :
      (id now : ℕ) (before : List ServerAction) (d : ServerDriver L)
      (done : Result RoomError (List RoomAction) × RoomManager L.storage L.groups L.dalek)
      → IsLinked d
      → IsLinked (after_rooms L id now before d done).1
  after_rooms-IsLinked id now before d (err e, m) v = set_rooms-IsLinked m d v
  after_rooms-IsLinked id now before d (ok actions, m) v = set_rooms-IsLinked m d v

  room_frame-IsLinked :
      (id now : ℕ) (before : List ServerAction) (frame : Frame) (d : ServerDriver L)
      → IsLinked d
      → IsLinked (room_frame L id now before frame d).1
  unfolding room_frame
  room_frame-IsLinked id now before frame d v = after_rooms-IsLinked id now before d _ v

  welcome_frame-IsLinked :
      (id now : ℕ) (frame : Frame) (d : ServerDriver L)
      → IsLinked d
      → IsLinked (welcome_frame L id now frame d).1
  unfolding welcome_frame
  welcome_frame-IsLinked id now frame d v =
      room_frame-IsLinked id now
        (log debug (subscribed_via_welcome id (Header.room_id frame.header)) now ∷ []) frame _
        (subscribe-IsLinked id (Header.room_id frame.header) d v)

  -- A driver that comes back beside an answer, if one does.
  abbrev pub AllLinked : Option (Answer L) → Type 0
  AllLinked none = Unit
  AllLinked (some (answer, d)) = IsLinked d

  sync_answer-AllLinked :
      (d : ServerDriver L) (o : Option (List ServerAction))
      → IsLinked d
      → AllLinked (sync_answer L d o)
  sync_answer-AllLinked d none v = tt
  sync_answer-AllLinked d (some actions) v = v

  on_opcode-AllLinked :
      (code : Option Opcode) (id now : ℕ) (frame : Frame) (conn : Connection) (d : ServerDriver L)
      → get d.connections id ≡ some conn
      → IsLinked d
      → AllLinked (on_opcode L code id now frame conn d)
  unfolding session_frame
  on_opcode-AllLinked (some Opcode.hello) id now frame conn d found v =
      after_session-IsLinked true id conn d _ found v
  on_opcode-AllLinked (some Opcode.ping) id now frame conn d found v =
      after_session-IsLinked false id conn d _ found v
  on_opcode-AllLinked (some Opcode.pong) id now frame conn d found v =
      after_session-IsLinked false id conn d _ found v
  on_opcode-AllLinked (some Opcode.goodbye) id now frame conn d found v =
      after_session-IsLinked false id conn d _ found v
  on_opcode-AllLinked (some Opcode.sync_request) id now frame conn d found v =
      sync_answer-AllLinked d (sync_request L id now frame d) v
  on_opcode-AllLinked (some Opcode.welcome) id now frame conn d found v =
      welcome_frame-IsLinked id now frame _ (set_connection-IsLinked id conn _ d found v)
  on_opcode-AllLinked _ id now frame conn d found v =
      room_frame-IsLinked id now [] frame _ (set_connection-IsLinked id conn _ d found v)

  handle_frame_received-AllLinked :
      (id now : ℕ) (frame : Frame) (d : ServerDriver L)
      → IsLinked d
      → AllLinked (handle_frame_received L id now frame d)
  unfolding handle_frame_received
  handle_frame_received-AllLinked id now frame d v = elim (Option-cases (get d.connections id)) [
    | inl unknown ↦ rw unknown v
    | inr (conn, found) ↦
        rw found (on_opcode-AllLinked (Header.opcode_enum frame.header) id now frame conn d found v)
  ]

  handle_connection_closed-IsLinked :
      (id now : ℕ) (d : ServerDriver L)
      → IsLinked d
      → IsLinked (handle_connection_closed L id now d).1
  unfolding handle_connection_closed
  handle_connection_closed-IsLinked id now d v = record {
    linked = λ j. ground (
      arith,
      contains_key-remove d.connections id j,
      unregister-has_session d.registry id j,
      v.linked j,
    );
    consistent = apply-IsConsistent d.registry (unregister id) v.consistent;
    few = omega (arith, entry_count-remove d.connections id, v.few);
  }

  handle_tick-IsLinked :
      (now : ℕ) (d : ServerDriver L) → IsLinked d → IsLinked (handle_tick L now d).1
  unfolding handle_tick
  handle_tick-IsLinked now d v = record {
    linked = λ j. contains_key-tick_all now d.connections j ∙ v.linked j;
    consistent = v.consistent;
    few = omega (arith, entry_count-tick_all now d.connections, v.few);
  }

  pub process_event-AllLinked :
      (now : ℕ) (event : ServerEvent) (d : ServerDriver L)
      → IsLinked d
      → AllLinked (process_event L now event d)
  unfolding process_event
  process_event-AllLinked now (connection_accepted id) d v =
      handle_connection_accepted-IsLinked id now d v
  process_event-AllLinked now (frame_received id frame) d v =
      handle_frame_received-AllLinked id now frame d v
  process_event-AllLinked now (connection_closed id) d v =
      handle_connection_closed-IsLinked id now d v
  process_event-AllLinked now server_tick d v = handle_tick-IsLinked now d v
