-- ===== src/Driver/Events.antt =====
-- crates/lockframe-server/src/driver.rs: the handlers of the events. `now` is the environment's clock,
-- which a handler may read more than once: one reading stands for them.
use kalandra.Prelude.{
  ℕ, leb, if◌then◌else◌, Bool, true, false, Option, none, some, List, [], ◌∷◌, ◌++◌, map, length,
  Result, ok, err, HashMap, HashSet, get, insert, remove, entry_count,
}
use kalandra.Proto.Opcode.{Opcode}
use kalandra.Proto.Header
use kalandra.Proto.Frame.{Frame}
use kalandra.Proto.Payload.{Payload, from_frame}
use kalandra.Connection
use kalandra.Connection.{Connection, ConnectionAction, ConnectionError}
use kalandra.Registry.{
  SessionInfo, ConnectionRegistry, register_session, unregister_session, subscribe, session_info,
}
use kalandra.Rooms.{RoomAction, RoomError}
use kalandra.Rooms.Manager.{RoomManager, process_frame}
use kalandra.Rooms.Sync.{handle_sync_request}
use kalandra.Driver.{
  Libraries, ServerDriver, ServerError, ServerEvent, ServerAction, session_not_found,
  connection_failed, room, protocol, protocol_error, expected_sync_request, connection_accepted,
  frame_received, connection_closed, server_tick, close_connection, max_connections_exceeded, log,
  debug, info, connection_accepted_as, subscribed_via_welcome, closed_in_rooms, set_connection,
  set_registry, set_rooms,
}
use kalandra.Driver.Actions.{
  from_connection, make_error_response, convert_room_action, convert_room_actions,
}

-- `registry.sessions_mut(session_id)` and the assignments through it.
abbrev update_info :
    (SessionInfo → SessionInfo) → ℕ → ConnectionRegistry → Option SessionInfo → ConnectionRegistry
update_info f session_id g none = g
update_info f session_id g (some known) = record g {
  sessions = insert g.sessions session_id (f known);
}

unfoldable pub set_user : ℕ → Connection → ConnectionRegistry → ConnectionRegistry
set_user session_id conn g =
    update_info (λ known. record known { authenticated = true; user_id = conn.session_id })
      session_id g (get g.sessions session_id)

-- The loop of `handle_tick`: one entry of the map at a time.
unfoldable pub tick_all : ℕ → HashMap Connection → List ServerAction × HashMap Connection
tick_all now [] = ([], [])
tick_all now ((session_id, conn) ∷ rest) =
    let (actions, conn') = Connection.tick now conn in
    let (later, rest') = tick_all now rest in
    (map (from_connection session_id) actions ++ later, (session_id, conn') ∷ rest')

module _ (L : Libraries) where
  abbrev pub Answer : Type 0
  Answer = Result ServerError (List ServerAction) × ServerDriver L

  unfoldable pub handle_connection_accepted : (session_id now : ℕ) → ServerDriver L → Answer
  handle_connection_accepted session_id now d =
      if leb d.config.max_connections (entry_count d.connections)
      then (ok (close_connection session_id max_connections_exceeded ∷ []), d)
      else (let conn =
            Connection.set_session_id session_id (Connection.new now d.config.connection) in
          (
            ok (log debug (connection_accepted_as session_id) now ∷ []),
            record d {
              connections = insert d.connections session_id conn;
              registry = (register_session d.registry session_id session_info).1;
            },
          ))

  abbrev pub after_session :
      (session_id : ℕ)
      → Bool
      → ServerDriver L
      → Result ConnectionError (List ConnectionAction) × Connection
      → Answer
  after_session session_id is_hello d (err e, conn) =
      (err (connection_failed session_id e), set_connection L session_id conn d)
  after_session session_id is_hello d (ok actions, conn) =
      let d' = set_connection L session_id conn d in
      (
        ok (map (from_connection session_id) actions),
        if is_hello then set_registry L (set_user session_id conn d.registry) d' else d',
      )

  -- The arm of the session-layer frames.
  unfoldable pub session_frame :
      Bool → (session_id now : ℕ) → Frame → Connection → ServerDriver L → Answer
  session_frame is_hello session_id now frame conn d =
      after_session session_id is_hello d (Connection.handle_frame L.cbor frame now conn)

  abbrev pub synced : (session_id room_id now : ℕ) → Result RoomError RoomAction → List ServerAction
  synced session_id room_id now (ok action) = convert_room_action L session_id now action
  synced session_id room_id now (err e) = make_error_response L session_id room_id now (room e)

  abbrev pub sync_payload :
      (session_id room_id now : ℕ) → ServerDriver L → Payload → Option (List ServerAction)
  sync_payload session_id room_id now d (Payload.sync_request asked) =
      elim (handle_sync_request L.storage L.groups L.dalek d.room_manager room_id session_id
        asked.from_log_index asked.limit now d.storage) [
          | none ↦ none
          | some result ↦ some (synced session_id room_id now result)
        ]
  sync_payload session_id room_id now d _ =
      some (make_error_response L session_id room_id now (protocol expected_sync_request))

  -- `handle_sync_request` of the driver; `none` is a panic.
  unfoldable pub sync_request :
      (session_id now : ℕ) → Frame → ServerDriver L → Option (List ServerAction)
  sync_request session_id now frame d =
      let room_id = Header.room_id frame.header in
      elim (from_frame L.cbor frame) [
        | err e ↦ some (make_error_response L session_id room_id now (protocol (protocol_error e)))
        | ok payload ↦ sync_payload session_id room_id now d payload
      ]

  abbrev pub after_rooms :
      (session_id now : ℕ)
      → List ServerAction
      → ServerDriver L
      → Result RoomError (List RoomAction) × RoomManager L.storage L.groups L.dalek
      → Answer
  after_rooms session_id now before d (err e, m) = (err (room e), set_rooms L m d)
  after_rooms session_id now before d (ok actions, m) =
      (ok (before ++ convert_room_actions L session_id now actions), set_rooms L m d)

  -- The arm of the room-level frames, after the actions of the arm of the Welcome.
  unfoldable pub room_frame :
      (session_id now : ℕ) → List ServerAction → Frame → ServerDriver L → Answer
  room_frame session_id now before frame d =
      after_rooms session_id now before d
        (process_frame L.storage L.groups L.dalek frame now d.storage d.room_manager)

  unfoldable pub welcome_frame : (session_id now : ℕ) → Frame → ServerDriver L → Answer
  unfolding room_frame
  welcome_frame session_id now frame d =
      let room_id = Header.room_id frame.header in
      room_frame session_id now (log debug (subscribed_via_welcome session_id room_id) now ∷ [])
        frame (set_registry L (subscribe d.registry session_id room_id).1 d)

  abbrev pub sync_answer : ServerDriver L → Option (List ServerAction) → Option Answer
  sync_answer d none = none
  sync_answer d (some actions) = some (ok actions, d)

  -- The match on the opcode, for a known session.
  abbrev pub on_opcode :
      Option Opcode → (session_id now : ℕ) → Frame → Connection → ServerDriver L → Option Answer
  on_opcode (some Opcode.hello) id now frame conn d = some (session_frame true id now frame conn d)
  on_opcode (some Opcode.ping) id now frame conn d = some (session_frame false id now frame conn d)
  on_opcode (some Opcode.pong) id now frame conn d = some (session_frame false id now frame conn d)
  on_opcode (some Opcode.goodbye) id now frame conn d =
      some (session_frame false id now frame conn d)
  on_opcode (some Opcode.sync_request) id now frame conn d =
      sync_answer d (sync_request id now frame d)
  on_opcode (some Opcode.welcome) id now frame conn d =
      some
        (welcome_frame id now frame (set_connection L id (Connection.update_activity now conn) d))
  on_opcode _ id now frame conn d =
      some
        (room_frame id now [] frame (set_connection L id (Connection.update_activity now conn) d))

  abbrev pub with_connection :
      (session_id now : ℕ) → Frame → ServerDriver L → Option Connection → Option Answer
  with_connection id now frame d none = some (err (session_not_found id), d)
  with_connection id now frame d (some conn) =
      on_opcode (Header.opcode_enum frame.header) id now frame conn d

  unfoldable pub handle_frame_received :
      (session_id now : ℕ) → Frame → ServerDriver L → Option Answer
  handle_frame_received id now frame d = with_connection id now frame d (get d.connections id)

  abbrev pub closed_entry :
      (session_id now : ℕ) → Option (SessionInfo × HashSet) → List ServerAction
  closed_entry session_id now none = []
  closed_entry session_id now (some (known, rooms)) =
      log info (closed_in_rooms session_id (length rooms)) now ∷ []

  -- The connection that is removed is dropped, so that its `close` has no effect.
  unfoldable pub handle_connection_closed : (session_id now : ℕ) → ServerDriver L → Answer
  handle_connection_closed session_id now d =
      let (gone, registry) = unregister_session d.registry session_id in
      (
        ok (closed_entry session_id now gone),
        record d { connections = remove d.connections session_id; registry = registry },
      )

  unfoldable pub handle_tick : ℕ → ServerDriver L → Answer
  unfolding tick_all
  handle_tick now d =
      let (actions, connections) = tick_all now d.connections in
      (ok actions, record d { connections = connections })

  -- `process_event`; `none` is a panic of `handle_sync_request`.
  unfoldable pub process_event : ℕ → ServerEvent → ServerDriver L → Option Answer
  process_event now (connection_accepted session_id) d =
      some (handle_connection_accepted session_id now d)
  process_event now (frame_received session_id frame) d =
      handle_frame_received session_id now frame d
  process_event now (connection_closed session_id) d =
      some (handle_connection_closed session_id now d)
  process_event now server_tick d = some (handle_tick now d)
