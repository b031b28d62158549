-- ===== src/Driver/Serving/Refinement.antt =====
-- crates/lockframe-server/src/driver.rs and lib.rs: for its rooms, the driver is a server that is
-- handed the room-level frames only.
use kalandra.Prelude.{
  ℕ, ◌≡◌, refl, sym, ap, ◌∙◌, Option, none, some, List, [], ◌∷◌, ◌++◌, Result, ok, err,
  Result-cases, Bool-cases, inl, inr, Bool, true, false, get, contains_key, if◌then◌else◌,
  is_some_and, ◌&&◌, HashMap, HashSet, map, entry_count, leb,
}
use kalandra.Proto.Frame.{Frame}
use kalandra.Proto.Opcode.{Opcode}
use kalandra.Proto.Header
use kalandra.Proto.Payload.{Payload, from_frame}
use kalandra.Connection
use kalandra.Connection.{Connection, ConnectionAction, ConnectionError}
use kalandra.Registry
use kalandra.Rooms.{RoomAction, RoomError}
use kalandra.Rooms.Manager.{RoomManager}
use kalandra.Rooms.Serve.{Server, finish, serve, serve_frame}
use kalandra.Driver
use kalandra.Driver.{
  Libraries, ServerDriver, ServerAction, ServerError, ServerEvent, connection_accepted,
  frame_received, connection_closed, server_tick, log, debug, subscribed_via_welcome,
  set_connection, set_registry,
}
use kalandra.Driver.Events.{
  Answer, after_session, after_rooms, session_frame, sync_payload, sync_request, sync_answer,
  synced, room_frame, welcome_frame, on_opcode, handle_frame_received, handle_connection_accepted,
  handle_connection_closed, handle_tick, tick_all, process_event, closed_entry, with_connection,
}
use kalandra.Driver.Actions.{from_connection}
use kalandra.Driver.Serving.{
  Shared, is_room_level, execute_actions, settle, settle_all, take_turn, rooms_of, arrival,
}
use kalandra.Driver.Serving.Carried.{execute_actions-convert_room_actions}
use kalandra.Driver.Serving.Routine.{IsRoutine, AllOf, process_frame-IsRoutine}
use kalandra.Driver.Serving.Quiet.{
  IsQuiet, IsQuietReply, append-IsQuiet, nil-IsQuiet, log-IsQuiet, from_connection-IsQuiet,
  make_error_response-IsQuiet, handle_sync_request-IsQuietReply,
}

module _ (L : Libraries) (connections : HashSet) where
  -- Actions that do not end the loop and leave the storage alone.
  abbrev Passes : List ServerAction → Type 0
  Passes before =
      (rest : List ServerAction) (s : Shared L)
      → execute_actions L (before ++ rest) s ≡ execute_actions L rest s

  -- The rooms and the storage after an answer, if there is one.
  abbrev Gives : Server L.storage L.groups L.dalek → Option (Answer L) → Type 0
  Gives s none = Unit
  Gives s (some answer) = rooms_of L (settle L connections answer) ≡ s

  after_session-Gives :
      (is_hello : Bool) (id : ℕ) (d : ServerDriver L)
      (done : Result ConnectionError (List ConnectionAction) × Connection)
      → Gives (rooms_of L d) (some (after_session L id is_hello d done))
  after_session-Gives is_hello id d (err e, conn) = refl
  after_session-Gives false id d (ok actions, conn) =
      rw (from_connection-IsQuiet L id actions (connections, d.storage)) refl
  after_session-Gives true id d (ok actions, conn) =
      rw (from_connection-IsQuiet L id actions (connections, d.storage)) refl

  after_rooms-Gives :
      (id now : ℕ) (before : List ServerAction) (d : ServerDriver L)
      (done : Result RoomError (List RoomAction) × RoomManager L.storage L.groups L.dalek)
      → AllOf IsRoutine done
      → Passes before
      → Gives
          (finish L.storage L.groups L.dalek done d.storage)
          (some (after_rooms L id now before d done))
  after_rooms-Gives id now before d (err e, m) routine passes = refl
  after_rooms-Gives id now before d (ok actions, m) routine passes =
      ap (λ (store : L.storage.Store). rooms_of L (record d { room_manager = m; storage = store }))
        (ap (λ (done : Result ServerError (Unit {0}) × Shared L). done.1.1)
            (passes (Driver.Actions.convert_room_actions L id now actions) (connections, d.storage))
          ∙ execute_actions-convert_room_actions L id now actions (connections, d.storage) routine)

  room_frame-Gives :
      (id now : ℕ) (before : List ServerAction) (frame : Frame) (d : ServerDriver L)
      → Passes before
      → Gives
          (serve_frame L.storage L.groups L.dalek (rooms_of L d) (now, frame))
          (some (room_frame L id now before frame d))
  unfolding room_frame serve_frame
  room_frame-Gives id now before frame d passes =
      after_rooms-Gives id now before d _
        (process_frame-IsRoutine L.storage L.groups L.dalek frame now d.storage d.room_manager)
        passes

  quiet-Gives :
      (d : ServerDriver L) (o : Option (List ServerAction))
      → ((actions : List ServerAction) → o ≡ some actions → IsQuiet L actions)
      → Gives (rooms_of L d) (sync_answer L d o)
  quiet-Gives d none h = tt
  quiet-Gives d (some actions) h = rw (h actions refl (connections, d.storage)) refl

  replied-Gives :
      (id room_id now : ℕ) (d : ServerDriver L) (o : Option (Result RoomError RoomAction))
      → IsQuietReply L id room_id now o
      → Gives (rooms_of L d) (
          sync_answer L d
            (elim o [ none ↦ none | some result ↦ some (synced L id room_id now result) ]))
  replied-Gives id room_id now d none quiet = tt
  replied-Gives id room_id now d (some result) quiet = rw (quiet (connections, d.storage)) refl

  sync_payload-Gives :
      (id room_id now : ℕ) (d : ServerDriver L) (payload : Payload)
      → Gives (rooms_of L d) (sync_answer L d (sync_payload L id room_id now d payload))
  sync_payload-Gives id room_id now d (Payload.sync_request asked) =
      replied-Gives id room_id now d _
        (handle_sync_request-IsQuietReply L d id room_id asked.from_log_index asked.limit now)
  sync_payload-Gives id room_id now d _ =
      rw (make_error_response-IsQuiet L id room_id now _ (connections, d.storage)) refl

  sync_request-Gives :
      (id now : ℕ) (frame : Frame) (d : ServerDriver L)
      → Gives (rooms_of L d) (sync_answer L d (sync_request L id now frame d))
  unfolding sync_request
  sync_request-Gives id now frame d = elim (Result-cases (from_frame L.cbor frame)) [
    | inl (payload, e) ↦
        rw (Gives, e) (sync_payload-Gives id (Header.room_id frame.header) now d payload)
    | inr (fault, e) ↦
        rw
          (
            Gives,
            e,
            make_error_response-IsQuiet L id (Header.room_id frame.header) now _
                (connections, d.storage),
          )
          refl
  ]

  -- The rooms of a server that is handed a frame, if it is room-level.
  abbrev given :
      Bool → Server L.storage L.groups L.dalek → ℕ × Frame → Server L.storage L.groups L.dalek
  given level s a = serve L.storage L.groups L.dalek s (if level then a ∷ [] else [])

  on_opcode-Gives :
      (code : Option Opcode) (id now : ℕ) (frame : Frame) (conn : Connection) (d : ServerDriver L)
      → Gives
          (given (is_room_level code) (rooms_of L d) (now, frame))
          (on_opcode L code id now frame conn d)
  unfolding session_frame welcome_frame serve execute_actions
  on_opcode-Gives (some Opcode.hello) id now frame conn d = after_session-Gives true id d _
  on_opcode-Gives (some Opcode.ping) id now frame conn d = after_session-Gives false id d _
  on_opcode-Gives (some Opcode.pong) id now frame conn d = after_session-Gives false id d _
  on_opcode-Gives (some Opcode.goodbye) id now frame conn d = after_session-Gives false id d _
  on_opcode-Gives (some Opcode.sync_request) id now frame conn d = sync_request-Gives id now frame d
  on_opcode-Gives (some Opcode.welcome) id now frame conn d =
      let room_id : ℕ = Header.room_id frame.header in
      room_frame-Gives id now (log debug (subscribed_via_welcome id room_id) now ∷ []) frame
        (set_registry L (Registry.subscribe d.registry id room_id).1
          (set_connection L id (Connection.update_activity now conn) d))
        (λ rest s. refl)
  on_opcode-Gives _ id now frame conn d =
      room_frame-Gives id now [] frame (set_connection L id (Connection.update_activity now conn) d)
        (λ rest s. refl)

  with_connection-Gives :
      (id now : ℕ) (frame : Frame) (d : ServerDriver L) (o : Option Connection)
      → let level = is_room_level (Header.opcode_enum frame.header) in
        Gives
          (given (is_some_and o (λ _. true) && level) (rooms_of L d) (now, frame))
          (with_connection L id now frame d o)
  unfolding serve
  with_connection-Gives id now frame d none = refl
  with_connection-Gives id now frame d (some conn) =
      on_opcode-Gives (Header.opcode_enum frame.header) id now frame conn d

  handle_frame_received-Gives :
      (id now : ℕ) (frame : Frame) (d : ServerDriver L)
      → Gives
          (serve L.storage L.groups L.dalek
            (rooms_of L d)
            (arrival L d (now, frame_received id frame)))
          (handle_frame_received L id now frame d)
  unfolding handle_frame_received arrival contains_key
  handle_frame_received-Gives id now frame d =
      with_connection-Gives id now frame d (get d.connections id)

  -- The actions of a tick leave the storage alone.
  tick_all-IsQuiet : (now : ℕ) (m : HashMap Connection) → IsQuiet L (tick_all now m).0
  unfolding tick_all
  tick_all-IsQuiet now [] = nil-IsQuiet L
  tick_all-IsQuiet now ((id, conn) ∷ m) =
      append-IsQuiet L (map (from_connection id) (Connection.tick now conn).0) (tick_all now m).0
        (from_connection-IsQuiet L id (Connection.tick now conn).0) (tick_all-IsQuiet now m)

  closed_entry-IsQuiet :
      (id now : ℕ) (gone : Option (Registry.SessionInfo × HashSet))
      → IsQuiet L (closed_entry L id now gone)
  closed_entry-IsQuiet id now none = nil-IsQuiet L
  closed_entry-IsQuiet id now (some (known, rooms)) = log-IsQuiet L _ _ now _ (nil-IsQuiet L)

  handle_connection_accepted-Gives :
      (id now : ℕ) (d : ServerDriver L)
      → Gives (rooms_of L d) (some (handle_connection_accepted L id now d))
  unfolding handle_connection_accepted execute_actions
  handle_connection_accepted-Gives id now d =
      elim (Bool-cases (leb d.config.max_connections (entry_count d.connections))) [
        | inl full ↦ rw (Gives, full) refl
        | inr free ↦ rw (Gives, free) refl
      ]

  process_event-Gives :
      (now : ℕ) (event : ServerEvent) (d : ServerDriver L)
      → Gives
          (serve L.storage L.groups L.dalek (rooms_of L d) (arrival L d (now, event)))
          (process_event L now event d)
  unfolding process_event arrival serve handle_connection_closed handle_tick
  process_event-Gives now (frame_received id frame) d = handle_frame_received-Gives id now frame d
  process_event-Gives now (connection_accepted id) d = handle_connection_accepted-Gives id now d
  process_event-Gives now (connection_closed id) d =
      rw (closed_entry-IsQuiet id now _ (connections, d.storage)) refl
  process_event-Gives now server_tick d =
      rw (tick_all-IsQuiet now d.connections (connections, d.storage)) refl

  settle_all-Gives :
      (s : Server L.storage L.groups L.dalek) (o : Option (Answer L)) (d' : ServerDriver L)
      → Gives s o
      → settle_all L connections o ≡ some d'
      → rooms_of L d' ≡ s
  settle_all-Gives s none d' h e = cc
  settle_all-Gives s (some answer) d' h e =
      let same : settle L connections answer ≡ d' = cc in ap (rooms_of L) (sym same) ∙ h

module _ (L : Libraries) where
  -- A turn of the driver that returns does to the rooms and the storage what the room manager does
  -- with the frame of the event, if the event is a room-level frame of a connection that is there,
  -- and nothing otherwise.
  pub take_turn-serve :
      (d d' : ServerDriver L) (turn : HashSet × (ℕ × ServerEvent))
      → take_turn L d turn ≡ some d'
      → rooms_of L d' ≡ serve L.storage L.groups L.dalek (rooms_of L d) (arrival L d turn.1)
  unfolding take_turn
  take_turn-serve d d' (connections, (now, event)) returned =
      settle_all-Gives L connections _ (process_event L now event d) d'
        (process_event-Gives L connections now event d) returned
