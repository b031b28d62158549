-- ===== src/Driver/Serving.antt =====
-- crates/lockframe-server/src/lib.rs: `execute_actions` as far as it changes the storage, and the
-- turn of `handle_stream`: the driver's answer to an event, then its actions.
pub mod Quiet
pub mod Refinement
pub mod Routine
pub mod Carried
pub mod Runs
use kalandra.Prelude.{
  ℕ, Option, none, some, List, [], ◌∷◌, Result, ok, err, contains_key, if◌then◌else◌, ◌&&◌, Bool,
  true, false, HashSet, contains, discard,
}
use kalandra.Prelude.Exec.{Exec, pure, ◌>>◌}
use kalandra.Proto.Errors.{ProtocolError}
use kalandra.Proto.Opcode
use kalandra.Proto.Opcode.{Opcode}
use kalandra.Proto.Header
use kalandra.Proto.Frame.{Frame, encode}
use kalandra.Rooms.Serve.{Server}
use kalandra.Driver
use kalandra.Driver.{
  Libraries, ServerDriver, ServerEvent, ServerAction, ServerError, protocol, protocol_error,
  frame_received, connection_accepted, connection_closed, server_tick, send_to_session,
  broadcast_to_room, close_connection, persist_frame, persist_mls_state, log,
}
use kalandra.Driver.Events.{Answer, process_event}

-- The opcodes of the frames that the driver hands to the room manager.
abbrev pub is_room_level : Option Opcode → Bool
is_room_level (some Opcode.hello) = false
is_room_level (some Opcode.ping) = false
is_room_level (some Opcode.pong) = false
is_room_level (some Opcode.goodbye) = false
is_room_level (some Opcode.sync_request) = false
is_room_level _ = true

module _ (L : Libraries) where
  -- The sessions of `SharedState.connections`, which other tasks do not change during the loop here,
  -- and the storage.
  abbrev pub Shared : Type 0
  Shared = HashSet × L.storage.Store

  abbrev pub as_sent : Result ProtocolError (List ℕ) → Result ServerError (Unit {0})
  as_sent (ok bytes) = ok tt
  as_sent (err e) = err (protocol (protocol_error e))

  -- A session that is not there is logged, and its frame is not encoded. A failed write is logged and
  -- forgotten, and so is a failure of the network.
  abbrev pub execute_action : ServerAction → Exec Shared ServerError (Unit {0})
  execute_action (send_to_session session_id frame) s =
      (if contains s.0 session_id then as_sent (encode frame []) else ok tt, s)
  execute_action (broadcast_to_room room_id frame exclude_session) s =
      (as_sent (encode frame []), s)
  execute_action (close_connection session_id reason) s = (ok tt, (discard s.0 session_id, s.1))
  execute_action (persist_frame room_id log_index frame) s =
      (ok tt, (s.0, (L.storage.store_frame s.1 room_id log_index frame).1))
  execute_action (persist_mls_state room_id state) s =
      (ok tt, (s.0, (L.storage.store_mls_state s.1 room_id state).1))
  execute_action (log level message timestamp) s = (ok tt, s)

  -- The first frame that does not encode ends the loop.
  unfoldable pub execute_actions : List ServerAction → Exec Shared ServerError (Unit {0})
  execute_actions [] = pure tt
  execute_actions (action ∷ rest) = do execute_action action; execute_actions rest

  -- After an error, the actions that there would have been are not there. An error of the execution
  -- ends the stream or the connection that the event is of, not the server.
  abbrev pub settle : HashSet → Answer L → ServerDriver L
  settle connections (err e, d) = d
  settle connections (ok actions, d) = record d {
    storage = (execute_actions actions (connections, d.storage)).1.1;
  }

  abbrev pub settle_all : HashSet → Option (Answer L) → Option (ServerDriver L)
  settle_all connections none = none
  settle_all connections (some answer) = some (settle connections answer)

  -- One event, at a time, with the sessions whose connections are shared when its actions are
  -- executed; `none` is a panic.
  unfoldable pub take_turn : ServerDriver L → HashSet × (ℕ × ServerEvent) → Option (ServerDriver L)
  take_turn d (connections, (now, event)) = settle_all connections (process_event L now event d)

  -- The rooms and the storage of a driver.
  abbrev pub rooms_of : ServerDriver L → Server L.storage L.groups L.dalek
  rooms_of d = record { manager = d.room_manager; store = d.storage }

  -- The frame of an event that goes to the room manager: one of a connection that is there.
  unfoldable pub arrival : ServerDriver L → ℕ × ServerEvent → List (ℕ × Frame)
  arrival d (now, frame_received session_id frame) =
      if contains_key d.connections session_id && is_room_level (Header.opcode_enum frame.header)
      then (now, frame) ∷ []
      else []
  arrival d (now, connection_accepted _) = []
  arrival d (now, connection_closed _) = []
  arrival d (now, server_tick) = []
