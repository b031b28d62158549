-- ===== src/Driver/Actions.antt =====
-- crates/lockframe-server/src/driver.rs: the actions that answer a room's action or an error.
use kalandra.Prelude.{ℕ, if◌then◌else◌, none, some, List, [], ◌∷◌, ◌++◌, Result, ok, err}
use kalandra.Proto.Errors.{ProtocolError}
use kalandra.Proto.Opcode
use kalandra.Proto.Header
use kalandra.Proto.Frame.{Frame}
use kalandra.Proto.Payload
use kalandra.Proto.Payload.{into_frame}
use kalandra.Proto.Payload.Types.{Text, ErrorPayload, SyncResponse}
use kalandra.Connection.{ConnectionAction, send_frame, close_with}
use kalandra.Rooms.{RoomAction, RoomError}
use kalandra.Rooms
use kalandra.Driver
use kalandra.Driver.{
  Libraries, ServerError, ServerAction, send_to_session, close_connection, by_connection, log, warn,
  error, sync_request_failed, failed_to_encode_error, failed_to_encode_sync_response,
  rejected_frame,
}

-- payloads/mod.rs, `ErrorPayload`: a code and a text.
abbrev pub error_with : ℕ → Text → ErrorPayload
error_with code message = record { code = code; message = message; retry_after = none }

abbrev pub frame_rejected : Text → ErrorPayload
frame_rejected = error_with 1

-- `header.set_room_id`
abbrev in_room : ℕ → Frame → Frame
in_room room_id frame = record frame { header = Header.set_room_id frame.header room_id }

abbrev pub from_connection : ℕ → ConnectionAction → ServerAction
from_connection session_id (send_frame frame) = send_to_session session_id frame
from_connection session_id (close_with reason) = close_connection session_id (by_connection reason)

module _ (L : Libraries) where
  unfoldable pub error_payload : ℕ → ServerError → ErrorPayload
  error_payload room_id (Driver.room (Rooms.room_not_found _)) =
      error_with 2 (L.display.room_not_found room_id)
  error_payload room_id (Driver.room (Rooms.storage e)) = error_with 3 (L.display.storage_error e)
  error_payload room_id (Driver.room (Rooms.mls_validation e)) =
      error_with 5 (L.display.mls_error e)
  error_payload room_id (Driver.room (Rooms.sequencing e)) =
      error_with 6 (L.display.sequencer_error e)
  error_payload room_id (Driver.protocol fault) = error_with 4 (L.display.protocol_fault fault)
  error_payload room_id other = frame_rejected (L.display.server_error other)

  abbrev pub error_frame :
      (session_id room_id now : ℕ) → Text → Result ProtocolError Frame → List ServerAction
  error_frame session_id room_id now text (ok frame) =
      send_to_session session_id (in_room room_id frame)
      ∷ log warn (sync_request_failed session_id text) now
      ∷ []
  error_frame session_id room_id now text (err e) = log error (failed_to_encode_error e) now ∷ []

  unfoldable pub make_error_response :
      (session_id room_id now : ℕ) → ServerError → List ServerAction
  unfolding error_payload
  make_error_response session_id room_id now e =
      let payload = error_payload room_id e in
      error_frame session_id room_id now payload.message
        (into_frame L.cbor (Payload.error payload) (Header.new Opcode.error))

  abbrev pub reject_actions : ServerAction → ℕ → Result ProtocolError Frame → List ServerAction
  reject_actions entry sender_id (ok frame) = send_to_session sender_id frame ∷ entry ∷ []
  reject_actions entry sender_id (err _) = entry ∷ []

  abbrev pub sync_actions :
      (sender_id room_id now : ℕ) → Result ProtocolError Frame → List ServerAction
  sync_actions sender_id room_id now (ok frame) =
      send_to_session sender_id (in_room room_id frame) ∷ []
  sync_actions sender_id room_id now (err e) = log error (failed_to_encode_sync_response e) now ∷ []

  unfoldable pub convert_room_action : (sender_session_id now : ℕ) → RoomAction → List ServerAction
  convert_room_action sender now (Rooms.broadcast room_id frame exclude_sender _) =
      Driver.broadcast_to_room room_id frame (if exclude_sender then some sender else none) ∷ []
  convert_room_action sender now (Rooms.persist_frame room_id log_index frame _) =
      Driver.persist_frame room_id log_index frame ∷ []
  convert_room_action sender now (Rooms.persist_mls_state room_id state _) =
      Driver.persist_mls_state room_id state ∷ []
  convert_room_action sender now (Rooms.reject_sender sender_id reason processed_at) =
      reject_actions (log warn (rejected_frame sender_id reason) processed_at) sender_id (
        into_frame L.cbor (Payload.error (frame_rejected (L.display.sequencer_error reason)))
          (Header.new Opcode.error))
  convert_room_action sender now
        (Rooms.send_sync_response sender_id room_id frames has_more server_epoch _) =
      let response : SyncResponse = record {
        frames = frames;
        has_more = has_more;
        server_epoch = server_epoch;
      } in
      sync_actions sender_id room_id now
        (into_frame L.cbor (Payload.sync_response response) (Header.new Opcode.sync_response))

  unfoldable pub convert_room_actions :
      (sender_session_id now : ℕ) → List RoomAction → List ServerAction
  unfolding convert_room_action
  convert_room_actions sender now [] = []
  convert_room_actions sender now (action ∷ rest) =
      convert_room_action sender now action ++ convert_room_actions sender now rest
