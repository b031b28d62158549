-- ===== src/Client/Frames.antt =====
-- crates/lockframe-client/src/client.rs: the dispatch of frames and events, and sync responses. A sync
-- response has frames in it, which may be sync responses again: the fuel bounds this nesting.
use kalandra.Prelude.{
  ℕ, zero, suc, if◌then◌else◌, Bool, Option, none, some, List, [], ◌∷◌, ◌++◌, length, Result, ok,
  err,
}
use kalandra.Proto.Errors.{ProtocolError}
use kalandra.Proto.Opcode.{Opcode}
use kalandra.Proto.Header
use kalandra.Proto.Frame.{Frame, decode}
use kalandra.Proto.Payload.Types.{SyncResponse}
use kalandra.Client
use kalandra.Client.{
  ClientLibraries, ClientError, invalid_frame, unknown_opcode, undecodable_sync_response,
  undecodable_sync_frame, ClientEvent, frame_received, client_tick, send_message_to, create_room,
  leave_room, join_room, add_members, ClientAction, request_sync, note, processing_sync,
  sync_frame_failed, sync_incomplete, sync_complete, Client, Answer,
}
use kalandra.Client.Membership.{
  handle_create_room, handle_welcome, handle_join_room, handle_mls_message, handle_add_members,
  handle_commit, handle_tick, handle_leave_room,
}
use kalandra.Client.Messages.{handle_send_message, handle_app_message}

module _ (C : ClientLibraries) where
  abbrev pub actions_or_note : Result ClientError (List ClientAction) → List ClientAction
  actions_or_note (ok actions) = actions
  actions_or_note (err e) = note (sync_frame_failed e) ∷ []

  abbrev pub before_rest : List ClientAction → Option (Answer C) → Option (Answer C)
  before_rest actions none = none
  before_rest actions (some (err e, c)) = some (err e, c)
  before_rest actions (some (ok later, c)) = some (ok (actions ++ later), c)

  abbrev pub then_rest : Option (Answer C) → (Client C → Option (Answer C)) → Option (Answer C)
  then_rest none rest = none
  then_rest (some (result, c)) rest = before_rest (actions_or_note result) (rest c)

  abbrev pub sync_frame :
      Result ProtocolError Frame
      → (Frame → Client C → Option (Answer C))
      → (Client C → Option (Answer C))
      → Client C
      → Option (Answer C)
  sync_frame (err e) handle rest c = some (err (invalid_frame (undecodable_sync_frame e)), c)
  sync_frame (ok frame) handle rest c = then_rest (handle frame c) rest

  -- The loop of `handle_sync_response`: a frame that does not decode ends it, and the actions so
  -- far are dropped; an error of a frame is noted.
  unfoldable pub sync_frames :
      (Frame → Client C → Option (Answer C)) → List (List ℕ) → Client C → Option (Answer C)
  sync_frames handle [] c = some (ok [], c)
  sync_frames handle (bytes ∷ frames) c =
      sync_frame (decode bytes) handle (sync_frames handle frames) c

  abbrev pub or_zero : Option ℕ → ℕ
  or_zero none = 0
  or_zero (some n) = n

  -- The end of `handle_sync_response`.
  unfoldable pub after_sync : ℕ → Bool → ℕ → Client C → List ClientAction
  after_sync room_id has_more server_epoch c =
      let current_epoch = or_zero (Client.epoch C c room_id) in
      if has_more
      then request_sync room_id current_epoch server_epoch
        ∷ note (sync_incomplete room_id current_epoch server_epoch)
        ∷ []
      else note (sync_complete room_id current_epoch) ∷ []

  abbrev pub synced : ℕ → SyncResponse → Option (Answer C) → Option (Answer C)
  synced room_id response none = none
  synced room_id response (some (err e, c)) = some (err e, c)
  synced room_id response (some (ok actions, c)) =
      let start =
        processing_sync room_id (length response.frames) response.has_more response.server_epoch in
      some (
        ok (note start ∷ actions ++ after_sync room_id response.has_more response.server_epoch c),
        c,
      )

  abbrev pub sync_with :
      (Frame → Client C → Option (Answer C))
      → ℕ
      → Client C
      → Option SyncResponse
      → Option (Answer C)
  sync_with handle room_id c none = some (err (invalid_frame undecodable_sync_response), c)
  sync_with handle room_id c (some response) =
      synced room_id response (sync_frames handle response.frames c)

  -- `handle_sync_response`, given `handle_frame`.
  unfoldable pub handle_sync_response :
      (Frame → Client C → Option (Answer C)) → ℕ → Frame → Client C → Option (Answer C)
  unfolding sync_frames after_sync
  handle_sync_response handle room_id frame c =
      sync_with handle room_id c (C.cbor.sync_response.from_reader frame.payload)

  -- The match on the opcode.
  abbrev pub on_opcode :
      (Frame → Client C → Option (Answer C)) → Option Opcode → Frame → Client C → Option (Answer C)
  on_opcode handle none frame c =
      some (err (invalid_frame (unknown_opcode (Header.opcode frame.header))), c)
  on_opcode handle (some Opcode.app_message) frame c =
      handle_app_message C (Header.room_id frame.header) frame c
  on_opcode handle (some Opcode.commit) frame c =
      some (handle_commit C (Header.room_id frame.header) frame c)
  on_opcode handle (some Opcode.welcome) frame c =
      some (handle_welcome C (Header.room_id frame.header) frame c)
  on_opcode handle (some Opcode.sync_response) frame c =
      handle_sync_response handle (Header.room_id frame.header) frame c
  on_opcode handle (some _) frame c =
      some (handle_mls_message C (Header.room_id frame.header) frame c)

  -- `handle_frame`, up to a nesting.
  unfoldable pub handle_frame : ℕ → Frame → Client C → Option (Answer C)
  handle_frame zero frame c = none
  handle_frame (suc fuel) frame c =
      on_opcode (handle_frame fuel) (Header.opcode_enum frame.header) frame c

  -- `handle`. A frame is nested in a longer one, so that its length is fuel enough; `random`
  -- and `now` are what the environment gives.
  unfoldable pub handle : ClientEvent → (random : List ℕ) → (now : ℕ) → Client C → Option (Answer C)
  handle (create_room room_id) random now c = some (handle_create_room C room_id random c)
  handle (send_message_to room_id plaintext) random now c =
      handle_send_message C room_id plaintext random c
  handle (frame_received frame) random now c = handle_frame (suc (length frame.payload)) frame c
  handle (client_tick at) random now c = some (handle_tick C at c)
  handle (leave_room room_id) random now c = some (handle_leave_room C room_id c)
  handle (join_room room_id welcome) random now c = some (handle_join_room C room_id welcome c)
  handle (add_members room_id key_packages) random now c =
      some (handle_add_members C room_id key_packages now c)
