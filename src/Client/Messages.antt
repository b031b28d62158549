-- ===== src/Client/Messages.antt =====
-- crates/lockframe-client/src/client.rs: sending and receiving of application messages. `none` is a
-- panic of `expect`, or a ratchet that ran out of fuel.
use kalandra.Prelude.{
  ℕ, ◌==◌, not, if◌then◌else◌, Option, none, some, List, [], ◌∷◌, Result, ok, err, get, map_err,
}
use kalandra.Proto.Opcode
use kalandra.Proto.Header
use kalandra.Proto.Header.{FrameHeader}
use kalandra.Proto.Frame
use kalandra.Proto.Frame.{Frame}
use kalandra.Proto.Payload.Types
use kalandra.Mls.State.{MlsGroupState}
use kalandra.Mls.Group.{MlsError, validation_failed, sign_frame_header}
use kalandra.Mls.Validator.{ValidationResult, accept, reject, validate_frame}
use kalandra.Ratchet.{SenderKeyError}
use kalandra.SenderKeys.Encryption.{EncryptedMessage}
use kalandra.SenderKeys.Store.{SenderKeyStore, Decrypted, encrypt, decrypt}
use kalandra.Client.{
  ClientLibraries, ClientError, room_not_found, epoch_mismatch, sender_key, invalid_frame,
  FrameFault, not_valid, undecodable_message, unknown_sender_index, sender_id_mismatch, send,
  deliver, RoomState, Client, set_room, Answer,
}

abbrev pub crypto_to_proto_encrypted : EncryptedMessage → Types.EncryptedMessage
crypto_to_proto_encrypted m = record {
  epoch = m.epoch;
  sender_index = m.sender_index;
  generation = m.generation;
  nonce = m.nonce;
  ciphertext = m.ciphertext;
  push_keys = none;
}

abbrev pub proto_to_crypto_encrypted : Types.EncryptedMessage → EncryptedMessage
proto_to_crypto_encrypted m = record {
  epoch = m.epoch;
  sender_index = m.sender_index;
  generation = m.generation;
  nonce = m.nonce;
  ciphertext = m.ciphertext;
}

module _ (C : ClientLibraries) where
  open C use {groups, dalek, cbor, crypto}

  -- `MlsGroup::validate_frame`, with a state.
  abbrev pub or_reason : ValidationResult → Result MlsError (Unit {0})
  or_reason accept = ok tt
  or_reason (reject reason) = err (validation_failed reason)

  unfoldable pub validate_in_group :
      groups.Group → Frame → MlsGroupState → Result MlsError (Unit {0})
  validate_in_group group frame state =
      or_reason (validate_frame dalek frame (groups.epoch group) state)

  abbrev pub set_keys : ℕ → RoomState C → SenderKeyStore → Client C → Client C
  set_keys room_id room keys c = set_room C room_id (record room { sender_keys = keys }) c

  -- The header of an application message, signed.
  unfoldable pub message_header : ℕ → RoomState C → Client C → FrameHeader
  message_header room_id room c =
      let header = Header.set_room_id (Header.new Opcode.app_message) room_id in
      let header' =
        Header.set_epoch (Header.set_sender_id header c.sender_id) (groups.epoch room.mls_group) in
      sign_frame_header (groups.sign room.mls_group) header'

  abbrev pub sent_bytes :
      ℕ → RoomState C → Client C → SenderKeyStore → Option (List ℕ) → Option (Answer C)
  sent_bytes room_id room c keys none = none
  sent_bytes room_id room c keys (some payload) = some (
    ok (send (Frame.new (message_header room_id room c) payload) ∷ []),
    set_keys room_id room keys c,
  )

  abbrev pub sent :
      ℕ
      → RoomState C
      → Client C
      → Result SenderKeyError EncryptedMessage × SenderKeyStore
      → Option (Answer C)
  sent room_id room c (err e, keys) = some (err (sender_key e), set_keys room_id room keys c)
  sent room_id room c (ok message, keys) =
      sent_bytes room_id room c keys
        (cbor.app_message.into_writer (crypto_to_proto_encrypted message))

  abbrev pub send_in : ℕ → List ℕ → List ℕ → Client C → Option (RoomState C) → Option (Answer C)
  send_in room_id plaintext random c none = some (err (room_not_found room_id), c)
  send_in room_id plaintext random c (some room) =
      sent room_id room c (encrypt crypto room.my_leaf_index plaintext random room.sender_keys)

  -- `random` is what the environment fills the suffix of the nonce with.
  unfoldable pub handle_send_message :
      ℕ → (plaintext random : List ℕ) → Client C → Option (Answer C)
  handle_send_message room_id plaintext random c =
      send_in room_id plaintext random c (get c.rooms room_id)

  abbrev pub check_owner : (claimed sender_index : ℕ) → Option ℕ → Result FrameFault ℕ
  check_owner claimed sender_index none = err (unknown_sender_index sender_index)
  check_owner claimed sender_index (some owner) =
      if not (claimed == owner)
      then err (sender_id_mismatch claimed sender_index owner)
      else ok owner

  -- The member that the header and the encrypted payload both name.
  abbrev pub check_message :
      RoomState C → Frame → Option Types.EncryptedMessage → Result FrameFault (ℕ × EncryptedMessage)
  check_message room frame none = err undecodable_message
  check_message room frame (some message) =
      elim (check_owner (Header.sender_id frame.header) message.sender_index
        (groups.member_id_by_leaf_index room.mls_group message.sender_index)) [
          | err fault ↦ err fault
          | ok owner ↦ ok (owner, proto_to_crypto_encrypted message)
        ]

  -- The checks of `handle_app_message`, in their order: epoch, frame, payload, sender.
  unfoldable pub check_app_message : RoomState C → Frame → Result ClientError (ℕ × EncryptedMessage)
  check_app_message room frame =
      let frame_epoch = Header.epoch frame.header in
      let room_epoch = groups.epoch room.mls_group in
      if not (frame_epoch == room_epoch)
      then err (epoch_mismatch room_epoch frame_epoch)
      else elim (validate_in_group room.mls_group frame
          (groups.export_validation_state room.mls_group)) [
            | err e ↦ err (invalid_frame (not_valid e))
            | ok _ ↦
                map_err invalid_frame
                  (check_message room frame (cbor.app_message.from_reader frame.payload))
          ]

  abbrev pub opened : ℕ → RoomState C → Frame → ℕ → Client C → Decrypted crypto → Option (Answer C)
  opened room_id room frame sender c none = none
  opened room_id room frame sender c (some (err e, keys)) =
      some (err (sender_key e), set_keys room_id room keys c)
  opened room_id room frame sender c (some (ok plaintext, keys)) = some (
    ok (
        deliver room_id sender plaintext (Header.log_index frame.header)
          (Header.hlc_timestamp frame.header)
        ∷ []),
    set_keys room_id room keys c,
  )

  abbrev pub checked :
      ℕ
      → RoomState C
      → Frame
      → Client C
      → Result ClientError (ℕ × EncryptedMessage)
      → Option (Answer C)
  checked room_id room frame c (err e) = some (err e, c)
  checked room_id room frame c (ok (sender, message)) =
      opened room_id room frame sender c (decrypt crypto message room.sender_keys)

  abbrev pub app_message_in : ℕ → Frame → Client C → Option (RoomState C) → Option (Answer C)
  app_message_in room_id frame c none = some (err (room_not_found room_id), c)
  app_message_in room_id frame c (some room) =
      checked room_id room frame c (check_app_message room frame)

  unfoldable pub handle_app_message : ℕ → Frame → Client C → Option (Answer C)
  handle_app_message room_id frame c = app_message_in room_id frame c (get c.rooms room_id)
