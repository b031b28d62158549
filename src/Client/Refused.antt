-- ===== src/Client/Refused.antt =====
-- crates/lockframe-client/src/client.rs: what becomes of the frames that a client sends.
use kalandra.Prelude.{
  ℕ, ◌≡◌, ◌≢◌, ap, subst, true, Option-cases, inl, inr, Option, some, List, [], ◌∷◌, length, take,
  Result, ok, err, get, arith, length-take,
}
use kalandra.Proto.Bytes.{to_be_bytes, length-to_be_bytes}
use kalandra.Proto.Opcode
use kalandra.Proto.Header
use kalandra.Proto.Header.{FrameHeader, IsShaped, to_bytes, signing_data, set_signature}
use kalandra.Proto.Header.Layout.{length-to_bytes, read_prefix-IsShaped}
use kalandra.Proto.Frame
use kalandra.Proto.Frame.{Frame}
use kalandra.Mls.State.{MlsGroupState}
use kalandra.Mls.Group.{
  signed_prefix, sign_frame_header, length-signing_data, sign_frame_header-signs,
}
use kalandra.Mls.Validator.{IsSigned}
use kalandra.Client.{ClientLibraries, ClientAction, send, RoomState, Client}
use kalandra.Client.Messages.{
  message_header, sent, crypto_to_proto_encrypted, handle_send_message, handle_app_message,
}
use kalandra.Client.Delivery.{handle_app_message-delivers}
use kalandra.Ratchet.{SenderKeyError}
use kalandra.SenderKeys.Encryption.{EncryptedMessage}
use kalandra.SenderKeys.Store.{SenderKeyStore}

new-IsShaped : IsShaped (Header.new Opcode.app_message)
unfolding Header.new Header.new_bytes to_be_bytes Opcode.to_u16
new-IsShaped = read_prefix-IsShaped (Header.new_bytes Opcode.app_message) (omega arith)

module _ (C : ClientLibraries) where
  open C use {groups, dalek}

  -- The header that is signed.
  abbrev pub unsigned : ℕ → RoomState C → Client C → FrameHeader
  unsigned room_id room c =
      Header.set_epoch
        (Header.set_sender_id (Header.set_room_id (Header.new Opcode.app_message) room_id)
          c.sender_id)
        (groups.epoch room.mls_group)

  unsigned-IsShaped :
      (room_id : ℕ) (room : RoomState C) (c : Client C) → IsShaped (unsigned room_id room c)
  unfolding Header.set_epoch Header.set_sender_id Header.set_room_id
  unsigned-IsShaped room_id room c =
      let fresh : IsShaped (Header.new Opcode.app_message) = new-IsShaped in
      record {
        magic = fresh.magic;
        opcode = fresh.opcode;
        request_id = fresh.request_id;
        payload_size = fresh.payload_size;
        room_id = length-to_be_bytes 16 room_id;
        sender_id = length-to_be_bytes 8 c.sender_id;
        context_id = fresh.context_id;
        hlc_timestamp = fresh.hlc_timestamp;
        epoch = length-to_be_bytes 8 (groups.epoch room.mls_group);
        signature = fresh.signature;
      }

  -- A signature that verifies was made for the bytes that are checked.
  abbrev pub IsBinding : (List ℕ → Option (List ℕ)) → Type 0
  IsBinding sign =
      (key : dalek.VerifyingKey) (signed checked bytes : List ℕ) (x : dalek.Signature)
      → sign signed ≡ some bytes
      → dalek.signature bytes ≡ some x
      → dalek.verify key checked x ≡ true
      → checked ≡ signed

  -- The header of the frame that is sent, with the payload's size in it.
  abbrev sent_header : FrameHeader → List ℕ → List ℕ → FrameHeader
  sent_header h signature payload = (Frame.new (set_signature h signature) payload).header

  sent_header-IsShaped :
      (h : FrameHeader) (signature payload : List ℕ)
      → IsShaped h
      → length signature ≡ 64
      → IsShaped (sent_header h signature payload)
  unfolding Frame.new set_signature
  sent_header-IsShaped h signature payload s long = record {
    magic = s.magic;
    opcode = s.opcode;
    request_id = s.request_id;
    payload_size = length-to_be_bytes 4 (Frame.len_as_u32 payload);
    room_id = s.room_id;
    sender_id = s.sender_id;
    context_id = s.context_id;
    hlc_timestamp = s.hlc_timestamp;
    epoch = s.epoch;
    signature = long;
  }

  sent-unsigned :
      (sign : List ℕ → Option (List ℕ)) (h : FrameHeader) (signature payload : List ℕ)
      (state : MlsGroupState)
      → IsBinding sign
      → IsShaped h
      → sign (signed_prefix h) ≡ some signature
      → length signature ≡ 64
      → IsSigned dalek (Frame.new (sign_frame_header sign h) payload) state
      → ⊥
  unfolding Frame.new set_signature signed_prefix
  sent-unsigned sign h signature payload state binds s signs long v =
      let w : IsSigned dalek (Frame.new (set_signature h signature) payload) state =
        subst (λ (g : FrameHeader). IsSigned dalek (Frame.new g payload) state)
          (sign_frame_header-signs sign h signature signs long) v in
      let same : signing_data (sent_header h signature payload) ≡ take 64 (to_bytes h) =
        binds w.key _ _ signature w.signature signs w.well_formed w.verified in
      absurd (
        omega (
          arith,
          ap length same,
          length-take 64 (to_bytes h),
          length-to_bytes h s,
          length-signing_data (sent_header h signature payload)
              (sent_header-IsShaped h signature payload s long),
        ))

  sent-eq_ok :
      (room_id : ℕ) (room : RoomState C) (c c' : Client C) (frame : Frame)
      (done : Result SenderKeyError EncryptedMessage × SenderKeyStore)
      → sent C room_id room c done ≡ some (ok (send frame ∷ []), c')
      → (payload : List ℕ) × (frame ≡ Frame.new (message_header C room_id room c) payload)
  sent-eq_ok room_id room c c' frame (err e, keys) eq = cc
  sent-eq_ok room_id room c c' frame (ok message, keys) eq =
      elim (Option-cases (C.cbor.app_message.into_writer (crypto_to_proto_encrypted message))) [
        | inl panicked ↦ cc (rw (sent, panicked) at eq)
        | inr (payload, written) ↦ (payload, cc (rw (sent, written) at eq))
      ]

  -- With signatures that verify only for the bytes that were signed, no client that is in a room
  -- delivers a message that a client of the room sent, if the sender's group gave a signature of 64
  -- bytes for it: the frame is refused.
  pub handle_app_message-refuses_sent :
      (room_id : ℕ) (room room' : RoomState C) (plaintext random signature : List ℕ) (frame : Frame)
      (c c' d d' : Client C) (actions : List ClientAction)
      → get c.rooms room_id ≡ some room
      → get d.rooms room_id ≡ some room'
      → IsBinding (groups.sign room.mls_group)
      → groups.sign room.mls_group (signed_prefix (unsigned room_id room c)) ≡ some signature
      → length signature ≡ 64
      → handle_send_message C room_id plaintext random c ≡ some (ok (send frame ∷ []), c')
      → handle_app_message C room_id frame d ≢ some (ok actions, d')
  unfolding handle_send_message message_header
  handle_app_message-refuses_sent room_id room room' plaintext random signature frame c c' d d'
        actions here there binds signs long went came =
      let (payload, made) = sent-eq_ok room_id room c c' frame _ (rw here at went) in
      let (sender, opened, encrypted, keys, checked, decrypted, delivered) =
        handle_app_message-delivers C room_id room' frame d d' actions there came in
      let state : MlsGroupState = groups.export_validation_state room'.mls_group in
      let unchanged : IsSigned dalek (Frame.new (message_header C room_id room c) payload) state =
        subst (λ (f : Frame). IsSigned dalek f state) made checked.signed in
      sent-unsigned (groups.sign room.mls_group) (unsigned room_id room c) signature payload state
        binds (unsigned-IsShaped room_id room c) signs long unchanged
