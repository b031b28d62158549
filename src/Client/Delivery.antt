-- ===== src/Client/Delivery.antt =====
-- crates/lockframe-client/src/client.rs: what a delivered message was checked for.
use kalandra.Prelude.{
  ℕ, ◌≡◌, refl, sym, ap, ◌∙◌, subst, ◌==◌, ==_iff, true, Bool-cases, Result-cases, inl, inr, Option,
  none, some, List, [], ◌∷◌, Result, ok, err, get, map_err,
}
use kalandra.Proto.Header
use kalandra.Proto.Frame.{Frame}
use kalandra.Proto.Payload.Types
use kalandra.Mls.State.{MlsGroupState, is_member}
use kalandra.Mls.Validator.{ValidationResult, accept, reject, validate_frame_iff, IsSigned}
use kalandra.SenderKeys.Encryption.{EncryptedMessage}
use kalandra.SenderKeys.Store.{SenderKeyStore, Decrypted, decrypt}
use kalandra.Client.{
  ClientLibraries, ClientAction, deliver, RoomState, Client, FrameFault, invalid_frame,
}
use kalandra.Client.Messages.{
  proto_to_crypto_encrypted, validate_in_group, check_app_message, check_message, check_owner,
  opened, checked, handle_app_message, or_reason,
}

map_err-eq_ok :
    {E F A : Type 0} → (f : E → F) (r : Result E A) (a : A) → map_err f r ≡ ok a → r ≡ ok a
map_err-eq_ok f (ok b) a e = cc
map_err-eq_ok f (err x) a e = cc

module _ (C : ClientLibraries) where
  open C use {groups, dalek, cbor, crypto}

  or_reason-eq_ok : (v : ValidationResult) → or_reason C v ≡ ok tt → v ≡ accept
  or_reason-eq_ok accept e = refl
  or_reason-eq_ok (reject reason) e = cc

  -- The message is of the room's epoch, signed by a member of the group, and what its payload decodes
  -- to is encrypted by the leaf of the very member that the header names.
  pub record IsChecked (room : RoomState C) (frame : Frame) (sender : ℕ)
      (encrypted : EncryptedMessage) : Type 0 where
    pub of_epoch : Header.epoch frame.header ≡ groups.epoch room.mls_group
    pub of_member : is_member (groups.export_validation_state room.mls_group) sender ≡ true
    pub signed : IsSigned dalek frame (groups.export_validation_state room.mls_group)
    pub from_header : Header.sender_id frame.header ≡ sender
    pub of_payload :
        (message : Types.EncryptedMessage) × (cbor.app_message.from_reader frame.payload
          ≡ some message)
        × (proto_to_crypto_encrypted message ≡ encrypted)
    pub of_leaf : groups.member_id_by_leaf_index room.mls_group encrypted.sender_index ≡ some sender

  check_owner-eq_ok :
      (claimed index sender : ℕ) (o : Option ℕ)
      → check_owner C claimed index o ≡ ok sender
      → (claimed ≡ sender) × (o ≡ some sender)
  check_owner-eq_ok claimed index sender none e = cc
  check_owner-eq_ok claimed index sender (some owner) e = elim (Bool-cases (claimed == owner)) [
    | inl same ↦
        let got : ◌≡◌ {A = Result FrameFault ℕ} (ok owner) (ok sender) =
          rw (check_owner, same) at e in
        let named : owner ≡ sender = cc in ((==_iff claimed owner).0 same ∙ named, ap some named)
    | inr other ↦ cc (rw (check_owner, other) at e)
  ]

  check_message-eq_ok :
      (room : RoomState C) (frame : Frame) (o : Option Types.EncryptedMessage) (sender : ℕ)
      (m : EncryptedMessage)
      → check_message C room frame o ≡ ok (sender, m)
      → (Header.sender_id frame.header ≡ sender)
        × (groups.member_id_by_leaf_index room.mls_group m.sender_index ≡ some sender)
        × ((p : Types.EncryptedMessage) × (o ≡ some p) × (proto_to_crypto_encrypted p ≡ m))
  check_message-eq_ok room frame none sender m e = cc
  check_message-eq_ok room frame (some p) sender m e =
      elim (Result-cases (
        check_owner C (Header.sender_id frame.header) p.sender_index
          (groups.member_id_by_leaf_index room.mls_group p.sender_index))) [
            | inl (owner, found) ↦
                let got : ◌≡◌ {A = Result FrameFault (ℕ × EncryptedMessage)}
                    (ok (owner, proto_to_crypto_encrypted p)) (ok (sender, m)) =
                  rw (check_message, found) at e in
                let named : owner ≡ sender = cc in
                let message : proto_to_crypto_encrypted p ≡ m = cc in
                let (claimed, leaf) = check_owner-eq_ok _ _ owner _ found in
                (
                  claimed ∙ named,
                  sym (
                        ap
                          (λ (x : EncryptedMessage).
                            groups.member_id_by_leaf_index room.mls_group x.sender_index)
                          message)
                      ∙ leaf
                      ∙ ap some named,
                  (p, refl, message),
                )
            | inr (fault, refused) ↦ cc (rw (check_message, refused) at e)
          ]

  check_app_message-IsChecked :
      (room : RoomState C) (frame : Frame) (sender : ℕ) (m : EncryptedMessage)
      → check_app_message C room frame ≡ ok (sender, m)
      → IsChecked room frame sender m
  unfolding check_app_message validate_in_group
  check_app_message-IsChecked room frame sender m e =
      let state : MlsGroupState = groups.export_validation_state room.mls_group in
      elim (Bool-cases (Header.epoch frame.header == groups.epoch room.mls_group)) [
        | inr other ↦ cc (rw other at e)
        | inl same ↦ elim (Result-cases (validate_in_group C room.mls_group frame state)) [
          | inr (fault, refused) ↦ cc (rw (same, refused) at e)
          | inl (done, valid) ↦
              let (epoch, member, signed) =
                (validate_frame_iff dalek frame (groups.epoch room.mls_group) state).0
                  (or_reason-eq_ok _ valid) in
              let rest = map_err-eq_ok invalid_frame _ _ (rw (same, valid) at e) in
              let (claimed, leaf, payload) = check_message-eq_ok room frame _ sender m rest in
              record {
                of_epoch = epoch;
                of_member = subst (λ (id : ℕ). is_member state id ≡ true) claimed member;
                signed = signed;
                from_header = claimed;
                of_payload = payload;
                of_leaf = leaf;
              }
        ]
      ]

  opened-eq_ok :
      (room_id : ℕ) (room : RoomState C) (frame : Frame) (sender : ℕ) (c c' : Client C)
      (o : Decrypted crypto) (actions : List ClientAction)
      → opened C room_id room frame sender c o ≡ some (ok actions, c')
      → (plaintext : List ℕ) × (keys : SenderKeyStore) × (o ≡ some (ok plaintext, keys))
        × (actions
            ≡ deliver room_id sender plaintext
                (Header.log_index frame.header)
                (Header.hlc_timestamp frame.header)
              ∷ [])
  opened-eq_ok room_id room frame sender c c' none actions e = cc
  opened-eq_ok room_id room frame sender c c' (some (err x, keys)) actions e = cc
  opened-eq_ok room_id room frame sender c c' (some (ok plaintext, keys)) actions e =
      (plaintext, keys, refl, cc)

  -- An application message that a client handles without an error is delivered, once, with a
  -- sender and a plaintext such that: the message is of the epoch of the client's group in the room;
  -- the sender is a member of the group, and signed the header, which names it; the frame's payload
  -- decodes to an encrypted message of the sender's leaf; and the room's keys decrypt that message
  -- to the plaintext.
  pub handle_app_message-delivers :
      (room_id : ℕ) (room : RoomState C) (frame : Frame) (c c' : Client C)
      (actions : List ClientAction)
      → get c.rooms room_id ≡ some room
      → handle_app_message C room_id frame c ≡ some (ok actions, c')
      → (sender : ℕ) × (plaintext : List ℕ) × (encrypted : EncryptedMessage)
        × (keys : SenderKeyStore) × IsChecked room frame sender encrypted
        × (decrypt crypto encrypted room.sender_keys ≡ some (ok plaintext, keys))
        × (actions
            ≡ deliver room_id sender plaintext
                (Header.log_index frame.header)
                (Header.hlc_timestamp frame.header)
              ∷ [])
  unfolding handle_app_message
  handle_app_message-delivers room_id room frame c c' actions found e =
      let done = rw found at e in
      elim (Result-cases (check_app_message C room frame)) [
        | inr (fault, refused) ↦ cc (rw (checked, refused) at done)
        | inl ((sender, encrypted), passed) ↦
            let (plaintext, keys, decrypted, delivered) =
              opened-eq_ok room_id room frame sender c c' _ actions
                (rw (checked, passed) at done) in
            (
              sender,
              plaintext,
              encrypted,
              keys,
              check_app_message-IsChecked room frame sender encrypted passed,
              decrypted,
              delivered,
            )
      ]
