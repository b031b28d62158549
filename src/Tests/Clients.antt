-- ===== src/Tests/Clients.antt =====
-- A client in the room of the sample message, with toy groups and a toy codec for messages.
use kalandra.Prelude.{
  ℕ, ◌+◌, ◌≡◌, ◌≢◌, refl, sym, ap, subst, true, false, Option, none, some, Option-cases, inl, inr,
  List, [], ◌∷◌, ◌++◌, length, take, drop, replicate, ok, get, contains_key, contains, arith,
  take-append_exact, drop-append_exact,
}
use kalandra.Proto.Bytes.{from_be_bytes, to_be_bytes}
use kalandra.Proto.Opcode
use kalandra.Proto.Opcode.{from_u16, to_u16, app_message}
use kalandra.Proto.Header
use kalandra.Proto.Header.{FrameHeader, max_payload_size, to_bytes}
use kalandra.Proto.Frame
use kalandra.Proto.Frame.{Frame, encode, decode}
use kalandra.Proto.Payload.{Cbor}
use kalandra.Proto.Payload.Types
use kalandra.Proto.Payload.Types.{SyncResponse}
use kalandra.Mls.State.{Ed25519, is_member, member_key}
use kalandra.Mls.Group.{signed_prefix}
use kalandra.Mls.Member.Commits.{bare_frame}
use kalandra.Mls.Member.Wire.{decode-bare_frame}
use kalandra.Mls.Validator.{validate_frame, validate_signature}
use kalandra.Ratchet
use kalandra.Ratchet.{advance, advance_to}
use kalandra.Ratchet.Keys.{key_of, ratchet_at, advance_to_lem}
use kalandra.SenderKeys.Encryption.{EncryptedMessage, build_nonce, encrypt_message, decrypt_message}
use kalandra.SenderKeys.Store.{SenderKeyStore, set_ratchet, encrypt, decrypt}
use kalandra.Client
use kalandra.Client.{
  ClientGroups, ClientLibraries, ClientAction, deliver, send, RoomState, Client, Answer,
}
use kalandra.Client.Messages.{
  handle_app_message, handle_send_message, set_keys, validate_in_group, check_app_message,
  message_header,
}
use kalandra.Client.Delivery.{handle_app_message-delivers, IsChecked}
use kalandra.Client.Frames.{handle_frame}
use kalandra.Client.Rooms.{StaysIn, handle_frame-StaysIn}
use kalandra.Client.Refused.{unsigned, handle_app_message-refuses_sent}
use kalandra.Tests.Data.{message, toy_dalek, toy_cbor, toy_crypto, room_state}
use kalandra.Tests.Wire.{echo_dalek, echo_sign, echo_binds}

-- A message is its numbers, the length of its nonce, the nonce and the ciphertext.
abbrev write_with : Types.EncryptedMessage → Option (List Types.PushKey) → Option (List ℕ)
write_with m none =
    some (m.epoch ∷ m.sender_index ∷ m.generation ∷ length m.nonce ∷ m.nonce ++ m.ciphertext)
write_with m (some keys) = none

abbrev read_message : List ℕ → Option Types.EncryptedMessage
read_message (epoch ∷ sender_index ∷ generation ∷ size ∷ rest) = some (record {
  epoch = epoch;
  sender_index = sender_index;
  generation = generation;
  nonce = take size rest;
  ciphertext = drop size rest;
  push_keys = none;
})
read_message _ = none

pub reads_message :
    (m : Types.EncryptedMessage) (bytes : List ℕ)
    → write_with m m.push_keys ≡ some bytes
    → read_message bytes ≡ some m
reads_message m bytes e = elim (Option-cases m.push_keys) [
  | inr (keys, there) ↦ cc (rw (write_with, there) at e)
  | inl absent ↦
      let written : some
            (m.epoch ∷ m.sender_index ∷ m.generation ∷ length m.nonce ∷ m.nonce ++ m.ciphertext)
          ≡ some bytes =
        rw (write_with, absent) at e in
      let same : m.epoch ∷ m.sender_index ∷ m.generation ∷ length m.nonce ∷ m.nonce ++ m.ciphertext
          ≡ bytes =
        cc in
      subst (λ (b : List ℕ). read_message b ≡ some m) same
        (rw
          (
            take-append_exact (length m.nonce) m.nonce m.ciphertext refl,
            drop-append_exact (length m.nonce) m.nonce m.ciphertext refl,
          )
          (ap (λ (keys : Option (List Types.PushKey)). some (record m { push_keys = keys }))
            (sym absent)))
]

abbrev pub message_codec : Cbor Types.EncryptedMessage
message_codec = record {
  into_writer = λ m. write_with m m.push_keys;
  from_reader = read_message;
  reads_written = reads_message;
}

-- A group is its epoch, and leaf 1 belongs to member 5.
abbrev pub client_groups : ClientGroups
client_groups = record {
  Group = ℕ;
  PendingJoinState = Unit {0};
  create = λ room_id member_id random. ok (0, []);
  generate_key_package = λ member_id random. ok (([], []), tt);
  join_from_welcome = λ room_id member_id bytes pending. ok (0, []);
  epoch = λ g. g;
  own_leaf_index = λ g. 1;
  member_leaf_indices = λ g. 0 ∷ 1 ∷ [];
  member_id_by_leaf_index = λ g leaf. some (leaf + 4);
  export_secret = λ g. ok (3 ∷ []);
  export_state = λ g. ok [];
  export_validation_state = λ g. room_state;
  sign = λ g. echo_sign;
  process_message = λ g frame. (ok [], g + 1);
  add_members_from_bytes = λ g key_packages now. (ok [], g);
  is_commit_timeout = λ g now timeout. false;
  clear_pending_commit = λ g. g;
}

abbrev libraries : Ed25519 → ClientLibraries
libraries dalek = record {
  groups = client_groups;
  dalek = dalek;
  cbor = record toy_cbor { app_message = message_codec };
  crypto = toy_crypto;
}

-- Room 7 at epoch 0, with the ratchet of leaf 1 at its start.
abbrev room : (dalek : Ed25519) → RoomState (libraries dalek)
room dalek = record {
  mls_group = 0;
  sender_keys = record { epoch = 0; ratchets = (1, Ratchet.new (1 ∷ 2 ∷ [])) ∷ [] };
  my_leaf_index = 1;
}

abbrev client : (dalek : Ed25519) → ℕ → Client (libraries dalek)
client dalek id = record { sender_id = id; rooms = (7, room dalek) ∷ []; pending_joins = [] }

-- The message of leaf 1 at generation 0 with the plaintext 42.
abbrev pub encrypted_frame : Frame
encrypted_frame = record (message 9) { payload = 0 ∷ 1 ∷ 0 ∷ 0 ∷ (replicate 16 0 ++ 42 ∷ []) }

abbrev answer_as : (dalek : Ed25519) → Option (Answer (libraries dalek)) → Answer (libraries dalek)
answer_as dalek none = (ok [], client dalek 0)
answer_as dalek (some answer) = answer

abbrev received : Option (Answer (libraries toy_dalek))
received = handle_app_message (libraries toy_dalek) 7 encrypted_frame (client toy_dalek 4)

abbrev delivery : List ClientAction
delivery =
    deliver 7 5 (42 ∷ []) (Header.log_index encrypted_frame.header)
      (Header.hlc_timestamp encrypted_frame.header)
    ∷ []

in_room : (dalek : Ed25519) (id : ℕ) → get (client dalek id).rooms 7 ≡ some (room dalek)
unfolding get
in_room dalek id = refl

-- The ratchet gives its first key at once.
first_advance :
    advance_to toy_crypto.hmac 0 (Ratchet.new (1 ∷ 2 ∷ []))
    ≡ some (ok (key_of toy_crypto.hmac (1 ∷ 2 ∷ []) 0), ratchet_at toy_crypto.hmac (1 ∷ 2 ∷ []) 1)
first_advance =
    advance_to_lem toy_crypto.hmac (1 ∷ 2 ∷ []) 0 0 (omega arith) (omega arith) (omega arith)

decrypted :
    decrypt toy_crypto
      (record {
        epoch = 0;
        sender_index = 1;
        generation = 0;
        nonce = [];
        ciphertext = replicate 16 0 ++ 42 ∷ [];
      })
      (room toy_dalek).sender_keys
    ≡ some (
      ok (42 ∷ []),
      set_ratchet 1 (ratchet_at toy_crypto.hmac (1 ∷ 2 ∷ []) 1) (room toy_dalek).sender_keys,
    )
unfolding decrypt get decrypt_message
decrypted = rw first_advance refl

abbrev after_delivery : Client (libraries toy_dalek)
after_delivery =
    set_keys (libraries toy_dalek) 7 (room toy_dalek)
      (set_ratchet 1 (ratchet_at toy_crypto.hmac (1 ∷ 2 ∷ []) 1) (room toy_dalek).sender_keys)
      (client toy_dalek 4)

received_well : received ≡ some (ok delivery, after_delivery)
unfolding handle_app_message check_app_message validate_in_group validate_frame validate_signature
    get Header.epoch Header.sender_id from_be_bytes is_member member_key contains
    Header.signing_data
received_well = rw decrypted refl

handle_app_message-delivers_example :
    (sender : ℕ) × (plaintext : List ℕ) × (encrypted : EncryptedMessage) × (keys : SenderKeyStore)
    × IsChecked (libraries toy_dalek) (room toy_dalek) encrypted_frame sender encrypted
    × (decrypt toy_crypto encrypted (room toy_dalek).sender_keys ≡ some (ok plaintext, keys))
    × (delivery
        ≡ deliver 7 sender plaintext
            (Header.log_index encrypted_frame.header)
            (Header.hlc_timestamp encrypted_frame.header)
          ∷ [])
handle_app_message-delivers_example =
    handle_app_message-delivers (libraries toy_dalek) 7 (room toy_dalek) encrypted_frame
      (client toy_dalek 4) after_delivery delivery (in_room toy_dalek 4) received_well

client_in_room : Client.is_member (libraries toy_dalek) (client toy_dalek 4) 7 ≡ true
unfolding Client.is_member contains_key get
client_in_room = refl

handle_frame-StaysIn_example :
    StaysIn
      (libraries toy_dalek)
      7
      (handle_frame (libraries toy_dalek) 3 encrypted_frame (client toy_dalek 4))
handle_frame-StaysIn_example =
    handle_frame-StaysIn (libraries toy_dalek) 7 3 encrypted_frame (client toy_dalek 4)
      client_in_room

-- Member 5 sends a message.
abbrev plain_header : FrameHeader
plain_header = unsigned (libraries echo_dalek) 7 (room echo_dalek) (client echo_dalek 5)

plain_signed : echo_sign (signed_prefix plain_header) ≡ some (signed_prefix plain_header)
unfolding signed_prefix to_bytes Header.set_epoch Header.set_sender_id Header.set_room_id Header.new
    Header.new_bytes Header.read_prefix to_be_bytes to_u16
plain_signed = refl

plain_length : length (signed_prefix plain_header) ≡ 64
unfolding signed_prefix to_bytes Header.set_epoch Header.set_sender_id Header.set_room_id Header.new
    Header.new_bytes Header.read_prefix to_be_bytes to_u16
plain_length = refl

abbrev sent_frame : Frame
sent_frame =
    Frame.new (message_header (libraries echo_dalek) 7 (room echo_dalek) (client echo_dalek 5))
      (0 ∷ 1 ∷ 0 ∷ 16 ∷ build_nonce 0 1 0 [] ++ (replicate 16 0 ++ 42 ∷ []))

abbrev after_sending : Client (libraries echo_dalek)
after_sending =
    set_keys (libraries echo_dalek) 7 (room echo_dalek)
      (set_ratchet 1 (ratchet_at toy_crypto.hmac (1 ∷ 2 ∷ []) 1) (room echo_dalek).sender_keys)
      (client echo_dalek 5)

sent_well :
    handle_send_message (libraries echo_dalek) 7 (42 ∷ []) [] (client echo_dalek 5)
    ≡ some (ok (send sent_frame ∷ []), after_sending)
unfolding handle_send_message encrypt encrypt_message get advance build_nonce to_be_bytes
sent_well = refl

handle_app_message-refuses_sent_example :
    handle_app_message (libraries echo_dalek) 7 sent_frame (client echo_dalek 4)
    ≢ some (ok (deliver 7 5 (42 ∷ []) 0 0 ∷ []), client echo_dalek 4)
handle_app_message-refuses_sent_example =
    handle_app_message-refuses_sent (libraries echo_dalek) 7 (room echo_dalek) (room echo_dalek)
      (42 ∷ []) [] (signed_prefix plain_header) sent_frame (client echo_dalek 5) after_sending
      (client echo_dalek 4) (client echo_dalek 4) (deliver 7 5 (42 ∷ []) 0 0 ∷ [])
      (in_room echo_dalek 5) (in_room echo_dalek 4) echo_binds plain_signed plain_length sent_well

decode-bare_frame_example :
    (encode (bare_frame Opcode.commit (1 ∷ 2 ∷ [])) []
      ≡ ok (to_bytes (Header.new Opcode.commit) ++ 1 ∷ 2 ∷ []))
    × (decode (to_bytes (Header.new Opcode.commit) ++ 1 ∷ 2 ∷ [])
        ≡ ok (bare_frame Opcode.commit []))
    × (Header.room_id (Header.new Opcode.commit) ≡ 0)
decode-bare_frame_example = decode-bare_frame Opcode.commit (1 ∷ 2 ∷ []) (omega arith)
