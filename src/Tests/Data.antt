-- ===== src/Tests/Data.antt =====
-- Sample frames, a toy signature library, toy MLS groups and a small server.
use kalandra.Prelude.{
  ℕ, zero, suc, ◌+◌, ◌==◌, ◌≡◌, refl, false, Option, none, some, List, [], ◌∷◌, ◌++◌, length, drop,
  arith, replicate, get_elem?, is_some_and, ok, err,
}
use kalandra.Proto.Bytes.{from_be_bytes}
use kalandra.Proto.Header
use kalandra.Proto.Header.{FrameHeader, IsShaped, current_version}
use kalandra.Proto.Frame.{Frame}
use kalandra.Proto.Frame.Wire.{IsFrame}
use kalandra.Proto.Payload.{Ciborium, Cbor}
use kalandra.Proto.Payload.Types.{Goodbye, Hello}
use kalandra.Mls.State.{Ed25519, MlsGroupState}
use kalandra.Mls.Group.{MlsGroups, MlsError}
use kalandra.Storage.Memory.{memory_storage}
use kalandra.Sequencer
use kalandra.Rooms.Manager.{RoomManager}
use kalandra.Rooms.Serve.{Server}
use kalandra.SenderKeys.Store.{Crypto}
use kalandra.Driver.{Libraries}

-- An application message of session 5 to room 7 with two bytes, signed with the given byte.
abbrev pub message_header : ℕ → FrameHeader
message_header mark = record {
  magic = 0x4C ∷ 0x4F ∷ 0x46 ∷ 0x52 ∷ [];
  version = current_version;
  flags = 0;
  opcode = 0x20 ∷ 0 ∷ [];
  request_id = replicate 4 0;
  payload_size = 0 ∷ 0 ∷ 0 ∷ 2 ∷ [];
  room_id = replicate 15 0 ++ 7 ∷ [];
  sender_id = replicate 7 0 ++ 5 ∷ [];
  context_id = replicate 8 0;
  hlc_timestamp = replicate 8 0;
  epoch = replicate 8 0;
  signature = replicate 64 mark;
}

abbrev pub message : ℕ → Frame
message mark = record { header = message_header mark; payload = 104 ∷ 105 ∷ [] }

pub message_header-IsShaped : (mark : ℕ) → IsShaped (message_header mark)
message_header-IsShaped mark = record {
  magic = refl;
  opcode = refl;
  request_id = refl;
  payload_size = refl;
  room_id = refl;
  sender_id = refl;
  context_id = refl;
  hlc_timestamp = refl;
  epoch = refl;
  signature = refl;
}

pub message-IsFrame : (mark : ℕ) → IsFrame (message mark)
unfolding Header.magic Header.payload_size from_be_bytes
message-IsFrame mark = record {
  shaped = message_header-IsShaped mark;
  magic = refl;
  version = refl;
  sized = refl;
}

-- A signature verifies when it starts with a 9.
abbrev pub toy_dalek : Ed25519
toy_dalek = record {
  VerifyingKey = List ℕ;
  Signature = List ℕ;
  verifying_key = λ bytes. some bytes;
  signature = λ bytes. some bytes;
  verify = λ key bytes x. is_some_and (get_elem? x 0) (λ b. b == 9);
}

-- A group is its epoch.
abbrev pub toy_groups : MlsGroups
toy_groups = record {
  Group = ℕ;
  Action = Unit {0};
  create = λ room id. ok 0;
  epoch = λ g. g;
  has_mls_pending_commit = λ g. false;
  merge_pending_commit = λ g. (ok tt, g);
  process_message = λ g f. (ok [], g);
  export_group_state = λ g. err (MlsError.member_not_found g);
  add_members_from_bytes = λ g ks. (ok [], g);
  remove_members = λ g ids. (ok [], g);
  leave_group = λ g. (ok [], g);
}

abbrev pub room_state : MlsGroupState
room_state = record {
  room_id = 7;
  epoch = 0;
  tree_hash = replicate 32 0;
  members = 5 ∷ [];
  member_keys = (5, 1 ∷ []) ∷ [];
  openmls_state = [];
}

-- A server with room 7, whose only member is 5, and no frames yet.
abbrev pub toy_manager : RoomManager memory_storage toy_groups toy_dalek
toy_manager = record { groups = (7, 0) ∷ []; sequencer = Sequencer.new; room_metadata = [] }

abbrev pub toy_server : Server memory_storage toy_groups toy_dalek
toy_server = record {
  manager = toy_manager;
  store = record { frames = []; mls_states = (7, room_state) ∷ [] };
}

pub reads_text :
    (a : Goodbye) (bytes : List ℕ)
    → some a.reason ≡ some bytes
    → some (record { reason = bytes }) ≡ some a
reads_text a bytes e = cc

-- A farewell is its text.
abbrev text_codec : Cbor Goodbye
text_codec = record {
  into_writer = λ g. some g.reason;
  from_reader = λ bytes. some (record { reason = bytes });
  reads_written = reads_text;
}

pub reads_nothing : {A : Type 0} → (a : A) (bytes : List ℕ) → none ≡ some bytes → none ≡ some a
reads_nothing a bytes e = cc

-- A codec that writes nothing.
abbrev no_codec : {A : Type 0} → Cbor A
no_codec = record {
  into_writer = λ a. none;
  from_reader = λ bytes. none;
  reads_written = reads_nothing;
}

abbrev pub toy_cbor : Ciborium
toy_cbor = record {
  hello = no_codec;
  hello_reply = no_codec;
  goodbye = text_codec;
  sync_request = no_codec;
  sync_response = no_codec;
  key_package = no_codec;
  proposal = no_codec;
  commit = no_codec;
  welcome = no_codec;
  app_message = no_codec;
  app_receipt = no_codec;
  app_reaction = no_codec;
  redact = no_codec;
  ban = no_codec;
  kick = no_codec;
  error = no_codec;
}

-- A goodbye that says "by".
abbrev pub farewell_frame : Frame
farewell_frame = record {
  header = record (message_header 9) { opcode = 0 ∷ 3 ∷ []; payload_size = 0 ∷ 0 ∷ 0 ∷ 2 ∷ [] };
  payload = 98 ∷ 121 ∷ [];
}

abbrev pub greeting : Hello
greeting = record { version = 1; capabilities = []; auth_token = none }

-- A cipher that puts 16 zeros in front.
abbrev open_toy : List ℕ → Option (List ℕ)
open_toy [] = none
open_toy (zero ∷ rest) = some (drop 15 rest)
open_toy (suc _ ∷ rest) = none

pub toy_tagged : (plaintext : List ℕ) → length (replicate 16 0 ++ plaintext) ≡ length plaintext + 16
toy_tagged plaintext = omega arith

pub toy_opens : (plaintext : List ℕ) → open_toy (replicate 16 0 ++ plaintext) ≡ some plaintext
toy_opens plaintext = refl

abbrev pub toy_crypto : Crypto
toy_crypto = record {
  hkdf = λ key info. info ++ key;
  hmac = λ key bytes. bytes ++ key;
  aead = record {
    seal = λ key nonce plaintext. replicate 16 0 ++ plaintext;
    open_sealed = λ key nonce ciphertext. open_toy ciphertext;
    opens = λ key nonce plaintext. toy_opens plaintext;
    tagged = λ key nonce plaintext. toy_tagged plaintext;
  };
}

abbrev pub toy_libraries : Libraries
toy_libraries = record {
  storage = memory_storage;
  groups = toy_groups;
  dalek = toy_dalek;
  cbor = toy_cbor;
  display = record {
    room_not_found = λ room_id. [];
    storage_error = λ e. [];
    mls_error = λ e. [];
    sequencer_error = λ e. [];
    server_error = λ e. [];
    protocol_fault = λ e. [];
  };
}
