-- ===== src/Tests/Ordering.antt =====
-- The order of a room's log at the small server.
use kalandra.Prelude.{
  ℕ, ◌+◌, ◌^◌, ◌<◌, ◌≡◌, ◌≢◌, refl, false, none, some, [], ◌∷◌, ◌++◌, length, take, drop, ok, err,
  arith, get, if◌then◌else◌, ◌==◌, All, ltb, ◌-◌, contains,
}
use kalandra.Proto.Bytes.{from_be_bytes}
use kalandra.Proto.Opcode.{is_some_opcode, commit, from_u16}
use kalandra.Proto.Header
use kalandra.Proto.Frame
use kalandra.Proto.Frame.{Frame}
use kalandra.Mls.State.{is_member, member_key}
use kalandra.Mls.Validator.{validate_signature, signature_failed}
use kalandra.Mls.Group.{validation_failed}
use kalandra.Storage.{conflict}
use kalandra.Storage.Memory
use kalandra.Storage.Memory.{MemoryStorage, memory_storage, load_frames, store_frame}
use kalandra.Storage.Memory.Log.{memory_contract, load_frames_overflow, store_frame_lem}
use kalandra.Sequencer
use kalandra.Sequencer.{accepted, rebuild_frame_with_index}
use kalandra.Sequencer.Structure.{IsStructured}
use kalandra.Sequencer.Indices.{IsSequenced, assigned, process_frame_accepts, next_of}
use kalandra.Rooms.{mls_validation, validate_frame_basic, check_signature, send_sync_response}
use kalandra.Rooms.Sync.{sync_response, handle_sync_request, wire, IsSendable}
use kalandra.Rooms.Serve.{Server, serve, serve_frame}
use kalandra.Rooms.Order.Effect.{next, log_of, placed_frame}
use kalandra.Rooms.Order.Invariant.{IsOrdered, serve-IsOrdered}
use kalandra.Rooms.Order.Gap.{IsAdmitted, IsAhead, signature_failure_ends_log, serve_frame-stores}
use kalandra.Tests.Data.{message, toy_dalek, toy_groups, toy_manager, toy_server, room_state}

pub toy_server-IsOrdered : IsOrdered memory_storage memory_contract toy_groups toy_dalek toy_server
unfolding get memory_contract
toy_server-IsOrdered = record {
  dense = λ room i frame e. cc;
  behind = λ room. omega arith;
  bounded = λ room. omega arith;
}

serve-IsOrdered_example :
    IsOrdered memory_storage memory_contract toy_groups toy_dalek
      (serve memory_storage toy_groups toy_dalek toy_server ((1, message 9) ∷ (2, message 0) ∷ []))
serve-IsOrdered_example =
    serve-IsOrdered memory_storage memory_contract toy_groups toy_dalek toy_server
      ((1, message 9) ∷ (2, message 0) ∷ []) toy_server-IsOrdered

pub message-IsStructured : (mark : ℕ) → IsStructured (message mark)
unfolding Header.magic Header.payload_size Header.room_id Header.epoch from_be_bytes
message-IsStructured mark = record {
  magic = refl;
  version = refl;
  sized = refl;
  room = λ e. absurd (omega (arith, e));
  epoch = omega arith;
}

pub message-IsSequenced : (mark : ℕ) → IsSequenced (message mark)
unfolding Header.opcode_enum Header.opcode from_be_bytes from_u16 is_some_opcode
message-IsSequenced mark = refl

pub message-IsAdmitted :
    (mark : ℕ)
    → IsAdmitted memory_storage memory_contract toy_groups toy_dalek toy_server
        (message mark)
        0
        (some room_state)
unfolding get memory_contract Header.room_id Header.epoch Header.sender_id from_be_bytes
    validate_frame_basic is_member contains member_key Memory.load_mls_state
message-IsAdmitted mark = record {
  known = refl;
  loaded = refl;
  member = refl;
  structured = message-IsStructured mark;
  sequenced = message-IsSequenced mark;
  room_left = omega arith;
}

-- The message keeps its signature when it is rebuilt.
pub signed_well :
    check_signature toy_dalek
      (placed_frame memory_storage memory_contract toy_groups toy_dalek toy_server (message 9))
      (some room_state)
    ≡ ok tt
unfolding check_signature memory_contract get Header.room_id Header.sender_id Header.opcode_enum
    Header.opcode from_be_bytes from_u16 rebuild_frame_with_index Frame.new Header.set_log_index
    member_key validate_signature Header.signing_data
signed_well = refl

signed_badly :
    check_signature toy_dalek
      (placed_frame memory_storage memory_contract toy_groups toy_dalek toy_server (message 0))
      (some room_state)
    ≡ err (mls_validation (validation_failed (signature_failed 5)))
unfolding check_signature memory_contract get Header.room_id Header.sender_id Header.opcode_enum
    Header.opcode from_be_bytes from_u16 rebuild_frame_with_index Frame.new Header.set_log_index
    member_key validate_signature Header.signing_data
signed_badly = refl

pub message_not_commit : is_some_opcode (Header.opcode_enum (message 9).header) commit ≡ false
unfolding Header.opcode_enum Header.opcode from_be_bytes from_u16 is_some_opcode
message_not_commit = refl

pub level :
    next memory_storage memory_contract toy_groups toy_dalek toy_server
      (Header.room_id (message 9).header)
    ≡ length (
        log_of memory_storage memory_contract toy_groups toy_dalek toy_server
          (Header.room_id (message 9).header))
unfolding get memory_contract
level = refl

serve_frame-stores_example :
    log_of memory_storage memory_contract toy_groups toy_dalek
      (serve_frame memory_storage toy_groups toy_dalek toy_server (1, message 9))
      7
    ≡ (if Header.room_id (message 9).header == 7
        then log_of memory_storage memory_contract toy_groups toy_dalek toy_server 7
          ++ placed_frame memory_storage memory_contract toy_groups toy_dalek toy_server (message 9)
            ∷ []
        else log_of memory_storage memory_contract toy_groups toy_dalek toy_server 7)
serve_frame-stores_example =
    serve_frame-stores memory_storage memory_contract toy_groups toy_dalek toy_server 1 (message 9)
      0 (some room_state) 7 toy_server-IsOrdered (message-IsAdmitted 9) signed_well
      message_not_commit level

signature_failure_ends_log_example :
    log_of memory_storage memory_contract toy_groups toy_dalek
      (serve memory_storage toy_groups toy_dalek
        (serve_frame memory_storage toy_groups toy_dalek toy_server (1, message 0))
        ((2, message 9) ∷ []))
      (Header.room_id (message 0).header)
    ≡ log_of memory_storage memory_contract toy_groups toy_dalek toy_server
        (Header.room_id (message 0).header)
signature_failure_ends_log_example =
    signature_failure_ends_log memory_storage memory_contract toy_groups toy_dalek toy_server 1
      (message 0) 0 (some room_state) (mls_validation (validation_failed (signature_failed 5)))
      ((2, message 9) ∷ []) toy_server-IsOrdered (message-IsAdmitted 0) signed_badly

small_log :
    length (memory_contract.log toy_server.store (Header.room_id (message 9).header)) < 2 ^ 64
unfolding get memory_contract
small_log = omega arith

next_below :
    next_of memory_storage memory_contract Sequencer.new toy_server.store
        (Header.room_id (message 9).header)
      + 1
    < 2 ^ 64
unfolding get memory_contract
next_below = omega arith

process_frame_accepts_example :
    Sequencer.process_frame memory_storage (message 9) toy_server.store Sequencer.new ≡ (
      ok (
          accepted
            (Header.room_id (message 9).header)
            (next_of memory_storage memory_contract Sequencer.new toy_server.store
              (Header.room_id (message 9).header))
            (rebuild_frame_with_index (message 9) (
              next_of memory_storage memory_contract Sequencer.new toy_server.store
                (Header.room_id (message 9).header)))),
      assigned memory_storage memory_contract Sequencer.new toy_server.store
          (Header.room_id (message 9).header),
    )
process_frame_accepts_example =
    process_frame_accepts memory_storage memory_contract Sequencer.new toy_server.store (message 9)
      (message-IsStructured 9) (message-IsSequenced 9) small_log next_below

-- The server after an index was lost.
abbrev ahead_server : Server memory_storage toy_groups toy_dalek
ahead_server = record toy_server {
  manager = record toy_manager {
    sequencer = record { rooms = (7, record { next_log_index = 1 }) ∷ [] };
  };
}

ahead_server-IsOrdered : IsOrdered memory_storage memory_contract toy_groups toy_dalek ahead_server
unfolding get memory_contract
ahead_server-IsOrdered = record {
  dense = λ room i frame e. cc;
  behind = λ room. omega arith;
  bounded = λ room. ground arith;
}

ahead_server-IsAhead : IsAhead memory_storage memory_contract toy_groups toy_dalek ahead_server 7
unfolding get memory_contract
ahead_server-IsAhead = omega arith

-- A store with one frame in room 7.
abbrev one_frame : MemoryStorage
one_frame = record { frames = (7, message 9 ∷ []) ∷ []; mls_states = [] }

one_frame_log : memory_contract.log one_frame 7 ≡ message 9 ∷ []
unfolding get memory_contract
one_frame_log = refl

one_frame_some : memory_contract.log one_frame 7 ≢ []
one_frame_some e = cc (e, one_frame_log)

one_frame-IsSendable : All IsSendable (memory_contract.log one_frame 7)
unfolding get memory_contract
one_frame-IsSendable = (omega arith, tt)

room_known : get toy_manager.groups 7 ≡ some 0
unfolding get
room_known = refl

sync_response_example :
    let page = take 10 (drop 0 (memory_contract.log one_frame 7)) in
    handle_sync_request memory_storage toy_groups toy_dalek toy_manager 7 5 0 10 1 one_frame
    ≡ some (
        ok (
          send_sync_response 5 7
            (wire page)
            (ltb (0 + length page) (length (memory_contract.log one_frame 7)))
            0
            1))
sync_response_example =
    sync_response memory_storage memory_contract toy_groups toy_dalek toy_manager one_frame 7 5 0 10
      1 0 room_known one_frame_some one_frame-IsSendable (omega arith) (omega arith)

store_frame_lem_example :
    ((store_frame one_frame 7 1 (message 9)).0 ≡ (
      if 1 == length (Memory.Log.log one_frame 7)
      then ok tt
      else err (conflict (length (Memory.Log.log one_frame 7)) 1)))
    × (Memory.Log.log (store_frame one_frame 7 1 (message 9)).1 8 ≡ (
        if 1 == length (Memory.Log.log one_frame 7)
        then (if 7 == 8
            then Memory.Log.log one_frame 7 ++ message 9 ∷ []
            else Memory.Log.log one_frame 8)
        else Memory.Log.log one_frame 8))
store_frame_lem_example = store_frame_lem one_frame 7 1 8 (message 9)

one_frame_stored : get one_frame.frames 7 ≡ some (message 9 ∷ [])
unfolding get
one_frame_stored = refl

load_frames_overflow_example : load_frames one_frame 7 1 (2 ^ 64 - 1) ≡ none
load_frames_overflow_example =
    load_frames_overflow one_frame 7 1 (2 ^ 64 - 1) (message 9 ∷ []) one_frame_stored (omega arith)
      (omega arith) (omega arith) (omega arith)
