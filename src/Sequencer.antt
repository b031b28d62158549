-- ===== src/Sequencer.antt =====
-- crates/lockframe-server/src/sequencer.rs: log indices for the frames of each room.
pub mod Structure
pub mod Indices
pub mod Rebuild
use kalandra.Prelude.{
  ℕ, ◌+◌, ◌%◌, ◌^◌, ◌==◌, ltb, leb, not, if◌then◌else◌, Option, none, some, List, [], ◌∷◌, length,
  map_or, Result, ok, err, reject_if, HashMap, get, insert,
}
use kalandra.Prelude
use kalandra.Prelude.Exec.{Exec, pure, raise, lift, modify, ◌>>=◌, ◌>>◌}
use kalandra.Proto.Opcode.{is_some_opcode, welcome}
use kalandra.Proto.Header
use kalandra.Proto.Header.{magic_number, current_version}
use kalandra.Proto.Frame
use kalandra.Proto.Frame.{Frame}
use kalandra.Mls.State.{max_epoch}
use kalandra.Storage.{Storage, StorageError}

-- The texts of the errors are data with the values that they show.
pub data Invalid : Type 0 where
  invalid_magic unsupported_version : (got expected : ℕ) → Invalid
  payload_size_mismatch : (claimed actual : ℕ) → Invalid
  room_id_zero : Invalid
  epoch_too_large : ℕ → Invalid
  log_index_overflow : ℕ → Invalid

pub data SequencerError : Type 0 where
  storage : StorageError → SequencerError
  validation : Invalid → SequencerError
  rejected : SequencerError

pub data SequencerAction : Type 0 where
  accept_frame store_frame : (room_id log_index : ℕ) → Frame → SequencerAction
  reject_frame : (room_id : ℕ) → SequencerError → Frame → SequencerAction
  broadcast_to_room : (room_id : ℕ) → Frame → SequencerAction

pub record RoomSequencer : Type 0 where
  pub next_log_index : ℕ

pub record Sequencer : Type 0 where
  pub rooms : HashMap RoomSequencer

abbrev pub new : Sequencer
new = record { rooms = [] }

unfoldable pub validate_frame_structure : Frame → Result SequencerError (Unit {0})
validate_frame_structure frame =
    let magic = Header.magic frame.header in
    let version = frame.header.version in
    let payload_size = Header.payload_size frame.header in
    let epoch = Header.epoch frame.header in
    if not (magic == magic_number)
    then err (validation (invalid_magic magic magic_number))
    else if not (version == current_version)
    then err (validation (unsupported_version version current_version))
    else if not (length frame.payload == payload_size)
    then err (validation (payload_size_mismatch payload_size (length frame.payload)))
    else if Header.room_id frame.header == 0
    then err (validation room_id_zero)
    else if ltb max_epoch epoch
    then err (validation (epoch_too_large epoch))
    else ok tt

-- `rebuild_frame_with_index`, which does not fail.
unfoldable pub rebuild_frame_with_index : Frame → ℕ → Frame
rebuild_frame_with_index original log_index =
    Frame.new (Header.set_log_index original.header log_index) original.payload

-- The actions for an accepted frame.
abbrev pub accepted : ℕ → ℕ → Frame → List SequencerAction
accepted room_id log_index frame =
    accept_frame room_id log_index frame
    ∷ store_frame room_id log_index frame
    ∷ broadcast_to_room room_id frame
    ∷ []

abbrev pub set_next : ℕ → ℕ → Sequencer → Sequencer
set_next room_id next q = record q {
  rooms = insert q.rooms room_id (record { next_log_index = next });
}

module _ (S : Storage) where
  -- The index after the latest stored one.
  abbrev pub index_after : Option ℕ → ℕ
  index_after none = 0
  index_after (some i) = (i + 1) % 2 ^ 64

  -- A room that is not cached is put in the cache with the index that the storage gives.
  abbrev load_room : ℕ → Result StorageError (Option ℕ) → Exec Sequencer SequencerError ℕ
  load_room room_id (err e) q = (err (storage e), q)
  load_room room_id (ok latest_index) q =
      (ok (index_after latest_index), set_next room_id (index_after latest_index) q)

  abbrev open_cached : S.Store → ℕ → Option RoomSequencer → Exec Sequencer SequencerError ℕ
  open_cached store room_id none = load_room room_id (S.latest_log_index store room_id)
  open_cached store room_id (some room) = pure room.next_log_index

  unfoldable pub open_room : S.Store → ℕ → Exec Sequencer SequencerError ℕ
  open_room store room_id q = open_cached store room_id (get q.rooms room_id) q

  -- `checked_add` fails at `u64::MAX`.
  unfoldable pub assign : S.Store → Frame → Exec Sequencer SequencerError (List SequencerAction)
  unfolding open_room
  assign store frame = do
    let room_id = Header.room_id frame.header
    log_index ← open_room store room_id
    lift (reject_if (leb (2 ^ 64) (log_index + 1)) (validation (log_index_overflow room_id)))
    modify (set_next room_id (log_index + 1))
    pure (accepted room_id log_index (rebuild_frame_with_index frame log_index))

  -- `Sequencer::process_frame`. A Welcome is passed on without an index.
  unfoldable pub process_frame :
      Frame → S.Store → Exec Sequencer SequencerError (List SequencerAction)
  unfolding assign
  process_frame frame store = do
    lift (validate_frame_structure frame)
    let room_id = Header.room_id frame.header
    let is_welcome = is_some_opcode (Header.opcode_enum frame.header) welcome
    if is_welcome then pure (broadcast_to_room room_id frame ∷ []) else assign store frame
