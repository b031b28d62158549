-- ===== src/Rooms.antt =====
-- crates/lockframe-server/src/room_manager.rs: validation and sequencing for each room. The storage,
-- the MLS groups and the signature library are interfaces; `now` is the environment's clock.
pub mod Manager
pub mod Sync
pub mod Persist
pub mod Serve
pub mod Order
use kalandra.Prelude.{
  ℕ, ◌+◌, ◌-◌, ◌==◌, ltb, not, if◌then◌else◌, Bool, true, false, Option, none, some, List, [], ◌∷◌,
  ◌++◌, map, length, Result, ok, err, ok_or, map_err, reject_if, is_some_and, HashMap, get, insert,
  contains_key,
}
use kalandra.Prelude.Exec.{Exec, pure, raise, lift, gets, modify, ◌>>=◌, ◌>>◌}
use kalandra.Proto.Opcode
use kalandra.Proto.Opcode.{Opcode, is_some_opcode}
use kalandra.Proto.Header
use kalandra.Proto.Frame.{Frame}
use kalandra.Mls.State.{Ed25519, MlsGroupState, is_member, member_key}
use kalandra.Mls.Validator.{ValidationResult, accept, reject, validate_signature}
use kalandra.Mls.Group.{MlsError, MlsGroups, member_not_found, validation_failed}
use kalandra.Storage.{Storage, StorageError}
use kalandra.Sequencer
use kalandra.Sequencer.{
  Sequencer, SequencerError, SequencerAction, accept_frame, store_frame, broadcast_to_room,
  reject_frame,
}

pub record RoomMetadata : Type 0 where
  pub creator : ℕ
  pub created_at : ℕ

pub data RoomAction : Type 0 where
  broadcast : (room_id : ℕ) → Frame → (exclude_sender : Bool) → (processed_at : ℕ) → RoomAction
  persist_frame : (room_id log_index : ℕ) → Frame → (processed_at : ℕ) → RoomAction
  persist_mls_state : (room_id : ℕ) → MlsGroupState → (processed_at : ℕ) → RoomAction
  reject_sender : (sender_id : ℕ) → SequencerError → (processed_at : ℕ) → RoomAction
  send_sync_response :
      (sender_id room_id : ℕ)
      → (frames : List (List ℕ)) → (has_more : Bool) → (server_epoch processed_at : ℕ) → RoomAction

pub data RoomError : Type 0 where
  mls_validation : MlsError → RoomError
  sequencing : SequencerError → RoomError
  storage : StorageError → RoomError
  room_not_found room_already_exists : ℕ → RoomError
  invalid_epoch : (expected actual : ℕ) → RoomError
  not_member : ℕ → RoomError

-- The arms of the `map` over the sequencer's actions.
unfoldable pub to_room_action : ℕ → SequencerAction → RoomAction
to_room_action now (accept_frame room_id log_index frame) =
    persist_frame room_id log_index frame now
to_room_action now (store_frame room_id log_index frame) = persist_frame room_id log_index frame now
to_room_action now (broadcast_to_room room_id frame) = broadcast room_id frame false now
to_room_action now (reject_frame room_id reason original) =
    reject_sender (Header.sender_id original.header) reason now

module _ (dalek : Ed25519) where
  -- Epoch and membership, for a room with and without a stored MLS state.
  abbrev check_member : ℕ → ℕ → Option MlsGroupState → Result RoomError (Unit {0})
  check_member frame_epoch sender_id none =
      reject_if (not (frame_epoch == 0)) (invalid_epoch 0 frame_epoch)
  check_member frame_epoch sender_id (some state) =
      if not (is_member state sender_id)
      then err (not_member sender_id)
      else reject_if (not (is_some_and (member_key dalek state sender_id) (λ _. true)))
          (mls_validation (member_not_found sender_id))

  -- `validate_frame_basic`, given the epoch of the group.
  unfoldable pub validate_frame_basic :
      Frame → ℕ → Option MlsGroupState → Result RoomError (Unit {0})
  validate_frame_basic frame group_epoch mls_state =
      let frame_epoch = Header.epoch frame.header in
      if not (frame_epoch == group_epoch)
      then err (invalid_epoch group_epoch frame_epoch)
      else check_member frame_epoch (Header.sender_id frame.header) mls_state

  abbrev or_validation_failed : ValidationResult → Result RoomError (Unit {0})
  or_validation_failed accept = ok tt
  or_validation_failed (reject reason) = err (mls_validation (validation_failed reason))

  -- Commits, proposals, Welcomes and unknown opcodes are not checked, nor is a room without state.
  abbrev check_opcode : Frame → Option MlsGroupState → Option Opcode → Result RoomError (Unit {0})
  check_opcode frame mls_state none = ok tt
  check_opcode frame mls_state (some Opcode.commit) = ok tt
  check_opcode frame mls_state (some Opcode.proposal) = ok tt
  check_opcode frame mls_state (some Opcode.welcome) = ok tt
  check_opcode frame none (some _) = ok tt
  check_opcode frame (some state) (some _) =
      or_validation_failed (validate_signature dalek frame state)

  unfoldable pub check_signature : Frame → Option MlsGroupState → Result RoomError (Unit {0})
  check_signature frame mls_state = check_opcode frame mls_state (Header.opcode_enum frame.header)

  abbrev check_action : SequencerAction → Option MlsGroupState → Result RoomError (Unit {0})
  check_action (accept_frame _ _ frame) mls_state = check_signature frame mls_state
  check_action (store_frame _ _ frame) mls_state = check_signature frame mls_state
  check_action (broadcast_to_room _ frame) mls_state = check_signature frame mls_state
  check_action (reject_frame _ _ _) mls_state = ok tt

  -- `validate_sequenced_actions_signatures`: the first failure ends the loop.
  unfoldable pub validate_signatures :
      List SequencerAction → Option MlsGroupState → Result RoomError (Unit {0})
  unfolding check_signature
  validate_signatures [] mls_state = ok tt
  validate_signatures (action ∷ rest) mls_state =
      let later = validate_signatures rest mls_state in
      elim (check_action action mls_state) [ ok _ ↦ later | err e ↦ err e ]
