-- ===== src/Client.antt =====
-- crates/lockframe-client/src/client.rs, event.rs and error.rs: the client's state, its events,
-- actions and errors. A text is data with what it shows; an MLS group is an interface.
pub mod Membership
pub mod Messages
pub mod Frames
pub mod Delivery
pub mod Rooms
pub mod Nesting
pub mod Refused
pub mod Groups
pub mod Timeouts
use kalandra.Prelude.{
  ℕ, Bool, true, false, Option, none, some, List, [], ◌∷◌, Result, HashMap, get, insert,
  contains_key, entry_count,
}
use kalandra.Proto.Errors.{ProtocolError}
use kalandra.Proto.Frame.{Frame}
use kalandra.Proto.Payload.{Ciborium}
use kalandra.Proto.Payload.Types.{Text}
use kalandra.Mls.State.{Ed25519, MlsGroupState}
use kalandra.Mls.Group.{MlsError}
use kalandra.Mls.Member.{
  GroupMessage, MlsAction, send_commit, send_proposal, send_message, send_welcome, deliver_message,
  remove_group, log,
}
use kalandra.Ratchet.{SenderKeyError}
use kalandra.SenderKeys.Store.{SenderKeyStore, Crypto}

-- The operations of `MlsGroup` that the client calls. An operation on `&mut self` returns the group
-- beside its result. `random` stands for what an operation draws from the environment, `sign` for
-- the group's key pair, and `export_secret` has the client's label, context and length in it.
pub record ClientGroups : Type 1 where
  pub Group : Type 0
  pub PendingJoinState : Type 0
  pub create :
      (room_id member_id : ℕ) → (random : List ℕ) → Result MlsError (Group × List MlsAction)
  pub generate_key_package :
      (member_id : ℕ) → (random : List ℕ) → Result MlsError ((List ℕ × List ℕ) × PendingJoinState)
  pub join_from_welcome :
      (room_id member_id : ℕ)
      → (welcome_bytes : List ℕ) → PendingJoinState
      → Result MlsError (Group × List MlsAction)
  pub epoch : Group → ℕ
  pub own_leaf_index : Group → ℕ
  pub member_leaf_indices : Group → List ℕ
  pub member_id_by_leaf_index : Group → ℕ → Option ℕ
  pub export_secret : Group → Result MlsError (List ℕ)
  pub export_state : Group → Result MlsError (List ℕ)
  pub export_validation_state : Group → MlsGroupState
  pub sign : Group → List ℕ → Option (List ℕ)
  pub process_message : Group → Frame → Result MlsError (List MlsAction) × Group
  pub add_members_from_bytes :
      Group → List (List ℕ) → (now : ℕ) → Result MlsError (List MlsAction) × Group
  pub is_commit_timeout : Group → (now timeout : ℕ) → Bool
  pub clear_pending_commit : Group → Group

-- What is below the client.
pub record ClientLibraries : Type 1 where
  pub groups : ClientGroups
  pub dalek : Ed25519
  pub cbor : Ciborium
  pub crypto : Crypto

-- In seconds.
abbrev pub commit_timeout : ℕ
commit_timeout = 30

-- The reasons inside the errors.
pub data MlsFault : Type 0 where
  group_error : MlsError → MlsFault
  no_pending_key_package : MlsFault

pub data FrameFault : Type 0 where
  unknown_opcode : ℕ → FrameFault
  not_valid : MlsError → FrameFault
  undecodable_message undecodable_sync_response : FrameFault
  unknown_sender_index : ℕ → FrameFault
  sender_id_mismatch : (claimed sender_index owner : ℕ) → FrameFault
  undecodable_sync_frame : ProtocolError → FrameFault

pub data ClientError : Type 0 where
  room_not_found room_already_exists : (room_id : ℕ) → ClientError
  epoch_mismatch : (expected actual : ℕ) → ClientError
  mls : MlsFault → ClientError
  sender_key : SenderKeyError → ClientError
  invalid_frame : FrameFault → ClientError
  invalid_state : ClientError
  sync_required : (room_id target_epoch : ℕ) → ClientError

pub data ClientEvent : Type 0 where
  frame_received : Frame → ClientEvent
  client_tick : (now : ℕ) → ClientEvent
  send_message_to : (room_id : ℕ) → (plaintext : List ℕ) → ClientEvent
  create_room leave_room : (room_id : ℕ) → ClientEvent
  join_room : (room_id : ℕ) → (welcome : List ℕ) → ClientEvent
  add_members : (room_id : ℕ) → (key_packages : List (List ℕ)) → ClientEvent

pub record RoomStateSnapshot : Type 0 where
  pub room_id : ℕ
  pub epoch : ℕ
  pub mls_state : List ℕ
  pub my_leaf_index : ℕ

pub data ClientMessage : Type 0 where
  by_group : GroupMessage → ClientMessage
  room_created room_joined_via_welcome room_joined_via_event : (room_id : ℕ) → ClientMessage
  processing_sync :
      (room_id frame_count : ℕ) → (has_more : Bool) → (server_epoch : ℕ) → ClientMessage
  sync_frame_failed : ClientError → ClientMessage
  sync_incomplete : (room_id current_epoch target : ℕ) → ClientMessage
  sync_complete commit_timed_out : (room_id epoch : ℕ) → ClientMessage

pub data Removal : Type 0 where
  left_room : Removal
  group_removed : GroupMessage → Removal

pub data ClientAction : Type 0 where
  send : Frame → ClientAction
  deliver :
      (room_id sender_id : ℕ) → (plaintext : List ℕ) → (log_index timestamp : ℕ) → ClientAction
  request_sync : (room_id from_epoch to_epoch : ℕ) → ClientAction
  persist_room : RoomStateSnapshot → ClientAction
  room_removed : (room_id : ℕ) → Removal → ClientAction
  note : ClientMessage → ClientAction

module _ (C : ClientLibraries) where
  pub record RoomState : Type 0 where
    pub mls_group : C.groups.Group
    pub sender_keys : SenderKeyStore
    pub my_leaf_index : ℕ

  -- `pending_joins` has the last one that was pushed in front.
  pub record Client : Type 0 where
    pub sender_id : ℕ
    pub rooms : HashMap RoomState
    pub pending_joins : List C.groups.PendingJoinState

  abbrev pub new : ℕ → Client
  new sender_id = record { sender_id = sender_id; rooms = []; pending_joins = [] }

  unfoldable pub room_count : Client → ℕ
  room_count c = entry_count c.rooms

  unfoldable pub is_member : Client → ℕ → Bool
  is_member c room_id = contains_key c.rooms room_id

  abbrev epoch_of : Option RoomState → Option ℕ
  epoch_of none = none
  epoch_of (some room) = some (C.groups.epoch room.mls_group)

  unfoldable pub epoch : Client → ℕ → Option ℕ
  epoch c room_id = epoch_of (get c.rooms room_id)

  abbrev pub set_room : ℕ → RoomState → Client → Client
  set_room room_id room c = record c { rooms = insert c.rooms room_id room }

  -- The arms of `convert_mls_actions`: every action has one.
  abbrev pub convert_mls_action : ℕ → MlsAction → ClientAction
  convert_mls_action room_id (send_commit frame) = send frame
  convert_mls_action room_id (send_proposal frame) = send frame
  convert_mls_action room_id (send_message frame) = send frame
  convert_mls_action room_id (send_welcome recipient frame) = send frame
  convert_mls_action room_id (deliver_message sender plaintext) =
      deliver room_id sender plaintext 0 0
  convert_mls_action room_id (remove_group reason) = room_removed room_id (group_removed reason)
  convert_mls_action room_id (log message) = note (by_group message)

  -- What an event gives.
  abbrev pub Answer : Type 0
  Answer = Result ClientError (List ClientAction) × Client
