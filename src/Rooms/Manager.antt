-- ===== src/Rooms/Manager.antt =====
-- crates/lockframe-server/src/room_manager.rs: `RoomManager` and its methods.
use kalandra.Prelude.{
  ℕ, if◌then◌else◌, Bool, Option, none, some, List, [], ◌∷◌, ◌++◌, map, Result, ok, err, ok_or,
  map_err, reject_if, HashMap, get, insert, contains_key,
}
use kalandra.Prelude.Exec.{Exec, pure, lift, gets, modify, ◌>>=◌, ◌>>◌}
use kalandra.Proto.Opcode.{is_some_opcode, commit}
use kalandra.Proto.Header
use kalandra.Proto.Frame.{Frame}
use kalandra.Mls.State.{Ed25519, MlsGroupState}
use kalandra.Mls.Group.{MlsError, MlsGroups}
use kalandra.Storage.{Storage}
use kalandra.Sequencer
use kalandra.Sequencer.{Sequencer, SequencerError, SequencerAction}
use kalandra.Rooms.{
  RoomMetadata, RoomAction, persist_mls_state, RoomError, mls_validation, sequencing, storage,
  room_not_found, room_already_exists, to_room_action, validate_frame_basic, validate_signatures,
}

module _ (S : Storage) (G : MlsGroups) (dalek : Ed25519) where
  pub record RoomManager : Type 0 where
    pub groups : HashMap G.Group
    pub sequencer : Sequencer
    pub room_metadata : HashMap RoomMetadata

  abbrev pub new : RoomManager
  new = record { groups = []; sequencer = Sequencer.new; room_metadata = [] }

  unfoldable pub has_room : RoomManager → ℕ → Bool
  has_room m room_id = contains_key m.room_metadata room_id

  abbrev epoch_of : Option G.Group → Option ℕ
  epoch_of none = none
  epoch_of (some group) = some (G.epoch group)

  unfoldable pub epoch : RoomManager → ℕ → Option ℕ
  epoch m room_id = epoch_of (get m.groups room_id)

  abbrev set_group : ℕ → G.Group → RoomManager → RoomManager
  set_group room_id group m = record m { groups = insert m.groups room_id group }

  -- `get_mut(..).ok_or(RoomNotFound)?`
  abbrev group_of : ℕ → Exec RoomManager RoomError G.Group
  group_of room_id m = (ok_or (get m.groups room_id) (room_not_found room_id), m)

  -- A method of the room's group on `&mut self`.
  abbrev in_group :
      {A : Type 0} → ℕ → (G.Group → Result MlsError A × G.Group) → Exec RoomManager RoomError A
  in_group room_id method = do
    group ← group_of room_id
    let done = method group
    modify (set_group room_id done.1)
    lift (map_err mls_validation done.0)

  unfoldable pub create_room : ℕ → ℕ → ℕ → Exec RoomManager RoomError (Unit {0})
  create_room room_id creator now = do
    exists ← gets (λ m. has_room m room_id)
    lift (reject_if exists (room_already_exists room_id))
    group ← lift (map_err mls_validation (G.create room_id creator))
    modify (set_group room_id group)
    let metadata : RoomMetadata = record { creator = creator; created_at = now }
    modify (λ m. record m { room_metadata = insert m.room_metadata room_id metadata })

  unfoldable pub add_members : ℕ → List (List ℕ) → Exec RoomManager RoomError (List G.Action)
  add_members room_id key_packages =
      in_group room_id (λ group. G.add_members_from_bytes group key_packages)

  unfoldable pub remove_members : ℕ → List ℕ → Exec RoomManager RoomError (List G.Action)
  remove_members room_id member_ids = in_group room_id (λ group. G.remove_members group member_ids)

  unfoldable pub leave_room : ℕ → Exec RoomManager RoomError (List G.Action)
  leave_room room_id = in_group room_id G.leave_group

  -- The sequencer's turn: its state is a field of the manager.
  abbrev sequence : Frame → S.Store → Exec RoomManager RoomError (List SequencerAction)
  sequence frame store m =
      let done = Sequencer.process_frame S frame store m.sequencer in
      (map_err sequencing done.0, record m { sequencer = done.1 })

  abbrev pub drop_actions : Result MlsError (List G.Action) → Result MlsError (Unit {0})
  drop_actions (ok _) = ok tt
  drop_actions (err e) = err e

  -- `merge_pending_commit` or `process_message`, whose actions are dropped.
  abbrev pub apply_commit : Frame → G.Group → Result MlsError (Unit {0}) × G.Group
  apply_commit frame group =
      if G.has_mls_pending_commit group
      then G.merge_pending_commit group
      else (let done = G.process_message group frame in (drop_actions done.0, done.1))

  -- Step 6 of `process_frame`.
  unfoldable pub commit_frame :
      ℕ → ℕ → Frame → List RoomAction → Exec RoomManager RoomError (List RoomAction)
  commit_frame room_id now frame actions = do
    in_group room_id (apply_commit frame)
    group ← group_of room_id
    state ← lift (map_err mls_validation (G.export_group_state group))
    pure (actions ++ persist_mls_state room_id state now ∷ [])

  -- Steps 4 to 6 of `process_frame`, on the actions of the sequencer.
  unfoldable pub finish_frame :
      Frame
      → ℕ
      → Option MlsGroupState
      → List SequencerAction
      → Exec RoomManager RoomError (List RoomAction)
  finish_frame frame now mls_state sequencer_actions = do
    lift (validate_signatures dalek sequencer_actions mls_state)
    let actions = map (to_room_action now) sequencer_actions
    let is_commit = is_some_opcode (Header.opcode_enum frame.header) commit
    if is_commit then commit_frame (Header.room_id frame.header) now frame actions else pure actions

  -- `process_frame`. The sequencer has moved on when the signatures are checked.
  unfoldable pub process_frame : Frame → ℕ → S.Store → Exec RoomManager RoomError (List RoomAction)
  process_frame frame now store = do
    let room_id = Header.room_id frame.header
    group ← group_of room_id
    mls_state ← lift (map_err storage (S.load_mls_state store room_id))
    lift (validate_frame_basic dalek frame (G.epoch group) mls_state)
    sequencer_actions ← sequence frame store
    finish_frame frame now mls_state sequencer_actions
