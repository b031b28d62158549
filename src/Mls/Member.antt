-- ===== src/Mls/Member.antt =====
-- crates/lockframe-core/src/mls/group.rs: a member's side of an MLS group. OpenMLS is an interface; its
-- errors, which the source only shows, are left out. A text is data with what it shows.
pub mod Commits
pub mod Lookup
pub mod Wire
use kalandra.Prelude.{
  ℕ, ◌+◌, ◌-◌, ◌*◌, ◌==◌, ltb, leb, if◌then◌else◌, Bool, true, false, Option, none, some, List, [],
  ◌∷◌, length, take, map, Result, ok, err, ok_or, HashMap, insert,
}
use kalandra.Prelude.Exec.{Exec, pure, raise, lift, gets, modify, ◌>>=◌, ◌>>◌}
use kalandra.Proto.Header.{FrameHeader}
use kalandra.Proto.Frame.{Frame}
use kalandra.Mls.State.{Ed25519, MlsGroupState}
use kalandra.Mls.Group
use kalandra.Mls.Group.{MlsError, crypto, serialization, validation_failed}
use kalandra.Mls.Validator
use kalandra.Mls.Validator.{ValidationResult, accept, reject, validate_frame_no_state}

pub data GroupMessage : Type 0 where
  created_group : (room_id member_id : ℕ) → GroupMessage
  received_proposal received_external_join advanced_to : (epoch : ℕ) → GroupMessage
  removed_by_commit : GroupMessage
  joined_group : (room_id epoch member_id : ℕ) → GroupMessage
  adding : (count : ℕ) → GroupMessage
  removing : (member_ids : List ℕ) → GroupMessage
  proposed_to_leave : (room_id member_id : ℕ) → GroupMessage

pub data MlsAction : Type 0 where
  send_commit send_proposal send_message : Frame → MlsAction
  send_welcome : (recipient : ℕ) → Frame → MlsAction
  deliver_message : (sender : ℕ) → (plaintext : List ℕ) → MlsAction
  remove_group : (reason : GroupMessage) → MlsAction
  log : GroupMessage → MlsAction

-- A leaf of the tree: its index, the bytes of its credential, and those of its key.
pub record LeafMember : Type 0 where
  pub index : ℕ
  pub identity : List ℕ
  pub signature_key : List ℕ

pub data Content (Staged : Type 0) : Type 0 where
  application : (plaintext : List ℕ) → Content Staged
  proposal : Content Staged
  external_join : Content Staged
  staged_commit : Staged → Content Staged

-- OpenMLS. `none` is an error; a method on `&mut self` returns the group beside its result.
pub record OpenMls : Type 1 where
  pub Group : Type 0
  pub Signer : Type 0
  pub KeyPackage : Type 0
  pub Message : Type 0
  pub Incoming : Type 0
  pub Welcome : Type 0
  pub Staged : Type 0
  pub epoch : Group → ℕ
  pub own_leaf_index : Group → ℕ
  pub members : Group → List LeafMember
  pub tree_hash : Group → List ℕ
  pub is_active : Group → Bool
  pub export_secret : Group → (label context : List ℕ) → (length : ℕ) → Option (List ℕ)
  pub has_pending_commit : Group → Bool
  pub clear_pending_commit : Group → Group
  pub merge_pending_commit : Group → Option (Unit {0}) × Group
  pub merge_staged_commit : Staged → Group → Option (Unit {0}) × Group
  pub sign : Signer → List ℕ → Option (List ℕ)
  pub serialize : Message → Option (List ℕ)
  pub read_message : List ℕ → Option Incoming
  pub process_message : Incoming → Group → Option (List ℕ × Content Staged) × Group
  pub create_message : Signer → List ℕ → Group → Option Message × Group
  pub read_key_package : List ℕ → Result MlsError KeyPackage
  pub credential : KeyPackage → List ℕ
  pub add_members : Signer → List KeyPackage → Group → Option (Message × Message) × Group
  pub remove_members : Signer → List ℕ → Group → Option Message × Group
  pub leave_group : Signer → Group → Option Message × Group
  pub new_signer : (random : List ℕ) → Option Signer
  pub new_group : Signer → (identity : List ℕ) → Option Group
  pub build_key_package : Signer → (identity : List ℕ) → Option KeyPackage
  pub serialize_key_package : KeyPackage → Option (List ℕ)
  pub hash_ref : KeyPackage → Option (List ℕ)
  pub read_welcome : List ℕ → Option Welcome
  pub join : Signer → Welcome → Option Group

pub record PendingCommit : Type 0 where
  pub target_epoch : ℕ
  pub sent_at : ℕ

-- `u64::from_le_bytes`
unfoldable pub from_le_bytes : List ℕ → ℕ
from_le_bytes [] = 0
from_le_bytes (b ∷ bytes) = b + 256 * from_le_bytes bytes

unfoldable pub extract_member_id_from_credential : List ℕ → Result MlsError ℕ
extract_member_id_from_credential bytes =
    if ltb (length bytes) 8 then err crypto else ok (from_le_bytes (take 8 bytes))

-- The label "group_state" of `export_state`.
abbrev pub group_state_label : List ℕ
group_state_label = 103 ∷ 114 ∷ 111 ∷ 117 ∷ 112 ∷ 95 ∷ 115 ∷ 116 ∷ 97 ∷ 116 ∷ 101 ∷ []

-- The members of the leaves with a member id, and their keys of 32 bytes: the loop of
-- `export_validation_state` and of `export_group_state`.
unfoldable pub export_members : List LeafMember → List ℕ
export_members [] = []
export_members (m ∷ leaves) =
    let rest = export_members leaves in
    if leb 8 (length m.identity) then from_le_bytes (take 8 m.identity) ∷ rest else rest

unfoldable pub export_keys : List LeafMember → HashMap (List ℕ) → HashMap (List ℕ)
export_keys [] keys = keys
export_keys (m ∷ leaves) keys = export_keys leaves (
    if leb 8 (length m.identity)
    then (if length m.signature_key == 32
        then insert keys (from_le_bytes (take 8 m.identity)) m.signature_key
        else keys)
    else keys)

abbrev zeros : List ℕ
zeros =
    0 ∷ 0 ∷ 0 ∷ 0 ∷ 0 ∷ 0 ∷ 0 ∷ 0 ∷ 0 ∷ 0 ∷ 0 ∷ 0 ∷ 0 ∷ 0 ∷ 0 ∷ 0 ∷ 0 ∷ 0 ∷ 0 ∷ 0 ∷ 0 ∷ 0 ∷ 0 ∷ 0
    ∷ 0 ∷ 0 ∷ 0 ∷ 0 ∷ 0 ∷ 0 ∷ 0 ∷ 0 ∷ []

module _ (M : OpenMls) where
  pub record MlsGroup : Type 0 where
    pub room_id : ℕ
    pub member_id : ℕ
    pub mls_group : M.Group
    pub signer : M.Signer
    pub pending_commit : Option PendingCommit

  unfoldable pub epoch : MlsGroup → ℕ
  epoch g = M.epoch g.mls_group

  unfoldable pub own_leaf_index : MlsGroup → ℕ
  own_leaf_index g = M.own_leaf_index g.mls_group

  unfoldable pub sign_frame_header : MlsGroup → FrameHeader → FrameHeader
  sign_frame_header g header = Group.sign_frame_header (M.sign g.signer) header

  unfoldable pub member_leaf_indices : MlsGroup → List ℕ
  member_leaf_indices g = map (λ (m : LeafMember). m.index) (M.members g.mls_group)

  unfoldable pub export_secret : MlsGroup → (label context : List ℕ) → ℕ → Result MlsError (List ℕ)
  export_secret g label context size = ok_or (M.export_secret g.mls_group label context size) crypto

  abbrev is_some_commit : Option PendingCommit → Bool
  is_some_commit none = false
  is_some_commit (some pending) = true

  unfoldable pub has_pending_commit : MlsGroup → Bool
  has_pending_commit g = is_some_commit g.pending_commit

  abbrev elapsed_at : (now timeout : ℕ) → Option PendingCommit → Bool
  elapsed_at now timeout none = false
  elapsed_at now timeout (some pending) = leb timeout (now - pending.sent_at)

  unfoldable pub is_commit_timeout : MlsGroup → (now timeout : ℕ) → Bool
  is_commit_timeout g now timeout = elapsed_at now timeout g.pending_commit

  unfoldable pub clear_pending_commit : MlsGroup → MlsGroup
  clear_pending_commit g = record g {
    pending_commit = none;
    mls_group = M.clear_pending_commit g.mls_group;
  }

  unfoldable pub has_mls_pending_commit : MlsGroup → Bool
  has_mls_pending_commit g = M.has_pending_commit g.mls_group

  abbrev or_failed : ValidationResult → Result MlsError (Unit {0})
  or_failed accept = ok tt
  or_failed (reject reason) = err (validation_failed reason)

  unfoldable pub validate_frame :
      Ed25519 → MlsGroup → Frame → Option MlsGroupState → Result MlsError (Unit {0})
  unfolding epoch
  validate_frame dalek g frame (some state) =
      or_failed (Validator.validate_frame dalek frame (epoch g) state)
  validate_frame dalek g frame none = or_failed (validate_frame_no_state frame)

  unfoldable pub export_state : MlsGroup → Result MlsError (List ℕ)
  unfolding export_secret
  export_state g = export_secret g group_state_label [] 64

  abbrev state_with : MlsGroup → List ℕ → List ℕ → MlsGroupState
  state_with g tree_hash openmls_state = record {
    room_id = g.room_id;
    epoch = M.epoch g.mls_group;
    tree_hash = tree_hash;
    members = export_members (M.members g.mls_group);
    member_keys = export_keys (M.members g.mls_group) [];
    openmls_state = openmls_state;
  }

  unfoldable pub export_validation_state : MlsGroup → MlsGroupState
  unfolding export_members export_keys
  export_validation_state g =
      let tree_hash = M.tree_hash g.mls_group in
      state_with g (if length tree_hash == 32 then tree_hash else zeros) []

  unfoldable pub export_group_state : MlsGroup → Result MlsError MlsGroupState
  unfolding export_members export_keys export_state
  export_group_state g =
      let tree_hash = M.tree_hash g.mls_group in
      if length tree_hash == 32
      then elim (export_state g) [ err e ↦ err e | ok state ↦ ok (state_with g tree_hash state) ]
      else err crypto
