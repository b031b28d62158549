-- ===== src/Mls/Member/Commits.antt =====
-- crates/lockframe-core/src/mls/group.rs: the operations of a group that make or take messages.
use kalandra.Prelude.{
  ℕ, ◌+◌, ◌==◌, ltb, leb, if◌then◌else◌, Bool, true, false, Option, none, some, List, [], ◌∷◌, ◌++◌,
  length, take, Result, ok, err, ok_or, reject_if, contains,
}
use mathlib.Core.List.{reverse}
use kalandra.Prelude.Exec.{Exec, pure, lift, gets, modify, ◌>>=◌, ◌>>◌}
use kalandra.Proto.Bytes.{to_be_bytes}
use kalandra.Proto.Opcode.{Opcode}
use kalandra.Proto.Header
use kalandra.Proto.Header.{FrameHeader}
use kalandra.Proto.Frame.{Frame}
use kalandra.Mls.Group.{MlsError, crypto, serialization}
use kalandra.Mls.Member.{
  created_group, received_proposal, received_external_join, advanced_to, removed_by_commit,
  joined_group, adding, removing, proposed_to_leave, MlsAction, send_commit, send_proposal,
  send_message, send_welcome, deliver_message, remove_group, log, LeafMember, Content, application,
  proposal, external_join, staged_commit, OpenMls, PendingCommit, from_le_bytes,
  extract_member_id_from_credential, MlsGroup,
}

-- `u64::to_le_bytes`
unfoldable pub to_le_bytes : ℕ → List ℕ
to_le_bytes n = reverse (to_be_bytes 8 n)

-- A frame as the struct literals make it: the header is as `FrameHeader::new` gives it.
abbrev pub bare_frame : Opcode → List ℕ → Frame
bare_frame code payload = record { header = Header.new code; payload = payload }

-- The loop of `member_ids_to_leaf_indices`.
abbrev pub is_leaf_of : ℕ → LeafMember → Bool
is_leaf_of target m =
    if leb 8 (length m.identity) then from_le_bytes (take 8 m.identity) == target else false

unfoldable pub find_leaf : ℕ → List LeafMember → Option ℕ
find_leaf target [] = none
find_leaf target (m ∷ leaves) =
    let rest = find_leaf target leaves in if is_leaf_of target m then some m.index else rest

unfoldable pub find_leaves : List ℕ → List LeafMember → Result MlsError (List ℕ)
find_leaves [] leaves = ok []
find_leaves (target ∷ targets) leaves =
    let rest = find_leaves targets leaves in
    elim (find_leaf target leaves) [
      | none ↦ err crypto
      | some index ↦ elim rest [ err e ↦ err e | ok indices ↦ ok (index ∷ indices) ]
    ]

-- The search of `member_id_by_leaf_index`: a leaf at the index without a member id is passed over.
abbrev pub owner_of : ℕ → LeafMember → Option ℕ
owner_of index m =
    if m.index == index
    then (if ltb (length m.identity) 8 then none else some (from_le_bytes (take 8 m.identity)))
    else none

unfoldable pub find_owner : ℕ → List LeafMember → Option ℕ
find_owner index [] = none
find_owner index (m ∷ leaves) =
    let rest = find_owner index leaves in
    elim (owner_of index m) [ none ↦ rest | some id ↦ some id ]

module _ (M : OpenMls) where
  -- A method of the OpenMLS group on `&mut self`; its error is `Crypto`.
  abbrev in_openmls : {A : Type 0} → (M.Group → Option A × M.Group) → Exec (MlsGroup M) MlsError A
  in_openmls method g =
      let done = method g.mls_group in (ok_or done.0 crypto, record g { mls_group = done.1 })

  abbrev serialized : M.Message → Exec (MlsGroup M) MlsError (List ℕ)
  serialized message = lift (ok_or (M.serialize message) serialization)

  unfoldable pub member_id_by_leaf_index : MlsGroup M → ℕ → Option ℕ
  unfolding find_owner
  member_id_by_leaf_index g leaf_index = find_owner leaf_index (M.members g.mls_group)

  unfoldable pub member_ids_to_leaf_indices : MlsGroup M → List ℕ → Result MlsError (List ℕ)
  unfolding find_leaves
  member_ids_to_leaf_indices g member_ids = find_leaves member_ids (M.members g.mls_group)

  -- `MlsGroup::new`
  unfoldable pub new :
      (room_id member_id : ℕ) → (random : List ℕ) → Result MlsError (MlsGroup M × List MlsAction)
  new room_id member_id random = elim (M.new_signer random) [
    | none ↦ err crypto
    | some signer ↦ elim (M.new_group signer (to_le_bytes member_id)) [
      | none ↦ err crypto
      | some group ↦ ok (
        record {
          room_id = room_id;
          member_id = member_id;
          mls_group = group;
          signer = signer;
          pending_commit = none;
        },
        log (created_group room_id member_id) ∷ [],
      )
    ]
  ]

  -- The provider of the pending state is part of the signer.
  unfoldable pub generate_key_package :
      (member_id : ℕ) → (random : List ℕ) → Result MlsError ((List ℕ × List ℕ) × M.Signer)
  generate_key_package member_id random = elim (M.new_signer random) [
    | none ↦ err crypto
    | some signer ↦ elim (M.build_key_package signer (to_le_bytes member_id)) [
      | none ↦ err crypto
      | some key_package ↦ elim (M.serialize_key_package key_package) [
        | none ↦ err serialization
        | some bytes ↦ elim (M.hash_ref key_package) [
          | none ↦ err crypto
          | some hash ↦ ok ((bytes, hash), signer)
        ]
      ]
    ]
  ]

  unfoldable pub join_from_welcome :
      (room_id member_id : ℕ)
      → (welcome_bytes : List ℕ) → M.Signer
      → Result MlsError (MlsGroup M × List MlsAction)
  join_from_welcome room_id member_id welcome_bytes signer = elim (M.read_welcome welcome_bytes) [
    | none ↦ err serialization
    | some welcome ↦ elim (M.join signer welcome) [
      | none ↦ err crypto
      | some group ↦ ok (
        record {
          room_id = room_id;
          member_id = member_id;
          mls_group = group;
          signer = signer;
          pending_commit = none;
        },
        log (joined_group room_id (M.epoch group) member_id) ∷ [],
      )
    ]
  ]

  abbrev require_pending : Exec (MlsGroup M) MlsError PendingCommit
  require_pending g = (ok_or g.pending_commit crypto, g)

  -- The debug assertion on the epoch is left out.
  unfoldable pub merge_pending_commit : Exec (MlsGroup M) MlsError (Unit {0})
  merge_pending_commit = do
    expected ← require_pending
    in_openmls M.merge_pending_commit
    modify (λ g. record g { pending_commit = none })

  abbrev removal : Bool → List MlsAction
  removal true = []
  removal false = remove_group removed_by_commit ∷ []

  -- The arms of `process_message`.
  abbrev pub process_content : ℕ → Content M.Staged → Exec (MlsGroup M) MlsError (List MlsAction)
  process_content sender (application plaintext) = pure (deliver_message sender plaintext ∷ [])
  process_content sender proposal = gets (λ g. log (received_proposal (M.epoch g.mls_group)) ∷ [])
  process_content sender external_join =
      gets (λ g. log (received_external_join (M.epoch g.mls_group)) ∷ [])
  process_content sender (staged_commit staged) = do
    in_openmls (M.merge_staged_commit staged)
    gets (λ g. log (advanced_to (M.epoch g.mls_group)) ∷ removal (M.is_active g.mls_group))

  unfoldable pub process_message : Frame → Exec (MlsGroup M) MlsError (List MlsAction)
  process_message frame = do
    message ← lift (ok_or (M.read_message frame.payload) serialization)
    done ← in_openmls (M.process_message message)
    sender ← lift (extract_member_id_from_credential done.0)
    process_content sender done.1

  unfoldable pub create_message : List ℕ → Exec (MlsGroup M) MlsError (List MlsAction)
  create_message plaintext = do
    message ← (λ g. in_openmls (M.create_message g.signer plaintext) g)
    payload ← serialized message
    pure (send_message (bare_frame Opcode.app_message payload) ∷ [])

  abbrev welcome_header : MlsGroup M → ℕ → FrameHeader
  welcome_header g recipient =
      Header.set_sender_id
        (Header.set_room_id (Header.set_recipient_id (Header.new Opcode.welcome) recipient)
          g.room_id)
        g.member_id

  -- The loop over the key packages: a Welcome to each.
  unfoldable pub welcomes :
      MlsGroup M → List ℕ → List M.KeyPackage → Result MlsError (List MlsAction)
  welcomes g payload [] = ok []
  welcomes g payload (kp ∷ key_packages) =
      let rest = welcomes g payload key_packages in
      elim (extract_member_id_from_credential (M.credential kp)) [
        | err e ↦ err e
        | ok recipient ↦ elim rest [
          | err e ↦ err e
          | ok actions ↦ ok (
              send_welcome recipient
                (record { header = welcome_header g recipient; payload = payload })
              ∷ actions)
        ]
      ]

  -- `now` is the provider's clock. The epoch stays below the largest u64.
  abbrev set_pending : ℕ → ℕ → Exec (MlsGroup M) MlsError (Unit {0})
  set_pending target_epoch now = modify (λ g. record g {
    pending_commit = some (record { target_epoch = target_epoch; sent_at = now });
  })

  unfoldable pub add_members : List M.KeyPackage → ℕ → Exec (MlsGroup M) MlsError (List MlsAction)
  unfolding welcomes
  add_members key_packages now = do
    target_epoch ← gets (λ g. M.epoch g.mls_group + 1)
    done ← (λ g. in_openmls (M.add_members g.signer key_packages) g)
    set_pending target_epoch now
    commit_payload ← serialized done.0
    welcome_payload ← serialized done.1
    sent ← (λ g. (welcomes g welcome_payload key_packages, g))
    pure (
        send_commit (bare_frame Opcode.commit commit_payload) ∷ sent
        ++ log (adding (length key_packages)) ∷ [])

  unfoldable pub read_key_packages : List (List ℕ) → Result MlsError (List M.KeyPackage)
  read_key_packages [] = ok []
  read_key_packages (bytes ∷ all) =
      let rest = read_key_packages all in
      elim (M.read_key_package bytes) [
        | err e ↦ err e
        | ok kp ↦ elim rest [ err e ↦ err e | ok kps ↦ ok (kp ∷ kps) ]
      ]

  unfoldable pub add_members_from_bytes :
      List (List ℕ) → ℕ → Exec (MlsGroup M) MlsError (List MlsAction)
  unfolding read_key_packages add_members
  add_members_from_bytes key_packages_bytes now = do
    key_packages ← lift (read_key_packages key_packages_bytes)
    add_members key_packages now

  abbrev is_empty : List ℕ → Bool
  is_empty [] = true
  is_empty (id ∷ ids) = false

  unfoldable pub remove_members : List ℕ → ℕ → Exec (MlsGroup M) MlsError (List MlsAction)
  unfolding member_ids_to_leaf_indices
  remove_members member_ids now = do
    lift (reject_if (is_empty member_ids) crypto)
    own ← gets (λ g. contains member_ids g.member_id)
    lift (reject_if own crypto)
    target_epoch ← gets (λ g. M.epoch g.mls_group + 1)
    leaf_indices ← (λ g. (member_ids_to_leaf_indices g member_ids, g))
    message ← (λ g. in_openmls (M.remove_members g.signer leaf_indices) g)
    set_pending target_epoch now
    commit_payload ← serialized message
    pure (send_commit (bare_frame Opcode.commit commit_payload) ∷ log (removing member_ids) ∷ [])

  unfoldable pub leave_group : Exec (MlsGroup M) MlsError (List MlsAction)
  leave_group = do
    message ← (λ g. in_openmls (M.leave_group g.signer) g)
    payload ← serialized message
    left ← gets (λ g. log (proposed_to_leave g.room_id g.member_id))
    pure (send_proposal (bare_frame Opcode.proposal payload) ∷ left ∷ [])
