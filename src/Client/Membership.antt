-- ===== src/Client/Membership.antt =====
-- crates/lockframe-client/src/client.rs: key packages, and the events that change which rooms there
-- are, or a room's group.
use kalandra.Prelude.{
  ℕ, ◌+◌, ◌-◌, ◌==◌, ◌^◌, if◌then◌else◌, Option, none, some, List, [], ◌∷◌, ◌++◌, map, Result, ok,
  err, HashMap, get, remove, contains_key,
}
use kalandra.Proto.Frame.{Frame}
use kalandra.Mls.Group.{MlsError}
use kalandra.Mls.Member.{MlsAction}
use kalandra.SenderKeys.Store.{SenderKeyStore, initialize_epoch}
use kalandra.Client.{
  ClientLibraries, ClientError, room_not_found, room_already_exists, mls, group_error,
  no_pending_key_package, ClientMessage, room_created, room_joined_via_welcome,
  room_joined_via_event, commit_timed_out, left_room, ClientAction, request_sync, persist_room,
  room_removed, note, RoomState, Client, set_room, convert_mls_action, commit_timeout, Answer,
}

module _ (C : ClientLibraries) where
  open C use {groups, crypto}

  abbrev pub convert_mls_actions : ℕ → List MlsAction → List ClientAction
  convert_mls_actions room_id actions = map (convert_mls_action C room_id) actions

  abbrev pub packaged :
      Client C
      → Result MlsError ((List ℕ × List ℕ) × groups.PendingJoinState)
      → Result ClientError (List ℕ × List ℕ) × Client C
  packaged c (err e) = (err (mls (group_error e)), c)
  packaged c (ok (key_package, pending)) =
      (ok key_package, record c { pending_joins = pending ∷ c.pending_joins })

  unfoldable pub generate_key_package :
      (random : List ℕ) → Client C → Result ClientError (List ℕ × List ℕ) × Client C
  generate_key_package random c = packaged c (groups.generate_key_package c.sender_id random)

  abbrev keys_of : groups.Group → Result MlsError (List ℕ) → Result ClientError SenderKeyStore
  keys_of group (err e) = err (mls (group_error e))
  keys_of group (ok secret) =
      ok (initialize_epoch crypto secret (groups.epoch group) (groups.member_leaf_indices group))

  unfoldable pub initialize_sender_keys : groups.Group → Result ClientError SenderKeyStore
  initialize_sender_keys group = keys_of group (groups.export_secret group)

  -- The room of a group and its keys.
  abbrev pub room_of : groups.Group → SenderKeyStore → RoomState C
  room_of group keys = record {
    mls_group = group;
    sender_keys = keys;
    my_leaf_index = groups.own_leaf_index group;
  }

  abbrev snapshot : (room_id epoch leaf : ℕ) → List ℕ → ClientAction
  snapshot room_id epoch leaf state =
      persist_room
        (record { room_id = room_id; epoch = epoch; mls_state = state; my_leaf_index = leaf })

  -- `handle_create_room`, after the group was made, after its keys, and after the export.
  abbrev pub created_with :
      ℕ
      → Client C
      → groups.Group
      → List MlsAction
      → SenderKeyStore
      → Result MlsError (List ℕ)
      → Answer C
  created_with room_id c group actions keys (err e) = (err (mls (group_error e)), c)
  created_with room_id c group actions keys (ok state) = (
    ok (
        convert_mls_actions room_id actions
        ++ snapshot room_id 0 (groups.own_leaf_index group) state
          ∷ note (room_created room_id)
          ∷ []),
    set_room C room_id (room_of group keys) c,
  )

  abbrev pub created_keys :
      ℕ → Client C → groups.Group → List MlsAction → Result ClientError SenderKeyStore → Answer C
  created_keys room_id c group actions (err e) = (err e, c)
  created_keys room_id c group actions (ok keys) =
      created_with room_id c group actions keys (groups.export_state group)

  abbrev pub created : ℕ → Client C → Result MlsError (groups.Group × List MlsAction) → Answer C
  created room_id c (err e) = (err (mls (group_error e)), c)
  created room_id c (ok (group, actions)) =
      created_keys room_id c group actions (initialize_sender_keys group)

  unfoldable pub handle_create_room : ℕ → (random : List ℕ) → Client C → Answer C
  handle_create_room room_id random c =
      if contains_key c.rooms room_id
      then (err (room_already_exists room_id), c)
      else created room_id c (groups.create room_id c.sender_id random)

  -- The end of `handle_welcome` and of `handle_join_room`, which differ in what they log.
  abbrev pub joined_keys :
      ℕ
      → ClientMessage
      → Client C
      → groups.Group
      → List MlsAction
      → Result ClientError SenderKeyStore
      → Answer C
  joined_keys room_id message c group actions (err e) = (err e, c)
  joined_keys room_id message c group actions (ok keys) = (
    ok (convert_mls_actions room_id actions ++ note message ∷ []),
    set_room C room_id (room_of group keys) c,
  )

  abbrev pub joined :
      ℕ → ClientMessage → Client C → Result MlsError (groups.Group × List MlsAction) → Answer C
  joined room_id message c (err e) = (err (mls (group_error e)), c)
  joined room_id message c (ok (group, actions)) =
      joined_keys room_id message c group actions (initialize_sender_keys group)

  -- `try_join_from_welcome` and what follows: the key package is used up, whatever comes of it.
  abbrev pub joined_with :
      ℕ → ClientMessage → List ℕ → Client C → List groups.PendingJoinState → Answer C
  joined_with room_id message welcome c [] = (err (mls no_pending_key_package), c)
  joined_with room_id message welcome c (pending ∷ rest) =
      joined room_id message (record c { pending_joins = rest })
        (groups.join_from_welcome room_id c.sender_id welcome pending)

  abbrev pub join_with : ℕ → ClientMessage → List ℕ → Client C → Answer C
  join_with room_id message welcome c =
      if contains_key c.rooms room_id
      then (err (room_already_exists room_id), c)
      else joined_with room_id message welcome c c.pending_joins

  unfoldable pub handle_welcome : ℕ → Frame → Client C → Answer C
  handle_welcome room_id frame = join_with room_id (room_joined_via_welcome room_id) frame.payload

  unfoldable pub handle_join_room : ℕ → List ℕ → Client C → Answer C
  handle_join_room room_id welcome = join_with room_id (room_joined_via_event room_id) welcome

  -- A method of the room's group on `&mut self`, which keeps the keys.
  abbrev pub set_group : ℕ → RoomState C → groups.Group → Client C → Client C
  set_group room_id room group c = set_room C room_id (record room { mls_group = group }) c

  abbrev pub processed :
      ℕ → RoomState C → Client C → Result MlsError (List MlsAction) × groups.Group → Answer C
  processed room_id room c (err e, group) =
      (err (mls (group_error e)), set_group room_id room group c)
  processed room_id room c (ok actions, group) =
      (ok (convert_mls_actions room_id actions), set_group room_id room group c)

  -- The other messages of MLS: `process_message` alone.
  abbrev pub message_in : ℕ → Frame → Client C → Option (RoomState C) → Answer C
  message_in room_id frame c none = (err (room_not_found room_id), c)
  message_in room_id frame c (some room) =
      processed room_id room c (groups.process_message room.mls_group frame)

  unfoldable pub handle_mls_message : ℕ → Frame → Client C → Answer C
  handle_mls_message room_id frame c = message_in room_id frame c (get c.rooms room_id)

  abbrev pub added : ℕ → List (List ℕ) → (now : ℕ) → Client C → Option (RoomState C) → Answer C
  added room_id key_packages now c none = (err (room_not_found room_id), c)
  added room_id key_packages now c (some room) =
      processed room_id room c (groups.add_members_from_bytes room.mls_group key_packages now)

  unfoldable pub handle_add_members : ℕ → List (List ℕ) → (now : ℕ) → Client C → Answer C
  handle_add_members room_id key_packages now c =
      added room_id key_packages now c (get c.rooms room_id)

  -- `handle_commit`: after the group has the commit, after the keys, and after the export.
  abbrev pub committed_with :
      ℕ → groups.Group → List MlsAction → Client C → Result MlsError (List ℕ) → Answer C
  committed_with room_id group actions c (err e) = (err (mls (group_error e)), c)
  committed_with room_id group actions c (ok state) = (
    ok (
        convert_mls_actions room_id actions
        ++ snapshot room_id (groups.epoch group) (groups.own_leaf_index group) state ∷ []),
    c,
  )

  abbrev pub committed_keys :
      ℕ → groups.Group → List MlsAction → Client C → Result ClientError SenderKeyStore → Answer C
  committed_keys room_id group actions c (err e) = (err e, c)
  committed_keys room_id group actions c (ok keys) =
      committed_with room_id group actions (set_room C room_id (room_of group keys) c)
        (groups.export_state group)

  abbrev pub committed :
      ℕ → RoomState C → Client C → Result MlsError (List MlsAction) × groups.Group → Answer C
  committed room_id room c (err e, group) =
      (err (mls (group_error e)), set_group room_id room group c)
  committed room_id room c (ok actions, group) =
      committed_keys room_id group actions (set_group room_id room group c)
        (initialize_sender_keys group)

  abbrev pub commit_in : ℕ → Frame → Client C → Option (RoomState C) → Answer C
  commit_in room_id frame c none = (err (room_not_found room_id), c)
  commit_in room_id frame c (some room) =
      committed room_id room c (groups.process_message room.mls_group frame)

  unfoldable pub handle_commit : ℕ → Frame → Client C → Answer C
  handle_commit room_id frame c = commit_in room_id frame c (get c.rooms room_id)

  -- The turn of the loop of `handle_tick` for one room. `saturating_add` stops at the largest u64.
  abbrev pub tick_room : (room_id now : ℕ) → RoomState C → List ClientAction × RoomState C
  tick_room room_id now room =
      let epoch = groups.epoch room.mls_group in
      if groups.is_commit_timeout room.mls_group now commit_timeout
      then (
        request_sync room_id epoch (if epoch == 2 ^ 64 - 1 then epoch else epoch + 1)
            ∷ note (commit_timed_out room_id epoch)
            ∷ [],
        record room { mls_group = groups.clear_pending_commit room.mls_group },
      )
      else ([], room)

  unfoldable pub tick_rooms : ℕ → HashMap (RoomState C) → List ClientAction × HashMap (RoomState C)
  tick_rooms now [] = ([], [])
  tick_rooms now ((room_id, room) ∷ rest) =
      let (actions, room') = tick_room room_id now room in
      let (later, rest') = tick_rooms now rest in (actions ++ later, (room_id, room') ∷ rest')

  unfoldable pub handle_tick : ℕ → Client C → Answer C
  unfolding tick_rooms
  handle_tick now c =
      let (actions, rooms) = tick_rooms now c.rooms in (ok actions, record c { rooms = rooms })

  unfoldable pub handle_leave_room : ℕ → Client C → Answer C
  handle_leave_room room_id c =
      if contains_key c.rooms room_id
      then (ok (room_removed room_id left_room ∷ []), record c { rooms = remove c.rooms room_id })
      else (err (room_not_found room_id), c)
