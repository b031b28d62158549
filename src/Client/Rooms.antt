-- ===== src/Client/Rooms.antt =====
-- crates/lockframe-client/src/client.rs: which rooms a client is in, after the frames that it receives.
use kalandra.Prelude.{
  ℕ, zero, suc, ◌≡◌, true, Bool-cases, Result-cases, inl, inr, Option, none, some, List, [], ◌∷◌,
  Result, ok, err, contains_key, contains_key-insert, arith,
}
use kalandra.Proto.Opcode.{Opcode}
use kalandra.Proto.Header
use kalandra.Proto.Frame.{Frame, decode}
use kalandra.Proto.Payload.Types.{SyncResponse}
use kalandra.Mls.Group.{MlsError}
use kalandra.Mls.Member.{MlsAction}
use kalandra.SenderKeys.Encryption.{EncryptedMessage}
use kalandra.SenderKeys.Store.{SenderKeyStore, Decrypted}
use kalandra.Client.{
  ClientLibraries, ClientMessage, ClientError, ClientAction, RoomState, Client, Answer, is_member,
  set_room,
}
use kalandra.Client.Membership.{
  initialize_sender_keys, handle_welcome, handle_mls_message, handle_commit, joined_keys, joined,
  joined_with, message_in, processed, committed_with, committed_keys, committed, commit_in,
}
use kalandra.Client.Messages.{
  handle_app_message, app_message_in, checked, check_app_message, opened,
}
use kalandra.Client.Frames.{
  before_rest, then_rest, sync_frames, synced, sync_with, handle_sync_response, on_opcode,
  handle_frame,
}

module _ (C : ClientLibraries) (room : ℕ) where
  open C use {groups}

  -- The client is in the room, after an answer, if there is one.
  abbrev IsIn : Client C → Type 0
  IsIn c = is_member C c room ≡ true

  abbrev pub StaysIn : Option (Answer C) → Type 0
  StaysIn none = Unit
  StaysIn (some (result, c)) = is_member C c room ≡ true

  set_room-IsIn :
      (id : ℕ) (state : RoomState C) (c : Client C) → IsIn c → IsIn (set_room C id state c)
  unfolding is_member
  set_room-IsIn id state c v = ground (arith, contains_key-insert c.rooms id state room, v)

  processed-StaysIn :
      (id : ℕ) (state : RoomState C) (c : Client C)
      (done : Result MlsError (List MlsAction) × groups.Group)
      → IsIn c
      → StaysIn (some (processed C id state c done))
  processed-StaysIn id state c (err e, group) v = set_room-IsIn id _ c v
  processed-StaysIn id state c (ok actions, group) v = set_room-IsIn id _ c v

  message_in-StaysIn :
      (id : ℕ) (frame : Frame) (c : Client C) (o : Option (RoomState C))
      → IsIn c
      → StaysIn (some (message_in C id frame c o))
  message_in-StaysIn id frame c none v = v
  message_in-StaysIn id frame c (some state) v = processed-StaysIn id state c _ v

  committed_with-StaysIn :
      (id : ℕ) (group : groups.Group) (actions : List MlsAction) (c : Client C)
      (r : Result MlsError (List ℕ))
      → IsIn c
      → StaysIn (some (committed_with C id group actions c r))
  committed_with-StaysIn id group actions c (err e) v = v
  committed_with-StaysIn id group actions c (ok state) v = v

  committed_keys-StaysIn :
      (id : ℕ) (group : groups.Group) (actions : List MlsAction) (c : Client C)
      (r : Result ClientError SenderKeyStore)
      → IsIn c
      → StaysIn (some (committed_keys C id group actions c r))
  committed_keys-StaysIn id group actions c (err e) v = v
  committed_keys-StaysIn id group actions c (ok keys) v =
      committed_with-StaysIn id group actions _ (groups.export_state group) (set_room-IsIn id _ c v)

  committed-StaysIn :
      (id : ℕ) (state : RoomState C) (c : Client C)
      (done : Result MlsError (List MlsAction) × groups.Group)
      → IsIn c
      → StaysIn (some (committed C id state c done))
  committed-StaysIn id state c (err e, group) v = set_room-IsIn id _ c v
  committed-StaysIn id state c (ok actions, group) v =
      committed_keys-StaysIn id group actions _ (initialize_sender_keys C group)
        (set_room-IsIn id _ c v)

  commit_in-StaysIn :
      (id : ℕ) (frame : Frame) (c : Client C) (o : Option (RoomState C))
      → IsIn c
      → StaysIn (some (commit_in C id frame c o))
  commit_in-StaysIn id frame c none v = v
  commit_in-StaysIn id frame c (some state) v = committed-StaysIn id state c _ v

  joined_keys-StaysIn :
      (id : ℕ) (message : ClientMessage) (c : Client C) (group : groups.Group)
      (actions : List MlsAction) (r : Result ClientError SenderKeyStore)
      → IsIn c
      → StaysIn (some (joined_keys C id message c group actions r))
  joined_keys-StaysIn id message c group actions (err e) v = v
  joined_keys-StaysIn id message c group actions (ok keys) v = set_room-IsIn id _ c v

  joined-StaysIn :
      (id : ℕ) (message : ClientMessage) (c : Client C)
      (r : Result MlsError (groups.Group × List MlsAction))
      → IsIn c
      → StaysIn (some (joined C id message c r))
  joined-StaysIn id message c (err e) v = v
  joined-StaysIn id message c (ok (group, actions)) v =
      joined_keys-StaysIn id message c group actions (initialize_sender_keys C group) v

  joined_with-StaysIn :
      (id : ℕ) (message : ClientMessage) (welcome : List ℕ) (c : Client C)
      (pending : List groups.PendingJoinState)
      → IsIn c
      → StaysIn (some (joined_with C id message welcome c pending))
  unfolding is_member
  joined_with-StaysIn id message welcome c [] v = v
  joined_with-StaysIn id message welcome c (p ∷ rest) v =
      joined-StaysIn id message (record c { pending_joins = rest }) _ v

  handle_welcome-StaysIn :
      (id : ℕ) (frame : Frame) (c : Client C)
      → IsIn c
      → StaysIn (some (handle_welcome C id frame c))
  unfolding handle_welcome
  handle_welcome-StaysIn id frame c v = elim (Bool-cases (contains_key c.rooms id)) [
    | inl there ↦ rw (StaysIn, there) v
    | inr new ↦ rw (StaysIn, new) (joined_with-StaysIn id _ frame.payload c c.pending_joins v)
  ]

  opened-StaysIn :
      (id : ℕ) (state : RoomState C) (frame : Frame) (sender : ℕ) (c : Client C)
      (o : Decrypted C.crypto)
      → IsIn c
      → StaysIn (opened C id state frame sender c o)
  opened-StaysIn id state frame sender c none v = tt
  opened-StaysIn id state frame sender c (some (err e, keys)) v = set_room-IsIn id _ c v
  opened-StaysIn id state frame sender c (some (ok plaintext, keys)) v = set_room-IsIn id _ c v

  checked-StaysIn :
      (id : ℕ) (state : RoomState C) (frame : Frame) (c : Client C)
      (r : Result ClientError (ℕ × EncryptedMessage))
      → IsIn c
      → StaysIn (checked C id state frame c r)
  checked-StaysIn id state frame c (err e) v = v
  checked-StaysIn id state frame c (ok (sender, message)) v =
      opened-StaysIn id state frame sender c _ v

  app_message_in-StaysIn :
      (id : ℕ) (frame : Frame) (c : Client C) (o : Option (RoomState C))
      → IsIn c
      → StaysIn (app_message_in C id frame c o)
  app_message_in-StaysIn id frame c none v = v
  app_message_in-StaysIn id frame c (some state) v =
      checked-StaysIn id state frame c (check_app_message C state frame) v

  -- A way to handle frames that keeps the client in the room.
  abbrev Keeps : (Frame → Client C → Option (Answer C)) → Type 0
  Keeps handle = (frame : Frame) (c : Client C) → IsIn c → StaysIn (handle frame c)

  before_rest-StaysIn :
      (actions : List ClientAction) (o : Option (Answer C))
      → StaysIn o
      → StaysIn (before_rest C actions o)
  before_rest-StaysIn actions none v = tt
  before_rest-StaysIn actions (some (err e, c)) v = v
  before_rest-StaysIn actions (some (ok later, c)) v = v

  then_rest-StaysIn :
      (o : Option (Answer C)) (rest : Client C → Option (Answer C))
      → StaysIn o
      → ((c : Client C) → IsIn c → StaysIn (rest c))
      → StaysIn (then_rest C o rest)
  then_rest-StaysIn none rest v h = tt
  then_rest-StaysIn (some (result, c)) rest v h = before_rest-StaysIn _ (rest c) (h c v)

  sync_frames-StaysIn :
      (handle : Frame → Client C → Option (Answer C)) (frames : List (List ℕ)) (c : Client C)
      → Keeps handle
      → IsIn c
      → StaysIn (sync_frames C handle frames c)
  unfolding sync_frames
  sync_frames-StaysIn handle [] c keeps v = v
  sync_frames-StaysIn handle (bytes ∷ frames) c keeps v = elim (Result-cases (decode bytes)) [
    | inr (e, bad) ↦ rw (StaysIn, bad) v
    | inl (frame, good) ↦
        rw (StaysIn, good)
          (then_rest-StaysIn (handle frame c) (sync_frames C handle frames) (keeps frame c v)
            (λ c' v'. sync_frames-StaysIn handle frames c' keeps v'))
  ]

  synced-StaysIn :
      (id : ℕ) (response : SyncResponse) (o : Option (Answer C))
      → StaysIn o
      → StaysIn (synced C id response o)
  synced-StaysIn id response none v = tt
  synced-StaysIn id response (some (err e, c)) v = v
  synced-StaysIn id response (some (ok actions, c)) v = v

  sync_with-StaysIn :
      (handle : Frame → Client C → Option (Answer C)) (id : ℕ) (c : Client C)
      (o : Option SyncResponse)
      → Keeps handle
      → IsIn c
      → StaysIn (sync_with C handle id c o)
  sync_with-StaysIn handle id c none keeps v = v
  sync_with-StaysIn handle id c (some response) keeps v =
      synced-StaysIn id response _ (sync_frames-StaysIn handle response.frames c keeps v)

  on_opcode-StaysIn :
      (handle : Frame → Client C → Option (Answer C)) (code : Option Opcode) (frame : Frame)
      (c : Client C)
      → Keeps handle
      → IsIn c
      → StaysIn (on_opcode C handle code frame c)
  unfolding handle_app_message handle_commit handle_sync_response handle_mls_message
  on_opcode-StaysIn handle none frame c keeps v = v
  on_opcode-StaysIn handle (some Opcode.app_message) frame c keeps v =
      app_message_in-StaysIn (Header.room_id frame.header) frame c _ v
  on_opcode-StaysIn handle (some Opcode.commit) frame c keeps v =
      commit_in-StaysIn (Header.room_id frame.header) frame c _ v
  on_opcode-StaysIn handle (some Opcode.welcome) frame c keeps v =
      handle_welcome-StaysIn (Header.room_id frame.header) frame c v
  on_opcode-StaysIn handle (some Opcode.sync_response) frame c keeps v =
      sync_with-StaysIn handle (Header.room_id frame.header) c _ keeps v
  on_opcode-StaysIn handle (some _) frame c keeps v =
      message_in-StaysIn (Header.room_id frame.header) frame c _ v

  -- No frame that a client receives takes it out of a room, not even one by whose actions the room
  -- is removed.
  pub handle_frame-StaysIn :
      (fuel : ℕ) (frame : Frame) (c : Client C)
      → is_member C c room ≡ true
      → StaysIn (handle_frame C fuel frame c)
  unfolding handle_frame
  handle_frame-StaysIn zero frame c v = tt
  handle_frame-StaysIn (suc fuel) frame c v =
      on_opcode-StaysIn (handle_frame C fuel) (Header.opcode_enum frame.header) frame c
        (handle_frame-StaysIn fuel) v
