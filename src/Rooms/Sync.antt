-- ===== src/Rooms/Sync.antt =====
-- crates/lockframe-server/src/room_manager.rs: `handle_sync_request`, the replay of a room's log.
use kalandra.Prelude.{
  ℕ, zero, suc, ◌+◌, ◌-◌, ◌^◌, ◌≤◌, ◌<◌, ◌≡◌, ◌≢◌, refl, sym, ltb, false, Option, none, some, List,
  [], ◌∷◌, ◌++◌, length, take, drop, All, Result, ok, err, is_some_and, get, arith, length-take,
  length-drop, min, le→ltb_false,
}
use kalandra.Proto.Header.{to_bytes, max_payload_size}
use kalandra.Proto.Frame.{Frame, encode}
use kalandra.Mls.State.{Ed25519}
use kalandra.Mls.Group.{MlsGroups}
use kalandra.Storage.{Storage, StorageError, Contract, last_index}
use kalandra.Rooms.{RoomAction, RoomError, send_sync_response, room_not_found, storage}
use kalandra.Rooms.Manager.{RoomManager}
use kalandra.Proto.Frame.Wire.{encode-small}

-- The frames as they are sent. `expect` panics on a frame that is too large.
unfoldable pub encode_all : List Frame → Option (List (List ℕ))
encode_all [] = some []
encode_all (frame ∷ frames) =
    let rest = encode_all frames in
    elim (encode frame []) [
      | err _ ↦ none
      | ok bytes ↦ elim rest [ none ↦ none | some encoded ↦ some (bytes ∷ encoded) ]
    ]

-- The index of the last frame that the response covers. The subtraction saturates.
unfoldable pub last_loaded_index : ℕ → List Frame → ℕ
last_loaded_index from_log_index [] = from_log_index - 1
last_loaded_index from_log_index (f ∷ fs) = from_log_index + length (f ∷ fs) - 1

module _ (S : Storage) (G : MlsGroups) (dalek : Ed25519) where
  abbrev pub respond :
      (sender_id room_id from_log_index server_epoch now : ℕ)
      → List Frame
      → List (List ℕ)
      → Result StorageError (Option ℕ)
      → Result RoomError RoomAction
  respond sender_id room_id from_log_index server_epoch now frames bytes (err e) = err (storage e)
  respond sender_id room_id from_log_index server_epoch now frames bytes (ok latest) =
      let has_more = is_some_and latest (λ i. ltb (last_loaded_index from_log_index frames) i) in
      ok (send_sync_response sender_id room_id bytes has_more server_epoch now)

  abbrev pub with_frames :
      (store : S.Store) (sender_id room_id from_log_index server_epoch now : ℕ)
      → Result StorageError (List Frame)
      → Option (Result RoomError RoomAction)
  with_frames store sender_id room_id from_log_index server_epoch now (err e) =
      some (err (storage e))
  with_frames store sender_id room_id from_log_index server_epoch now (ok frames) =
      elim (encode_all frames) [
        | none ↦ none
        | some bytes ↦ some (
            respond sender_id room_id from_log_index server_epoch now frames bytes
              (S.latest_log_index store room_id))
      ]

  abbrev pub with_group :
      (store : S.Store) (sender_id room_id from_log_index limit now : ℕ)
      → Option G.Group
      → Option (Result RoomError RoomAction)
  with_group store sender_id room_id from_log_index limit now none =
      some (err (room_not_found room_id))
  with_group store sender_id room_id from_log_index limit now (some group) =
      elim (S.load_frames store room_id from_log_index limit) [
        | none ↦ none
        | some loaded ↦
            with_frames store sender_id room_id from_log_index (G.epoch group) now loaded
      ]

  -- `handle_sync_request`; `none` is a panic.
  unfoldable pub handle_sync_request :
      RoomManager S G dalek
      → (room_id sender_id from_log_index limit now : ℕ) → S.Store
      → Option (Result RoomError RoomAction)
  handle_sync_request m room_id sender_id from_log_index limit now store =
      with_group store sender_id room_id from_log_index limit now (get m.groups room_id)

abbrev pub IsSendable : Frame → Type 0
IsSendable frame = length frame.payload ≤ max_payload_size

-- What is sent for a frame.
abbrev pub wire : List Frame → List (List ℕ)
wire [] = []
wire (f ∷ fs) = (to_bytes f.header ++ f.payload) ∷ wire fs

encode_all-wire :
    (frames : List Frame) → All IsSendable frames → encode_all frames ≡ some (wire frames)
unfolding encode_all
encode_all-wire [] h = refl
encode_all-wire (f ∷ fs) h = rw (encode-small f [] h.0, encode_all, encode_all-wire fs h.1)

has_more_page :
    (log page : List Frame) (from limit : ℕ)
    → 0 < limit
    → length page ≡ min limit (length log - from)
    → is_some_and (last_index log) (λ i. ltb (last_loaded_index from page) i)
      ≡ ltb (from + length page) (length log)
unfolding last_loaded_index
has_more_page [] page from limit h e = sym (le→ltb_false (from + length page) 0 (omega arith))
has_more_page (g ∷ gs) [] from limit h e = ground arith
has_more_page (g ∷ gs) (f ∷ fs) from limit h e = ground arith

has_more_lem :
    (log : List Frame) (from limit : ℕ)
    → 0 < limit
    → is_some_and
        (last_index log)
        (λ i. ltb (last_loaded_index from (take limit (drop from log))) i)
      ≡ ltb (from + length (take limit (drop from log))) (length log)
has_more_lem log from limit h =
    has_more_page log (take limit (drop from log)) from limit h
      (omega (arith, length-take limit (drop from log), length-drop from log))

All-drop : (n : ℕ) (fs : List Frame) → All IsSendable fs → All IsSendable (drop n fs)
All-drop zero fs h = h
All-drop (suc n) [] h = h
All-drop (suc n) (f ∷ fs) h = All-drop n fs h.1

All-take : (n : ℕ) (fs : List Frame) → All IsSendable fs → All IsSendable (take n fs)
All-take zero fs h = tt
All-take (suc n) [] h = tt
All-take (suc n) (f ∷ fs) h = (h.0, All-take n fs h.1)

module _ (S : Storage) (c : Contract S) (G : MlsGroups) (dalek : Ed25519) where
  -- A sync request on a room with frames is answered by the page of its log from the given index
  -- on, encoded, and says that there is more exactly when the log goes on behind the page. The
  -- limit is not 0, index and limit fit 64 bits, and every stored frame can be sent.
  pub sync_response :
      (m : RoomManager S G dalek) (store : S.Store) (room sender from limit now : ℕ)
      (group : G.Group)
      → get m.groups room ≡ some group
      → c.log store room ≢ []
      → All IsSendable (c.log store room)
      → 0 < limit
      → from + limit < 2 ^ 64
      → let page = take limit (drop from (c.log store room)) in
        handle_sync_request S G dalek m room sender from limit now store
        ≡ some (
            ok (
              send_sync_response sender room
                (wire page)
                (ltb (from + length page) (length (c.log store room)))
                (G.epoch group)
                now))
  unfolding handle_sync_request
  sync_response m store room sender from limit now group e some_frames sendable h small =
      let page : List Frame = take limit (drop from (c.log store room)) in
      let encoded : encode_all page ≡ some (wire page) =
        encode_all-wire page (All-take limit _ (All-drop from (c.log store room) sendable)) in
      rw (
        e,
        with_group,
        c.loaded store room from limit some_frames small,
        with_frames,
        encoded,
        c.latest store room,
        respond,
        has_more_lem (c.log store room) from limit h,
      )

  -- With a limit of 0 from index 0 on, a room with one frame is said to have no more.
  pub sync_limit_zero :
      (m : RoomManager S G dalek) (store : S.Store) (room sender now : ℕ) (group : G.Group)
      (f : Frame)
      → get m.groups room ≡ some group
      → c.log store room ≡ f ∷ []
      → handle_sync_request S G dalek m room sender 0 0 now store
        ≡ some (ok (send_sync_response sender room [] false (G.epoch group) now))
  unfolding handle_sync_request encode_all last_loaded_index
  sync_limit_zero m store room sender now group f e one =
      let some_frames : c.log store room ≢ [] = λ empty. cc (one, empty) in
      rw (
        e,
        with_group,
        c.loaded store room 0 0 some_frames (omega arith),
        with_frames,
        c.latest store room,
        one,
      )
