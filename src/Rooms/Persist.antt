-- ===== src/Rooms/Persist.antt =====
-- crates/lockframe-server/src/lib.rs: the actions that `execute_actions` carries out, as
-- `convert_room_action` of driver.rs passes them on, as far as they reach the storage. A failed write
-- is logged and forgotten; a broadcast whose frame does not encode ends the loop with an error.
use kalandra.Prelude.{List, [], ◌∷◌, Bool, true, if◌then◌else◌, is_ok}
use kalandra.Proto.Frame.{encode}
use kalandra.Storage.{Storage}
use kalandra.Rooms.{
  RoomAction, broadcast, persist_frame, persist_mls_state, reject_sender, send_sync_response,
}

-- `frame.encode(&mut buf)?` of a broadcast. A list with something to store has no answer to a single
-- session in it: Driver/Serving/Routine.
abbrev pub is_sent : RoomAction → Bool
is_sent (broadcast _ frame _ _) = is_ok (encode frame [])
is_sent (persist_frame _ _ _ _) = true
is_sent (persist_mls_state _ _ _) = true
is_sent (reject_sender _ _ _) = true
is_sent (send_sync_response _ _ _ _ _ _) = true

module _ (S : Storage) where
  unfoldable pub persist_action : RoomAction → S.Store → S.Store
  persist_action (persist_frame room_id log_index frame _) store =
      (S.store_frame store room_id log_index frame).1
  persist_action (persist_mls_state room_id state _) store =
      (S.store_mls_state store room_id state).1
  persist_action (broadcast _ _ _ _) store = store
  persist_action (reject_sender _ _ _) store = store
  persist_action (send_sync_response _ _ _ _ _ _) store = store

  unfoldable pub persist : List RoomAction → S.Store → S.Store
  unfolding persist_action
  persist [] store = store
  persist (action ∷ rest) store =
      let next = persist_action action store in
      let later = persist rest next in if is_sent action then later else next
