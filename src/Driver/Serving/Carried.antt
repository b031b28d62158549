-- ===== src/Driver/Serving/Carried.antt =====
-- crates/lockframe-server/src/driver.rs and lib.rs: a room's actions, converted and executed.
use kalandra.Prelude.{
  ℕ, ◌≡◌, refl, ◌∙◌, ap, Bool, if◌then◌else◌, List, [], ◌∷◌, All, Result, ok, err, is_ok,
}
use kalandra.Prelude.Exec.{after}
use kalandra.Proto.Errors.{ProtocolError}
use kalandra.Proto.Frame.{encode}
use kalandra.Rooms
use kalandra.Rooms.{RoomAction}
use kalandra.Rooms.Persist.{persist, persist_action, is_sent}
use kalandra.Driver.{Libraries, ServerAction, ServerError}
use kalandra.Driver.Actions.{convert_room_action, convert_room_actions}
use kalandra.Driver.Serving.{Shared, as_sent, execute_actions}
use kalandra.Driver.Serving.Quiet.{execute_actions-append}
use kalandra.Driver.Serving.Routine.{IsRoutine}

module _ (L : Libraries) where
  as_sent-is_ok : (r : Result ProtocolError (List ℕ)) → is_ok (as_sent L r) ≡ is_ok r
  as_sent-is_ok (ok bytes) = refl
  as_sent-is_ok (err e) = refl

  stays :
      (r : Result ServerError (Unit {0})) (s : Shared L)
      → (is_ok (after (λ _. execute_actions L []) (r, s)).0 ≡ is_ok r)
        × ((after (λ _. execute_actions L []) (r, s)).1.1 ≡ s.1)
  unfolding execute_actions
  stays (ok _) s = (refl, refl)
  stays (err e) s = (refl, refl)

  -- A room's action is carried out on the storage as the room manager means it, and ends the loop
  -- where the room's loop ends.
  convert_room_action-carries :
      (sender now : ℕ) (action : RoomAction) (s : Shared L)
      → IsRoutine action
      → let done = execute_actions L (convert_room_action L sender now action) s in
        (is_ok done.0 ≡ is_sent action) × (done.1.1 ≡ persist_action L.storage action s.1)
  unfolding execute_actions convert_room_action persist_action
  convert_room_action-carries sender now (Rooms.broadcast room_id frame exclude at) s routine =
      let (same, kept) = stays (as_sent L (encode frame [])) s in
      (same ∙ as_sent-is_ok (encode frame []), kept)
  convert_room_action-carries sender now (Rooms.persist_frame room_id index frame at) s routine =
      (refl, refl)
  convert_room_action-carries sender now (Rooms.persist_mls_state room_id state at) s routine =
      (refl, refl)
  convert_room_action-carries sender now (Rooms.reject_sender id reason at) s routine =
      absurd routine
  convert_room_action-carries sender now (Rooms.send_sync_response id room_id frames more epoch at)
        s routine =
      absurd routine

  after-carried :
      (done : Result ServerError (Unit {0}) × Shared L) (sent : Bool) (store : L.storage.Store)
      (rest : List ServerAction) (actions : List RoomAction)
      → is_ok done.0 ≡ sent
      → done.1.1 ≡ store
      → ((s : Shared L) → (execute_actions L rest s).1.1 ≡ persist L.storage actions s.1)
      → (after (λ _. execute_actions L rest) done).1.1
        ≡ (if sent then persist L.storage actions store else store)
  after-carried (ok _, s) sent store rest actions same stored later =
      rw (← same) (later s ∙ ap (persist L.storage actions) stored)
  after-carried (err e, s) sent store rest actions same stored later = rw (← same) stored

  pub execute_actions-convert_room_actions :
      (sender now : ℕ) (actions : List RoomAction) (s : Shared L)
      → All IsRoutine actions
      → (execute_actions L (convert_room_actions L sender now actions) s).1.1
        ≡ persist L.storage actions s.1
  unfolding convert_room_actions persist execute_actions
  execute_actions-convert_room_actions sender now [] s routine = refl
  execute_actions-convert_room_actions sender now (action ∷ actions) s (here, later) =
      let (same, stored) = convert_room_action-carries sender now action s here in
      ap (λ (done : Result ServerError (Unit {0}) × Shared L). done.1.1)
        (execute_actions-append L (convert_room_action L sender now action)
          (convert_room_actions L sender now actions) s)
      ∙ after-carried (execute_actions L (convert_room_action L sender now action) s)
          (is_sent action) _ (convert_room_actions L sender now actions) actions same stored
          (λ t. execute_actions-convert_room_actions sender now actions t later)
