-- ===== src/Rooms/Order/Overtaking.antt =====
-- crates/lockframe-server/src/lib.rs: `handle_stream` locks the driver to have a frame processed, and
-- again to have its actions executed. Between the two, another stream may have its turn.
pub mod Crossed
use kalandra.Prelude.{
  ℕ, ◌+◌, ◌^◌, ◌<◌, ◌≤◌, ◌≡◌, ◌≢◌, refl, sym, ap, ◌∙◌, ◌==◌, ==_iff, ==_refl, if◌then◌else◌,
  Bool-cases, inl, inr, true, false, List, [], ◌∷◌, ◌++◌, map, length, length-append, arith, Option,
  some, get, Result, ok, err,
}
use kalandra.Proto.Opcode.{is_some_opcode, commit}
use kalandra.Proto.Header
use kalandra.Proto.Frame.{Frame}
use kalandra.Mls.State.{Ed25519, MlsGroupState}
use kalandra.Mls.Group.{MlsGroups}
use kalandra.Storage.{Storage, Contract}
use kalandra.Sequencer.{accepted}
use kalandra.Sequencer.Indices.{assigned, assigned-next_of}
use kalandra.Rooms.{RoomAction, RoomError, check_signature, to_room_action}
use kalandra.Rooms.Manager.{RoomManager, finish_frame, process_frame}
use kalandra.Rooms.Persist.{persist}
use kalandra.Rooms.Serve.{Server, finish, serve, serve_frame}
use kalandra.Rooms.Order.Writes.{log_after, log-persist-accepted}
use kalandra.Rooms.Order.Effect.{next, next_after, log_of, placed_frame}
use kalandra.Rooms.Order.Invariant.{
  IsOrdered, IsDense, append-IsDense, log_index-rebuild, serve_frame-IsOrdered, next_after-behind,
  next_after-bounded,
}
use kalandra.Rooms.Order.Gap.{
  IsAhead, IsAdmitted, process_frame-IsAdmitted, validate_signatures-accepted, serve_frame-stores,
  serve-ahead,
}

module _ (S : Storage) (G : MlsGroups) (dalek : Ed25519) where
  -- The first lock: the frame is processed. After an error there are no actions.
  abbrev processed_as :
      S.Store
      → Result RoomError (List RoomAction) × RoomManager S G dalek
      → List RoomAction × Server S G dalek
  processed_as store (ok actions, m) = (actions, record { manager = m; store = store })
  processed_as store (err _, m) = ([], record { manager = m; store = store })

  unfoldable pub process_turn : Server S G dalek → ℕ × Frame → List RoomAction × Server S G dalek
  process_turn s (now, frame) =
      processed_as s.store (process_frame S G dalek frame now s.store s.manager)

  -- The second lock: the actions are executed.
  unfoldable pub execute_turn : List RoomAction → Server S G dalek → Server S G dalek
  execute_turn actions s = record s { store = persist S actions s.store }

  finish-processed_as :
      (store : S.Store) (done : Result RoomError (List RoomAction) × RoomManager S G dalek)
      → execute_turn (processed_as store done).0 (processed_as store done).1
        ≡ finish S G dalek done store
  unfolding execute_turn persist
  finish-processed_as store (ok actions, m) = refl
  finish-processed_as store (err e, m) = refl

  -- The two locks in a row are a turn.
  pub execute_turn-process_turn :
      (s : Server S G dalek) (arrival : ℕ × Frame)
      → execute_turn (process_turn s arrival).0 (process_turn s arrival).1
        ≡ serve_frame S G dalek s arrival
  unfolding process_turn serve_frame
  execute_turn-process_turn s (now, frame) =
      finish-processed_as s.store (process_frame S G dalek frame now s.store s.manager)

  -- The second of two frames has both its turns between those of the first.
  unfoldable pub overtake : Server S G dalek → (first second : ℕ × Frame) → Server S G dalek
  unfolding process_turn execute_turn
  overtake s first second =
      let one = process_turn s first in
      let two = process_turn one.1 second in execute_turn one.0 (execute_turn two.0 two.1)

module _ (S : Storage) (c : Contract S) (G : MlsGroups) (dalek : Ed25519) where
  -- The manager after an admitted frame.
  abbrev pub counted : Server S G dalek → Frame → Server S G dalek
  counted s frame = record s {
    manager = record s.manager {
      sequencer = assigned S c s.manager.sequencer s.store (Header.room_id frame.header);
    };
  }

  pub process_turn-IsAdmitted :
      (s : Server S G dalek) (now : ℕ) (frame : Frame) (group : G.Group)
      (state : Option MlsGroupState)
      → IsOrdered S c G dalek s
      → IsAdmitted S c G dalek s frame group state
      → check_signature dalek (placed_frame S c G dalek s frame) state ≡ ok tt
      → is_some_opcode (Header.opcode_enum frame.header) commit ≡ false
      → let r = Header.room_id frame.header in
        process_turn S G dalek s (now, frame) ≡ (
          map
              (to_room_action now)
              (accepted r (next S c G dalek s r) (placed_frame S c G dalek s frame)),
          counted s frame,
        )
  unfolding process_turn finish_frame
  process_turn-IsAdmitted s now frame group state v a good plain =
      rw
        (
          process_frame-IsAdmitted S c G dalek s now frame group state v a,
          validate_signatures-accepted S c G dalek _ _ _ state (ok tt) good,
          plain,
        )
        refl

  pub next-counted :
      (s : Server S G dalek) (frame : Frame) (store : S.Store) (room : ℕ)
      → (Header.room_id frame.header ≢ room → c.log store room ≡ c.log s.store room)
      → next S c G dalek (record { manager = (counted s frame).manager; store = store }) room
        ≡ next_after S c G dalek s (Header.room_id frame.header) room
  next-counted s frame store room same =
      assigned-next_of S c s.manager.sequencer s.store store (Header.room_id frame.header) room same

  pub counted-IsOrdered :
      (s : Server S G dalek) (frame : Frame)
      → IsOrdered S c G dalek s
      → next S c G dalek s (Header.room_id frame.header) + 1 < 2 ^ 64
      → IsOrdered S c G dalek (counted s frame)
  counted-IsOrdered s frame v left =
      let r : ℕ = Header.room_id frame.header in
      record {
        dense = v.dense;
        behind = λ room.
            rw (next-counted s frame s.store room (λ _. refl))
              (next_after-behind S c G dalek s r room v);
        bounded = λ room.
            rw (next-counted s frame s.store room (λ _. refl))
              (next_after-bounded S c G dalek s r room v left);
      }
