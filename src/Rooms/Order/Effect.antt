-- ===== src/Rooms/Order/Effect.antt =====
-- crates/lockframe-server/src/lib.rs and room_manager.rs: what one served frame does to the next
-- index and to the log of every room.
use kalandra.Prelude.{
  ℕ, ◌+◌, ◌^◌, ◌<◌, ◌≡◌, ◌≢◌, refl, ap, ◌∙◌, ◌==◌, ==_iff, if◌then◌else◌, Bool-cases, inl, inr,
  List, [], ◌∷◌, map, length, Option, Result, ok, err, Option-cases, Result-cases, map_err, get,
}
use kalandra.Prelude.Exec.{after}
use kalandra.Proto.Header
use kalandra.Proto.Frame.{Frame}
use kalandra.Mls.State.{Ed25519, MlsGroupState}
use kalandra.Mls.Group.{MlsGroups}
use kalandra.Storage.{Storage, Contract}
use kalandra.Sequencer
use kalandra.Sequencer.{
  Sequencer, SequencerAction, SequencerError, accepted, rebuild_frame_with_index, broadcast_to_room,
}
use kalandra.Sequencer.Indices.{
  next_of, assigned, assigned-next_of, Sequenced, failed, passed, placed, process_frame-Sequenced,
}
use kalandra.Rooms.{RoomAction, RoomError, to_room_action, sequencing, validate_frame_basic}
use kalandra.Rooms.Manager.{RoomManager, finish_frame, process_frame}
use kalandra.Rooms.Persist.{persist, persist_action}
use kalandra.Rooms.Serve.{Server, finish, serve_frame}
use kalandra.Rooms.Order.Writes.{log_after, log-persist-accepted, persist-broadcast}
use kalandra.Rooms.Order.Finish.{Finished, refused, done, finish_frame-Finished}

module _ (S : Storage) (c : Contract S) (G : MlsGroups) (dalek : Ed25519) where
  -- The index that the next frame of a room is given.
  abbrev pub next : Server S G dalek → ℕ → ℕ
  next s room = next_of S c s.manager.sequencer s.store room

  abbrev pub log_of : Server S G dalek → ℕ → List Frame
  log_of s room = c.log s.store room

  -- The next index, when the room's has gone up.
  abbrev pub next_after : Server S G dalek → ℕ → ℕ → ℕ
  next_after s room other = if room == other then next s room + 1 else next s other

  -- The frame as it is stored.
  abbrev pub placed_frame : Server S G dalek → Frame → Frame
  placed_frame s frame = rebuild_frame_with_index frame (next s (Header.room_id frame.header))

  -- A frame leaves the room as it was, takes an index and leaves no trace in the log, or takes an
  -- index and is offered to the log.
  pub data Outcome (s : Server S G dalek) (frame : Frame) (s' : Server S G dalek) : Type 0 where
    idle :
        ((room : ℕ) → next s' room ≡ next s room)
        → ((room : ℕ) → log_of s' room ≡ log_of s room)
        → Outcome s frame s'
    wasted :
        next s (Header.room_id frame.header) + 1 < 2 ^ 64
        → ((room : ℕ) → next s' room ≡ next_after s (Header.room_id frame.header) room)
        → ((room : ℕ) → log_of s' room ≡ log_of s room)
        → Outcome s frame s'
    recorded :
        next s (Header.room_id frame.header) + 1 < 2 ^ 64
        → ((room : ℕ) → next s' room ≡ next_after s (Header.room_id frame.header) room)
        → ((room : ℕ)
            → log_of s' room
              ≡ log_after S c s.store
                  (Header.room_id frame.header)
                  (next s (Header.room_id frame.header))
                  (placed_frame s frame)
                  room)
        → Outcome s frame s'

  next_of-log :
      (q q' : Sequencer) (store store' : S.Store) (room : ℕ)
      → q' ≡ q
      → c.log store' room ≡ c.log store room
      → next_of S c q' store' room ≡ next_of S c q store room
  next_of-log q q' store store' room e same = rw (e, same) refl

  -- A frame that is passed on without an index.
  passed-Outcome :
      (s : Server S G dalek) (frame : Frame) (m : RoomManager S G dalek) (actions : List RoomAction)
      (end : Result RoomError (List RoomAction) × RoomManager S G dalek)
      → m.sequencer ≡ s.manager.sequencer
      → ((room : ℕ) → c.log (persist S actions s.store) room ≡ c.log s.store room)
      → Finished S c G dalek m actions end
      → Outcome s frame (finish S G dalek end s.store)
  passed-Outcome s frame m actions (err _, m') e quiet (refused _ kept) =
      idle (λ room. next_of-log _ _ s.store s.store room (kept ∙ e) refl) (λ _. refl)
  passed-Outcome s frame m actions (ok out, m') e quiet (done kept same) =
      idle (λ room. next_of-log _ _ s.store _ room (kept ∙ e) (same s.store room ∙ quiet room))
        (λ room. same s.store room ∙ quiet room)

  pub quiet_elsewhere :
      (store : S.Store) (room index : ℕ) (frame : Frame) (other : ℕ)
      → room ≢ other
      → log_after S c store room index frame other ≡ c.log store other
  quiet_elsewhere store room index frame other ne = elim (Bool-cases (room == other)) [
    | inl hit ↦ elim (ne ((==_iff room other).0 hit)) [ ]
    | inr miss ↦ rw miss refl
  ]

  -- A frame that was given an index.
  placed-Outcome :
      (s : Server S G dalek) (frame : Frame) (now : ℕ) (m : RoomManager S G dalek)
      (end : Result RoomError (List RoomAction) × RoomManager S G dalek)
      → next s (Header.room_id frame.header) + 1 < 2 ^ 64
      → m.sequencer ≡ assigned S c s.manager.sequencer s.store (Header.room_id frame.header)
      → Finished S c G dalek m
          (map (to_room_action now) (
            accepted
              (Header.room_id frame.header)
              (next s (Header.room_id frame.header))
              (placed_frame s frame)))
          end
      → Outcome s frame (finish S G dalek end s.store)
  placed-Outcome s frame now m (err _, m') below e (refused _ kept) =
      let r : ℕ = Header.room_id frame.header in
      wasted below
        (λ room.
          next_of-log _ _ s.store s.store room (kept ∙ e) refl
          ∙ assigned-next_of S c s.manager.sequencer s.store s.store r room (λ _. refl))
        (λ _. refl)
  placed-Outcome s frame now m (ok out, m') below e (done kept same) =
      let r : ℕ = Header.room_id frame.header in
      let written : (room : ℕ)
          → c.log (persist S out s.store) room
            ≡ log_after S c s.store r (next s r) (placed_frame s frame) room =
        λ room.
          same s.store room
          ∙ log-persist-accepted S c s.store r (next s r) now (placed_frame s frame) room in
      recorded below
        (λ room.
          next_of-log _ _ (persist S out s.store) _ room (kept ∙ e) refl
          ∙ assigned-next_of S c s.manager.sequencer s.store (persist S out s.store) r room (λ ne.
            written room ∙ quiet_elsewhere s.store r (next s r) (placed_frame s frame) room ne))
        written

  -- From the sequencer's result to the end of the frame.
  turn-Outcome :
      (s : Server S G dalek) (frame : Frame) (now : ℕ) (state : Option MlsGroupState)
      (turn : Result SequencerError (List SequencerAction) × Sequencer)
      → Sequenced S c s.manager.sequencer s.store frame turn
      → Outcome s frame (
          finish S G dalek
            (after
              (finish_frame S G dalek frame now state)
              (map_err sequencing turn.0, record s.manager { sequencer = turn.1 }))
            s.store)
  unfolding to_room_action persist persist_action
  turn-Outcome s frame now state (err _, q') (failed e same) = idle same (λ _. refl)
  turn-Outcome s frame now state (ok _, q') (passed room) =
      passed-Outcome s frame s.manager
        (map (to_room_action now) (broadcast_to_room room frame ∷ [])) _ refl
        (λ other.
          ap (λ (store : S.Store). c.log store other)
            (persist-broadcast S c s.store room frame now))
        (finish_frame-Finished S c G dalek frame now state (broadcast_to_room room frame ∷ [])
          s.manager)
  turn-Outcome s frame now state (ok acts, q') (placed below) =
      placed-Outcome s frame now (record s.manager { sequencer = q' }) _ below refl
        (finish_frame-Finished S c G dalek frame now state acts
          (record s.manager { sequencer = q' }))

  pub serve_frame-Outcome :
      (s : Server S G dalek) (now : ℕ) (frame : Frame)
      → length (log_of s (Header.room_id frame.header)) < 2 ^ 64
      → Outcome s frame (serve_frame S G dalek s (now, frame))
  unfolding serve_frame process_frame
  serve_frame-Outcome s now frame small =
      elim (Option-cases (get s.manager.groups (Header.room_id frame.header))) [
        | inl missing ↦ rw missing (idle (λ _. refl) (λ _. refl))
        | inr (group, found) ↦
            elim (Result-cases (S.load_mls_state s.store (Header.room_id frame.header))) [
              | inr (e, bad) ↦ rw (found, bad) (idle (λ _. refl) (λ _. refl))
              | inl (state, loaded) ↦
                  elim (Result-cases (validate_frame_basic dalek frame (G.epoch group) state)) [
                    | inr (e, bad) ↦ rw (found, loaded, bad) (idle (λ _. refl) (λ _. refl))
                    | inl (_, good) ↦
                        rw (found, loaded, good)
                          (turn-Outcome s frame now state
                            (Sequencer.process_frame S frame s.store s.manager.sequencer)
                            (process_frame-Sequenced S c s.manager.sequencer s.store frame small))
                  ]
            ]
      ]
