-- ===== src/Driver/Serving/Routine.antt =====
-- crates/lockframe-server/src/room_manager.rs: `process_frame` answers with broadcasts and writes only.
use kalandra.Prelude.{
  ℕ, ◌+◌, ◌^◌, List, [], ◌∷◌, map, All, All-append, Option, Option-cases, Result, ok, err,
  Result-cases, Bool-cases, inl, inr, get, get-insert, ==_refl, map_err, leb,
}
use kalandra.Prelude.Exec.{after}
use kalandra.Proto.Opcode.{is_some_opcode, commit, welcome}
use kalandra.Proto.Header
use kalandra.Proto.Frame.{Frame}
use kalandra.Mls.State.{Ed25519, MlsGroupState}
use kalandra.Mls.Group.{MlsGroups}
use kalandra.Storage.{Storage}
use kalandra.Sequencer
use kalandra.Sequencer.{Sequencer, SequencerAction, SequencerError}
use kalandra.Rooms
use kalandra.Rooms.{
  RoomAction, RoomError, to_room_action, sequencing, validate_frame_basic, validate_signatures,
}
use kalandra.Rooms.Manager.{RoomManager, apply_commit, commit_frame, finish_frame, process_frame}

-- No answer to a single session.
abbrev pub IsRoutine : RoomAction → Type 0
IsRoutine (Rooms.broadcast _ _ _ _) = Unit
IsRoutine (Rooms.persist_frame _ _ _ _) = Unit
IsRoutine (Rooms.persist_mls_state _ _ _) = Unit
IsRoutine (Rooms.reject_sender _ _ _) = ⊥
IsRoutine (Rooms.send_sync_response _ _ _ _ _ _) = ⊥

-- The actions of a result, when it has any.
abbrev pub AllOf : {E A T : Type 0} → (A → Type 0) → Result E (List A) × T → Type 0
AllOf P (ok actions, t) = All P actions
AllOf P (err e, t) = Unit

module _ (S : Storage) (G : MlsGroups) (dalek : Ed25519) where
  assign-IsRoutine :
      (store : S.Store) (frame : Frame) (now : ℕ) (q : Sequencer)
      → AllOf (λ a. IsRoutine (to_room_action now a)) (Sequencer.assign S store frame q)
  unfolding Sequencer.assign to_room_action
  assign-IsRoutine store frame now q =
      let room : ℕ = Header.room_id frame.header in
      elim (Option-cases (get q.rooms room)) [
        | inr (cached, hit) ↦ elim (Bool-cases (leb (2 ^ 64) (cached.next_log_index + 1))) [
          | inl full ↦ rw (hit, full) tt
          | inr free ↦ rw (hit, free) (tt, (tt, (tt, tt)))
        ]
        | inl miss ↦ elim (Result-cases (S.latest_log_index store room)) [
          | inr (e, bad) ↦ rw (miss, bad) tt
          | inl (latest, good) ↦
              elim (Bool-cases (leb (2 ^ 64) (Sequencer.index_after S latest + 1))) [
                | inl full ↦ rw (miss, good, full) tt
                | inr free ↦ rw (miss, good, free) (tt, (tt, (tt, tt)))
              ]
        ]
      ]

  sequenced-IsRoutine :
      (frame : Frame) (store : S.Store) (now : ℕ) (q : Sequencer)
      → AllOf (λ a. IsRoutine (to_room_action now a)) (Sequencer.process_frame S frame store q)
  unfolding Sequencer.process_frame to_room_action
  sequenced-IsRoutine frame store now q =
      elim (Result-cases (Sequencer.validate_frame_structure frame)) [
        | inr (e, bad) ↦ rw bad tt
        | inl (_, good) ↦
            elim (Bool-cases (is_some_opcode (Header.opcode_enum frame.header) welcome)) [
              | inl hit ↦ rw (good, hit) (tt, tt)
              | inr miss ↦ rw (good, miss) (assign-IsRoutine store frame now q)
            ]
      ]

  commit_frame-IsRoutine :
      (room now : ℕ) (frame : Frame) (actions : List RoomAction) (m : RoomManager S G dalek)
      → All IsRoutine actions
      → AllOf IsRoutine (commit_frame S G dalek room now frame actions m)
  unfolding commit_frame
  commit_frame-IsRoutine room now frame actions m routine =
      elim (Option-cases (get m.groups room)) [
        | inl missing ↦ rw missing tt
        | inr (group, found) ↦ elim (Result-cases (apply_commit S G dalek frame group).0) [
          | inr (e, bad) ↦ rw (found, bad) tt
          | inl (_, good) ↦
              let group' = (apply_commit S G dalek frame group).1 in
              elim (Result-cases (G.export_group_state group')) [
                | inr (e, bad) ↦
                    rw (found, good, get-insert m.groups room group' room, ==_refl room, bad) tt
                | inl (state, fine) ↦
                    rw (found, good, get-insert m.groups room group' room, ==_refl room, fine)
                      (All-append IsRoutine actions _ routine (tt, tt))
              ]
        ]
      ]

  map-IsRoutine :
      (now : ℕ) (sequenced : List SequencerAction)
      → All (λ a. IsRoutine (to_room_action now a)) sequenced
      → All IsRoutine (map (to_room_action now) sequenced)
  map-IsRoutine now [] routine = tt
  map-IsRoutine now (a ∷ rest) (here, later) = (here, map-IsRoutine now rest later)

  turn-IsRoutine :
      (frame : Frame) (now : ℕ) (state : Option MlsGroupState) (m : RoomManager S G dalek)
      (turn : Result SequencerError (List SequencerAction) × Sequencer)
      → AllOf (λ a. IsRoutine (to_room_action now a)) turn
      → AllOf IsRoutine (
          after
            (finish_frame S G dalek frame now state)
            (map_err sequencing turn.0, record m { sequencer = turn.1 }))
  unfolding finish_frame
  turn-IsRoutine frame now state m (err e, q) routine = tt
  turn-IsRoutine frame now state m (ok sequenced, q) routine =
      elim (Result-cases (validate_signatures dalek sequenced state)) [
        | inr (e, bad) ↦ rw bad tt
        | inl (_, good) ↦
            let mapped = map-IsRoutine now sequenced routine in
            elim (Bool-cases (is_some_opcode (Header.opcode_enum frame.header) commit)) [
              | inl hit ↦
                  rw (good, hit)
                    (commit_frame-IsRoutine (Header.room_id frame.header) now frame _ _ mapped)
              | inr miss ↦ rw (good, miss) mapped
            ]
      ]

  pub process_frame-IsRoutine :
      (frame : Frame) (now : ℕ) (store : S.Store) (m : RoomManager S G dalek)
      → AllOf IsRoutine (process_frame S G dalek frame now store m)
  unfolding process_frame
  process_frame-IsRoutine frame now store m =
      elim (Option-cases (get m.groups (Header.room_id frame.header))) [
        | inl missing ↦ rw missing tt
        | inr (group, found) ↦
            elim (Result-cases (S.load_mls_state store (Header.room_id frame.header))) [
              | inr (e, bad) ↦ rw (found, bad) tt
              | inl (state, loaded) ↦
                  elim (Result-cases (validate_frame_basic dalek frame (G.epoch group) state)) [
                    | inr (e, bad) ↦ rw (found, loaded, bad) tt
                    | inl (_, good) ↦
                        rw (found, loaded, good)
                          (turn-IsRoutine frame now state m _
                            (sequenced-IsRoutine frame store now m.sequencer))
                  ]
            ]
      ]
