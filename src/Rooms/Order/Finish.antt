-- ===== src/Rooms/Order/Finish.antt =====
-- crates/lockframe-server/src/room_manager.rs: after the sequencer, `process_frame` leaves the
-- sequencer alone, and adds no action that touches a log.
use kalandra.Prelude.{
  ℕ, ◌≡◌, refl, Bool-cases, inl, inr, Option, List, map, Result, ok, err, Result-cases,
  Option-cases, get, get-insert, ==_refl,
}
use kalandra.Proto.Opcode.{is_some_opcode, commit}
use kalandra.Proto.Header
use kalandra.Proto.Frame.{Frame}
use kalandra.Mls.State.{Ed25519, MlsGroupState}
use kalandra.Mls.Group.{MlsGroups}
use kalandra.Storage.{Storage, Contract}
use kalandra.Sequencer.{SequencerAction}
use kalandra.Rooms.{RoomAction, RoomError, to_room_action, validate_signatures}
use kalandra.Rooms.Manager.{RoomManager, apply_commit, commit_frame, finish_frame}
use kalandra.Rooms.Persist.{persist}
use kalandra.Rooms.Order.Writes.{log-persist_mls}

module _ (S : Storage) (c : Contract S) (G : MlsGroups) (dalek : Ed25519) where
  -- What the steps after the sequencer may do to the manager and the logs.
  pub data Finished (m : RoomManager S G dalek) (actions : List RoomAction)
      : Result RoomError (List RoomAction) × RoomManager S G dalek → Type 0 where
    refused :
        {m' : RoomManager S G dalek} (e : RoomError)
        → m'.sequencer ≡ m.sequencer
        → Finished m actions (err e, m')
    done :
        {m' : RoomManager S G dalek} {out : List RoomAction}
        → m'.sequencer ≡ m.sequencer
        → ((store : S.Store) (room : ℕ)
            → c.log (persist S out store) room ≡ c.log (persist S actions store) room)
        → Finished m actions (ok out, m')

  commit_frame-Finished :
      (room now : ℕ) (frame : Frame) (actions : List RoomAction) (m : RoomManager S G dalek)
      → Finished m actions (commit_frame S G dalek room now frame actions m)
  unfolding commit_frame
  commit_frame-Finished room now frame actions m = elim (Option-cases (get m.groups room)) [
    | inl missing ↦ rw missing (refused _ refl)
    | inr (group, found) ↦ elim (Result-cases (apply_commit S G dalek frame group).0) [
      | inr (e, bad) ↦ rw (found, bad) (refused _ refl)
      | inl (_, good) ↦
          elim (Result-cases (G.export_group_state (apply_commit S G dalek frame group).1)) [
            | inr (e, bad) ↦
                rw
                  (
                    found,
                    good,
                    get-insert m.groups room (apply_commit S G dalek frame group).1 room,
                    ==_refl room,
                    bad,
                  )
                  (refused _ refl)
            | inl (state, fine) ↦
                rw
                  (
                    found,
                    good,
                    get-insert m.groups room (apply_commit S G dalek frame group).1 room,
                    ==_refl room,
                    fine,
                  )
                  (done refl
                    (λ store other. log-persist_mls S c actions room now state store other))
          ]
    ]
  ]

  pub finish_frame-Finished :
      (frame : Frame) (now : ℕ) (mls_state : Option MlsGroupState)
      (sequenced : List SequencerAction) (m : RoomManager S G dalek)
      → Finished m
          (map (to_room_action now) sequenced)
          (finish_frame S G dalek frame now mls_state sequenced m)
  unfolding finish_frame
  finish_frame-Finished frame now mls_state sequenced m =
      elim (Result-cases (validate_signatures dalek sequenced mls_state)) [
        | inr (e, bad) ↦ rw bad (refused e refl)
        | inl (_, good) ↦
            elim (Bool-cases (is_some_opcode (Header.opcode_enum frame.header) commit)) [
              | inl hit ↦
                  rw (good, hit) (commit_frame-Finished (Header.room_id frame.header) now frame _ m)
              | inr miss ↦ rw (good, miss) (done refl (λ _ _. refl))
            ]
      ]
