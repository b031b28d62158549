-- ===== src/Rooms/Order/Writes.antt =====
-- crates/lockframe-server/src/lib.rs: what executing the actions does to the logs of the rooms.
use kalandra.Prelude.{
  ℕ, ◌≡◌, refl, is_ok, sym, ◌∙◌, ◌==◌, ==_iff, if◌then◌else◌, Bool-cases, inl, inr, List, [], ◌∷◌,
  ◌++◌, map, length, length-append, arith,
}
use mathlib.Core.Bool.{false≢true}
use kalandra.Proto.Frame.{Frame, encode}
use kalandra.Mls.State.{MlsGroupState}
use kalandra.Storage.{Storage, Contract}
use kalandra.Sequencer.{accepted, broadcast_to_room}
use kalandra.Rooms.{RoomAction, persist_mls_state, to_room_action}
use kalandra.Rooms.Persist.{persist, persist_action, is_sent}

module _ (S : Storage) (c : Contract S) where
  -- The log of a room after a write to another or the same one.
  abbrev pub log_after : S.Store → ℕ → ℕ → Frame → ℕ → List Frame
  log_after store room index frame other =
      if room == other
      then (if index == length (c.log store room)
          then c.log store room ++ frame ∷ []
          else c.log store room)
      else c.log store other

  log-store_frame_self :
      (store : S.Store) (room index : ℕ) (frame : Frame)
      → c.log (S.store_frame store room index frame).1 room ≡ (
          if index == length (c.log store room)
          then c.log store room ++ frame ∷ []
          else c.log store room)
  log-store_frame_self store room index frame =
      elim (Bool-cases (index == length (c.log store room))) [
        | inl hit ↦
            rw (hit) (
              rw ((==_iff index (length (c.log store room))).0 hit) (c.stored_log store room frame))
        | inr miss ↦ rw (miss) (
            c.refused_log store room index frame
              (λ e. false≢true (sym miss ∙ (==_iff index (length (c.log store room))).1 e)))
      ]

  pub log-store_frame :
      (store : S.Store) (room index : ℕ) (frame : Frame) (other : ℕ)
      → c.log (S.store_frame store room index frame).1 other
        ≡ log_after store room index frame other
  log-store_frame store room index frame other = elim (Bool-cases (room == other)) [
    | inl hit ↦
        rw hit (rw (← (==_iff room other).0 hit) (log-store_frame_self store room index frame))
    | inr miss ↦ rw miss (
        c.other_rooms store room index other frame
          (λ e. false≢true (sym miss ∙ (==_iff room other).1 e)))
  ]

  -- A broadcast is the last thing that is done.
  pub persist-broadcast :
      (store : S.Store) (room : ℕ) (frame : Frame) (now : ℕ)
      → persist S (map (to_room_action now) (broadcast_to_room room frame ∷ [])) store ≡ store
  unfolding persist persist_action to_room_action
  persist-broadcast store room frame now = elim (Bool-cases (is_ok (encode frame []))) [
    | inl sent ↦ rw sent refl
    | inr stopped ↦ rw stopped refl
  ]

  -- The actions of an accepted frame write it twice; the second write is refused.
  pub log-persist-accepted :
      (store : S.Store) (room index now : ℕ) (frame : Frame) (other : ℕ)
      → c.log (persist S (map (to_room_action now) (accepted room index frame)) store) other
        ≡ log_after store room index frame other
  unfolding persist persist_action to_room_action
  log-persist-accepted store room index now frame other =
      let once : S.Store = (S.store_frame store room index frame).1 in
      ground (
        arith,
        log-store_frame once room index frame other,
        log-store_frame store room index frame other,
        log-store_frame_self store room index frame,
        length-append (c.log store room) (frame ∷ []),
      )

  pub log-persist_mls :
      (actions : List RoomAction) (room now : ℕ) (state : MlsGroupState) (store : S.Store)
      (other : ℕ)
      → c.log (persist S (actions ++ persist_mls_state room state now ∷ []) store) other
        ≡ c.log (persist S actions store) other
  unfolding persist
  log-persist_mls [] room now state store other = c.mls_state_log store room other state
  log-persist_mls (a ∷ rest) room now state store other = elim (Bool-cases (is_sent a)) [
    | inl sent ↦ rw sent (log-persist_mls rest room now state (persist_action S a store) other)
    | inr stopped ↦ rw stopped refl
  ]
