-- ===== src/Rooms/Order/Overtaking/Crossed.antt =====
-- crates/lockframe-server/src/lib.rs: the server after one stream has overtaken another.
use kalandra.Prelude.{
  ℕ, ◌+◌, ◌^◌, ◌<◌, ◌≡◌, ◌≢◌, refl, ap, ◌∙◌, ◌==◌, ==_iff, ==_refl, if◌then◌else◌, Bool-cases, inl,
  inr, false, List, [], ◌∷◌, ◌++◌, map, length, length-append, arith, Option, ok,
}
use kalandra.Proto.Opcode.{is_some_opcode, commit}
use kalandra.Proto.Header
use kalandra.Proto.Frame.{Frame}
use kalandra.Mls.State.{Ed25519, MlsGroupState}
use kalandra.Mls.Group.{MlsGroups}
use kalandra.Storage.{Storage, Contract}
use kalandra.Sequencer.{accepted}
use kalandra.Rooms.{check_signature, to_room_action}
use kalandra.Rooms.Persist.{persist}
use kalandra.Rooms.Serve.{Server, serve}
use kalandra.Rooms.Order.Writes.{log_after, log-persist-accepted}
use kalandra.Rooms.Order.Effect.{next, log_of, placed_frame}
use kalandra.Rooms.Order.Invariant.{IsOrdered, IsDense, append-IsDense, log_index-rebuild}
use kalandra.Rooms.Order.Gap.{IsAhead, IsAdmitted, serve-ahead}
use kalandra.Rooms.Order.Overtaking.{
  process_turn, execute_turn, overtake, counted, process_turn-IsAdmitted, next-counted,
  counted-IsOrdered,
}

module _ (S : Storage) (c : Contract S) (G : MlsGroups) (dalek : Ed25519) where
  -- A write behind the next place is refused.
  log_after-late :
      (store : S.Store) (r room : ℕ) (frame : Frame)
      → log_after S c store r (length (c.log store r) + 1) frame room ≡ c.log store room
  log_after-late store r room frame =
      let late : (length (c.log store r) + 1 == length (c.log store r)) ≡ false = ground arith in
      elim (Bool-cases (r == room)) [
        | inl hit ↦ rw (hit, late) (ap (c.log store) ((==_iff r room).0 hit))
        | inr miss ↦ rw miss refl
      ]

  -- What the storage has after the actions of two accepted frames of a room were executed in the
  -- wrong order.
  log-persist_swapped :
      (store : S.Store) (r now later room : ℕ) (frame other : Frame)
      → let index = length (c.log store r) in
        c.log
          (persist S
            (map (to_room_action now) (accepted r index frame))
            (persist S (map (to_room_action later) (accepted r (index + 1) other)) store))
          room
        ≡ (if r == room then c.log store room ++ frame ∷ [] else c.log store room)
  log-persist_swapped store r now later room frame other =
      let index : ℕ = length (c.log store r) in
      let first : S.Store =
        persist S (map (to_room_action later) (accepted r (index + 1) other)) store in
      let kept : c.log first room ≡ c.log store room =
        log-persist-accepted S c store r (index + 1) later other room
        ∙ log_after-late store r room other in
      let kept_r : c.log first r ≡ c.log store r =
        log-persist-accepted S c store r (index + 1) later other r
        ∙ log_after-late store r r other in
      log-persist-accepted S c first r index now frame room ∙ elim (Bool-cases (r == room)) [
        | inl hit ↦
            rw (log_after, hit, kept_r, ==_refl index)
              (ap (λ (k : ℕ). c.log store k ++ frame ∷ []) ((==_iff r room).0 hit))
        | inr miss ↦ rw (log_after, miss) kept
      ]

  -- The server after the overtaking.
  abbrev crossed : Server S G dalek → (now later : ℕ) → (first second : Frame) → Server S G dalek
  crossed s now later first second =
      let r = Header.room_id first.header in
      let index = length (log_of S c G dalek s r) in
      let late =
        accepted r (index + 1) (placed_frame S c G dalek (counted S c G dalek s first) second) in
      record {
        manager = (counted S c G dalek (counted S c G dalek s first) second).manager;
        store =
            persist S
              (map (to_room_action now) (accepted r index (placed_frame S c G dalek s first)))
              (persist S (map (to_room_action later) late) s.store);
      }

  -- What the logs of the rooms become.
  abbrev logs_with : Server S G dalek → Frame → ℕ → List Frame
  logs_with s first room =
      if Header.room_id first.header == room
      then log_of S c G dalek s room ++ placed_frame S c G dalek s first ∷ []
      else log_of S c G dalek s room

  log_of-crossed :
      (s : Server S G dalek) (now later : ℕ) (first second : Frame) (room : ℕ)
      → log_of S c G dalek (crossed s now later first second) room ≡ logs_with s first room
  log_of-crossed s now later first second room =
      log-persist_swapped s.store (Header.room_id first.header) now later room _ _

  next-crossed :
      (s : Server S G dalek) (now later : ℕ) (first second : Frame) (room : ℕ)
      → Header.room_id second.header ≡ Header.room_id first.header
      → next S c G dalek (crossed s now later first second) room ≡ (
          if Header.room_id first.header == room
          then next S c G dalek s room + 2
          else next S c G dalek s room)
  next-crossed s now later first second room same =
      let r : ℕ = Header.room_id first.header in
      let others : r ≢ room
          → log_of S c G dalek (crossed s now later first second) room ≡ log_of S c G dalek s room =
        λ other. log_of-crossed s now later first second room ∙ ground (arith) in
      let twice =
        next-counted S c G dalek (counted S c G dalek s first) second
          (crossed s now later first second).store room (λ other. others (λ e. other (same ∙ e))) in
      twice
      ∙ rw same (elim (Bool-cases (r == room)) [
        | inl hit ↦
            let once : next S c G dalek (counted S c G dalek s first) r ≡ next S c G dalek s r + 1 =
              next-counted S c G dalek s first s.store r (λ _. refl) ∙ rw (==_refl r) refl in
            rw hit (omega (arith, once, ap (next S c G dalek s) ((==_iff r room).0 hit)))
        | inr miss ↦
            rw miss (next-counted S c G dalek s first s.store room (λ _. refl) ∙ rw miss refl)
      ])

  overtake-crossed :
      (s : Server S G dalek) (now later : ℕ) (first second : Frame)
      → let r = Header.room_id first.header in
        let n = next S c G dalek s r in
        Header.room_id second.header ≡ r
        → n ≡ length (log_of S c G dalek s r)
        → process_turn S G dalek s (now, first) ≡ (
          map (to_room_action now) (accepted r n (placed_frame S c G dalek s first)),
          counted S c G dalek s first,
        )
        → process_turn S G dalek (counted S c G dalek s first) (later, second) ≡ (
          map (to_room_action later) (
              accepted
                (Header.room_id second.header)
                (next S c G dalek (counted S c G dalek s first) (Header.room_id second.header))
                (placed_frame S c G dalek (counted S c G dalek s first) second)),
          counted S c G dalek (counted S c G dalek s first) second,
        )
        → overtake S G dalek s (now, first) (later, second) ≡ crossed s now later first second
  unfolding overtake execute_turn
  overtake-crossed s now later first second same level one two =
      let r : ℕ = Header.room_id first.header in
      let nexts : next S c G dalek (counted S c G dalek s first) r
          ≡ length (log_of S c G dalek s r) + 1 =
        next-counted S c G dalek s first s.store r (λ _. refl) ∙ rw (==_refl r, level) refl in
      rw (one, two, same, nexts, level) refl

  logs_with-IsDense :
      (s : Server S G dalek) (first : Frame) (room : ℕ)
      → IsOrdered S c G dalek s
      → next S c G dalek s (Header.room_id first.header)
        ≡ length (log_of S c G dalek s (Header.room_id first.header))
      → IsDense (logs_with s first room)
  logs_with-IsDense s first room v level =
      let r : ℕ = Header.room_id first.header in
      elim (Bool-cases (r == room)) [
        | inr miss ↦ rw (logs_with, miss) (v.dense room)
        | inl hit ↦
            let here : r ≡ room = (==_iff r room).0 hit in
            rw (logs_with, hit)
              (append-IsDense (log_of S c G dalek s room) (placed_frame S c G dalek s first)
                (v.dense room)
                (log_index-rebuild first (next S c G dalek s r) (v.bounded r)
                  ∙ level
                  ∙ ap (λ (k : ℕ). length (log_of S c G dalek s k)) here))
      ]

  crossed-IsOrdered :
      (s : Server S G dalek) (now later : ℕ) (first second : Frame)
      → IsOrdered S c G dalek s
      → Header.room_id second.header ≡ Header.room_id first.header
      → next S c G dalek s (Header.room_id first.header)
        ≡ length (log_of S c G dalek s (Header.room_id first.header))
      → next S c G dalek s (Header.room_id first.header) + 2 < 2 ^ 64
      → IsOrdered S c G dalek (crossed s now later first second)
  crossed-IsOrdered s now later first second v same level left =
      let r : ℕ = Header.room_id first.header in
      let placed : Frame = placed_frame S c G dalek s first in
      let logs = log_of-crossed s now later first second in
      let nexts = λ (room : ℕ). next-crossed s now later first second room same in
      record {
        dense = λ room. rw (logs room) (logs_with-IsDense s first room v level);
        behind = λ room.
            rw (nexts room, logs room)
              (elim (Bool-cases (r == room)) [
                | inl hit ↦ rw hit (
                    omega (
                      arith,
                      v.behind room,
                      length-append (log_of S c G dalek s room) (placed ∷ []),
                    ))
                | inr miss ↦ rw miss (v.behind room)
              ]);
        bounded = λ room. rw (nexts room) (elim (Bool-cases (r == room)) [
          | inl hit ↦ rw hit (omega (arith, left, ap (next S c G dalek s) ((==_iff r room).0 hit)))
          | inr miss ↦ rw miss (v.bounded room)
        ]);
      }

  -- On a server whose logs are in order, take two frames of one room, which has its next index
  -- equal to the length of its log. Both are no commits and pass every check, the second one after
  -- the first one was processed. If the second one is processed and executed between the
  -- processing and the execution of the first one, then the first one is stored and the second one
  -- is not, and no frame that arrives afterwards is ever stored in that room.
  pub overtake_ends_log :
      (s : Server S G dalek) (now later : ℕ) (first second : Frame) (group group' : G.Group)
      (state state' : Option MlsGroupState) (arrivals : List (ℕ × Frame))
      → IsOrdered S c G dalek s
      → IsAdmitted S c G dalek s first group state
      → check_signature dalek (placed_frame S c G dalek s first) state ≡ ok tt
      → is_some_opcode (Header.opcode_enum first.header) commit ≡ false
      → IsAdmitted S c G dalek (counted S c G dalek s first) second group' state'
      → check_signature dalek (placed_frame S c G dalek (counted S c G dalek s first) second) state'
        ≡ ok tt
      → is_some_opcode (Header.opcode_enum second.header) commit ≡ false
      → Header.room_id second.header ≡ Header.room_id first.header
      → next S c G dalek s (Header.room_id first.header)
        ≡ length (log_of S c G dalek s (Header.room_id first.header))
      → log_of S c G dalek
          (serve S G dalek (overtake S G dalek s (now, first) (later, second)) arrivals)
          (Header.room_id first.header)
        ≡ log_of S c G dalek s (Header.room_id first.header)
          ++ placed_frame S c G dalek s first ∷ []
  overtake_ends_log s now later first second group group' state state' arrivals v a good plain b
        good' plain' same level =
      let r : ℕ = Header.room_id first.header in
      let w : IsOrdered S c G dalek (counted S c G dalek s first) =
        counted-IsOrdered S c G dalek s first v a.room_left in
      let one = process_turn-IsAdmitted S c G dalek s now first group state v a good plain in
      let two =
        process_turn-IsAdmitted S c G dalek (counted S c G dalek s first) later second group' state'
          w b good' plain' in
      let once : next S c G dalek (counted S c G dalek s first) r ≡ next S c G dalek s r + 1 =
        next-counted S c G dalek s first s.store r (λ _. refl) ∙ rw (==_refl r) refl in
      let left : next S c G dalek s r + 2 < 2 ^ 64 =
        omega
          (arith, once, b.room_left, ap (next S c G dalek (counted S c G dalek s first)) same) in
      let ends : Server S G dalek = crossed s now later first second in
      let logs : log_of S c G dalek ends r
          ≡ log_of S c G dalek s r ++ placed_frame S c G dalek s first ∷ [] =
        log_of-crossed s now later first second r ∙ rw (==_refl r) refl in
      let nexts : next S c G dalek ends r ≡ next S c G dalek s r + 2 =
        next-crossed s now later first second r same ∙ rw (==_refl r) refl in
      let ahead : IsAhead S c G dalek ends r = omega (
        arith,
        ap length logs,
        length-append (log_of S c G dalek s r) (placed_frame S c G dalek s first ∷ []),
        nexts,
        level,
      ) in
      rw (overtake-crossed s now later first second same level one two) (
        serve-ahead S c G dalek ends arrivals r
          (crossed-IsOrdered s now later first second v same level left) ahead
        ∙ logs)
