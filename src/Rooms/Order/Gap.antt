-- ===== src/Rooms/Order/Gap.antt =====
-- crates/lockframe-server/src/room_manager.rs: the index of a frame whose signature fails, and the
-- log of a frame whose signature holds.
use kalandra.Prelude.{
  ℕ, ◌+◌, ◌^◌, ◌<◌, ◌≤◌, ◌≡◌, refl, ap, ◌∙◌, ◌==◌, ==_iff, ==_refl, if◌then◌else◌, Bool-cases, inl,
  inr, false, List, [], ◌∷◌, ◌++◌, length, arith, Option, some, get, Result, ok, err,
}
use kalandra.Proto.Opcode.{is_some_opcode, commit}
use kalandra.Proto.Header
use kalandra.Proto.Frame.{Frame}
use kalandra.Mls.State.{Ed25519, MlsGroupState}
use kalandra.Mls.Group.{MlsGroups}
use kalandra.Storage.{Storage, Contract}
use kalandra.Sequencer.{accepted}
use kalandra.Sequencer.Structure.{IsStructured}
use kalandra.Sequencer.Indices.{IsSequenced, assigned, process_frame_accepts, assigned-next_of}
use kalandra.Rooms.{RoomError, validate_frame_basic, check_signature, validate_signatures}
use kalandra.Rooms.Manager.{finish_frame, process_frame}
use kalandra.Rooms.Serve.{Server, serve, serve_frame}
use kalandra.Rooms.Order.Writes.{log_after, log-persist-accepted}
use kalandra.Rooms.Order.Effect.{
  next, log_of, next_after, placed_frame, idle, wasted, recorded, serve_frame-Outcome,
}
use kalandra.Rooms.Order.Invariant.{IsOrdered, serve_frame-IsOrdered, log_after-keeps}

module _ (S : Storage) (c : Contract S) (G : MlsGroups) (dalek : Ed25519) where
  -- The next index of a room is ahead of its log.
  abbrev pub IsAhead : Server S G dalek → ℕ → Type 0
  IsAhead s room = length (log_of S c G dalek s room) < next S c G dalek s room

  next_after-rises :
      (s : Server S G dalek) (room other : ℕ)
      → next S c G dalek s other ≤ next_after S c G dalek s room other
  next_after-rises s room other = elim (Bool-cases (room == other)) [
    | inl hit ↦ rw (hit, (==_iff room other).0 hit) (omega arith)
    | inr miss ↦ rw miss (omega arith)
  ]

  log_after-ahead :
      (s : Server S G dalek) (room other : ℕ) (frame : Frame)
      → IsAhead s other
      → log_after S c s.store room (next S c G dalek s room) frame other
        ≡ log_of S c G dalek s other
  log_after-ahead s room other frame ahead = elim (Bool-cases (room == other)) [
    | inl hit ↦
        let same : room ≡ other = (==_iff room other).0 hit in
        rw same (
          log_after-keeps S c G dalek s.store other (next S c G dalek s other) frame
            (λ e. absurd (omega arith)))
    | inr miss ↦ rw miss refl
  ]

  serve_frame-IsAhead :
      (s : Server S G dalek) (now : ℕ) (frame : Frame) (room : ℕ)
      → IsOrdered S c G dalek s
      → IsAhead s room
      → (log_of S c G dalek (serve_frame S G dalek s (now, frame)) room ≡ log_of S c G dalek s room)
        × IsAhead (serve_frame S G dalek s (now, frame)) room
  serve_frame-IsAhead s now frame room v ahead =
      let r : ℕ = Header.room_id frame.header in
      let small : length (log_of S c G dalek s r) < 2 ^ 64 =
        omega (arith, v.behind r, v.bounded r) in
      elim (serve_frame-Outcome S c G dalek s now frame small) [
        | idle nexts logs ↦ (logs room, rw (nexts room, logs room) ahead)
        | wasted below nexts logs ↦ (
          logs room,
          rw (nexts room, logs room) (omega (arith, next_after-rises s r room, ahead)),
        )
        | recorded below nexts logs ↦
            let same =
              logs room ∙ log_after-ahead s r room (placed_frame S c G dalek s frame) ahead in
            (same, rw (nexts room, same) (omega (arith, next_after-rises s r room, ahead)))
      ]

  -- On a server whose logs are in order, a room whose next index is ahead of its log never stores
  -- a frame again, whatever frames arrive.
  pub serve-ahead :
      (s : Server S G dalek) (arrivals : List (ℕ × Frame)) (room : ℕ)
      → IsOrdered S c G dalek s
      → IsAhead s room
      → log_of S c G dalek (serve S G dalek s arrivals) room ≡ log_of S c G dalek s room
  unfolding serve
  serve-ahead s [] room v ahead = refl
  serve-ahead s ((now, frame) ∷ rest) room v ahead =
      let (same, still) = serve_frame-IsAhead s now frame room v ahead in
      serve-ahead (serve_frame S G dalek s (now, frame)) rest room
        (serve_frame-IsOrdered S c G dalek s now frame v) still
      ∙ same

  -- A frame of a known room that passes the checks before the signatures.
  pub record IsAdmitted (s : Server S G dalek) (frame : Frame) (group : G.Group)
      (state : Option MlsGroupState) : Type 0 where
    pub known : get s.manager.groups (Header.room_id frame.header) ≡ some group
    pub loaded : S.load_mls_state s.store (Header.room_id frame.header) ≡ ok state
    pub member : validate_frame_basic dalek frame (G.epoch group) state ≡ ok tt
    pub structured : IsStructured frame
    pub sequenced : IsSequenced frame
    pub room_left : next S c G dalek s (Header.room_id frame.header) + 1 < 2 ^ 64

  pub process_frame-IsAdmitted :
      (s : Server S G dalek) (now : ℕ) (frame : Frame) (group : G.Group)
      (state : Option MlsGroupState)
      → IsOrdered S c G dalek s
      → IsAdmitted s frame group state
      → let r = Header.room_id frame.header in
        process_frame S G dalek frame now s.store s.manager
        ≡ finish_frame S G dalek frame now state
            (accepted r (next S c G dalek s r) (placed_frame S c G dalek s frame))
            (record s.manager { sequencer = assigned S c s.manager.sequencer s.store r })
  unfolding process_frame
  process_frame-IsAdmitted s now frame group state v a =
      let r : ℕ = Header.room_id frame.header in
      let small : length (log_of S c G dalek s r) < 2 ^ 64 =
        omega (arith, v.behind r, v.bounded r) in
      rw
        (
          a.known,
          a.loaded,
          a.member,
          process_frame_accepts S c s.manager.sequencer s.store frame a.structured a.sequenced small
              a.room_left,
        )
        refl

  -- The three actions of a frame carry the same frame, so its signature is checked three times.
  pub validate_signatures-accepted :
      (room index : ℕ) (frame : Frame) (state : Option MlsGroupState)
      (answer : Result RoomError (Unit {0}))
      → check_signature dalek frame state ≡ answer
      → validate_signatures dalek (accepted room index frame) state ≡ answer
  unfolding validate_signatures
  validate_signatures-accepted room index frame state (ok _) e = cc
  validate_signatures-accepted room index frame state (err _) e = cc

  refused_turn :
      (s : Server S G dalek) (now : ℕ) (frame : Frame) (group : G.Group)
      (state : Option MlsGroupState) (e : RoomError)
      → IsOrdered S c G dalek s
      → IsAdmitted s frame group state
      → check_signature dalek (placed_frame S c G dalek s frame) state ≡ err e
      → let r = Header.room_id frame.header in
        serve_frame S G dalek s (now, frame) ≡ record s {
          manager = record s.manager { sequencer = assigned S c s.manager.sequencer s.store r };
        }
  unfolding serve_frame finish_frame
  refused_turn s now frame group state e v a bad =
      rw
        (
          process_frame-IsAdmitted s now frame group state v a,
          validate_signatures-accepted _ _ _ state (err e) bad,
        )
        refl

  -- On a server whose logs are in order, an admitted frame whose signature check fails takes the
  -- next index of its room with it: no run of frames after it adds anything to the log of that
  -- room.
  pub signature_failure_ends_log :
      (s : Server S G dalek) (now : ℕ) (frame : Frame) (group : G.Group)
      (state : Option MlsGroupState) (e : RoomError) (arrivals : List (ℕ × Frame))
      → IsOrdered S c G dalek s
      → IsAdmitted s frame group state
      → check_signature dalek (placed_frame S c G dalek s frame) state ≡ err e
      → let r = Header.room_id frame.header in
        log_of S c G dalek (serve S G dalek (serve_frame S G dalek s (now, frame)) arrivals) r
        ≡ log_of S c G dalek s r
  signature_failure_ends_log s now frame group state e arrivals v a bad =
      let r : ℕ = Header.room_id frame.header in
      let turn = refused_turn s now frame group state e v a bad in
      let nexts : next S c G dalek (serve_frame S G dalek s (now, frame)) r
          ≡ next S c G dalek s r + 1 =
        ap (λ t. next S c G dalek t r) turn
        ∙ assigned-next_of S c s.manager.sequencer s.store s.store r r (λ _. refl)
        ∙ (rw (==_refl r) refl) in
      let logs : log_of S c G dalek (serve_frame S G dalek s (now, frame)) r
          ≡ log_of S c G dalek s r =
        ap (λ t. log_of S c G dalek t r) turn in
      serve-ahead (serve_frame S G dalek s (now, frame)) arrivals r
        (serve_frame-IsOrdered S c G dalek s now frame v)
        (rw (nexts, logs) (omega (arith, v.behind r)))
      ∙ logs

  -- On a server whose logs are in order, take an admitted frame that is no commit, whose signature
  -- check passes once it has its index, and whose room has its next index equal to the length of
  -- its log: serving it appends the frame with its index to the log of its room, once, and leaves
  -- the other logs as they were.
  pub serve_frame-stores :
      (s : Server S G dalek) (now : ℕ) (frame : Frame) (group : G.Group)
      (state : Option MlsGroupState) (room : ℕ)
      → IsOrdered S c G dalek s
      → IsAdmitted s frame group state
      → check_signature dalek (placed_frame S c G dalek s frame) state ≡ ok tt
      → is_some_opcode (Header.opcode_enum frame.header) commit ≡ false
      → next S c G dalek s (Header.room_id frame.header)
        ≡ length (log_of S c G dalek s (Header.room_id frame.header))
      → log_of S c G dalek (serve_frame S G dalek s (now, frame)) room ≡ (
          if Header.room_id frame.header == room
          then log_of S c G dalek s room ++ placed_frame S c G dalek s frame ∷ []
          else log_of S c G dalek s room)
  unfolding serve_frame finish_frame
  serve_frame-stores s now frame group state room v a good plain level =
      let r : ℕ = Header.room_id frame.header in
      rw
        (
          process_frame-IsAdmitted s now frame group state v a,
          validate_signatures-accepted _ _ _ state (ok tt) good,
          plain,
          log-persist-accepted S c s.store r (next S c G dalek s r) now
              (placed_frame S c G dalek s frame) room,
          level,
          ==_refl (length (log_of S c G dalek s r)),
        )
        (elim (Bool-cases (r == room)) [
          | inl hit ↦ let same : r ≡ room = (==_iff r room).0 hit in rw (hit, same) refl
          | inr miss ↦ rw miss refl
        ])
