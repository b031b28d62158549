-- ===== src/Rooms/Order/Invariant.antt =====
-- crates/lockframe-server/src/lib.rs and room_manager.rs: the order of the stored frames, whatever
-- frames arrive.
use kalandra.Prelude.{
  ℕ, ◌+◌, ◌^◌, ◌<◌, ◌≤◌, ◌≡◌, ◌≢◌, sym, ◌∙◌, ◌==◌, ==_iff, ==_refl, Bool-cases, inl, inr, List, [],
  ◌∷◌, ◌++◌, length, arith, some, get_elem?, get_elem?-append_here, get_elem?-append_below,
  get_elem?-in_bounds, length-append,
}
use mathlib.Core.Bool.{false≢true}
use kalandra.Proto.Bytes.{from-to_be_bytes}
use kalandra.Proto.Header
use kalandra.Proto.Frame
use kalandra.Proto.Frame.{Frame}
use kalandra.Mls.State.{Ed25519}
use kalandra.Mls.Group.{MlsGroups}
use kalandra.Storage.{Storage, Contract}
use kalandra.Sequencer.{rebuild_frame_with_index}
use kalandra.Rooms.Serve.{Server, serve, serve_frame}
use kalandra.Rooms.Order.Writes.{log_after}
use kalandra.Rooms.Order.Effect.{
  next, log_of, next_after, placed_frame, idle, wasted, recorded, serve_frame-Outcome,
}

-- Every frame of a log carries its place in the log.
abbrev pub IsDense : List Frame → Type 0
IsDense log =
    (i : ℕ) (frame : Frame) → get_elem? log i ≡ some frame → Header.log_index frame.header ≡ i

pub log_index-rebuild :
    (frame : Frame) (index : ℕ)
    → index < 2 ^ 64
    → Header.log_index (rebuild_frame_with_index frame index).header ≡ index
unfolding rebuild_frame_with_index Frame.new Header.log_index Header.set_log_index
log_index-rebuild frame index small = from-to_be_bytes 8 index small

pub append-IsDense :
    (log : List Frame) (frame : Frame)
    → IsDense log
    → Header.log_index frame.header ≡ length log
    → IsDense (log ++ frame ∷ [])
append-IsDense log frame dense e i g found = elim (Bool-cases (i == length log)) [
  | inl hit ↦ cc (e, found, (==_iff i (length log)).0 hit, get_elem?-append_here log frame)
  | inr miss ↦
      let other : i ≢ length log = λ same. false≢true (sym miss ∙ (==_iff i (length log)).1 same) in
      let below : i < length log = omega (
        arith,
        get_elem?-in_bounds (log ++ frame ∷ []) i g found,
        length-append log (frame ∷ []),
      ) in
      dense i g (sym (get_elem?-append_below log (frame ∷ []) i below) ∙ found)
]

module _ (S : Storage) (c : Contract S) (G : MlsGroups) (dalek : Ed25519) where
  pub record IsOrdered (s : Server S G dalek) : Type 0 where
    pub dense : (room : ℕ) → IsDense (log_of S c G dalek s room)
    pub behind : (room : ℕ) → length (log_of S c G dalek s room) ≤ next S c G dalek s room
    pub bounded : (room : ℕ) → next S c G dalek s room < 2 ^ 64

  pub next_after-behind :
      (s : Server S G dalek) (room other : ℕ)
      → IsOrdered s
      → length (log_of S c G dalek s other) ≤ next_after S c G dalek s room other
  next_after-behind s room other v = elim (Bool-cases (room == other)) [
    | inl hit ↦ rw (hit, (==_iff room other).0 hit) (omega (arith, v.behind other))
    | inr miss ↦ rw miss (v.behind other)
  ]

  pub next_after-bounded :
      (s : Server S G dalek) (room other : ℕ)
      → IsOrdered s
      → next S c G dalek s room + 1 < 2 ^ 64
      → next_after S c G dalek s room other < 2 ^ 64
  next_after-bounded s room other v below = elim (Bool-cases (room == other)) [
    | inl hit ↦ rw hit below
    | inr miss ↦ rw miss (v.bounded other)
  ]

  -- The log of a room that is in step with its index, and of one that is not.
  pub log_after-grows :
      (store : S.Store) (room index : ℕ) (frame : Frame)
      → index ≡ length (c.log store room)
      → log_after S c store room index frame room ≡ c.log store room ++ frame ∷ []
  log_after-grows store room index frame e = ground (arith, ==_refl room)

  pub log_after-keeps :
      (store : S.Store) (room index : ℕ) (frame : Frame)
      → index ≢ length (c.log store room)
      → log_after S c store room index frame room ≡ c.log store room
  log_after-keeps store room index frame e = ground (arith, ==_refl room)

  written-behind :
      (s : Server S G dalek) (room other : ℕ) (frame : Frame)
      → IsOrdered s
      → length (log_after S c s.store room (next S c G dalek s room) frame other)
        ≤ next_after S c G dalek s room other
  written-behind s room other frame v = ground (
    arith,
    next_after-behind s room other v,
    length-append (log_of S c G dalek s room) (frame ∷ []),
    v.behind room,
  )

  written-IsDense :
      (s : Server S G dalek) (room other : ℕ) (frame : Frame)
      → IsOrdered s
      → Header.log_index frame.header ≡ next S c G dalek s room
      → IsDense (log_after S c s.store room (next S c G dalek s room) frame other)
  written-IsDense s room other frame v e = elim (Bool-cases (room == other)) [
    | inr miss ↦ rw miss (v.dense other)
    | inl hit ↦ elim (Bool-cases (next S c G dalek s room == length (log_of S c G dalek s room))) [
      | inr behind ↦ rw (hit, behind) (v.dense room)
      | inl level ↦
          rw (hit, level)
            (append-IsDense (log_of S c G dalek s room) frame (v.dense room)
              (e ∙ (==_iff (next S c G dalek s room) (length (log_of S c G dalek s room))).0 level))
    ]
  ]

  -- Serving any frame keeps the order.
  pub serve_frame-IsOrdered :
      (s : Server S G dalek) (now : ℕ) (frame : Frame)
      → IsOrdered s
      → IsOrdered (serve_frame S G dalek s (now, frame))
  serve_frame-IsOrdered s now frame v =
      let r : ℕ = Header.room_id frame.header in
      let small : length (log_of S c G dalek s r) < 2 ^ 64 =
        omega (arith, v.behind r, v.bounded r) in
      elim (serve_frame-Outcome S c G dalek s now frame small) [
        | idle nexts logs ↦ record {
          dense = λ room. rw (logs room) (v.dense room);
          behind = λ room. rw (nexts room, logs room) (v.behind room);
          bounded = λ room. rw (nexts room) (v.bounded room);
        }
        | wasted below nexts logs ↦ record {
          dense = λ room. rw (logs room) (v.dense room);
          behind = λ room. rw (nexts room, logs room) (next_after-behind s r room v);
          bounded = λ room. rw (nexts room) (next_after-bounded s r room v below);
        }
        | recorded below nexts logs ↦ record {
          dense = λ room. rw (logs room) (
              written-IsDense s r room (placed_frame S c G dalek s frame) v
                (log_index-rebuild frame (next S c G dalek s r) (v.bounded r)));
          behind = λ room.
              rw (nexts room, logs room)
                (written-behind s r room (placed_frame S c G dalek s frame) v);
          bounded = λ room. rw (nexts room) (next_after-bounded s r room v below);
        }
      ]

  -- If every stored frame carries its place in its room's log, no log is longer than the room's
  -- next index, and the next indices fit 64 bits, then this still holds after any run of frames
  -- was served, whatever the frames are and whether they were accepted or refused.
  pub serve-IsOrdered :
      (s : Server S G dalek) (arrivals : List (ℕ × Frame))
      → IsOrdered s
      → IsOrdered (serve S G dalek s arrivals)
  unfolding serve
  serve-IsOrdered s [] v = v
  serve-IsOrdered s ((now, frame) ∷ rest) v =
      serve-IsOrdered (serve_frame S G dalek s (now, frame)) rest
        (serve_frame-IsOrdered s now frame v)
