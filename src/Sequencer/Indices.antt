-- ===== src/Sequencer/Indices.antt =====
-- crates/lockframe-server/src/sequencer.rs: the indices that `process_frame` assigns, over any
-- storage that keeps its contract.
use kalandra.Prelude.{
  ℕ, ◌+◌, ◌^◌, ◌<◌, ◌≡◌, ◌≢◌, refl, sym, ◌∙◌, inl, inr, ◌==◌, if◌then◌else◌, false, Bool-cases,
  lt→leb_false, Option, none, some, List, [], ◌∷◌, length, Result, ok, err, arith, get, get-insert,
  ==_iff, leb, Result-cases,
}
use mathlib.Core.Bool.{false≢true}
use kalandra.Proto.Opcode.{is_some_opcode, welcome}
use kalandra.Proto.Header
use kalandra.Proto.Frame.{Frame}
use kalandra.Storage.{Storage, Contract, last_index}
use kalandra.Sequencer.{
  Sequencer, RoomSequencer, SequencerAction, SequencerError, accepted, set_next,
  validate_frame_structure, rebuild_frame_with_index, open_room, open_cached, load_room, assign,
  index_after, process_frame, broadcast_to_room,
}
use kalandra.Sequencer.Structure.{IsStructured, validate_frame_structure_iff}

-- The next index of a room, as the cache has it or as the storage would give it.
abbrev pub next_index : Option RoomSequencer → ℕ → ℕ
next_index none stored = stored
next_index (some room) stored = room.next_log_index

abbrev pub IsSequenced : Frame → Type 0
IsSequenced frame = is_some_opcode (Header.opcode_enum frame.header) welcome ≡ false

module _ (S : Storage) (c : Contract S) where
  -- What the next frame of a room is given.
  abbrev pub next_of : Sequencer → S.Store → ℕ → ℕ
  next_of q store room = next_index (get q.rooms room) (length (c.log store room))

  -- The cache after `open_room`.
  abbrev pub opened : Sequencer → S.Store → ℕ → Option RoomSequencer → Sequencer
  opened q store room none = set_next room (length (c.log store room)) q
  opened q store room (some r) = q

  -- The cache after an index was assigned.
  abbrev pub assigned : Sequencer → S.Store → ℕ → Sequencer
  assigned q store room =
      set_next room (next_of q store room + 1) (opened q store room (get q.rooms room))

  index_after-last :
      (frames : List Frame)
      → length frames < 2 ^ 64
      → index_after S (last_index frames) ≡ length frames
  index_after-last [] small = refl
  index_after-last (f ∷ fs) small = omega arith

  open_cached_lem :
      (q : Sequencer) (store : S.Store) (room : ℕ) (o : Option RoomSequencer)
      → length (c.log store room) < 2 ^ 64
      → open_cached S store room o q
        ≡ (ok (next_index o (length (c.log store room))), opened q store room o)
  open_cached_lem q store room none small =
      rw (c.latest store room, load_room, index_after-last (c.log store room) small)
  open_cached_lem q store room (some r) small = refl

  open_room_lem :
      (q : Sequencer) (store : S.Store) (room : ℕ)
      → length (c.log store room) < 2 ^ 64
      → open_room S store room q
        ≡ (ok (next_of q store room), opened q store room (get q.rooms room))
  unfolding open_room
  open_room_lem q store room small = open_cached_lem q store room (get q.rooms room) small

  opened-next_index :
      (q : Sequencer) (store : S.Store) (room other : ℕ) (o : Option RoomSequencer)
      → get q.rooms room ≡ o
      → next_of (opened q store room o) store other ≡ next_of q store other
  opened-next_index q store room other none e =
      ground (
        arith,
        get-insert q.rooms room (record { next_log_index = length (c.log store room) }) other,
      )
  opened-next_index q store room other (some r) e = refl

  opened-next_of :
      (q : Sequencer) (store : S.Store) (room other : ℕ)
      → next_of (opened q store room (get q.rooms room)) store other ≡ next_of q store other
  opened-next_of q store room other = opened-next_index q store room other (get q.rooms room) refl

  -- The next indices after an assignment, also when the room's log has grown since.
  pub assigned-next_of :
      (q : Sequencer) (store store' : S.Store) (room other : ℕ)
      → (room ≢ other → c.log store' other ≡ c.log store other)
      → next_of (assigned q store room) store' other
        ≡ (if room == other then next_of q store room + 1 else next_of q store other)
  assigned-next_of q store store' room other same = elim (Bool-cases (room == other)) [
    | inl hit ↦ rw (
      get-insert (opened q store room (get q.rooms room)).rooms room
          (record { next_log_index = next_of q store room + 1 }) other,
      hit,
    )
    | inr miss ↦
        rw
          (
            get-insert (opened q store room (get q.rooms room)).rooms room
                (record { next_log_index = next_of q store room + 1 }) other,
            miss,
            same (λ e. false≢true (sym miss ∙ (==_iff room other).1 e)),
          )
          (opened-next_of q store room other)
  ]

  assign_lem :
      (q : Sequencer) (store : S.Store) (frame : Frame)
      → length (c.log store (Header.room_id frame.header)) < 2 ^ 64
      → next_of q store (Header.room_id frame.header) + 1 < 2 ^ 64
      → assign S store frame q ≡ (
        ok (
            accepted
              (Header.room_id frame.header)
              (next_of q store (Header.room_id frame.header))
              (rebuild_frame_with_index frame (next_of q store (Header.room_id frame.header)))),
        assigned q store (Header.room_id frame.header),
      )
  unfolding assign
  assign_lem q store frame small below = rw (
    open_room_lem q store (Header.room_id frame.header) small,
    lt→leb_false (2 ^ 64) (next_of q store (Header.room_id frame.header) + 1) below,
  )

  -- A well-formed frame that is no Welcome is given the next index of its room, as long as the
  -- room's log and its index after this frame fit 64 bits: the actions carry the frame rebuilt
  -- with that index, and the cache then has the room with the index one higher.
  pub process_frame_accepts :
      (q : Sequencer) (store : S.Store) (frame : Frame)
      → IsStructured frame
      → IsSequenced frame
      → length (c.log store (Header.room_id frame.header)) < 2 ^ 64
      → next_of q store (Header.room_id frame.header) + 1 < 2 ^ 64
      → process_frame S frame store q ≡ (
        ok (
            accepted
              (Header.room_id frame.header)
              (next_of q store (Header.room_id frame.header))
              (rebuild_frame_with_index frame (next_of q store (Header.room_id frame.header)))),
        assigned q store (Header.room_id frame.header),
      )
  unfolding process_frame
  process_frame_accepts q store frame v sequenced small below =
      rw ((validate_frame_structure_iff frame).1 v, sequenced)
        (assign_lem q store frame small below)

  -- How `process_frame` leaves the cache: with the indices as they were, when nothing is to be
  -- stored, or with an index assigned.
  pub data Sequenced (q : Sequencer) (store : S.Store) (frame : Frame)
      : Result SequencerError (List SequencerAction) × Sequencer → Type 0 where
    failed :
        {q' : Sequencer} (e : SequencerError)
        → ((room : ℕ) → next_of q' store room ≡ next_of q store room)
        → Sequenced q store frame (err e, q')
    passed : (room : ℕ) → Sequenced q store frame (ok (broadcast_to_room room frame ∷ []), q)
    placed :
        next_of q store (Header.room_id frame.header) + 1 < 2 ^ 64
        → Sequenced q store frame (
          ok (
              accepted
                (Header.room_id frame.header)
                (next_of q store (Header.room_id frame.header))
                (rebuild_frame_with_index frame (next_of q store (Header.room_id frame.header)))),
          assigned q store (Header.room_id frame.header),
        )

  assign-Sequenced :
      (q : Sequencer) (store : S.Store) (frame : Frame)
      → length (c.log store (Header.room_id frame.header)) < 2 ^ 64
      → Sequenced q store frame (assign S store frame q)
  unfolding assign
  assign-Sequenced q store frame small =
      let room : ℕ = Header.room_id frame.header in
      elim (Bool-cases (leb (2 ^ 64) (next_of q store room + 1))) [
        | inl full ↦
            rw (open_room_lem q store room small, full) (failed _ (opened-next_of q store room))
        | inr fits ↦ rw (open_room_lem q store room small, fits) (placed (ground arith))
      ]

  pub process_frame-Sequenced :
      (q : Sequencer) (store : S.Store) (frame : Frame)
      → length (c.log store (Header.room_id frame.header)) < 2 ^ 64
      → Sequenced q store frame (process_frame S frame store q)
  unfolding process_frame
  process_frame-Sequenced q store frame small =
      elim (Result-cases (validate_frame_structure frame)) [
        | inr (e, bad) ↦ rw bad (failed e (λ _. refl))
        | inl (_, good) ↦
            elim (Bool-cases (is_some_opcode (Header.opcode_enum frame.header) welcome)) [
              | inl hit ↦ rw (good, hit) (passed (Header.room_id frame.header))
              | inr miss ↦ rw (good, miss) (assign-Sequenced q store frame small)
            ]
      ]
