-- ===== src/Storage/Memory/Log.antt =====
-- crates/lockframe-server/src/storage/memory.rs: the memory store keeps the contract of `Storage`.
use kalandra.Prelude.{
  ℕ, ◌==◌, if◌then◌else◌, ◌+◌, ◌^◌, ◌≤◌, ◌<◌, ◌≡◌, ◌≢◌, refl, ap, Option, none, some, List, [], ◌∷◌,
  ◌++◌, length, take, drop, min, ltb, ltb→lt, le→ltb_false, Bool-cases, length-drop, take-min,
  drop-all, take-nil, ◌%◌, ◌-◌, ok, err, arith, get, get-insert, inl, inr,
}
use kalandra.Proto.Frame.{Frame}
use kalandra.Storage.{conflict, Contract, last_index}
use kalandra.Storage.Memory.{
  MemoryStorage, or_empty, store_frame, index_of_last, latest_log_index, load_frames, page,
  store_mls_state, memory_storage,
}

abbrev pub log : MemoryStorage → ℕ → List Frame
log inner room = or_empty (get inner.frames room)

pub index_of_last-or_empty : (o : Option (List Frame)) → index_of_last o ≡ last_index (or_empty o)
index_of_last-or_empty none = refl
index_of_last-or_empty (some []) = refl
index_of_last-or_empty (some (f ∷ fs)) = ap some (omega arith)

module _ (s : MemoryStorage) (room : ℕ) (frame : Frame) where
  pub stored : (store_frame s room (length (log s room)) frame).0 ≡ ok tt
  unfolding store_frame
  stored = ground arith

  pub stored_log :
      log (store_frame s room (length (log s room)) frame).1 room ≡ log s room ++ frame ∷ []
  unfolding store_frame
  stored_log = ground (arith, get-insert s.frames room (log s room ++ frame ∷ []) room)

  pub refused :
      (index : ℕ)
      → index ≢ length (log s room)
      → (store_frame s room index frame).0 ≡ err (conflict (length (log s room)) index)
  unfolding store_frame
  refused index h = ground arith

  pub refused_log :
      (index : ℕ)
      → index ≢ length (log s room)
      → log (store_frame s room index frame).1 room ≡ log s room
  unfolding store_frame
  refused_log index h = ground (arith, get-insert s.frames room (log s room) room)

  pub other_rooms :
      (index other : ℕ) → room ≢ other → log (store_frame s room index frame).1 other ≡ log s other
  unfolding store_frame
  other_rooms index other h = ground (
    arith,
    get-insert s.frames room (log s room ++ frame ∷ []) other,
    get-insert s.frames room (log s room) other,
  )

page_lem :
    (frames : List Frame) (start limit : ℕ)
    → start + limit < 2 ^ 64
    → page frames start limit ≡ some (ok (take limit (drop start frames)))
page_lem frames start limit small =
    let plain : (start + limit) % 2 ^ 64 ≡ start + limit = omega arith in
    elim (Bool-cases (ltb (length frames) start)) [
      | inl past ↦ rw (past, drop-all start frames (omega (arith, ltb→lt _ _ past)), take-nil limit)
      | inr inside ↦
          let within : start ≤ length frames = ground arith in
          let count : min (start + limit) (length frames) - start
              ≡ min limit (length (drop start frames)) =
            omega (arith, length-drop start frames) in
          rw
            (
              inside,
              plain,
              le→ltb_false (min (start + limit) (length frames)) start (omega arith),
              count,
            )
            (ap (λ (xs : List Frame). some (ok xs)) (take-min limit (drop start frames)))
    ]

-- A page of a room's log is the frames from the given index on, at most as many as the limit, as
-- long as index and limit add up in 64 bits.
pub load_frames_pages :
    (s : MemoryStorage) (room from limit : ℕ) (frames : List Frame)
    → get s.frames room ≡ some frames
    → from + limit < 2 ^ 64
    → load_frames s room from limit ≡ some (ok (take limit (drop from frames)))
unfolding load_frames
load_frames_pages s room from limit frames e small =
    rw (e, load_frames) (page_lem frames from limit small)

some_log : (o : Option (List Frame)) → or_empty o ≢ [] → o ≡ some (or_empty o)
some_log none h = absurd (h refl)
some_log (some frames) h = refl

pub loaded :
    (s : MemoryStorage) (room from limit : ℕ)
    → log s room ≢ []
    → from + limit < 2 ^ 64
    → load_frames s room from limit ≡ some (ok (take limit (drop from (log s room))))
loaded s room from limit h small =
    load_frames_pages s room from limit (log s room) (some_log (get s.frames room) h) small

-- A write at the length of the room's log is accepted and appends to that log; any other write is
-- refused with the expected index and changes no log; the logs of other rooms stay as they were.
pub store_frame_lem :
    (s : MemoryStorage) (room index other : ℕ) (frame : Frame)
    → ((store_frame s room index frame).0 ≡ (
        if index == length (log s room) then ok tt else err (conflict (length (log s room)) index)))
      × (log (store_frame s room index frame).1 other ≡ (
          if index == length (log s room)
          then (if room == other then log s room ++ frame ∷ [] else log s other)
          else log s other))
unfolding store_frame
store_frame_lem s room index other frame = (
  ground arith,
  ground (
    arith,
    get-insert s.frames room (log s room) other,
    get-insert s.frames room (log s room ++ frame ∷ []) other,
  ),
)

-- The memory store keeps the contract: each room has a log that grows by one frame at its end, and
-- a write at any other index is refused and leaves the log alone; a log that is not empty is read in pages.
unfoldable pub memory_contract : Contract memory_storage
unfolding latest_log_index store_mls_state
memory_contract = record {
  log = log;
  latest = λ s room. ap ok (index_of_last-or_empty (get s.frames room));
  stored = stored;
  stored_log = stored_log;
  refused = λ s room index frame h. refused s room frame index h;
  refused_log = λ s room index frame h. refused_log s room frame index h;
  other_rooms = λ s room index other frame h. other_rooms s room frame index other h;
  loaded = loaded;
  mls_state_log = λ s room other state. refl;
}

-- For an index within the log and a limit of 64 bits that add up to 2 ^ 64 or more, `load_frames`
-- panics.
pub load_frames_overflow :
    (s : MemoryStorage) (room from limit : ℕ) (frames : List Frame)
    → get s.frames room ≡ some frames
    → length frames < 2 ^ 64
    → from ≤ length frames
    → limit < 2 ^ 64
    → 2 ^ 64 ≤ from + limit
    → load_frames s room from limit ≡ none
unfolding load_frames
load_frames_overflow s room from limit frames e short inside fits wraps =
    rw (e, load_frames) (ground arith)
