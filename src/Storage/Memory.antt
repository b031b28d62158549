-- ===== src/Storage/Memory.antt =====
-- crates/lockframe-server/src/storage/memory.rs. The mutex is never poisoned: no holder of the lock
-- panics in the model. The debug assertions are left out.
pub mod Log
use kalandra.Prelude.{
  ℕ, ◌+◌, ◌-◌, ◌%◌, ◌^◌, ◌==◌, ltb, not, min, if◌then◌else◌, Option, none, some, List, [], ◌∷◌,
  ◌++◌, length, take, drop, Result, ok, err, ok_or, ◌>>=◌, HashMap, get, insert, entry_count,
}
use kalandra.Proto.Frame.{Frame}
use kalandra.Mls.State.{MlsGroupState}
use kalandra.Storage.{Storage, StorageError, not_found, conflict}

pub record MemoryStorage : Type 0 where
  pub frames : HashMap (List Frame)
  pub mls_states : HashMap MlsGroupState

abbrev pub new : MemoryStorage
new = record { frames = []; mls_states = [] }

unfoldable pub room_count : MemoryStorage → ℕ
room_count inner = entry_count inner.frames

sum_lengths : HashMap (List Frame) → ℕ
sum_lengths [] = 0
sum_lengths ((room, frames) ∷ rest) = length frames + sum_lengths rest

unfoldable pub total_frame_count : MemoryStorage → ℕ
unfolding sum_lengths
total_frame_count inner = sum_lengths inner.frames

-- `entry(room_id).or_insert_with(Vec::new)`: the room's frames, or the empty list put there.
abbrev pub or_empty : Option (List Frame) → List Frame
or_empty none = []
or_empty (some frames) = frames

unfoldable pub store_frame :
    MemoryStorage → ℕ → ℕ → Frame → Result StorageError (Unit {0}) × MemoryStorage
store_frame inner room_id log_index frame =
    let frames = or_empty (get inner.frames room_id) in
    let expected_index = length frames in
    if not (log_index == expected_index)
    then (
      err (conflict expected_index log_index),
      record inner { frames = insert inner.frames room_id frames },
    )
    else (ok tt, record inner { frames = insert inner.frames room_id (frames ++ frame ∷ []) })

-- `if frames.is_empty() { None } else { Some(frames.len() as u64 - 1) }`
abbrev pub index_of_last : Option (List Frame) → Option ℕ
index_of_last none = none
index_of_last (some []) = none
index_of_last (some (f ∷ fs)) = some (length (f ∷ fs) - 1)

unfoldable pub latest_log_index : MemoryStorage → ℕ → Result StorageError (Option ℕ)
latest_log_index inner room_id = ok (index_of_last (get inner.frames room_id))

-- `&frames[start..end]`, which panics when `start > end`.
abbrev pub slice : List Frame → ℕ → ℕ → Option (List Frame)
slice frames start end =
    if ltb end start then none else some (take (end - start) (drop start frames))

-- `start + limit` wraps on a 64-bit `usize`, as it does without overflow checks.
abbrev pub page : List Frame → ℕ → ℕ → Option (Result StorageError (List Frame))
page frames start limit =
    let end = min ((start + limit) % 2 ^ 64) (length frames) in
    if ltb (length frames) start
    then some (ok [])
    else elim (slice frames start end) [ none ↦ none | some found ↦ some (ok found) ]

unfoldable pub load_frames : MemoryStorage → ℕ → ℕ → ℕ → Option (Result StorageError (List Frame))
load_frames inner room_id from limit = elim (get inner.frames room_id) [
  | none ↦ some (err (not_found room_id from))
  | some frames ↦ page frames from limit
]

unfoldable pub store_mls_state :
    MemoryStorage → ℕ → MlsGroupState → Result StorageError (Unit {0}) × MemoryStorage
store_mls_state inner room_id state =
    (ok tt, record inner { mls_states = insert inner.mls_states room_id state })

unfoldable pub load_mls_state : MemoryStorage → ℕ → Result StorageError (Option MlsGroupState)
load_mls_state inner room_id = ok (get inner.mls_states room_id)

-- `impl Storage for MemoryStorage`
abbrev pub memory_storage : Storage
memory_storage = record {
  Store = MemoryStorage;
  store_frame = store_frame;
  latest_log_index = latest_log_index;
  load_frames = load_frames;
  store_mls_state = store_mls_state;
  load_mls_state = load_mls_state;
}
