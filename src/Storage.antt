-- ===== src/Storage.antt =====
-- crates/lockframe-server/src/storage/mod.rs and error.rs: the trait `Storage` as an interface, and
-- its contract. The stores share their content, so a handle is the state of the store.
pub mod Memory
use kalandra.Prelude.{
  ℕ, ◌+◌, ◌^◌, ◌<◌, take, drop, ◌≡◌, ◌≢◌, Option, none, some, List, [], ◌∷◌, ◌++◌, length, Result,
  ok, err,
}
use kalandra.Proto.Frame.{Frame}
use kalandra.Mls.State.{MlsGroupState}

pub data StorageError : Type 0 where
  not_found : (room_id log_index : ℕ) → StorageError
  conflict : (expected got : ℕ) → StorageError
  serialization io : StorageError

-- A write gives the store back also when it fails. `none` is a panic of `load_frames`.
pub record Storage : Type 1 where
  pub Store : Type 0
  pub store_frame : Store → ℕ → ℕ → Frame → Result StorageError (Unit {0}) × Store
  pub latest_log_index : Store → ℕ → Result StorageError (Option ℕ)
  pub load_frames : Store → ℕ → ℕ → ℕ → Option (Result StorageError (List Frame))
  pub store_mls_state : Store → ℕ → MlsGroupState → Result StorageError (Unit {0}) × Store
  pub load_mls_state : Store → ℕ → Result StorageError (Option MlsGroupState)

-- The latest index of a log.
abbrev pub last_index : List Frame → Option ℕ
last_index [] = none
last_index (f ∷ fs) = some (length fs)

-- The contract: a log for each room, which grows at its end only, and is read in pages.
pub record Contract (S : Storage) : Type 0 where
  pub log : S.Store → ℕ → List Frame
  pub latest : (s : S.Store) (room : ℕ) → S.latest_log_index s room ≡ ok (last_index (log s room))
  pub stored :
      (s : S.Store) (room : ℕ) (frame : Frame)
      → (S.store_frame s room (length (log s room)) frame).0 ≡ ok tt
  pub stored_log :
      (s : S.Store) (room : ℕ) (frame : Frame)
      → log (S.store_frame s room (length (log s room)) frame).1 room ≡ log s room ++ frame ∷ []
  pub refused :
      (s : S.Store) (room index : ℕ) (frame : Frame)
      → index ≢ length (log s room)
      → (S.store_frame s room index frame).0 ≡ err (conflict (length (log s room)) index)
  pub refused_log :
      (s : S.Store) (room index : ℕ) (frame : Frame)
      → index ≢ length (log s room)
      → log (S.store_frame s room index frame).1 room ≡ log s room
  pub other_rooms :
      (s : S.Store) (room index other : ℕ) (frame : Frame)
      → room ≢ other
      → log (S.store_frame s room index frame).1 other ≡ log s other
  pub loaded :
      (s : S.Store) (room from limit : ℕ)
      → log s room ≢ []
      → from + limit < 2 ^ 64
      → S.load_frames s room from limit ≡ some (ok (take limit (drop from (log s room))))
  pub mls_state_log :
      (s : S.Store) (room other : ℕ) (state : MlsGroupState)
      → log (S.store_mls_state s room state).1 other ≡ log s other
