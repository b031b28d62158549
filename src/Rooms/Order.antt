-- ===== src/Rooms/Order.antt =====
-- crates/lockframe-server/src/room_manager.rs and lib.rs: the order of the frames that are stored.
mod Writes
mod Finish
pub mod Effect
pub mod Invariant
pub mod Gap
pub mod Overtaking
