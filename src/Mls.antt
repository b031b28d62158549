-- ===== src/Mls.antt =====
-- crates/lockframe-core/src/mls: the group state that the server validates frames against.
pub mod State
pub mod Validator
pub mod Group
pub mod Member
