-- ===== src/Proto.antt =====
-- crates/lockframe-proto: the wire format. A byte is a number below 256, a byte array is a list.
pub mod Bytes
pub mod Opcode
pub mod Errors
pub mod Header
pub mod Frame
pub mod Payload
