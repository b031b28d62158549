-- ===== src/Proto/Errors.antt =====
-- crates/lockframe-proto/src/errors.rs. The texts inside CBOR errors are not modelled.
use kalandra.Prelude.{ℕ}

pub data ProtocolError : Type 0 where
  frame_too_short : (expected actual : ℕ) → ProtocolError
  invalid_magic : ProtocolError
  unsupported_version : ℕ → ProtocolError
  payload_too_large : (size max : ℕ) → ProtocolError
  frame_truncated : (expected actual : ℕ) → ProtocolError
  cbor_encode cbor_decode : ProtocolError
  invalid_opcode : ℕ → ProtocolError
  payload_size_mismatch : (header actual : ℕ) → ProtocolError
  invalid_flags : ℕ → ProtocolError
