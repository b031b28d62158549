-- ===== src/SenderKeys.antt =====
-- crates/lockframe-crypto/src/sender_keys and crates/lockframe-client/src/sender_key_store.rs: the keys
-- that encrypt the messages of a room. HKDF-SHA256 and XChaCha20-Poly1305 are parameters.
pub mod Derivation
pub mod Encryption
pub mod Store
