-- ===== src/SenderKeys/Store.antt =====
-- crates/lockframe-client/src/sender_key_store.rs.
pub mod Exchange
pub mod Reorder
use kalandra.Prelude.{
  ℕ, ◌==◌, not, if◌then◌else◌, Bool, Option, none, some, List, [], ◌∷◌, Result, ok, err, HashMap,
  get, insert, contains_key, entry_count,
}
use kalandra.Ratchet
use kalandra.Ratchet.{
  SymmetricRatchet, MessageKey, SenderKeyError, unknown_sender, epoch_mismatch, advance, advance_to,
}
use kalandra.SenderKeys.Derivation.{derive_sender_key_seed}
use kalandra.SenderKeys.Encryption.{Aead, EncryptedMessage, encrypt_message, decrypt_message}

pub record SenderKeyStore : Type 0 where
  pub epoch : ℕ
  pub ratchets : HashMap SymmetricRatchet

-- The libraries that the keys rest on.
pub record Crypto : Type 0 where
  pub hkdf : List ℕ → List ℕ → List ℕ
  pub hmac : List ℕ → List ℕ → List ℕ
  pub aead : Aead

unfoldable pub epoch : SenderKeyStore → ℕ
epoch s = s.epoch

unfoldable pub member_count : SenderKeyStore → ℕ
member_count s = entry_count s.ratchets

unfoldable pub has_member : SenderKeyStore → ℕ → Bool
has_member s sender_index = contains_key s.ratchets sender_index

abbrev generation_of : Option SymmetricRatchet → Option ℕ
generation_of none = none
generation_of (some r) = some r.generation

unfoldable pub generation : SenderKeyStore → ℕ → Option ℕ
generation s sender_index = generation_of (get s.ratchets sender_index)

abbrev pub set_ratchet : ℕ → SymmetricRatchet → SenderKeyStore → SenderKeyStore
set_ratchet sender_index r s = record s { ratchets = insert s.ratchets sender_index r }

module _ (c : Crypto) where
  -- The loop of `initialize_epoch`.
  unfoldable pub add_ratchets :
      List ℕ → ℕ → List ℕ → HashMap SymmetricRatchet → HashMap SymmetricRatchet
  add_ratchets epoch_secret epoch [] ratchets = ratchets
  add_ratchets epoch_secret epoch (index ∷ member_indices) ratchets =
      let seed = derive_sender_key_seed c.hkdf epoch_secret epoch index in
      add_ratchets epoch_secret epoch member_indices (insert ratchets index (Ratchet.new seed))

  unfoldable pub initialize_epoch : List ℕ → ℕ → List ℕ → SenderKeyStore
  unfolding add_ratchets
  initialize_epoch epoch_secret epoch member_indices = record {
    epoch = epoch;
    ratchets = add_ratchets epoch_secret epoch member_indices [];
  }

  abbrev encrypt_with :
      ℕ
      → List ℕ
      → List ℕ
      → SenderKeyStore
      → Result SenderKeyError MessageKey × SymmetricRatchet
      → Result SenderKeyError EncryptedMessage × SenderKeyStore
  encrypt_with sender_index plaintext random_bytes s (err e, r) =
      (err e, set_ratchet sender_index r s)
  encrypt_with sender_index plaintext random_bytes s (ok key, r) = (
    ok (encrypt_message c.aead plaintext key s.epoch sender_index random_bytes),
    set_ratchet sender_index r s,
  )

  abbrev encrypt_as :
      ℕ
      → List ℕ
      → List ℕ
      → SenderKeyStore
      → Option SymmetricRatchet
      → Result SenderKeyError EncryptedMessage × SenderKeyStore
  encrypt_as sender_index plaintext random_bytes s none = (err (unknown_sender sender_index), s)
  encrypt_as sender_index plaintext random_bytes s (some r) =
      encrypt_with sender_index plaintext random_bytes s (advance c.hmac r)

  unfoldable pub encrypt :
      ℕ → List ℕ → List ℕ → SenderKeyStore → Result SenderKeyError EncryptedMessage × SenderKeyStore
  encrypt sender_index plaintext random_bytes s =
      encrypt_as sender_index plaintext random_bytes s (get s.ratchets sender_index)

  -- What `decrypt` gives, or nothing when the fuel of `advance_to` did not do.
  abbrev pub Decrypted : Type 0
  Decrypted = Option (Result SenderKeyError (List ℕ) × SenderKeyStore)

  abbrev decrypt_with :
      EncryptedMessage
      → SenderKeyStore
      → Option (Result SenderKeyError MessageKey × SymmetricRatchet)
      → Decrypted
  decrypt_with encrypted s none = none
  decrypt_with encrypted s (some (err e, r)) = some (err e, set_ratchet encrypted.sender_index r s)
  decrypt_with encrypted s (some (ok key, r)) =
      some (decrypt_message c.aead encrypted key, set_ratchet encrypted.sender_index r s)

  abbrev decrypt_from : EncryptedMessage → SenderKeyStore → Option SymmetricRatchet → Decrypted
  decrypt_from encrypted s none = some (err (unknown_sender encrypted.sender_index), s)
  decrypt_from encrypted s (some r) =
      decrypt_with encrypted s (advance_to c.hmac encrypted.generation r)

  unfoldable pub decrypt : EncryptedMessage → SenderKeyStore → Decrypted
  decrypt encrypted s =
      if not (encrypted.epoch == s.epoch)
      then some (err (epoch_mismatch s.epoch encrypted.epoch), s)
      else decrypt_from encrypted s (get s.ratchets encrypted.sender_index)
