-- ===== src/SenderKeys/Encryption.antt =====
-- crates/lockframe-crypto/src/sender_keys/encryption.rs.
use kalandra.Prelude.{
  ℕ, ◌+◌, ◌-◌, ◌^◌, ◌<◌, ◌≡◌, ◌==◌, ==_refl, not, if◌then◌else◌, refl, Option, some, List, ◌++◌,
  length, Result, ok, err, ok_or, arith,
}
use kalandra.Proto.Bytes.{to_be_bytes}
use kalandra.Ratchet.{MessageKey, SenderKeyError, decryption_failed}
use kalandra.SenderKeys.Derivation.{front_number}

-- The cipher: what it seals it opens, and the tag has 16 bytes.
pub record Aead : Type 0 where
  pub seal : (key nonce plaintext : List ℕ) → List ℕ
  pub open_sealed : (key nonce ciphertext : List ℕ) → Option (List ℕ)
  pub opens :
      (key nonce plaintext : List ℕ)
      → open_sealed key nonce (seal key nonce plaintext) ≡ some plaintext
  pub tagged :
      (key nonce plaintext : List ℕ) → length (seal key nonce plaintext) ≡ length plaintext + 16

abbrev pub poly1305_tag_size : ℕ
poly1305_tag_size = 16

pub record EncryptedMessage : Type 0 where
  pub epoch : ℕ
  pub sender_index : ℕ
  pub generation : ℕ
  pub nonce : List ℕ
  pub ciphertext : List ℕ

unfoldable pub plaintext_len : EncryptedMessage → ℕ
plaintext_len m = length m.ciphertext - poly1305_tag_size

unfoldable pub build_nonce : (epoch sender_index generation : ℕ) → List ℕ → List ℕ
build_nonce epoch sender_index generation random_suffix =
    to_be_bytes 8 epoch
    ++ (to_be_bytes 4 sender_index ++ (to_be_bytes 4 generation ++ random_suffix))

module _ (aead : Aead) where
  -- The `unreachable!` is: the cipher's `seal` does not fail.
  unfoldable pub encrypt_message :
      List ℕ → MessageKey → (epoch sender_index : ℕ) → List ℕ → EncryptedMessage
  encrypt_message plaintext key epoch sender_index random_suffix =
      let nonce = build_nonce epoch sender_index key.generation random_suffix in
      record {
        epoch = epoch;
        sender_index = sender_index;
        generation = key.generation;
        nonce = nonce;
        ciphertext = aead.seal key.key nonce plaintext;
      }

  unfoldable pub decrypt_message : EncryptedMessage → MessageKey → Result SenderKeyError (List ℕ)
  decrypt_message encrypted key =
      if not (key.generation == encrypted.generation)
      then err decryption_failed
      else ok_or (aead.open_sealed key.key encrypted.nonce encrypted.ciphertext) decryption_failed

  -- What is encrypted with a key is decrypted with it, and is 16 bytes longer than the plaintext.
  pub decrypt_message-encrypt_message :
      (plaintext random_suffix : List ℕ) (key : MessageKey) (epoch sender_index : ℕ)
      → let sent = encrypt_message plaintext key epoch sender_index random_suffix in
        (decrypt_message sent key ≡ ok plaintext) × (plaintext_len sent ≡ length plaintext)
  unfolding encrypt_message decrypt_message plaintext_len
  decrypt_message-encrypt_message plaintext random_suffix key epoch sender_index =
      let nonce : List ℕ = build_nonce epoch sender_index key.generation random_suffix in
      (
        rw (==_refl key.generation, aead.opens key.key nonce plaintext) refl,
        omega (arith, aead.tagged key.key nonce plaintext),
      )

-- Two messages with one nonce have the same epoch, sender, generation and random suffix.
pub build_nonce-injective :
    (epoch epoch' index index' generation generation' : ℕ) (suffix suffix' : List ℕ)
    → epoch < 2 ^ 64
    → epoch' < 2 ^ 64
    → index < 2 ^ 32
    → index' < 2 ^ 32
    → generation < 2 ^ 32
    → generation' < 2 ^ 32
    → build_nonce epoch index generation suffix ≡ build_nonce epoch' index' generation' suffix'
    → (epoch ≡ epoch') × (index ≡ index') × (generation ≡ generation') × (suffix ≡ suffix')
unfolding build_nonce
build_nonce-injective epoch epoch' index index' generation generation' suffix suffix' a b c d f g
      same =
    let (epochs, rest) = front_number 8 epoch epoch' _ _ a b same in
    let (indices, rest') = front_number 4 index index' _ _ c d rest in
    let (generations, suffixes) = front_number 4 generation generation' _ _ f g rest' in
    (epochs, indices, generations, suffixes)
