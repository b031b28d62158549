-- ===== src/Tests/Keys.antt =====
-- The ratchet with a toy HMAC, which puts the key behind the message.
use kalandra.Prelude.{
  ℕ, ◌^◌, ◌<◌, ◌≡◌, ◌≢◌, refl, ap, true, false, some, none, List, [], ◌∷◌, ◌++◌, ok, err, arith,
  get, contains, map,
}
use kalandra.Ratchet.{SymmetricRatchet, advance_to, ratchet_too_far_behind, decryption_failed}
use kalandra.Ratchet.Keys.{key_of, ratchet_at, advance_to_lem}
use kalandra.SenderKeys.Encryption.{EncryptedMessage}
use kalandra.SenderKeys.Store.{SenderKeyStore, set_ratchet, initialize_epoch, encrypt, decrypt}
use kalandra.SenderKeys.Store.Exchange.{
  StandsAt, Posted, exchange, arriving, initialize_epoch-exchange, message_at, result_of,
  decrypt-encrypt_own, decrypt-forged, decrypt-total,
}
use kalandra.SenderKeys.Store.Reorder.{sent_at, deliver, reading, initialize_epoch-deliver}
use kalandra.Tests.Data.{toy_crypto}

abbrev toy_hmac : List ℕ → List ℕ → List ℕ
toy_hmac key bytes = bytes ++ key

abbrev seed : List ℕ
seed = 1 ∷ 2 ∷ []

advance_to_lem_example :
    advance_to toy_hmac 3 (ratchet_at toy_hmac seed 1)
    ≡ some (ok (key_of toy_hmac seed 3), ratchet_at toy_hmac seed 4)
advance_to_lem_example = advance_to_lem toy_hmac seed 1 3 (omega arith) (omega arith) (omega arith)

-- Members 0 and 1 have the keys of an epoch. Of three messages of member 1, the second is lost.
abbrev posts : List (Posted toy_crypto)
posts =
    record { plaintext = 7 ∷ []; random = []; arrives = true }
    ∷ record { plaintext = 8 ∷ []; random = []; arrives = false }
    ∷ record { plaintext = 9 ∷ []; random = []; arrives = true }
    ∷ []

lists_one : contains (0 ∷ 1 ∷ []) 1 ≡ true
unfolding contains
lists_one = refl

also_lists_one : contains (1 ∷ 0 ∷ []) 1 ≡ true
unfolding contains
also_lists_one = refl

initialize_epoch-exchange_example :
    exchange toy_crypto 1 posts
      (initialize_epoch toy_crypto seed 4 (0 ∷ 1 ∷ []))
      (initialize_epoch toy_crypto seed 4 (1 ∷ 0 ∷ []))
    ≡ arriving toy_crypto posts
initialize_epoch-exchange_example =
    initialize_epoch-exchange toy_crypto seed 4 1 (0 ∷ 1 ∷ []) (1 ∷ 0 ∷ []) posts lists_one
      also_lists_one (omega arith)

-- The fourth message comes before the second one, and twice.
initialize_epoch-deliver_example :
    deliver toy_crypto
      (map
        (sent_at toy_crypto 1
          (λ n. n ∷ [])
          (λ n. [])
          (initialize_epoch toy_crypto seed 4 (0 ∷ 1 ∷ [])))
        (0 ∷ 3 ∷ 1 ∷ 3 ∷ 4 ∷ []))
      (initialize_epoch toy_crypto seed 4 (1 ∷ 0 ∷ []))
    ≡ reading (λ n. n ∷ []) 0 (0 ∷ 3 ∷ 1 ∷ 3 ∷ 4 ∷ [])
initialize_epoch-deliver_example =
    initialize_epoch-deliver toy_crypto 1 (λ n. n ∷ []) (λ n. []) seed 4 (0 ∷ 1 ∷ []) (1 ∷ 0 ∷ [])
      (0 ∷ 3 ∷ 1 ∷ 3 ∷ 4 ∷ []) lists_one also_lists_one
      (omega arith, (omega arith, (omega arith, (omega arith, (omega arith, tt)))))

abbrev keys : SenderKeyStore
keys = record { epoch = 4; ratchets = (1, ratchet_at (toy_crypto.hmac) seed 2) ∷ [] }

keys-StandsAt : StandsAt toy_crypto seed 4 1 2 keys
unfolding get
keys-StandsAt = record { of_epoch = refl; stands = refl }

decrypt-encrypt_own_example :
    ((encrypt toy_crypto 1 (7 ∷ []) [] keys).0 ≡ ok (message_at toy_crypto seed 4 1 2 (7 ∷ []) []))
    × (result_of toy_crypto (
          decrypt toy_crypto
            (message_at toy_crypto seed 4 1 2 (7 ∷ []) [])
            (encrypt toy_crypto 1 (7 ∷ []) [] keys).1)
        ≡ some (err (ratchet_too_far_behind 3 2)))
decrypt-encrypt_own_example =
    decrypt-encrypt_own toy_crypto seed 4 1 2 keys (7 ∷ []) [] keys-StandsAt (omega arith)

-- A message of generation 6 whose bytes are no ciphertext.
abbrev forged : EncryptedMessage
forged = record { epoch = 4; sender_index = 1; generation = 6; nonce = []; ciphertext = 5 ∷ [] }

decrypt-forged_example :
    (decrypt toy_crypto forged keys
      ≡ some (err decryption_failed, set_ratchet 1 (ratchet_at (toy_crypto.hmac) seed 7) keys))
    × (result_of toy_crypto (
          decrypt toy_crypto
            (message_at toy_crypto seed 4 1 3 (7 ∷ []) [])
            (set_ratchet 1 (ratchet_at (toy_crypto.hmac) seed 7) keys))
        ≡ some (err (ratchet_too_far_behind 7 3)))
decrypt-forged_example =
    decrypt-forged toy_crypto seed 2 3 keys forged (7 ∷ []) [] keys-StandsAt (omega arith)
      (omega arith) (omega arith) refl (omega arith)

keys_small : (r : SymmetricRatchet) → get keys.ratchets 1 ≡ some r → r.generation < 2 ^ 32
unfolding get
keys_small r e =
    let same : ratchet_at (toy_crypto.hmac) seed 2 ≡ r = cc in
    omega (arith, ap (λ (k : SymmetricRatchet). k.generation) same)

decrypt-total_example : decrypt toy_crypto forged keys ≢ none
decrypt-total_example = decrypt-total toy_crypto forged keys (omega arith) keys_small
