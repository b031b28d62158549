-- ===== src/SenderKeys/Store/Reorder.antt =====
-- crates/lockframe-client/src/sender_key_store.rs: messages that arrive in another order, or twice.
use kalandra.Prelude.{
  ℕ, zero, suc, ◌≤◌, ◌<◌, ◌≡◌, refl, ap, ltb, ltb→lt, if◌then◌else◌, Bool-cases, inl, inr, true,
  List, [], ◌∷◌, map, All, Result, ok, err, contains, arith,
}
use kalandra.Ratchet.{SenderKeyError, max_skip, ratchet_too_far_behind}
use kalandra.SenderKeys.Derivation.{derive_sender_key_seed}
use kalandra.SenderKeys.Encryption.{EncryptedMessage}
use kalandra.SenderKeys.Store.{Crypto, SenderKeyStore, initialize_epoch, encrypt, decrypt}
use kalandra.SenderKeys.Store.Exchange.{
  StandsAt, set_ratchet-StandsAt, initialize_epoch-StandsAt, message_at, encrypt_lem, decrypt_lem,
  decrypt-passed, received,
}

module _ (c : Crypto) where
  -- What the decryption of the arriving messages returns, one after the other.
  unfoldable pub deliver :
      List (Result SenderKeyError EncryptedMessage)
      → SenderKeyStore
      → List (Result SenderKeyError (List ℕ))
  deliver [] b = []
  deliver (err e ∷ rest) b = deliver rest b
  deliver (ok message ∷ rest) b = received c (decrypt c message b) (deliver rest)

module _ (plaintext : ℕ → List ℕ) where
  -- A message is read if it is at or after the place of the ratchet, which then stands behind it.
  unfoldable pub reading : ℕ → List ℕ → List (Result SenderKeyError (List ℕ))
  reading place [] = []
  reading place (n ∷ rest) =
      let later = reading (suc n) rest in
      let stays = reading place rest in
      if ltb n place then err (ratchet_too_far_behind place n) ∷ stays else ok (plaintext n) ∷ later

module _ (c : Crypto) (sender : ℕ) (plaintext random : ℕ → List ℕ) where
  -- The sender's store after it has encrypted so many messages.
  unfoldable pub sender_after : SenderKeyStore → ℕ → SenderKeyStore
  sender_after a zero = a
  sender_after a (suc n) = (encrypt c sender (plaintext n) (random n) (sender_after a n)).1

  -- The message that it encrypts next.
  unfoldable pub sent_at : SenderKeyStore → ℕ → Result SenderKeyError EncryptedMessage
  unfolding sender_after
  sent_at a n = (encrypt c sender (plaintext n) (random n) (sender_after a n)).0

  sender_after-StandsAt :
      (seed : List ℕ) (epoch : ℕ) (a : SenderKeyStore) (n : ℕ)
      → StandsAt c seed epoch sender 0 a
      → n ≤ max_skip
      → StandsAt c seed epoch sender n (sender_after a n)
  unfolding sender_after
  sender_after-StandsAt seed epoch a zero v few = v
  sender_after-StandsAt seed epoch a (suc n) v few =
      let before = sender_after-StandsAt seed epoch a n v (omega arith) in
      rw
        (
          sender_after,
          encrypt_lem c seed epoch sender n _ (plaintext n) (random n) before (omega arith),
        )
        (set_ratchet-StandsAt c seed epoch sender (suc n) _ before.of_epoch)

  sent_at_lem :
      (seed : List ℕ) (epoch : ℕ) (a : SenderKeyStore) (n : ℕ)
      → StandsAt c seed epoch sender 0 a
      → n < max_skip
      → sent_at a n ≡ ok (message_at c seed epoch sender n (plaintext n) (random n))
  unfolding sent_at
  sent_at_lem seed epoch a n v few =
      ap (λ (done : Result SenderKeyError EncryptedMessage × SenderKeyStore). done.0)
        (encrypt_lem c seed epoch sender n (sender_after a n) (plaintext n) (random n)
          (sender_after-StandsAt seed epoch a n v (omega arith)) (omega arith))

  deliver_lem :
      (seed : List ℕ) (epoch place : ℕ) (a b : SenderKeyStore) (arrivals : List ℕ)
      → StandsAt c seed epoch sender 0 a
      → StandsAt c seed epoch sender place b
      → All (λ n. n < max_skip) arrivals
      → deliver c (map (sent_at a) arrivals) b ≡ reading plaintext place arrivals
  unfolding deliver reading
  deliver_lem seed epoch place a b [] va vb few = refl
  deliver_lem seed epoch place a b (n ∷ rest) va vb (small, few) =
      let sent = sent_at_lem seed epoch a n va small in
      let kept = λ (m : ℕ). set_ratchet-StandsAt c seed epoch sender m b vb.of_epoch in
      elim (Bool-cases (ltb n place)) [
        | inl passed ↦
            rw
              (
                sent,
                passed,
                decrypt-passed c seed epoch sender place n b (plaintext n) (random n) vb
                    (ltb→lt n place passed),
              )
              (ap
                (λ (l : List (Result SenderKeyError (List ℕ))).
                  err (ratchet_too_far_behind place n) ∷ l)
                (deliver_lem seed epoch place a _ rest va (kept place) few))
        | inr ahead ↦
            rw
              (
                sent,
                ahead,
                decrypt_lem c seed epoch sender place n b (plaintext n) (random n) vb
                    (ground (arith, ahead)) (omega arith) (omega arith),
              )
              (ap (λ (l : List (Result SenderKeyError (List ℕ))). ok (plaintext n) ∷ l)
                (deliver_lem seed epoch (suc n) a _ rest va (kept (suc n)) few))
      ]

  -- Two members make their stores from the same epoch secret, for lists of members in which the
  -- sender is. Of the first 1000 messages that the one encrypts, any arrive at the other, in any
  -- order and any number of times: a message is decrypted to its plaintext if it comes after all
  -- those that were decrypted before it in the order of sending, and is refused as too far behind
  -- otherwise, without harm to the messages that arrive after it.
  pub initialize_epoch-deliver :
      (secret : List ℕ) (epoch : ℕ) (members members' arrivals : List ℕ)
      → contains members sender ≡ true
      → contains members' sender ≡ true
      → All (λ n. n < max_skip) arrivals
      → deliver c
          (map (sent_at (initialize_epoch c secret epoch members)) arrivals)
          (initialize_epoch c secret epoch members')
        ≡ reading plaintext 0 arrivals
  initialize_epoch-deliver secret epoch members members' arrivals h h' few =
      deliver_lem (derive_sender_key_seed c.hkdf secret epoch sender) epoch 0 _ _ arrivals
        (initialize_epoch-StandsAt c secret epoch members sender h)
        (initialize_epoch-StandsAt c secret epoch members' sender h') few
