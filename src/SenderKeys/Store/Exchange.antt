-- ===== src/SenderKeys/Store/Exchange.antt =====
-- crates/lockframe-client/src/sender_key_store.rs: what one member encrypts, and another decrypts.
use kalandra.Prelude.{
  ℕ, suc, ◌+◌, ◌^◌, ◌≤◌, ◌<◌, ◌≡◌, ◌≢◌, refl, ap, ◌∙◌, ◌==◌, ==_refl, if◌then◌else◌, Bool, true,
  false, Bool-cases, Option-cases, inl, inr, Option, none, some, List, [], ◌∷◌, length, Result, ok,
  err, HashMap, get, insert, get-insert, contains, arith,
}
use kalandra.Ratchet
use kalandra.Ratchet.{
  SymmetricRatchet, MessageKey, SenderKeyError, max_skip, advance_to, ratchet_too_far_behind,
  decryption_failed,
}
use kalandra.Ratchet.Keys.{ratchet_at, key_of, advance_lem, advance_to_lem, advance_to-refuses}
use kalandra.Ratchet.Total.{advance_to-total}
use kalandra.SenderKeys.Derivation.{derive_sender_key_seed}
use kalandra.SenderKeys.Encryption.{
  EncryptedMessage, encrypt_message, decrypt_message, decrypt_message-encrypt_message,
}
use kalandra.SenderKeys.Store.{
  Crypto, SenderKeyStore, set_ratchet, add_ratchets, initialize_epoch, encrypt, decrypt,
  decrypt_with, Decrypted,
}

module _ (c : Crypto) where
  -- The ratchet of a sender stands at a generation, for the seed.
  pub record StandsAt (seed : List ℕ) (epoch sender n : ℕ) (s : SenderKeyStore) : Type 0 where
    pub of_epoch : s.epoch ≡ epoch
    pub stands : get s.ratchets sender ≡ some (ratchet_at c.hmac seed n)

  pub set_ratchet-StandsAt :
      (seed : List ℕ) (epoch sender n : ℕ) (s : SenderKeyStore)
      → s.epoch ≡ epoch
      → StandsAt seed epoch sender n (set_ratchet sender (ratchet_at c.hmac seed n) s)
  set_ratchet-StandsAt seed epoch sender n s e = record {
    of_epoch = e;
    stands =
        rw (get-insert s.ratchets sender (ratchet_at c.hmac seed n) sender, ==_refl sender) refl;
  }

  get-add_ratchets :
      (secret : List ℕ) (epoch : ℕ) (indices : List ℕ) (m : HashMap SymmetricRatchet) (sender : ℕ)
      → get (add_ratchets c secret epoch indices m) sender ≡ (
          if contains indices sender
          then some (Ratchet.new (derive_sender_key_seed c.hkdf secret epoch sender))
          else get m sender)
  unfolding add_ratchets contains
  get-add_ratchets secret epoch [] m sender = refl
  get-add_ratchets secret epoch (i ∷ indices) m sender =
      let fresh : SymmetricRatchet = Ratchet.new (derive_sender_key_seed c.hkdf secret epoch i) in
      ground (
        arith,
        get-add_ratchets secret epoch indices (insert m i fresh) sender,
        get-insert m i fresh sender,
      )

  -- A fresh store has the ratchet of each member at the first generation.
  pub initialize_epoch-StandsAt :
      (secret : List ℕ) (epoch : ℕ) (indices : List ℕ) (sender : ℕ)
      → contains indices sender ≡ true
      → StandsAt
          (derive_sender_key_seed c.hkdf secret epoch sender)
          epoch
          sender
          0
          (initialize_epoch c secret epoch indices)
  unfolding initialize_epoch
  initialize_epoch-StandsAt secret epoch indices sender h = record {
    of_epoch = refl;
    stands = get-add_ratchets secret epoch indices [] sender ∙ rw h refl;
  }

  -- The message that the holder of a seed sends at a generation.
  abbrev pub message_at :
      List ℕ → (epoch sender n : ℕ) → (plaintext random : List ℕ) → EncryptedMessage
  message_at seed epoch sender n plaintext random =
      encrypt_message c.aead plaintext (key_of c.hmac seed n) epoch sender random

  pub encrypt_lem :
      (seed : List ℕ) (epoch sender n : ℕ) (s : SenderKeyStore) (plaintext random : List ℕ)
      → StandsAt seed epoch sender n s
      → n + 1 < 2 ^ 32
      → encrypt c sender plaintext random s ≡ (
        ok (message_at seed epoch sender n plaintext random),
        set_ratchet sender (ratchet_at c.hmac seed (suc n)) s,
      )
  unfolding encrypt
  encrypt_lem seed epoch sender n s plaintext random v small =
      simp (v.stands, advance_lem c.hmac seed n small, v.of_epoch)

  pub decrypt_lem :
      (seed : List ℕ) (epoch sender m n : ℕ) (s : SenderKeyStore) (plaintext random : List ℕ)
      → StandsAt seed epoch sender m s
      → m ≤ n
      → n ≤ m + max_skip
      → n + 1 < 2 ^ 32
      → decrypt c (message_at seed epoch sender n plaintext random) s
        ≡ some (ok plaintext, set_ratchet sender (ratchet_at c.hmac seed (suc n)) s)
  unfolding decrypt encrypt_message
  decrypt_lem seed epoch sender m n s plaintext random v ahead near small =
      let key : MessageKey = key_of c.hmac seed n in
      let opened = decrypt_message-encrypt_message c.aead plaintext random key epoch sender in
      simp (
        v.of_epoch,
        ==_refl epoch,
        v.stands,
        advance_to_lem c.hmac seed m n ahead near small,
        opened.0,
      )

  -- A message that the sender posts, and whether it reaches the other member.
  pub record Posted : Type 0 where
    pub plaintext : List ℕ
    pub random : List ℕ
    pub arrives : Bool

  abbrev pub received :
      Decrypted c
      → (SenderKeyStore → List (Result SenderKeyError (List ℕ)))
      → List (Result SenderKeyError (List ℕ))
  received none later = []
  received (some (result, b)) later = result ∷ later b

  abbrev pub posted_to :
      Bool
      → SenderKeyStore
      → Result SenderKeyError EncryptedMessage
      → (SenderKeyStore → List (Result SenderKeyError (List ℕ)))
      → List (Result SenderKeyError (List ℕ))
  posted_to arrives b (err e) later = later b
  posted_to false b (ok message) later = later b
  posted_to true b (ok message) later = received (decrypt c message b) later

  -- One member encrypts the messages in turn, and another decrypts those that arrive: its results.
  unfoldable pub exchange :
      ℕ → List Posted → SenderKeyStore → SenderKeyStore → List (Result SenderKeyError (List ℕ))
  exchange sender [] a b = []
  exchange sender (p ∷ posted) a b =
      let sent = encrypt c sender p.plaintext p.random a in
      posted_to p.arrives b sent.0 (exchange sender posted sent.1)

  unfoldable pub arriving : List Posted → List (Result SenderKeyError (List ℕ))
  arriving [] = []
  arriving (p ∷ posted) =
      let rest = arriving posted in if p.arrives then ok p.plaintext ∷ rest else rest

  exchange_lem :
      (seed : List ℕ) (epoch sender m n : ℕ) (posted : List Posted) (a b : SenderKeyStore)
      → StandsAt seed epoch sender n a
      → StandsAt seed epoch sender m b
      → m ≤ n
      → n + length posted ≤ m + max_skip
      → n + length posted < 2 ^ 32
      → exchange sender posted a b ≡ arriving posted
  unfolding exchange arriving
  exchange_lem seed epoch sender m n [] a b va vb ahead near small = refl
  exchange_lem seed epoch sender m n (p ∷ posted) a b va vb ahead near small =
      let sent = encrypt_lem seed epoch sender n a p.plaintext p.random va (omega arith) in
      let va' = set_ratchet-StandsAt seed epoch sender (suc n) a va.of_epoch in
      let opened =
        decrypt_lem seed epoch sender m n b p.plaintext p.random vb ahead (omega arith)
          (omega arith) in
      let vb' = set_ratchet-StandsAt seed epoch sender (suc n) b vb.of_epoch in
      elim (Bool-cases p.arrives) [
        | inl arrived ↦
            rw (sent, arrived, opened)
              (ap (λ (l : List (Result SenderKeyError (List ℕ))). ok p.plaintext ∷ l)
                (exchange_lem seed epoch sender (suc n) (suc n) posted _ _ va' vb' (omega arith)
                  (omega arith) (omega arith)))
        | inr lost ↦
            rw (sent, lost)
              (exchange_lem seed epoch sender m (suc n) posted _ b va' vb (omega arith)
                (omega arith) (omega arith))
      ]

  -- Two members who make their stores from the same epoch secret, for lists of members in which
  -- the sender is: of up to 1000 messages that the one encrypts in turn, some of which reach the
  -- other, in the order in which they were sent, the other decrypts each to its plaintext.
  pub initialize_epoch-exchange :
      (secret : List ℕ) (epoch sender : ℕ) (members members' : List ℕ) (posted : List Posted)
      → contains members sender ≡ true
      → contains members' sender ≡ true
      → length posted ≤ max_skip
      → exchange sender posted
          (initialize_epoch c secret epoch members)
          (initialize_epoch c secret epoch members')
        ≡ arriving posted
  initialize_epoch-exchange secret epoch sender members members' posted h h' few =
      let seed : List ℕ = derive_sender_key_seed c.hkdf secret epoch sender in
      exchange_lem seed epoch sender 0 0 posted _ _
        (initialize_epoch-StandsAt secret epoch members sender h)
        (initialize_epoch-StandsAt secret epoch members' sender h') (omega arith) (omega arith)
        (omega arith)

  pub decrypt-passed :
      (seed : List ℕ) (epoch sender m n : ℕ) (s : SenderKeyStore) (plaintext random : List ℕ)
      → StandsAt seed epoch sender m s
      → n < m
      → decrypt c (message_at seed epoch sender n plaintext random) s
        ≡ some (err (ratchet_too_far_behind m n), set_ratchet sender (ratchet_at c.hmac seed m) s)
  unfolding decrypt encrypt_message
  decrypt-passed seed epoch sender m n s plaintext random v passed = simp (
    v.of_epoch,
    ==_refl epoch,
    v.stands,
    advance_to-refuses c.hmac (ratchet_at c.hmac seed m) n (inl passed),
  )

  abbrev pub result_of : Decrypted c → Option (Result SenderKeyError (List ℕ))
  result_of none = none
  result_of (some (result, s)) = some result

  -- The store that encrypted a message does not decrypt it: its ratchet has moved on.
  pub decrypt-encrypt_own :
      (seed : List ℕ) (epoch sender n : ℕ) (s : SenderKeyStore) (plaintext random : List ℕ)
      → StandsAt seed epoch sender n s
      → n + 1 < 2 ^ 32
      → let sent = encrypt c sender plaintext random s in
        let message = message_at seed epoch sender n plaintext random in
        (sent.0 ≡ ok message)
        × (result_of (decrypt c message sent.1) ≡ some (err (ratchet_too_far_behind (suc n) n)))
  decrypt-encrypt_own seed epoch sender n s plaintext random v small =
      let moved : StandsAt seed epoch sender (suc n)
          (set_ratchet sender (ratchet_at c.hmac seed (suc n)) s) =
        set_ratchet-StandsAt seed epoch sender (suc n) s v.of_epoch in
      rw
        (
          encrypt_lem seed epoch sender n s plaintext random v small,
          decrypt-passed seed epoch sender (suc n) n _ plaintext random moved (omega arith),
        )
        (refl, refl)

  -- A message at a generation that is at most 1000 ahead of the ratchet, and that does not open,
  -- moves the ratchet as far as one that does: a genuine message up to that generation is refused after it.
  pub decrypt-forged :
      (seed : List ℕ) (m n : ℕ) (s : SenderKeyStore) (forged : EncryptedMessage)
      (plaintext random : List ℕ)
      → StandsAt seed forged.epoch forged.sender_index m s
      → m ≤ forged.generation
      → forged.generation ≤ m + max_skip
      → forged.generation + 1 < 2 ^ 32
      → c.aead.open_sealed (key_of c.hmac seed forged.generation).key forged.nonce forged.ciphertext
        ≡ none
      → n ≤ forged.generation
      → let s' =
          set_ratchet forged.sender_index (ratchet_at c.hmac seed (suc forged.generation)) s in
        let genuine = message_at seed forged.epoch forged.sender_index n plaintext random in
        (decrypt c forged s ≡ some (err decryption_failed, s'))
        × (result_of (decrypt c genuine s')
            ≡ some (err (ratchet_too_far_behind (suc forged.generation) n)))
  unfolding decrypt decrypt_message
  decrypt-forged seed m n s forged plaintext random v ahead near small shut late =
      let moved =
        set_ratchet-StandsAt seed forged.epoch forged.sender_index (suc forged.generation) s
          v.of_epoch in
      let behind =
        decrypt-passed seed forged.epoch forged.sender_index (suc forged.generation) n _ plaintext
          random moved (omega arith) in
      (
        simp (
          v.of_epoch,
          ==_refl forged.epoch,
          v.stands,
          ==_refl forged.generation,
          shut,
          advance_to_lem c.hmac seed m forged.generation ahead near small,
        ),
        rw behind refl,
      )

  decrypt_with-total :
      (encrypted : EncryptedMessage) (s : SenderKeyStore)
      (o : Option (Result SenderKeyError MessageKey × SymmetricRatchet))
      → o ≢ none
      → decrypt_with c encrypted s o ≢ none
  decrypt_with-total encrypted s none h = absurd (h refl)
  decrypt_with-total encrypted s (some (err e, r)) h = λ f. cc
  decrypt_with-total encrypted s (some (ok key, r)) h = λ f. cc

  -- For a message and a store whose generations have 32 bits, `decrypt` returns.
  pub decrypt-total :
      (encrypted : EncryptedMessage) (s : SenderKeyStore)
      → encrypted.generation < 2 ^ 32
      → ((r : SymmetricRatchet)
          → get s.ratchets encrypted.sender_index ≡ some r
          → r.generation < 2 ^ 32)
      → decrypt c encrypted s ≢ none
  unfolding decrypt
  decrypt-total encrypted s small bounded = elim (Bool-cases (encrypted.epoch == s.epoch)) [
    | inr other ↦ rw other (λ f. cc)
    | inl same ↦ elim (Option-cases (get s.ratchets encrypted.sender_index)) [
      | inl absent ↦ rw (same, absent) (λ f. cc)
      | inr (r, present) ↦
          rw (same, present)
            (decrypt_with-total encrypted s _
              (advance_to-total c.hmac encrypted.generation r (bounded r present) small))
    ]
  ]
