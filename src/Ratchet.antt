-- ===== src/Ratchet.antt =====
-- crates/lockframe-crypto/src/sender_keys/ratchet.rs and error.rs: the symmetric ratchet. HMAC-SHA256
-- is a parameter, a function of the key and the message.
pub mod Keys
pub mod Total
use kalandra.Prelude.{
  ℕ, zero, suc, ◌+◌, ◌-◌, ◌%◌, ◌^◌, ◌==◌, ltb, leb, if◌then◌else◌, Option, none, some, List, [],
  ◌∷◌, Result, ok, err,
}

pub data SenderKeyError : Type 0 where
  unknown_sender : (sender_index : ℕ) → SenderKeyError
  ratchet_too_far_behind : (current requested : ℕ) → SenderKeyError
  decryption_failed : SenderKeyError
  epoch_mismatch invalid_key_length : (expected actual : ℕ) → SenderKeyError
  generation_overflow : (current : ℕ) → SenderKeyError

-- "chain" and "message"
abbrev pub chain_label : List ℕ
chain_label = 99 ∷ 104 ∷ 97 ∷ 105 ∷ 110 ∷ []

abbrev pub message_label : List ℕ
message_label = 109 ∷ 101 ∷ 115 ∷ 115 ∷ 97 ∷ 103 ∷ 101 ∷ []

abbrev pub max_skip : ℕ
max_skip = 1000

pub record MessageKey : Type 0 where
  pub key : List ℕ
  pub generation : ℕ

pub record SymmetricRatchet : Type 0 where
  pub chain_key : List ℕ
  pub generation : ℕ

abbrev pub new : List ℕ → SymmetricRatchet
new seed = record { chain_key = seed; generation = 0 }

module _ (hmac : List ℕ → List ℕ → List ℕ) where
  abbrev pub derive_message_key : SymmetricRatchet → List ℕ
  derive_message_key r = hmac r.chain_key message_label

  abbrev pub derive_next_chain_key : SymmetricRatchet → List ℕ
  derive_next_chain_key r = hmac r.chain_key chain_label

  unfoldable pub advance : SymmetricRatchet → Result SenderKeyError MessageKey × SymmetricRatchet
  advance r = if r.generation == 2 ^ 32 - 1 then (err (generation_overflow r.generation), r) else (
    ok (record { key = derive_message_key r; generation = r.generation }),
    record { chain_key = derive_next_chain_key r; generation = (r.generation + 1) % 2 ^ 32 },
  )

  -- What a run of the loop gives, or nothing without fuel.
  abbrev pub Outcome : Type 0
  Outcome = Option (Result SenderKeyError (Option MessageKey) × SymmetricRatchet)

  abbrev continue :
      Result SenderKeyError MessageKey × SymmetricRatchet → (Option MessageKey → Outcome) → Outcome
  continue (ok key, r) rest = rest (some key)
  continue (err e, r) rest = some (err e, r)

  -- The loop of `advance_to`.
  unfoldable pub advance_while : ℕ → ℕ → SymmetricRatchet → Option MessageKey → Outcome
  advance_while zero target r message_key = none
  advance_while (suc fuel) target r message_key =
      let rest = advance_while fuel target (advance r).1 in
      if leb r.generation target then continue (advance r) rest else some (ok message_key, r)

  abbrev unwrap_key : ℕ → ℕ → Outcome → Option (Result SenderKeyError MessageKey × SymmetricRatchet)
  unwrap_key current target none = none
  unwrap_key current target (some (err e, r)) = some (err e, r)
  unwrap_key current target (some (ok none, r)) =
      some (err (ratchet_too_far_behind r.generation target), r)
  unwrap_key current target (some (ok (some key), r)) = some (ok key, r)

  -- `advance_to`; `none` if the fuel, one more than the loop's turns, did not do.
  unfoldable pub advance_to :
      ℕ → SymmetricRatchet → Option (Result SenderKeyError MessageKey × SymmetricRatchet)
  advance_to target r =
      if ltb target r.generation
      then some (err (ratchet_too_far_behind r.generation target), r)
      else if ltb max_skip (target - r.generation)
      then some (err (ratchet_too_far_behind r.generation target), r)
      else unwrap_key r.generation target (advance_while (max_skip + 2) target r none)
