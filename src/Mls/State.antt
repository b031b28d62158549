-- ===== src/Mls/State.antt =====
-- crates/lockframe-core/src/mls/state.rs and constants.rs. The Ed25519 library is a parameter.
use kalandra.Prelude.{ℕ, Bool, Option, none, some, List, length, HashMap, get, contains}

-- ed25519-dalek: the conversions of keys and signatures from bytes, and the verification.
pub record Ed25519 : Type 1 where
  pub VerifyingKey : Type 0
  pub Signature : Type 0
  pub verifying_key : List ℕ → Option VerifyingKey
  pub signature : List ℕ → Option Signature
  pub verify : VerifyingKey → List ℕ → Signature → Bool

abbrev pub max_epoch : ℕ
max_epoch = 1_000_000

-- The opaque OpenMLS blob is a list of bytes.
pub record MlsGroupState : Type 0 where
  pub room_id : ℕ
  pub epoch : ℕ
  pub tree_hash : List ℕ
  pub members : List ℕ
  pub member_keys : HashMap (List ℕ)
  pub openmls_state : List ℕ

unfoldable pub is_member : MlsGroupState → ℕ → Bool
is_member state member_id = contains state.members member_id

unfoldable pub member_count : MlsGroupState → ℕ
member_count state = length state.members

module _ (dalek : Ed25519) where
  abbrev key_from : Option (List ℕ) → Option dalek.VerifyingKey
  key_from none = none
  key_from (some bytes) = dalek.verifying_key bytes

  -- `None` if no key is stored, and if the stored bytes are no key.
  unfoldable pub member_key : MlsGroupState → ℕ → Option dalek.VerifyingKey
  member_key state member_id = key_from (get state.member_keys member_id)
