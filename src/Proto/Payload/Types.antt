-- ===== src/Proto/Payload/Types.antt =====
-- crates/lockframe-proto/src/payloads: the structs of the payloads. A string is the list of its
-- bytes.
use kalandra.Prelude.{ℕ, Bool, Option, List}

abbrev pub Text : Type 0
Text = List ℕ

-- session.rs
pub record Hello : Type 0 where
  pub version : ℕ
  pub capabilities : List Text
  pub auth_token : Option (List ℕ)

pub record HelloReply : Type 0 where
  pub session_id : ℕ
  pub capabilities : List Text
  pub challenge : Option (List ℕ)

pub record Goodbye : Type 0 where
  pub reason : Text

pub record SyncRequest : Type 0 where
  pub from_log_index : ℕ
  pub limit : ℕ

pub record SyncResponse : Type 0 where
  pub frames : List (List ℕ)
  pub has_more : Bool
  pub server_epoch : ℕ

-- mls.rs
pub record KeyPackageData : Type 0 where
  pub key_package_bytes : List ℕ

pub data ProposalType : Type 0 where
  add remove update psk re_init external_init group_context_extensions : ProposalType

pub record ProposalData : Type 0 where
  pub proposal_bytes : List ℕ
  pub proposal_type : ProposalType

pub record CommitData : Type 0 where
  pub commit_bytes : List ℕ
  pub new_epoch : ℕ
  pub tree_hash : List ℕ
  pub is_external : Bool

pub record WelcomeData : Type 0 where
  pub welcome_bytes : List ℕ
  pub epoch : ℕ

-- app.rs
pub record PushKey : Type 0 where
  pub recipient_id : ℕ
  pub encrypted_key : List ℕ

pub record EncryptedMessage : Type 0 where
  pub epoch : ℕ
  pub sender_index : ℕ
  pub generation : ℕ
  pub nonce : List ℕ
  pub ciphertext : List ℕ
  pub push_keys : Option (List PushKey)

pub data ReceiptType : Type 0 where
  delivered read : ReceiptType

pub record Receipt : Type 0 where
  pub message_log_index : ℕ
  pub kind : ReceiptType
  pub timestamp : ℕ

pub record Reaction : Type 0 where
  pub message_log_index : ℕ
  pub content : Text
  pub add : Bool

-- moderation.rs
pub record Redact : Type 0 where
  pub message_log_index : ℕ
  pub reason : Text
  pub moderator_id : ℕ

pub record Ban : Type 0 where
  pub user_id : ℕ
  pub reason : Text
  pub duration_secs : Option ℕ
  pub moderator_id : ℕ

pub record Kick : Type 0 where
  pub user_id : ℕ
  pub reason : Text
  pub moderator_id : ℕ

-- mod.rs
pub record ErrorPayload : Type 0 where
  pub code : ℕ
  pub message : Text
  pub retry_after : Option ℕ
