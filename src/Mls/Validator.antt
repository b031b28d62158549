-- ===== src/Mls/Validator.antt =====
-- crates/lockframe-core/src/mls/validator.rs. The reasons, which the source formats as text, are
-- data with the values that the text shows. The functions of the source never return `Err`.
use kalandra.Prelude.{
  ℕ, ◌≡◌, ◌↔◌, true, not, Option, none, some, ◌==◌, if◌then◌else◌, arith, ==_refl, refl,
}
use kalandra.Proto.Header
use kalandra.Proto.Frame.{Frame}
use kalandra.Mls.State.{Ed25519, MlsGroupState, is_member, member_key}

pub data Reason : Type 0 where
  epoch_mismatch : (expected got : ℕ) → Reason
  not_in_group : ℕ → Reason
  no_signature_key : ℕ → Reason
  invalid_signature_format : Reason
  signature_failed : ℕ → Reason
  no_state_epoch : ℕ → Reason

pub data ValidationResult : Type 0 where
  accept : ValidationResult
  reject : Reason → ValidationResult

module _ (dalek : Ed25519) where
  open dalek use {VerifyingKey, Signature}

  verify_signature : Frame → ℕ → VerifyingKey → Option Signature → ValidationResult
  verify_signature frame sender_id key none = reject invalid_signature_format
  verify_signature frame sender_id key (some signature) =
      if dalek.verify key (Header.signing_data frame.header) signature
      then accept
      else reject (signature_failed sender_id)

  with_key : Frame → ℕ → Option VerifyingKey → ValidationResult
  unfolding verify_signature
  with_key frame sender_id none = reject (no_signature_key sender_id)
  with_key frame sender_id (some key) =
      verify_signature frame sender_id key (dalek.signature frame.header.signature)

  -- `MlsValidator::validate_signature`
  unfoldable pub validate_signature : Frame → MlsGroupState → ValidationResult
  unfolding with_key
  validate_signature frame group_state =
      let sender_id = Header.sender_id frame.header in
      with_key frame sender_id (member_key dalek group_state sender_id)

  -- `MlsValidator::validate_frame`
  unfoldable pub validate_frame : Frame → ℕ → MlsGroupState → ValidationResult
  validate_frame frame current_epoch group_state =
      let frame_epoch = Header.epoch frame.header in
      let sender_id = Header.sender_id frame.header in
      if not (frame_epoch == current_epoch)
      then reject (epoch_mismatch current_epoch frame_epoch)
      else if not (is_member group_state sender_id)
      then reject (not_in_group sender_id)
      else validate_signature frame group_state

  -- What a valid signature is: a stored key verifies the signed bytes of the header.
  pub record IsSigned (frame : Frame) (state : MlsGroupState) : Type 0 where
    pub key : VerifyingKey
    pub signature : Signature
    pub stored : member_key dalek state (Header.sender_id frame.header) ≡ some key
    pub well_formed : dalek.signature frame.header.signature ≡ some signature
    pub verified : dalek.verify key (Header.signing_data frame.header) signature ≡ true

  verify_signature-eq_accept :
      (frame : Frame) (id : ℕ) (key : VerifyingKey) (o : Option Signature)
      → verify_signature frame id key o ≡ accept
      → (x : Signature) × (o ≡ some x)
        × (dalek.verify key (Header.signing_data frame.header) x ≡ true)
  unfolding verify_signature
  verify_signature-eq_accept frame id key none e = cc
  verify_signature-eq_accept frame id key (some x) e = (x, refl, ground arith)

  with_key-eq_accept :
      (frame : Frame) (state : MlsGroupState) (id : ℕ) (o : Option VerifyingKey)
      → member_key dalek state (Header.sender_id frame.header) ≡ o
      → with_key frame id o ≡ accept
      → IsSigned frame state
  unfolding with_key
  with_key-eq_accept frame state id none h e = cc
  with_key-eq_accept frame state id (some key) h e =
      let (x, formed, good) =
        verify_signature-eq_accept frame id key (dalek.signature frame.header.signature) e in
      record { key = key; signature = x; stored = h; well_formed = formed; verified = good }

  -- The signature check accepts exactly the signed frames.
  pub validate_signature_iff :
      (frame : Frame) (state : MlsGroupState)
      → (validate_signature frame state ≡ accept) ↔ IsSigned frame state
  unfolding validate_signature
  validate_signature_iff frame state = (
    λ e. with_key-eq_accept frame state (Header.sender_id frame.header) _ refl e,
    λ v. rw (v.stored, with_key, v.well_formed, verify_signature, v.verified),
  )

  validate_frame_accepts :
      (frame : Frame) (current_epoch : ℕ) (state : MlsGroupState)
      → validate_frame frame current_epoch state ≡ accept
      → (Header.epoch frame.header ≡ current_epoch)
        × (is_member state (Header.sender_id frame.header) ≡ true)
        × IsSigned frame state
  unfolding validate_frame
  validate_frame_accepts frame current_epoch state e =
      (ground arith, ground arith, (validate_signature_iff frame state).0 (ground arith))

  -- A frame is accepted exactly when it is of the current epoch, its sender is a member, and its
  -- header is signed with a key stored for that member.
  pub validate_frame_iff :
      (frame : Frame) (current_epoch : ℕ) (state : MlsGroupState)
      → (validate_frame frame current_epoch state ≡ accept) ↔ (
          (Header.epoch frame.header ≡ current_epoch)
          × (is_member state (Header.sender_id frame.header) ≡ true)
          × IsSigned frame state)
  unfolding validate_frame
  validate_frame_iff frame current_epoch state = (
    λ e. validate_frame_accepts frame current_epoch state e,
    λ (a, b, c). rw (a, ==_refl current_epoch, b) ((validate_signature_iff frame state).1 c),
  )

-- `MlsValidator::validate_frame_no_state`
unfoldable pub validate_frame_no_state : Frame → ValidationResult
validate_frame_no_state frame =
    let frame_epoch = Header.epoch frame.header in
    if not (frame_epoch == 0) then reject (no_state_epoch frame_epoch) else accept
