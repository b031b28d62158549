-- ===== src/Mls/Group.antt =====
-- crates/lockframe-core/src/mls/group.rs and error.rs: what the server uses of an MLS group, as an
-- interface (the group itself is OpenMLS), and the signing of frame headers.
use kalandra.Prelude.{
  ℕ, ◌≡◌, ◌≢◌, Bool, true, Option, none, some, List, take, drop, ◌==◌, if◌then◌else◌, length, arith,
  Result, length-append, length-take, length-drop, ap, sym, subst, ◌∙◌,
}
use kalandra.Proto.Header.{FrameHeader, IsShaped, to_bytes, signing_data, set_signature}
use kalandra.Proto.Header.Layout.{length-to_bytes}
use kalandra.Proto.Header.Signing.{signing_data-with_unsigned}
use kalandra.Proto.Frame.{Frame}
use kalandra.Mls.State.{Ed25519, MlsGroupState}
use kalandra.Mls.Validator.{Reason, accept, validate_signature, validate_signature_iff}

-- The texts inside the errors are left out.
pub data MlsError : Type 0 where
  serialization unexpected_message crypto codec protocol not_member group_not_found : MlsError
  invalid_state : (epoch : ℕ) → MlsError
  epoch_mismatch : (expected received : ℕ) → MlsError
  member_not_found member_already_exists : (member_id : ℕ) → MlsError
  invalid_proposal invalid_commit : MlsError
  timeout : (elapsed : ℕ) → MlsError
  validation_failed : Reason → MlsError

-- The operations of `MlsGroup` that `RoomManager` calls. An operation on `&mut self` returns the
-- group beside its result; the actions that `RoomManager` drops or only passes on are `Action`.
pub record MlsGroups : Type 1 where
  pub Group : Type 0
  pub Action : Type 0
  pub create : (room_id member_id : ℕ) → Result MlsError Group
  pub epoch : Group → ℕ
  pub has_mls_pending_commit : Group → Bool
  pub merge_pending_commit : Group → Result MlsError (Unit {0}) × Group
  pub process_message : Group → Frame → Result MlsError (List Action) × Group
  pub export_group_state : Group → Result MlsError MlsGroupState
  pub add_members_from_bytes : Group → List (List ℕ) → Result MlsError (List Action) × Group
  pub remove_members : Group → List ℕ → Result MlsError (List Action) × Group
  pub leave_group : Group → Result MlsError (List Action) × Group

-- The bytes that `sign_frame_header` hands to the signer: `header_bytes[..64]`.
unfoldable pub signed_prefix : FrameHeader → List ℕ
signed_prefix h = take 64 (to_bytes h)

abbrev keep_if_64 : FrameHeader → Option (List ℕ) → FrameHeader
keep_if_64 h none = h
keep_if_64 h (some signature) = if length signature == 64 then set_signature h signature else h

-- `MlsGroup::sign_frame_header`; `sign` is the group's key pair.
unfoldable pub sign_frame_header : (List ℕ → Option (List ℕ)) → FrameHeader → FrameHeader
unfolding signed_prefix
sign_frame_header sign h = keep_if_64 h (sign (signed_prefix h))

pub length-signing_data : (h : FrameHeader) → IsShaped h → length (signing_data h) ≡ 56
unfolding signing_data
length-signing_data h s = omega (
  arith,
  length-append (take 40 (to_bytes h)) (take 16 (drop 48 (to_bytes h))),
  length-take {0},
  length-drop {0},
  length-to_bytes h s,
)

-- The signed bytes are 64, and the verified ones 56.
pub signed_prefix-ne-signing_data :
    (h : FrameHeader) → IsShaped h → signed_prefix h ≢ signing_data h
unfolding signed_prefix
signed_prefix-ne-signing_data h s e = absurd (
    omega (
      arith,
      ap length e,
      length-signing_data h s,
      length-take 64 (to_bytes h),
      length-to_bytes h s,
    ))

pub sign_frame_header-signs :
    (sign : List ℕ → Option (List ℕ)) (h : FrameHeader) (signature : List ℕ)
    → sign (signed_prefix h) ≡ some signature
    → length signature ≡ 64
    → sign_frame_header sign h ≡ set_signature h signature
unfolding sign_frame_header set_signature
sign_frame_header-signs sign h signature signs long = rw (signs, long)

-- With signatures that verify only for the bytes that were signed, the server rejects every frame
-- whose header (with fields of their lengths) `sign_frame_header` signed with a signature of 64
-- bytes.
pub own_signature_rejected :
    (dalek : Ed25519) (sign : List ℕ → Option (List ℕ)) (frame : Frame) (state : MlsGroupState)
    (signature : List ℕ)
    → ((key : dalek.VerifyingKey) (signed checked bytes : List ℕ) (x : dalek.Signature)
        → sign signed ≡ some bytes
        → dalek.signature bytes ≡ some x
        → dalek.verify key checked x ≡ true
        → checked ≡ signed)
    → IsShaped frame.header
    → sign (signed_prefix frame.header) ≡ some signature
    → length signature ≡ 64
    → validate_signature dalek (record frame { header = sign_frame_header sign frame.header }) state
      ≢ accept
unfolding set_signature
own_signature_rejected dalek sign frame state signature binds s signs long e =
    let header : FrameHeader = set_signature frame.header signature in
    let same : sign_frame_header sign frame.header ≡ header =
      sign_frame_header-signs sign frame.header signature signs long in
    let accepted : validate_signature dalek (record frame { header = header }) state ≡ accept =
      subst
        (λ (g : FrameHeader). validate_signature dalek (record frame { header = g }) state ≡ accept)
        same e in
    let v = (validate_signature_iff dalek (record frame { header = header }) state).0 accepted in
    let checked : signing_data header ≡ signed_prefix frame.header =
      binds v.key _ _ signature v.signature signs v.well_formed v.verified in
    signed_prefix-ne-signing_data frame.header s (
      sym checked
      ∙ signing_data-with_unsigned frame.header frame.header.context_id signature s.context_id long
          s)
