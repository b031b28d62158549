-- ===== src/Tests/Wire.antt =====
-- The wire format and the signatures at the sample message.
use kalandra.Prelude.{
  ℕ, ◌+◌, ◌≡◌, ◌≢◌, ◌↔◌, refl, true, false, Option, none, some, List, [], ◌∷◌, ◌++◌, replicate,
  length, ◌==◌, if◌then◌else◌, ok, err, ◌>>=◌, arith,
}
use kalandra.Proto.Bytes.{from_be_bytes, to_be_bytes}
use kalandra.Prelude.{Bool, take, ◌≤◌}
use kalandra.Mls.State.{is_member}
use kalandra.Proto.Errors.{frame_too_short}
use kalandra.Proto.Opcode.{to_u16}
use kalandra.Proto.Header
use kalandra.Proto.Header.{to_bytes, from_bytes, size, signing_data}
use kalandra.Proto.Header.Parse.{from_bytes_iff, from_bytes-Explains, IsAccepted, Explains}
use kalandra.Proto.Header.Signing.{signing_data_iff}
use kalandra.Proto.Frame
use kalandra.Proto.Frame.{Frame, encode, decode}
use kalandra.Proto.Frame.Wire.{IsFrame, decode-encode, decode_sound}
use kalandra.Proto.Payload
use kalandra.Proto.Payload.{into_frame, from_frame}
use kalandra.Proto.Payload.RoundTrip.{from_frame-into_frame}
use kalandra.Mls.State.{Ed25519}
use kalandra.Mls.Validator.{
  validate_frame, validate_signature, validate_frame_iff, accept, IsSigned,
}
use kalandra.Mls.Group.{signed_prefix, sign_frame_header, own_signature_rejected}
use kalandra.Sequencer.{validate_frame_structure}
use kalandra.Sequencer.Structure.{validate_frame_structure_iff, IsStructured}
use kalandra.Tests.Data.{
  message, message_header, message-IsFrame, message_header-IsShaped, toy_dalek, room_state,
  toy_cbor, farewell_frame,
}

decode-encode_example :
    (encode (message 9) [] >>= λ bytes. decode (bytes ++ (1 ∷ []))) ≡ ok (message 9)
decode-encode_example = decode-encode (message 9) (1 ∷ []) (message-IsFrame 9) (omega arith)

abbrev message_bytes : List ℕ
message_bytes = to_bytes (message_header 9) ++ (104 ∷ 105 ∷ [])

decode_message : decode message_bytes ≡ ok (message 9)
unfolding decode from_bytes to_bytes Header.read_prefix Header.check from_be_bytes
    Header.payload_size Frame.read_payload
decode_message = refl

decode_sound_example :
    IsFrame (message 9)
    × (length (message 9).payload ≤ Header.max_payload_size)
    × (encode (message 9) [] ≡ ok (take (size + 2) message_bytes))
decode_sound_example = decode_sound message_bytes (message 9) decode_message

from_bytes_iff_example : (from_bytes message_bytes ≡ ok (message_header 9)) ↔ (
    Header.IsShaped (message_header 9)
    × IsAccepted (message_header 9)
    × (to_bytes (message_header 9) ≡ take size message_bytes))
from_bytes_iff_example = from_bytes_iff message_bytes (message_header 9)

short_slice : from_bytes [] ≡ err (frame_too_short 128 0)
unfolding from_bytes
short_slice = refl

from_bytes-Explains_example : Explains [] (frame_too_short 128 0)
from_bytes-Explains_example = from_bytes-Explains [] (frame_too_short 128 0) short_slice

signing_data_iff_example : (signing_data (message_header 9) ≡ signing_data (message_header 8)) ↔ (
    message_header 9
    ≡ record (message_header 8) { context_id = replicate 8 0; signature = replicate 64 9 })
signing_data_iff_example =
    signing_data_iff (message_header 9) (message_header 8) (message_header-IsShaped 9)
      (message_header-IsShaped 8)

-- A goodbye that says "by".
abbrev farewell : Payload.Payload
farewell = Payload.goodbye (record { reason = 98 ∷ 121 ∷ [] })

into_farewell_frame : into_frame toy_cbor farewell (message_header 9) ≡ ok farewell_frame
unfolding into_frame Payload.encode Payload.opcode Frame.new Frame.len_as_u32 to_be_bytes to_u16
into_farewell_frame = refl

from_frame-into_frame_example : from_frame toy_cbor farewell_frame ≡ ok farewell
from_frame-into_frame_example =
    from_frame-into_frame toy_cbor farewell (message_header 9) farewell_frame into_farewell_frame
      (omega arith)

validate_frame_iff_example : (validate_frame toy_dalek (message 9) 0 room_state ≡ accept) ↔ (
    (Header.epoch (message 9).header ≡ 0)
    × (is_member room_state (Header.sender_id (message 9).header) ≡ true)
    × IsSigned toy_dalek (message 9) room_state)
validate_frame_iff_example = validate_frame_iff toy_dalek (message 9) 0 room_state

validate_frame_structure_iff_example :
    (validate_frame_structure (message 9) ≡ ok tt) ↔ IsStructured (message 9)
validate_frame_structure_iff_example = validate_frame_structure_iff (message 9)

-- Signatures that are the signed bytes themselves.
abbrev pub same_bytes : List ℕ → List ℕ → Bool
same_bytes [] [] = true
same_bytes [] (b ∷ bs) = false
same_bytes (a ∷ xs) [] = false
same_bytes (a ∷ xs) (b ∷ bs) = if a == b then same_bytes xs bs else false

same_bytes-eq : (xs ys : List ℕ) → same_bytes xs ys ≡ true → xs ≡ ys
same_bytes-eq [] [] e = refl
same_bytes-eq [] (b ∷ bs) e = cc
same_bytes-eq (a ∷ xs) [] e = cc
same_bytes-eq (a ∷ xs) (b ∷ bs) e = ground (arith, same_bytes-eq xs bs)

abbrev pub echo_sign : List ℕ → Option (List ℕ)
echo_sign bytes = if length bytes == 64 then some bytes else none

abbrev pub echo_dalek : Ed25519
echo_dalek = record {
  VerifyingKey = List ℕ;
  Signature = List ℕ;
  verifying_key = λ bytes. some bytes;
  signature = λ bytes. some bytes;
  verify = λ key bytes x. same_bytes bytes x;
}

pub echo_binds :
    (key signed checked bytes x : List ℕ)
    → echo_sign signed ≡ some bytes
    → some bytes ≡ some x
    → same_bytes checked x ≡ true
    → checked ≡ signed
echo_binds key signed checked bytes x signs parses verifies =
    let found : checked ≡ x = same_bytes-eq checked x verifies in ground (arith, found)

echo_signs : echo_sign (signed_prefix (message_header 9)) ≡ some (signed_prefix (message_header 9))
unfolding signed_prefix to_bytes
echo_signs = refl

length-signed_bytes : length (signed_prefix (message_header 9)) ≡ 64
unfolding signed_prefix to_bytes
length-signed_bytes = refl

own_signature_rejected_example :
    validate_signature echo_dalek
      (record (message 9) { header = sign_frame_header echo_sign (message_header 9) })
      room_state
    ≢ accept
own_signature_rejected_example =
    own_signature_rejected echo_dalek echo_sign (message 9) room_state
      (signed_prefix (message_header 9)) echo_binds (message_header-IsShaped 9) echo_signs
      length-signed_bytes
