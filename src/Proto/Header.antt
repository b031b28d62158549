-- ===== src/Proto/Header.antt =====
-- crates/lockframe-proto/src/header.rs: the 128-byte frame header. A `[u8; n]` field is a list of
-- bytes; `IsShaped` says that each has its length. The casts of `zerocopy` are written out as the
-- layout of the packed struct: the fields one after the other, in the order of declaration.
pub mod Layout
pub mod Parse
pub mod Signing
pub mod Fields
use kalandra.Prelude.{
  ℕ, ◌*◌, ◌≡◌, ◌==◌, ltb, not, Option, List, [], ◌∷◌, ◌++◌, length, take, drop, replicate, Result,
  ok, ◌>>◌, reject_if,
}
use kalandra.Proto.Bytes.{to_be_bytes, from_be_bytes}
use kalandra.Proto.Opcode.{Opcode, to_u16, from_u16}
use kalandra.Proto.Errors.{
  ProtocolError, frame_too_short, invalid_magic, unsupported_version, payload_too_large,
}

pub record FrameHeader : Type 0 where
  pub magic : List ℕ
  pub version : ℕ
  pub flags : ℕ
  pub opcode : List ℕ
  pub request_id : List ℕ
  pub payload_size : List ℕ
  pub room_id : List ℕ
  pub sender_id : List ℕ
  pub context_id : List ℕ
  pub hlc_timestamp : List ℕ
  pub epoch : List ℕ
  pub signature : List ℕ

-- The lengths of the arrays, which the types of the source give.
pub record IsShaped (h : FrameHeader) : Type 0 where
  pub magic : length h.magic ≡ 4
  pub opcode : length h.opcode ≡ 2
  pub request_id : length h.request_id ≡ 4
  pub payload_size : length h.payload_size ≡ 4
  pub room_id : length h.room_id ≡ 16
  pub sender_id : length h.sender_id ≡ 8
  pub context_id : length h.context_id ≡ 8
  pub hlc_timestamp : length h.hlc_timestamp ≡ 8
  pub epoch : length h.epoch ≡ 8
  pub signature : length h.signature ≡ 64

abbrev pub size : ℕ
size = 128

abbrev pub magic_number : ℕ
magic_number = 0x4C4F4652

abbrev pub current_version : ℕ
current_version = 0x01

abbrev pub max_payload_size : ℕ
max_payload_size = 16 * 1024 * 1024

-- The first byte of a slice that has one; the callers give at least 128 bytes.
unfoldable pub first_byte : List ℕ → ℕ
first_byte [] = 0
first_byte (b ∷ bs) = b

-- `Self::ref_from_prefix`, on a slice of at least 128 bytes.
unfoldable pub read_prefix : List ℕ → FrameHeader
unfolding first_byte
read_prefix bytes =
    let at_version = drop 4 bytes in
    let at_flags = drop 1 at_version in
    let at_opcode = drop 1 at_flags in
    let at_request_id = drop 2 at_opcode in
    let at_payload_size = drop 4 at_request_id in
    let at_room_id = drop 4 at_payload_size in
    let at_sender_id = drop 16 at_room_id in
    let at_context_id = drop 8 at_sender_id in
    let at_hlc_timestamp = drop 8 at_context_id in
    let at_epoch = drop 8 at_hlc_timestamp in
    let at_signature = drop 8 at_epoch in
    record {
      magic = take 4 bytes;
      version = first_byte at_version;
      flags = first_byte at_flags;
      opcode = take 2 at_opcode;
      request_id = take 4 at_request_id;
      payload_size = take 4 at_payload_size;
      room_id = take 16 at_room_id;
      sender_id = take 8 at_sender_id;
      context_id = take 8 at_context_id;
      hlc_timestamp = take 8 at_hlc_timestamp;
      epoch = take 8 at_epoch;
      signature = take 64 at_signature;
    }

-- `FrameHeader::to_bytes`.
unfoldable pub to_bytes : FrameHeader → List ℕ
to_bytes h =
    h.magic
    ++ (h.version
        ∷ h.flags
        ∷ (h.opcode
            ++ (h.request_id
                ++ (h.payload_size
                    ++ (h.room_id
                        ++ (h.sender_id
                            ++ (h.context_id ++ (h.hlc_timestamp ++ (h.epoch ++ h.signature)))))))))

-- The checks of `from_bytes` after the cast, in their order.
unfoldable pub check : FrameHeader → Result ProtocolError FrameHeader
check h = do
  reject_if (not (from_be_bytes h.magic == magic_number)) invalid_magic
  reject_if (not (h.version == current_version)) (unsupported_version h.version)
  let payload_size = from_be_bytes h.payload_size
  reject_if (ltb max_payload_size payload_size) (payload_too_large payload_size max_payload_size)
  ok h

-- `FrameHeader::from_bytes`.
unfoldable pub from_bytes : List ℕ → Result ProtocolError FrameHeader
from_bytes bytes = do
  reject_if (ltb (length bytes) size) (frame_too_short size (length bytes))
  check (read_prefix bytes)

-- The array that `FrameHeader::new` fills: magic, version and opcode, and zeros.
unfoldable pub new_bytes : Opcode → List ℕ
unfolding to_u16 to_be_bytes
new_bytes o =
    to_be_bytes 4 magic_number
    ++ (current_version ∷ 0 ∷ (to_be_bytes 2 (to_u16 o) ++ replicate 120 0))

-- `FrameHeader::new`. Its call of `from_bytes` cannot fail (`from_bytes-new_bytes`).
unfoldable pub new : Opcode → FrameHeader
new o = read_prefix (new_bytes o)

-- The accessors.
unfoldable pub magic : FrameHeader → ℕ
magic h = from_be_bytes h.magic

unfoldable pub opcode : FrameHeader → ℕ
opcode h = from_be_bytes h.opcode

unfoldable pub opcode_enum : FrameHeader → Option Opcode
unfolding opcode
opcode_enum h = from_u16 (opcode h)

unfoldable pub request_id : FrameHeader → ℕ
request_id h = from_be_bytes h.request_id

unfoldable pub room_id : FrameHeader → ℕ
room_id h = from_be_bytes h.room_id

unfoldable pub sender_id : FrameHeader → ℕ
sender_id h = from_be_bytes h.sender_id

-- `log_index` and `recipient_id` read the same bytes; the opcode says which is meant.
unfoldable pub log_index : FrameHeader → ℕ
log_index h = from_be_bytes h.context_id

unfoldable pub recipient_id : FrameHeader → ℕ
recipient_id h = from_be_bytes h.context_id

unfoldable pub hlc_timestamp : FrameHeader → ℕ
hlc_timestamp h = from_be_bytes h.hlc_timestamp

unfoldable pub epoch : FrameHeader → ℕ
epoch h = from_be_bytes h.epoch

unfoldable pub payload_size : FrameHeader → ℕ
payload_size h = from_be_bytes h.payload_size

-- `signing_data`: bytes 0-39 and 48-63 of the serialized header.
unfoldable pub signing_data : FrameHeader → List ℕ
unfolding to_bytes
signing_data h = let bytes = to_bytes h in take 40 bytes ++ take 16 (drop 48 bytes)

-- The setters.
unfoldable pub set_room_id : FrameHeader → ℕ → FrameHeader
set_room_id h room_id = record h { room_id = to_be_bytes 16 room_id }

unfoldable pub set_log_index : FrameHeader → ℕ → FrameHeader
set_log_index h log_index = record h { context_id = to_be_bytes 8 log_index }

unfoldable pub set_recipient_id : FrameHeader → ℕ → FrameHeader
set_recipient_id h recipient_id = record h { context_id = to_be_bytes 8 recipient_id }

unfoldable pub set_sender_id : FrameHeader → ℕ → FrameHeader
set_sender_id h sender_id = record h { sender_id = to_be_bytes 8 sender_id }

unfoldable pub set_epoch : FrameHeader → ℕ → FrameHeader
set_epoch h epoch = record h { epoch = to_be_bytes 8 epoch }

unfoldable pub set_signature : FrameHeader → List ℕ → FrameHeader
set_signature h signature = record h { signature = signature }

unfoldable pub set_request_id : FrameHeader → ℕ → FrameHeader
set_request_id h request_id = record h { request_id = to_be_bytes 4 request_id }

unfoldable pub set_flags : FrameHeader → ℕ → FrameHeader
set_flags h flags = record h { flags = flags }

unfoldable pub set_hlc_timestamp : FrameHeader → ℕ → FrameHeader
set_hlc_timestamp h timestamp = record h { hlc_timestamp = to_be_bytes 8 timestamp }
