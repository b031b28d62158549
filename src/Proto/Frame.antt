-- ===== src/Proto/Frame.antt =====
-- crates/lockframe-proto/src/frame.rs: a header and the bytes of a payload.
pub mod Wire
use kalandra.Prelude.{
  ℕ, ◌+◌, ◌-◌, ◌^◌, ◌%◌, List, ◌++◌, Bool, ltb, leb, length, take, drop, Result, ok, ◌>>=◌, ◌>>◌,
  reject_if,
}
use kalandra.Proto.Bytes.{to_be_bytes}
use kalandra.Proto.Errors.{ProtocolError, payload_too_large, frame_truncated}
use kalandra.Proto.Header
use kalandra.Proto.Header.{FrameHeader, size, max_payload_size, to_bytes, from_bytes}

pub record Frame : Type 0 where
  pub header : FrameHeader
  pub payload : List ℕ

-- `payload.len() as u32`
unfoldable pub len_as_u32 : List ℕ → ℕ
len_as_u32 payload = length payload % 2 ^ 32

-- `Frame::new` overwrites the payload size of the header.
unfoldable pub new : FrameHeader → List ℕ → Frame
unfolding len_as_u32
new header payload = record {
  header = record header { payload_size = to_be_bytes 4 (len_as_u32 payload) };
  payload = payload;
}

-- `Frame::encode` appends to `dst`.
unfoldable pub encode : Frame → List ℕ → Result ProtocolError (List ℕ)
encode frame dst = do
  reject_if (ltb max_payload_size (length frame.payload))
      (payload_too_large (length frame.payload) max_payload_size)
  ok (dst ++ (to_bytes frame.header ++ frame.payload))

-- The part of `Frame::decode` after the header; `usize` has 64 bits, so `checked_add` fails from
-- 2 ^ 64 on.
unfoldable pub read_payload : List ℕ → FrameHeader → Result ProtocolError Frame
read_payload bytes header = do
  let payload_size = Header.payload_size header
  let total_size = size + payload_size
  reject_if (leb (2 ^ 64) total_size) (payload_too_large payload_size max_payload_size)
  reject_if (ltb (length bytes) total_size) (frame_truncated payload_size (length bytes - size))
  ok (record { header = header; payload = take payload_size (drop size bytes) })

-- `Frame::decode`.
unfoldable pub decode : List ℕ → Result ProtocolError Frame
decode bytes = do header ← from_bytes bytes; read_payload bytes header
