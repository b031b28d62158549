-- ===== src/Mls/Member/Wire.antt =====
-- crates/lockframe-core/src/mls/group.rs: the frames of commits and of proposals on the wire.
use kalandra.Prelude.{
  ℕ, ◌≤◌, ◌≡◌, refl, sym, ap, ◌∙◌, List, [], ◌++◌, length, ok, arith, append-nil,
}
use kalandra.Proto.Bytes.{to_be_bytes, from_be_bytes}
use kalandra.Proto.Opcode.{Opcode}
use kalandra.Proto.Header
use kalandra.Proto.Header.{max_payload_size, to_bytes}
use kalandra.Proto.Header.Layout.{read_prefix-IsShaped}
use kalandra.Proto.Frame.{encode, decode}
use kalandra.Proto.Frame.Wire.{IsFrame, decode-encode, encode-small}
use kalandra.Mls.Member.Commits.{bare_frame}

bare_frame-IsFrame : (code : Opcode) → IsFrame (bare_frame code [])
unfolding Header.new Header.new_bytes to_be_bytes from_be_bytes Header.magic Header.payload_size
    Header.read_prefix
bare_frame-IsFrame code = record {
  shaped = read_prefix-IsShaped (Header.new_bytes code) (omega arith);
  magic = refl;
  version = refl;
  sized = refl;
}

room_id-new : (code : Opcode) → Header.room_id (Header.new code) ≡ 0
unfolding Header.new Header.new_bytes Header.room_id to_be_bytes from_be_bytes Header.read_prefix
room_id-new code = refl

-- A frame that the struct literal makes of a payload of at most 16 MiB, as for a commit or for a
-- proposal, says that its payload is empty: what is encoded is decoded to a frame without it, and
-- its room is 0.
pub decode-bare_frame :
    (code : Opcode) (payload : List ℕ)
    → length payload ≤ max_payload_size
    → (encode (bare_frame code payload) [] ≡ ok (to_bytes (Header.new code) ++ payload))
      × (decode (to_bytes (Header.new code) ++ payload) ≡ ok (bare_frame code []))
      × (Header.room_id (Header.new code) ≡ 0)
decode-bare_frame code payload small =
    let empty : encode (bare_frame code []) [] ≡ ok (to_bytes (Header.new code) ++ []) =
      encode-small (bare_frame code []) [] (omega arith) in
    let read = decode-encode (bare_frame code []) payload (bare_frame-IsFrame code) (omega arith) in
    (
      encode-small (bare_frame code payload) [] small,
      sym (
            ap (λ (bytes : List ℕ). decode (bytes ++ payload))
              (append-nil (to_bytes (Header.new code))))
          ∙ rw empty at read,
      room_id-new code,
    )
