-- ===== src/Proto/Header/Parse.antt =====
-- crates/lockframe-proto/src/header.rs: what `FrameHeader::from_bytes` accepts, and why it refuses.
use kalandra.Prelude.{
  ℕ, ◌≤◌, ◌<◌, ◌≡◌, ◌≢◌, ◌↔◌, refl, some, subst, ap, sym, ◌∙◌, List, ◌++◌, length, take, drop,
  arith, length-take, take-append-drop, ok, err,
}
use kalandra.Proto.Bytes.{from_be_bytes}
use kalandra.Proto.Errors.{
  ProtocolError, frame_too_short, invalid_magic, unsupported_version, payload_too_large,
}
use kalandra.Proto.Opcode.{Opcode, hello, to_u16, from_u16}
use kalandra.Proto.Header
use kalandra.Proto.Header.{
  FrameHeader, IsShaped, size, magic_number, current_version, max_payload_size, read_prefix,
  to_bytes, check, from_bytes, new_bytes, new, opcode_enum,
}
use kalandra.Proto.Header.Layout.{
  length-to_bytes, read_prefix-to_bytes, read_prefix-IsShaped, to_bytes-read_prefix,
}

-- The values that `from_bytes` asks for.
pub record IsAccepted (h : FrameHeader) : Type 0 where
  pub magic : from_be_bytes h.magic ≡ magic_number
  pub version : h.version ≡ current_version
  pub payload_size : from_be_bytes h.payload_size ≤ max_payload_size

check-eq_ok : (h g : FrameHeader) → check h ≡ ok g → (h ≡ g) × IsAccepted h
unfolding check
check-eq_ok h g e = ground arith

check-IsAccepted : (h : FrameHeader) → IsAccepted h → check h ≡ ok h
unfolding check
check-IsAccepted h v = ground arith

from_bytes-eq_ok :
    (bytes : List ℕ) (h : FrameHeader)
    → from_bytes bytes ≡ ok h
    → (size ≤ length bytes) × (check (read_prefix bytes) ≡ ok h)
unfolding from_bytes
from_bytes-eq_ok bytes h e = ground arith

from_bytes-long :
    (bytes : List ℕ) → size ≤ length bytes → from_bytes bytes ≡ check (read_prefix bytes)
unfolding from_bytes
from_bytes-long bytes long = ground arith

pub from_bytes-prefix :
    (bytes : List ℕ) (h : FrameHeader)
    → IsShaped h
    → IsAccepted h
    → to_bytes h ≡ take size bytes
    → from_bytes bytes ≡ ok h
from_bytes-prefix bytes h s v e =
    let long : size ≤ length bytes =
      omega (arith, length-to_bytes h s, ap length e, length-take size bytes) in
    let split : to_bytes h ++ drop size bytes ≡ bytes =
      ap (λ xs. xs ++ drop size bytes) e ∙ take-append-drop size bytes in
    let same : read_prefix bytes ≡ h =
      subst (λ xs. read_prefix xs ≡ h) split (read_prefix-to_bytes h s (drop size bytes)) in
    from_bytes-long bytes long ∙ ap check same ∙ check-IsAccepted h v

-- `from_bytes` accepts a slice exactly when its first 128 bytes are those of a header with the
-- right magic number, version and payload size, and it returns that header.
pub from_bytes_iff :
    (bytes : List ℕ) (h : FrameHeader)
    → (from_bytes bytes ≡ ok h) ↔ (IsShaped h × IsAccepted h × (to_bytes h ≡ take size bytes))
from_bytes_iff bytes h = (
  λ e.
      let (long, checked) = from_bytes-eq_ok bytes h e in
      let (same, v) = check-eq_ok (read_prefix bytes) h checked in
      (
        subst IsShaped same (read_prefix-IsShaped bytes long),
        subst IsAccepted same v,
        ap to_bytes (sym same) ∙ to_bytes-read_prefix bytes long,
      ),
  λ (s, v, e). from_bytes-prefix bytes h s v e,
)

-- What each error says of the slice.
abbrev pub Explains : List ℕ → ProtocolError → Type 0
Explains bytes (frame_too_short expected actual) =
    (length bytes < size) × (expected ≡ size) × (actual ≡ length bytes)
Explains bytes invalid_magic =
    (size ≤ length bytes) × (Header.magic (read_prefix bytes) ≢ magic_number)
Explains bytes (unsupported_version v) =
    (size ≤ length bytes)
    × (Header.magic (read_prefix bytes) ≡ magic_number)
    × ((read_prefix bytes).version ≡ v)
    × (v ≢ current_version)
Explains bytes (payload_too_large claimed limit) =
    (size ≤ length bytes)
    × (Header.magic (read_prefix bytes) ≡ magic_number)
    × ((read_prefix bytes).version ≡ current_version)
    × (Header.payload_size (read_prefix bytes) ≡ claimed)
    × (limit ≡ max_payload_size)
    × (limit < claimed)
Explains bytes _ = ⊥

-- An error of `from_bytes` names the first check that the slice fails, with its values.
pub from_bytes-Explains :
    (bytes : List ℕ) (e : ProtocolError) → from_bytes bytes ≡ err e → Explains bytes e
unfolding from_bytes check Header.magic Header.payload_size
from_bytes-Explains bytes (frame_too_short m n) h = ground arith
from_bytes-Explains bytes invalid_magic h = ground arith
from_bytes-Explains bytes (unsupported_version v) h = ground arith
from_bytes-Explains bytes (payload_too_large m n) h = ground arith
from_bytes-Explains bytes _ h = ground arith

-- The `unreachable!` of `FrameHeader::new` is unreachable, and the header carries its opcode.
pub new_lem :
    (o : Opcode)
    → (from_bytes (new_bytes o) ≡ ok (new o))
      × (opcode_enum (new o) ≡ some o)
      × (Header.payload_size (new o) ≡ 0)
unfolding from_bytes check new new_bytes read_prefix to_u16 from_u16 opcode_enum from_be_bytes
    Header.payload_size
new_lem hello = (refl, refl, refl)
new_lem _ = (refl, refl, refl)
