-- ===== src/Proto/Frame/Wire.antt =====
-- crates/lockframe-proto/src/frame.rs: frames on the wire.
use kalandra.Prelude.{
  ℕ, ◌+◌, ◌%◌, ◌^◌, ◌≤◌, ◌<◌, ◌≡◌, ◌≢◌, refl, ap, sym, ◌∙◌, subst, List, [], ◌++◌, append_assoc,
  length, take, drop, arith, length-append, length-take, length-drop, take-append_exact,
  drop-append_exact, lt→leb_false, le→ltb_false, take-append-take, ok, ◌>>=◌, Result-cases, inl,
  inr,
}
use kalandra.Proto.Bytes.{from_be_bytes, from-to_be_bytes, length-to_be_bytes}
use kalandra.Proto.Header
use kalandra.Proto.Header.{
  FrameHeader, IsShaped, size, magic_number, current_version, max_payload_size, to_bytes,
  from_bytes,
}
use kalandra.Proto.Header.Layout.{length-to_bytes}
use kalandra.Proto.Header.Parse.{IsAccepted, from_bytes_iff, from_bytes-prefix}
use kalandra.Proto.Frame
use kalandra.Proto.Frame.{Frame, len_as_u32, encode, read_payload, decode}

-- The documented invariants of a frame, but for the size limit.
pub record IsFrame (f : Frame) : Type 0 where
  pub shaped : IsShaped f.header
  pub magic : Header.magic f.header ≡ magic_number
  pub version : f.header.version ≡ current_version
  pub sized : Header.payload_size f.header ≡ length f.payload

-- `Frame::new` makes a frame of any payload whose length fits 32 bits.
pub new-IsFrame :
    (h : FrameHeader) (payload : List ℕ)
    → IsShaped h
    → Header.magic h ≡ magic_number
    → h.version ≡ current_version
    → length payload < 2 ^ 32
    → IsFrame (Frame.new h payload)
unfolding Frame.new Header.payload_size Header.magic
new-IsFrame h payload s m v small = record {
  shaped = omega (arith, length-to_be_bytes 4 (length payload % 2 ^ 32));
  magic = m;
  version = v;
  sized = from-to_be_bytes 4 (length payload % 2 ^ 32) (omega arith) ∙ omega arith;
}

-- A payload of 4 GiB or more gets a header that claims another size.
pub new_truncates :
    (h : FrameHeader) (payload : List ℕ)
    → 2 ^ 32 ≤ length payload
    → Header.payload_size (Frame.new h payload).header ≢ length payload
unfolding Frame.new Header.payload_size
new_truncates h payload large e =
    absurd (omega (arith, from-to_be_bytes 4 (length payload % 2 ^ 32) (omega arith)))

abbrev pub bytes_of : Frame → List ℕ
bytes_of f = to_bytes f.header ++ f.payload

IsFrame-IsAccepted :
    (f : Frame) → IsFrame f → length f.payload ≤ max_payload_size → IsAccepted f.header
unfolding Header.magic Header.payload_size
IsFrame-IsAccepted f v small = record {
  magic = v.magic;
  version = v.version;
  payload_size = rw v.sized small;
}

from_bytes-frame :
    (f : Frame) (rest : List ℕ)
    → IsFrame f
    → length f.payload ≤ max_payload_size
    → from_bytes (bytes_of f ++ rest) ≡ ok f.header
from_bytes-frame f rest v small =
    from_bytes-prefix (bytes_of f ++ rest) f.header v.shaped (IsFrame-IsAccepted f v small) (
      rw (append_assoc (to_bytes f.header) f.payload rest) (
        sym (
          take-append_exact size (to_bytes f.header) (f.payload ++ rest)
            (length-to_bytes f.header v.shaped))))

pub encode-small :
    (f : Frame) (dst : List ℕ)
    → length f.payload ≤ max_payload_size
    → encode f dst ≡ ok (dst ++ bytes_of f)
unfolding encode
encode-small f dst small = ground arith

read_payload-long :
    (bytes : List ℕ) (h : FrameHeader)
    → size + Header.payload_size h < 2 ^ 64
    → size + Header.payload_size h ≤ length bytes
    → read_payload bytes h
      ≡ ok (record { header = h; payload = take (Header.payload_size h) (drop size bytes) })
unfolding read_payload
read_payload-long bytes h small long = rw (
  lt→leb_false (2 ^ 64) (size + Header.payload_size h) small,
  le→ltb_false (length bytes) (size + Header.payload_size h) long,
)

read_payload-eq_ok :
    (bytes : List ℕ) (h : FrameHeader) (f : Frame)
    → read_payload bytes h ≡ ok f
    → (f.header ≡ h)
      × (size + Header.payload_size h ≤ length bytes)
      × (f.payload ≡ take (Header.payload_size h) (drop size bytes))
unfolding read_payload
read_payload-eq_ok bytes h f e = ground arith

payload_bytes :
    (f : Frame) (rest : List ℕ)
    → IsFrame f
    → take (length f.payload) (drop size (bytes_of f ++ rest)) ≡ f.payload
payload_bytes f rest v =
    rw
      (
        append_assoc (to_bytes f.header) f.payload rest,
        drop-append_exact size (to_bytes f.header) (f.payload ++ rest)
            (length-to_bytes f.header v.shaped),
      )
      (take-append_exact (length f.payload) f.payload rest refl)

-- A well-formed frame with a payload within the limit is encoded, and decoding the bytes gives the
-- frame back, whatever follows them in the buffer.
pub decode-encode :
    (f : Frame) (rest : List ℕ)
    → IsFrame f
    → length f.payload ≤ max_payload_size
    → (encode f [] >>= λ bytes. decode (bytes ++ rest)) ≡ ok f
unfolding decode
decode-encode f rest v small =
    let long : size + length f.payload ≤ length (bytes_of f ++ rest) =
      omega (arith, length-append {0}, length-to_bytes f.header v.shaped) in
    rw (encode-small f [] small, decode, from_bytes-frame f rest v small)
      (read_payload-long (bytes_of f ++ rest) f.header (omega (arith, v.sized))
          (omega (arith, v.sized))
        ∙ ap (λ (p : List ℕ). ok (record { header = f.header; payload = p }))
            (rw v.sized (payload_bytes f rest v)))

decoded :
    (bytes : List ℕ) (h : FrameHeader) (f : Frame)
    → from_bytes bytes ≡ ok h
    → read_payload bytes h ≡ ok f
    → IsFrame f
      × (length f.payload ≤ max_payload_size)
      × (encode f [] ≡ ok (take (size + length f.payload) bytes))
unfolding Header.magic Header.payload_size
decoded bytes h f e r =
    let (same, long, body) = read_payload-eq_ok bytes h f r in
    let (s, v, front) = (from_bytes_iff bytes h).0 e in
    let sized : from_be_bytes h.payload_size ≡ length f.payload =
      omega (arith, ap length body, length-take {0}, length-drop {0}) in
    let small : length f.payload ≤ max_payload_size = omega (arith, v.payload_size) in
    let joined : take size bytes ++ take (length f.payload) (drop size bytes)
        ≡ take (size + length f.payload) bytes =
      take-append-take size (length f.payload) bytes in
    (
      record {
        shaped = subst IsShaped (sym same) s;
        magic = ap Header.magic same ∙ v.magic;
        version = ap (λ (g : FrameHeader). g.version) same ∙ v.version;
        sized = ap Header.payload_size same ∙ sized;
      },
      small,
      encode-small f [] small ∙ ap (λ (xs : List ℕ). ok xs) (cc joined),
    )

-- A decoded frame is well formed, and its encoding is what the buffer began with.
pub decode_sound :
    (bytes : List ℕ) (f : Frame)
    → decode bytes ≡ ok f
    → IsFrame f
      × (length f.payload ≤ max_payload_size)
      × (encode f [] ≡ ok (take (size + length f.payload) bytes))
unfolding decode
decode_sound bytes f e = elim (Result-cases (from_bytes bytes)) [
  | inl (h, hit) ↦ decoded bytes h f hit (rw hit at e)
  | inr (x, miss) ↦ cc (rw miss at e)
]
