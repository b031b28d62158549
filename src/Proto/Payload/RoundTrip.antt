-- ===== src/Proto/Payload/RoundTrip.antt =====
-- crates/lockframe-proto/src/payloads/mod.rs: a payload comes back from its frame.
use kalandra.Prelude.{
  ℕ, ◌≤◌, ◌≡◌, refl, some, List, [], length, ok, arith, Option-cases, Result-cases, inl, inr,
  le→ltb_false, ◌<◌, ◌^◌, subst,
}
use kalandra.Proto.Bytes.{to_be_bytes, from-to_be_bytes}
use kalandra.Proto.Opcode.{Opcode, to_u16}
use kalandra.Proto.Opcode.RoundTrip.{from-to_u16}
use kalandra.Proto.Header
use kalandra.Proto.Header.{FrameHeader, max_payload_size}
use kalandra.Proto.Frame
use kalandra.Proto.Frame.{Frame}
use kalandra.Proto.Payload
use kalandra.Proto.Payload.{
  Payload, Cbor, Ciborium, opcode, encode, decode, decode_inner, into_frame, from_frame, hello,
  hello_reply, goodbye, ping, pong, sync_request, sync_response, key_package, proposal, commit,
  welcome, app_message, app_receipt, app_reaction, redact, ban, kick, error,
}

module _ (cbor : Ciborium) where
  read_written :
      {A : Type 0}
      → (codec : Cbor A) (wrap : A → Payload) (a : A) (bytes : List ℕ)
      → Payload.written cbor (codec.into_writer a) [] ≡ ok bytes
      → Payload.wrapped cbor wrap (codec.from_reader bytes) ≡ ok (wrap a)
  read_written codec wrap a bytes e = elim (Option-cases (codec.into_writer a)) [
    | inl failed ↦ ground arith
    | inr (b, w) ↦ ground (arith, codec.reads_written a b w)
  ]

  pub decode_inner-encode :
      (p : Payload) (bytes : List ℕ)
      → encode cbor p [] ≡ ok bytes
      → decode_inner cbor (opcode p) bytes ≡ ok p
  unfolding encode decode_inner opcode
  decode_inner-encode (hello a) bytes e = read_written cbor.hello hello a bytes e
  decode_inner-encode (hello_reply a) bytes e = read_written cbor.hello_reply hello_reply a bytes e
  decode_inner-encode (goodbye a) bytes e = read_written cbor.goodbye goodbye a bytes e
  decode_inner-encode ping bytes e = refl
  decode_inner-encode pong bytes e = refl
  decode_inner-encode (sync_request a) bytes e =
      read_written cbor.sync_request sync_request a bytes e
  decode_inner-encode (sync_response a) bytes e =
      read_written cbor.sync_response sync_response a bytes e
  decode_inner-encode (key_package a) bytes e = read_written cbor.key_package key_package a bytes e
  decode_inner-encode (proposal a) bytes e = read_written cbor.proposal proposal a bytes e
  decode_inner-encode (commit a) bytes e = read_written cbor.commit commit a bytes e
  decode_inner-encode (welcome a) bytes e = read_written cbor.welcome welcome a bytes e
  decode_inner-encode (app_message a) bytes e = read_written cbor.app_message app_message a bytes e
  decode_inner-encode (app_receipt a) bytes e = read_written cbor.app_receipt app_receipt a bytes e
  decode_inner-encode (app_reaction a) bytes e =
      read_written cbor.app_reaction app_reaction a bytes e
  decode_inner-encode (redact a) bytes e = read_written cbor.redact redact a bytes e
  decode_inner-encode (ban a) bytes e = read_written cbor.ban ban a bytes e
  decode_inner-encode (kick a) bytes e = read_written cbor.kick kick a bytes e
  decode_inner-encode (error a) bytes e = read_written cbor.error error a bytes e

  to_u16-small : (o : Opcode) → to_u16 o < 256 ^ 2
  unfolding to_u16
  to_u16-small Opcode.hello = omega arith
  to_u16-small _ = omega arith

  opcode_enum-written :
      (h : FrameHeader) (code : Opcode) (buf : List ℕ)
      → Header.opcode_enum
          (Frame.new (record h { opcode = to_be_bytes 2 (to_u16 code) }) buf).header
        ≡ some code
  unfolding Header.opcode_enum Header.opcode Frame.new
  opcode_enum-written h code buf =
      rw (from-to_be_bytes 2 (to_u16 code) (to_u16-small code)) (from-to_u16 code)

  into_frame-parts :
      (p : Payload) (h : FrameHeader) (f : Frame)
      → into_frame cbor p h ≡ ok f
      → (encode cbor p [] ≡ ok f.payload) × (Header.opcode_enum f.header ≡ some (opcode p))
  unfolding into_frame Frame.new
  into_frame-parts p h f e = elim (Result-cases (encode cbor p [])) [
    | inr (x, bad) ↦ ground (arith, e, bad)
    | inl (buf, good) ↦
        let same : Frame.new (record h { opcode = to_be_bytes 2 (to_u16 (opcode p)) }) buf ≡ f =
          ground (arith, e, good) in
        subst
          (λ (g : Frame).
            (encode cbor p [] ≡ ok g.payload) × (Header.opcode_enum g.header ≡ some (opcode p)))
          same (good, opcode_enum-written h (opcode p) buf)
  ]

  -- The frame that a payload is put in gives the payload back, when it is not too large.
  pub from_frame-into_frame :
      (p : Payload) (h : FrameHeader) (f : Frame)
      → into_frame cbor p h ≡ ok f
      → length f.payload ≤ max_payload_size
      → from_frame cbor f ≡ ok p
  unfolding from_frame decode
  from_frame-into_frame p h f e small =
      let (written, code) = into_frame-parts p h f e in
      rw (code, le→ltb_false max_payload_size (length f.payload) small)
        (decode_inner-encode p f.payload written)
