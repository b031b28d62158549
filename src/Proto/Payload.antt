-- ===== src/Proto/Payload.antt =====
-- crates/lockframe-proto/src/payloads/mod.rs: the payloads and their frames. The CBOR library is a
-- parameter: a writer, which may fail, and a reader for each type.
pub mod Types
pub mod RoundTrip
use kalandra.Prelude.{
  ℕ, ltb, ◌≡◌, Option, none, some, List, [], ◌++◌, length, Result, ok, err, ◌>>=◌, ◌>>◌, reject_if,
  ok_or,
}
use kalandra.Proto.Bytes.{to_be_bytes}
use kalandra.Proto.Errors.{ProtocolError, payload_too_large, cbor_encode, cbor_decode}
use kalandra.Proto.Opcode
use kalandra.Proto.Opcode.{Opcode, to_u16}
use kalandra.Proto.Header
use kalandra.Proto.Header.{FrameHeader, max_payload_size}
use kalandra.Proto.Frame
use kalandra.Proto.Frame.{Frame}
use kalandra.Proto.Payload.Types.{
  Hello, HelloReply, Goodbye, SyncRequest, SyncResponse, KeyPackageData, ProposalData, CommitData,
  WelcomeData, EncryptedMessage, Receipt, Reaction, Redact, Ban, Kick, ErrorPayload,
}

pub data Payload : Type 0 where
  hello : Hello → Payload
  hello_reply : HelloReply → Payload
  goodbye : Goodbye → Payload
  ping : Payload
  pong : Payload
  sync_request : SyncRequest → Payload
  sync_response : SyncResponse → Payload
  key_package : KeyPackageData → Payload
  proposal : ProposalData → Payload
  commit : CommitData → Payload
  welcome : WelcomeData → Payload
  app_message : EncryptedMessage → Payload
  app_receipt : Receipt → Payload
  app_reaction : Reaction → Payload
  redact : Redact → Payload
  ban : Ban → Payload
  kick : Kick → Payload
  error : ErrorPayload → Payload

-- `into_writer` and `from_reader` at one type; the reader gives back what the writer was given.
pub record Cbor (A : Type 0) : Type 0 where
  pub into_writer : A → Option (List ℕ)
  pub from_reader : List ℕ → Option A
  pub reads_written :
      (a : A) (bytes : List ℕ) → into_writer a ≡ some bytes → from_reader bytes ≡ some a

pub record Ciborium : Type 0 where
  pub hello : Cbor Hello
  pub hello_reply : Cbor HelloReply
  pub goodbye : Cbor Goodbye
  pub sync_request : Cbor SyncRequest
  pub sync_response : Cbor SyncResponse
  pub key_package : Cbor KeyPackageData
  pub proposal : Cbor ProposalData
  pub commit : Cbor CommitData
  pub welcome : Cbor WelcomeData
  pub app_message : Cbor EncryptedMessage
  pub app_receipt : Cbor Receipt
  pub app_reaction : Cbor Reaction
  pub redact : Cbor Redact
  pub ban : Cbor Ban
  pub kick : Cbor Kick
  pub error : Cbor ErrorPayload

-- `Payload::opcode`
unfoldable pub opcode : Payload → Opcode
opcode (hello inner) = Opcode.hello
opcode (hello_reply inner) = Opcode.hello_reply
opcode (goodbye inner) = Opcode.goodbye
opcode ping = Opcode.ping
opcode pong = Opcode.pong
opcode (sync_request inner) = Opcode.sync_request
opcode (sync_response inner) = Opcode.sync_response
opcode (key_package inner) = Opcode.key_package
opcode (proposal inner) = Opcode.proposal
opcode (commit inner) = Opcode.commit
opcode (welcome inner) = Opcode.welcome
opcode (app_message inner) = Opcode.app_message
opcode (app_receipt inner) = Opcode.app_receipt
opcode (app_reaction inner) = Opcode.app_reaction
opcode (redact inner) = Opcode.redact
opcode (ban inner) = Opcode.ban
opcode (kick inner) = Opcode.kick
opcode (error inner) = Opcode.error

module _ (cbor : Ciborium) where
  abbrev written : Option (List ℕ) → List ℕ → Result ProtocolError (List ℕ)
  written none dst = err cbor_encode
  written (some bytes) dst = ok (dst ++ bytes)

  -- `Payload::encode` appends to `dst`.
  unfoldable pub encode : Payload → List ℕ → Result ProtocolError (List ℕ)
  encode (hello inner) dst = written (cbor.hello.into_writer inner) dst
  encode (hello_reply inner) dst = written (cbor.hello_reply.into_writer inner) dst
  encode (goodbye inner) dst = written (cbor.goodbye.into_writer inner) dst
  encode ping dst = ok dst
  encode pong dst = ok dst
  encode (sync_request inner) dst = written (cbor.sync_request.into_writer inner) dst
  encode (sync_response inner) dst = written (cbor.sync_response.into_writer inner) dst
  encode (key_package inner) dst = written (cbor.key_package.into_writer inner) dst
  encode (proposal inner) dst = written (cbor.proposal.into_writer inner) dst
  encode (commit inner) dst = written (cbor.commit.into_writer inner) dst
  encode (welcome inner) dst = written (cbor.welcome.into_writer inner) dst
  encode (app_message inner) dst = written (cbor.app_message.into_writer inner) dst
  encode (app_receipt inner) dst = written (cbor.app_receipt.into_writer inner) dst
  encode (app_reaction inner) dst = written (cbor.app_reaction.into_writer inner) dst
  encode (redact inner) dst = written (cbor.redact.into_writer inner) dst
  encode (ban inner) dst = written (cbor.ban.into_writer inner) dst
  encode (kick inner) dst = written (cbor.kick.into_writer inner) dst
  encode (error inner) dst = written (cbor.error.into_writer inner) dst

  -- The payload of a type, read and wrapped.
  abbrev wrapped : {A : Type 0} → (A → Payload) → Option A → Result ProtocolError Payload
  wrapped wrap none = err cbor_decode
  wrapped wrap (some inner) = ok (wrap inner)

  -- The arms of `Payload::decode`.
  unfoldable pub decode_inner : Opcode → List ℕ → Result ProtocolError Payload
  decode_inner Opcode.hello bytes = wrapped hello (cbor.hello.from_reader bytes)
  decode_inner Opcode.hello_reply bytes = wrapped hello_reply (cbor.hello_reply.from_reader bytes)
  decode_inner Opcode.goodbye bytes = wrapped goodbye (cbor.goodbye.from_reader bytes)
  decode_inner Opcode.ping bytes = ok ping
  decode_inner Opcode.pong bytes = ok pong
  decode_inner Opcode.sync_request bytes =
      wrapped sync_request (cbor.sync_request.from_reader bytes)
  decode_inner Opcode.sync_response bytes =
      wrapped sync_response (cbor.sync_response.from_reader bytes)
  decode_inner Opcode.error bytes = wrapped error (cbor.error.from_reader bytes)
  decode_inner Opcode.key_package bytes = wrapped key_package (cbor.key_package.from_reader bytes)
  decode_inner Opcode.proposal bytes = wrapped proposal (cbor.proposal.from_reader bytes)
  decode_inner Opcode.commit bytes = wrapped commit (cbor.commit.from_reader bytes)
  decode_inner Opcode.welcome bytes = wrapped welcome (cbor.welcome.from_reader bytes)
  decode_inner Opcode.group_info bytes = err cbor_decode
  decode_inner Opcode.psk_proposal bytes = err cbor_decode
  decode_inner Opcode.re_init bytes = err cbor_decode
  decode_inner Opcode.external_commit bytes = err cbor_decode
  decode_inner Opcode.app_message bytes = wrapped app_message (cbor.app_message.from_reader bytes)
  decode_inner Opcode.app_receipt bytes = wrapped app_receipt (cbor.app_receipt.from_reader bytes)
  decode_inner Opcode.app_reaction bytes =
      wrapped app_reaction (cbor.app_reaction.from_reader bytes)
  decode_inner Opcode.app_edit bytes = err cbor_decode
  decode_inner Opcode.app_delete bytes = err cbor_decode
  decode_inner Opcode.typing bytes = err cbor_decode
  decode_inner Opcode.presence bytes = err cbor_decode
  decode_inner Opcode.redact bytes = wrapped redact (cbor.redact.from_reader bytes)
  decode_inner Opcode.ban bytes = wrapped ban (cbor.ban.from_reader bytes)
  decode_inner Opcode.unban bytes = err cbor_decode
  decode_inner Opcode.kick bytes = wrapped kick (cbor.kick.from_reader bytes)
  decode_inner Opcode.mute bytes = err cbor_decode
  decode_inner Opcode.pin bytes = err cbor_decode
  decode_inner Opcode.report bytes = err cbor_decode
  decode_inner Opcode.fed_append bytes = err cbor_decode
  decode_inner Opcode.fed_sync bytes = err cbor_decode
  decode_inner Opcode.fed_ack bytes = err cbor_decode
  decode_inner Opcode.fed_nack bytes = err cbor_decode
  decode_inner Opcode.fed_query bytes = err cbor_decode
  decode_inner Opcode.cas_put bytes = err cbor_decode
  decode_inner Opcode.cas_get bytes = err cbor_decode
  decode_inner Opcode.cas_delete bytes = err cbor_decode
  decode_inner Opcode.cas_proof bytes = err cbor_decode

  -- `Payload::decode`
  unfoldable pub decode : Opcode → List ℕ → Result ProtocolError Payload
  decode code bytes = do
    reject_if (ltb max_payload_size (length bytes))
        (payload_too_large (length bytes) max_payload_size)
    decode_inner code bytes

  -- `Payload::into_frame`
  unfoldable pub into_frame : Payload → FrameHeader → Result ProtocolError Frame
  into_frame payload header = do
    buf ← encode payload []
    let with_opcode : FrameHeader = record header {
      opcode = to_be_bytes 2 (to_u16 (opcode payload));
    }
    ok (Frame.new with_opcode buf)

  -- `Payload::from_frame`
  unfoldable pub from_frame : Frame → Result ProtocolError Payload
  from_frame frame = do
    code ← ok_or (Header.opcode_enum frame.header) cbor_decode
    decode code frame.payload
