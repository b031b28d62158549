-- ===== src/Lib.antt =====
-- Verification of the lockframe messaging server and protocol (kalandra).
--
-- A client sends frames: a header of 128 bytes and a payload. The server checks a frame, gives it the
-- next index of its room, checks its signature, stores it, and passes it on to the sessions that are
-- subscribed to the room. Clients fetch what they missed in pages of the room's log. A client keeps an
-- MLS group for each of its rooms, and from the group's secret a ratchet for each member, whose keys
-- encrypt that member's messages.
--
-- The files and the code they model, by path from the repository's root:
--
--   Proto       crates/lockframe-proto/src: Proto/Header (header.rs), Proto/Frame (frame.rs),
--               Proto/Opcode (opcodes.rs), Proto/Payload (payloads/), Proto/Errors (errors.rs);
--               Proto/Bytes has the big-endian numbers
--   Mls         crates/lockframe-core/src/mls: Mls/State (state.rs, constants.rs), Mls/Validator
--               (validator.rs), Mls/Group (group.rs, the signing of headers and what the server
--               uses, and error.rs), Mls/Member (group.rs, `MlsGroup` on OpenMLS)
--   Connection  crates/lockframe-core/src/connection.rs, the session state machine
--   Ratchet     crates/lockframe-crypto/src/sender_keys/ratchet.rs, the keys of a sender's messages
--   SenderKeys  crates/lockframe-crypto/src/sender_keys: SenderKeys/Derivation and
--               SenderKeys/Encryption; SenderKeys/Store is crates/lockframe-client/src/
--               sender_key_store.rs, with what one store encrypts for another in Store/Exchange
--               and Store/Reorder
--   Client      crates/lockframe-client/src/client.rs, event.rs and error.rs: Client/Membership has the
--               events on rooms, Client/Messages the application messages, Client/Frames the dispatch
--               and the sync responses, Client/Groups `MlsGroup` as the client's interface; the other
--               children have the proofs
--   Storage     crates/lockframe-server/src/storage: the trait and its contract (mod.rs), and
--               Storage/Memory (memory.rs)
--   Sequencer   crates/lockframe-server/src/sequencer.rs
--   Registry    crates/lockframe-server/src/registry.rs
--   Rooms       crates/lockframe-server/src/room_manager.rs: Rooms/Manager has the methods, Rooms/Sync
--               the replay, Rooms/Persist and Rooms/Serve the loop of lib.rs that executes the
--               actions, Rooms/Order what follows for the logs, also when streams overtake
--   Driver      crates/lockframe-server/src/driver.rs and server_error.rs: Driver/Events has the handlers,
--               Driver/Actions the conversion of actions, Driver/Control the operations on rooms;
--               Driver/Sessions, Driver/Serving and Driver/Welcome the proofs, with
--               `execute_actions` of lib.rs in Driver/Serving
--   Prelude     shared names, lists, maps, sets, and the monad of steps that may fail
--   Tests       examples at concrete inputs
--
-- A method on `&mut self` is a function from the state to its result and the new state; an early
-- return is an error value, and what was changed before it stays changed. Names are the source's.
-- Bytes are numbers below 256, byte arrays are lists; a header has a list for each of its fields, and
-- `IsShaped` says that they have the lengths of the fields. Integers are natural numbers; where the
-- source wraps or truncates, the remainder is written out, and where it saturates, the difference
-- stops at 0. A panic of `load_frames` and of the encoding in a sync response is `none`. Loops are
-- recursion on a list, but for the one of `advance_to`, which has fuel for 1002 turns: it makes at
-- most 1001, since a skip of more than 1000 is refused before; and for `handle_frame` of the client,
-- which calls itself for the frames in a sync response: its fuel is the length of the payload and
-- one, since a frame is shorter than what it is nested in.
--
-- Maps and sets are lists that are read by key only, so the order of a Rust map stands open. Texts in
-- errors are data with the values that they show. Time is a number that the caller hands in, and so
-- are the sessions whose connections can be reached when actions are executed.
--
-- Parameters of the model, since their code is not in the repository: the Ed25519 library (keys
-- and signatures from bytes, and the verification), HMAC-SHA256, HKDF, the AEAD cipher, which opens
-- what it sealed, OpenMLS, and the CBOR library, which reads back what it wrote. The texts that the
-- driver sends in errors are a parameter too.
-- The storage is an interface, which Storage/Memory implements.
--
-- Not modelled: sockets, tasks and logging of the runtime, and who receives a broadcast; the
-- fault-injecting storage; the simulation harness; `is_fatal` of the errors; the zeroing of
-- old keys in memory; debug assertions.
pub mod Prelude
pub mod Mls
pub mod Storage
pub mod Sequencer
pub mod Rooms
pub mod Proto
pub mod Registry
pub mod Connection
pub mod Tests
pub mod Ratchet
pub mod SenderKeys
pub mod Driver
pub mod Client
