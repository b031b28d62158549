-- ===== src/Driver.antt =====
-- crates/lockframe-server/src/driver.rs and server_error.rs: the server driver's state, events and
-- actions. A text is data with what it shows; the libraries below the driver come in one record.
pub mod Actions
pub mod Events
pub mod Control
pub mod Sessions
pub mod Serving
pub mod Welcome
use kalandra.Prelude.{ℕ, Option, List, [], HashMap, insert}
use kalandra.Proto.Errors.{ProtocolError}
use kalandra.Proto.Frame.{Frame}
use kalandra.Proto.Payload.{Ciborium}
use kalandra.Proto.Payload.Types.{Text}
use kalandra.Connection.{Connection, ConnectionConfig, ConnectionError, Reason, default_config}
use kalandra.Registry
use kalandra.Registry.{ConnectionRegistry}
use kalandra.Mls.State.{Ed25519, MlsGroupState}
use kalandra.Mls.Group.{MlsGroups, MlsError}
use kalandra.Storage.{Storage, StorageError}
use kalandra.Sequencer.{SequencerError}
use kalandra.Rooms.{RoomError}
use kalandra.Rooms.Manager
use kalandra.Rooms.Manager.{RoomManager}

pub record ServerConfig : Type 0 where
  pub connection : ConnectionConfig
  pub max_connections : ℕ

-- `ServerConfig::default`
abbrev pub default_server_config : ServerConfig
default_server_config = record { connection = default_config; max_connections = 10000 }

pub data ServerEvent : Type 0 where
  connection_accepted : (session_id : ℕ) → ServerEvent
  frame_received : (session_id : ℕ) → Frame → ServerEvent
  connection_closed : (session_id : ℕ) → ServerEvent
  server_tick : ServerEvent

-- `Protocol` carries a text: that of a protocol error, or "expected SyncRequest payload".
pub data ProtocolFault : Type 0 where
  protocol_error : ProtocolError → ProtocolFault
  expected_sync_request : ProtocolFault

pub data ServerError : Type 0 where
  session_not_found session_already_exists : ℕ → ServerError
  room : RoomError → ServerError
  storage : StorageError → ServerError
  connection_failed : (session_id : ℕ) → ConnectionError → ServerError
  protocol : ProtocolFault → ServerError

pub data LogLevel : Type 0 where
  debug info warn error : LogLevel

-- The texts that `format!` makes.
pub data Message : Type 0 where
  connection_accepted_as : (session_id : ℕ) → Message
  subscribed_via_welcome : (session_id room_id : ℕ) → Message
  sync_request_failed : (session_id : ℕ) → Text → Message
  failed_to_encode_error failed_to_encode_sync_response : ProtocolError → Message
  closed_in_rooms : (session_id room_count : ℕ) → Message
  rejected_frame : (sender_id : ℕ) → SequencerError → Message
  room_created : (room_id creator_session_id : ℕ) → Message

pub data CloseReason : Type 0 where
  max_connections_exceeded : CloseReason
  by_connection : Reason → CloseReason

pub data ServerAction : Type 0 where
  send_to_session : (session_id : ℕ) → Frame → ServerAction
  broadcast_to_room : (room_id : ℕ) → Frame → (exclude_session : Option ℕ) → ServerAction
  close_connection : (session_id : ℕ) → CloseReason → ServerAction
  persist_frame : (room_id log_index : ℕ) → Frame → ServerAction
  persist_mls_state : (room_id : ℕ) → MlsGroupState → ServerAction
  log : LogLevel → Message → (timestamp : ℕ) → ServerAction

-- The texts of errors, which the driver sends to clients.
pub record Display : Type 0 where
  pub room_not_found : ℕ → Text
  pub storage_error : StorageError → Text
  pub mls_error : MlsError → Text
  pub sequencer_error : SequencerError → Text
  pub server_error : ServerError → Text
  pub protocol_fault : ProtocolFault → Text

-- What is below the driver.
pub record Libraries : Type 1 where
  pub storage : Storage
  pub groups : MlsGroups
  pub dalek : Ed25519
  pub cbor : Ciborium
  pub display : Display

module _ (L : Libraries) where
  pub record ServerDriver : Type 0 where
    pub connections : HashMap Connection
    pub registry : ConnectionRegistry
    pub room_manager : RoomManager L.storage L.groups L.dalek
    pub storage : L.storage.Store
    pub config : ServerConfig

  abbrev pub new : L.storage.Store → ServerConfig → ServerDriver
  new store config = record {
    connections = [];
    registry = Registry.new;
    room_manager = Manager.new L.storage L.groups L.dalek;
    storage = store;
    config = config;
  }

  abbrev pub set_connection : ℕ → Connection → ServerDriver → ServerDriver
  set_connection session_id conn d = record d { connections = insert d.connections session_id conn }

  abbrev pub set_registry : ConnectionRegistry → ServerDriver → ServerDriver
  set_registry registry d = record d { registry = registry }

  abbrev pub set_rooms : RoomManager L.storage L.groups L.dalek → ServerDriver → ServerDriver
  set_rooms room_manager d = record d { room_manager = room_manager }
