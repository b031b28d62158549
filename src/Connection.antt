-- ===== src/Connection.antt =====
-- crates/lockframe-core/src/connection.rs: the session state machine. An instant is a number of time
-- units and a difference of instants does not go below 0; a text is data with what it shows.
pub mod Lifecycle
pub mod Runs
pub mod Timeouts
use kalandra.Prelude.{
  ℕ, ◌-◌, ◌==◌, ltb, leb, not, if◌then◌else◌, Bool, true, false, Option, none, some, List, [], ◌∷◌,
  is_some_and, Result, ok, err, map_err, ok_or, reject_if,
}
use kalandra.Prelude.Exec.{Exec, raise, pure, lift, modify, ◌>>=◌, ◌>>◌}
use kalandra.Proto.Errors.{ProtocolError}
use kalandra.Proto.Opcode
use kalandra.Proto.Opcode.{Opcode, to_u16}
use kalandra.Proto.Header
use kalandra.Proto.Frame
use kalandra.Proto.Frame.{Frame}
use kalandra.Proto.Payload
use kalandra.Proto.Payload.{Payload, Ciborium, into_frame, from_frame}
use kalandra.Proto.Payload.Types.{Hello, HelloReply, Goodbye, Text}

pub data ConnectionState : Type 0 where
  init pending authenticated closed : ConnectionState

pub data Reason : Type 0 where
  handshake_timed_out idle_timed_out : (elapsed : ℕ) → Reason
  timeout peer_error : Reason
  peer_goodbye : Text → Reason

pub data ConnectionAction : Type 0 where
  send_frame : Frame → ConnectionAction
  close_with : Reason → ConnectionAction

pub data ConnectionError : Type 0 where
  invalid_state : ConnectionState → ConnectionError
  unexpected_frame : ConnectionState → (opcode : ℕ) → ConnectionError
  handshake_timeout idle_timeout : (elapsed : ℕ) → ConnectionError
  unsupported_version : ℕ → ConnectionError
  invalid_payload : (opcode : ℕ) → ConnectionError
  protocol : ProtocolError → ConnectionError
  session_id_not_set transport : ConnectionError

pub record ConnectionConfig : Type 0 where
  pub handshake_timeout : ℕ
  pub idle_timeout : ℕ
  pub heartbeat_interval : ℕ

pub record Connection : Type 0 where
  pub state : ConnectionState
  pub config : ConnectionConfig
  pub last_activity : ℕ
  pub last_heartbeat : Option ℕ
  pub session_id : Option ℕ

-- The defaults, in seconds.
abbrev pub default_config : ConnectionConfig
default_config = record { handshake_timeout = 30; idle_timeout = 60; heartbeat_interval = 20 }

abbrev pub new : ℕ → ConnectionConfig → Connection
new now config = record {
  state = init;
  config = config;
  last_activity = now;
  last_heartbeat = none;
  session_id = none;
}

abbrev pub set_session_id : ℕ → Connection → Connection
set_session_id id c = record c { session_id = some id }

abbrev pub is_init : ConnectionState → Bool
is_init init = true
is_init pending = false
is_init authenticated = false
is_init closed = false

abbrev pub set_state : ConnectionState → Connection → Connection
set_state s c = record c { state = s }

abbrev pub close : Connection → Connection
close = set_state closed

abbrev pub update_activity : ℕ → Connection → Connection
update_activity now c = record c { last_activity = now }

-- The timeout of a state; the other states have none.
abbrev pub timeout_of : ConnectionConfig → ConnectionState → Option ℕ
timeout_of config init = none
timeout_of config pending = some config.handshake_timeout
timeout_of config authenticated = some config.idle_timeout
timeout_of config closed = none

abbrev exceeded : ℕ → Option ℕ → Option ℕ
exceeded elapsed none = none
exceeded elapsed (some limit) = if ltb limit elapsed then some elapsed else none

unfoldable pub check_timeout : Connection → ℕ → Option ℕ
check_timeout c now = exceeded (now - c.last_activity) (timeout_of c.config c.state)

abbrev timeout_reason : ConnectionState → ℕ → Reason
timeout_reason init elapsed = timeout
timeout_reason pending elapsed = handshake_timed_out elapsed
timeout_reason authenticated elapsed = idle_timed_out elapsed
timeout_reason closed elapsed = timeout

abbrev heartbeat_due : Connection → ℕ → Option ℕ → Bool
heartbeat_due c now none = true
heartbeat_due c now (some last) = leb c.config.heartbeat_interval (now - last)

abbrev pub ping_frame : Frame
ping_frame = Frame.new (Header.new Opcode.ping) []

abbrev heartbeat : ConnectionState → ℕ → Connection → List ConnectionAction × Connection
heartbeat init now c = ([], c)
heartbeat pending now c = ([], c)
heartbeat closed now c = ([], c)
heartbeat authenticated now c =
    if heartbeat_due c now c.last_heartbeat
    then (send_frame ping_frame ∷ [], record c { last_heartbeat = some now; last_activity = now })
    else ([], c)

abbrev tick_with : Option ℕ → ℕ → Connection → List ConnectionAction × Connection
tick_with none now c = heartbeat c.state now c
tick_with (some elapsed) now c = (close_with (timeout_reason c.state elapsed) ∷ [], close c)

unfoldable pub tick : ℕ → Connection → List ConnectionAction × Connection
tick now c = tick_with (check_timeout c now) now c

module _ (cbor : Ciborium) where
  abbrev framed : Payload → Opcode → Exec Connection ConnectionError Frame
  framed payload code = lift (map_err protocol (into_frame cbor payload (Header.new code)))

  -- The guard on the state, with the state that the error shows.
  abbrev require_init : Exec Connection ConnectionError (Unit {0})
  require_init c = (reject_if (not (is_init c.state)) (invalid_state c.state), c)

  unfoldable pub send_hello : ℕ → Exec Connection ConnectionError (List ConnectionAction)
  send_hello now = do
    require_init
    modify (λ c. record c { state = pending; last_activity = now })
    let greeting : Hello = record { version = 1; capabilities = []; auth_token = none }
    frame ← framed (Payload.hello greeting) Opcode.hello
    pure (send_frame frame ∷ [])

  abbrev reply_frame : ℕ → Exec Connection ConnectionError Frame
  reply_frame session_id = do
    let reply : HelloReply = record { session_id = session_id; capabilities = []; challenge = none }
    framed (Payload.hello_reply reply) Opcode.hello_reply

  -- `random` is `env.random_u64()`; the debug assertion that it is not 0 is left out.
  unfoldable pub handle_hello :
      Hello → (random now : ℕ) → Exec Connection ConnectionError (List ConnectionAction)
  handle_hello greeting random now = do
    require_init
    lift (reject_if (not (greeting.version == 1)) (unsupported_version greeting.version))
    modify (λ c. record c { session_id = some random; state = authenticated; last_activity = now })
    frame ← reply_frame random
    pure (send_frame frame ∷ [])

  -- The arms of `handle_frame`, after the payload was read.
  abbrev on_hello : Payload → Exec Connection ConnectionError (List ConnectionAction)
  on_hello (Payload.hello greeting) = do
    lift (reject_if (not (greeting.version == 1)) (unsupported_version greeting.version))
    id ← (λ c. (ok_or c.session_id session_id_not_set, c))
    modify (set_state authenticated)
    frame ← reply_frame id
    pure (send_frame frame ∷ [])
  on_hello _ = raise (invalid_payload (to_u16 Opcode.hello))

  abbrev on_hello_reply : Payload → Exec Connection ConnectionError (List ConnectionAction)
  on_hello_reply (Payload.hello_reply reply) = do
    modify (λ c. record c { state = authenticated; session_id = some reply.session_id })
    pure []
  on_hello_reply _ = raise (invalid_payload (to_u16 Opcode.hello_reply))

  -- The bytes of "ack".
  abbrev ack : Text
  ack = 97 ∷ 99 ∷ 107 ∷ []

  abbrev on_goodbye : Payload → Exec Connection ConnectionError (List ConnectionAction)
  on_goodbye (Payload.goodbye farewell) = do
    modify close
    let reply : Goodbye = record { reason = ack }
    frame ← framed (Payload.goodbye reply) Opcode.goodbye
    pure (send_frame frame ∷ close_with (peer_goodbye farewell.reason) ∷ [])
  on_goodbye _ = raise (invalid_payload (to_u16 Opcode.goodbye))

  abbrev payload_of : Frame → Exec Connection ConnectionError Payload
  payload_of frame = lift (map_err protocol (from_frame cbor frame))

  abbrev pub pong_frame : Frame
  pong_frame = Frame.new (Header.new Opcode.pong) []

  -- `Goodbye` and `Error`, and the frames that the state does not expect.
  abbrev in_any_state :
      ConnectionState → Opcode → Frame → Exec Connection ConnectionError (List ConnectionAction)
  in_any_state closed Opcode.goodbye frame = raise (unexpected_frame closed (to_u16 Opcode.goodbye))
  in_any_state state Opcode.goodbye frame = payload_of frame >>= on_goodbye
  in_any_state state Opcode.error frame = do modify close; pure (close_with peer_error ∷ [])
  in_any_state state code frame = raise (unexpected_frame state (to_u16 code))

  -- The match on the state and the opcode.
  abbrev dispatch :
      ConnectionState → Opcode → Frame → Exec Connection ConnectionError (List ConnectionAction)
  dispatch init Opcode.hello frame = payload_of frame >>= on_hello
  dispatch pending Opcode.hello_reply frame = payload_of frame >>= on_hello_reply
  dispatch authenticated Opcode.ping frame = pure (send_frame pong_frame ∷ [])
  dispatch authenticated Opcode.pong frame = pure []
  dispatch state code frame = in_any_state state code frame

  abbrev with_opcode :
      ConnectionState
      → Option Opcode
      → Frame
      → Exec Connection ConnectionError (List ConnectionAction)
  with_opcode state none frame = raise (unexpected_frame state (Header.opcode frame.header))
  with_opcode state (some code) frame = dispatch state code frame

  unfoldable pub handle_frame : Frame → ℕ → Exec Connection ConnectionError (List ConnectionAction)
  handle_frame frame now c =
      with_opcode c.state (Header.opcode_enum frame.header) frame (update_activity now c)
