-- ===== src/Tests/Drivers.antt =====
-- Overtaking streams, and the driver with the small server.
use kalandra.Prelude.{
  ℕ, HashSet, ◌≡◌, refl, true, Option, none, some, List, [], ◌∷◌, ◌++◌, Result, ok, get, insert,
  arith, contains, entry_count,
}
use kalandra.Proto.Bytes.{from_be_bytes, to_be_bytes}
use kalandra.Proto.Opcode.{welcome, from_u16, to_u16}
use kalandra.Proto.Header
use kalandra.Proto.Frame
use kalandra.Proto.Frame.{Frame}
use kalandra.Mls.State.{is_member, member_key}
use kalandra.Mls.Validator.{validate_signature}
use kalandra.Connection
use kalandra.Connection.{Connection, default_config}
use kalandra.Registry.{is_subscribed}
use kalandra.Storage.Memory
use kalandra.Storage.Memory.{memory_storage}
use kalandra.Storage.Memory.Log.{memory_contract}
use kalandra.Sequencer.{rebuild_frame_with_index}
use kalandra.Rooms.{check_signature, validate_frame_basic}
use kalandra.Rooms.Serve.{serve}
use kalandra.Rooms.Order.Effect.{log_of, placed_frame}
use kalandra.Rooms.Order.Gap.{IsAdmitted}
use kalandra.Rooms.Order.Overtaking.{overtake, counted}
use kalandra.Rooms.Order.Overtaking.Crossed.{overtake_ends_log}
use kalandra.Driver
use kalandra.Driver.{
  ServerDriver, ServerEvent, ServerAction, ServerError, connection_accepted, frame_received,
  default_server_config,
}
use kalandra.Driver.Events.{process_event, handle_connection_accepted, handle_frame_received}
use kalandra.Driver.Sessions.{IsLinked}
use kalandra.Driver.Sessions.Reach.{processed, Reachable, start, step, Reachable-IsLinked}
use kalandra.Driver.Serving.{take_turn, rooms_of, execute_actions}
use kalandra.Driver.Serving.Runs.{take_turns, arrivals, take_turns-serve}
use kalandra.Driver.Welcome.{welcome-is_subscribed}
use kalandra.Tests.Data.{message, toy_dalek, toy_groups, toy_server, room_state, toy_libraries}
use kalandra.Tests.Ordering.{
  toy_server-IsOrdered, message-IsStructured, message-IsSequenced, message-IsAdmitted, signed_well,
  message_not_commit, level,
}

second-IsAdmitted :
    IsAdmitted memory_storage memory_contract toy_groups toy_dalek
      (counted memory_storage memory_contract toy_groups toy_dalek toy_server (message 9))
      (message 9)
      0
      (some room_state)
unfolding get memory_contract Header.room_id Header.epoch Header.sender_id from_be_bytes
    validate_frame_basic is_member contains member_key Memory.load_mls_state insert
second-IsAdmitted = record {
  known = refl;
  loaded = refl;
  member = refl;
  structured = message-IsStructured 9;
  sequenced = message-IsSequenced 9;
  room_left = omega arith;
}

second_signed :
    check_signature toy_dalek
      (placed_frame memory_storage memory_contract toy_groups toy_dalek
        (counted memory_storage memory_contract toy_groups toy_dalek toy_server (message 9))
        (message 9))
      (some room_state)
    ≡ ok tt
unfolding check_signature memory_contract get Header.room_id Header.sender_id Header.opcode_enum
    Header.opcode from_be_bytes from_u16 rebuild_frame_with_index Frame.new Header.set_log_index
    member_key validate_signature Header.signing_data
second_signed = refl

overtake_ends_log_example :
    log_of memory_storage memory_contract toy_groups toy_dalek
      (serve memory_storage toy_groups toy_dalek
        (overtake memory_storage toy_groups toy_dalek toy_server (1, message 9) (2, message 9))
        ((3, message 9) ∷ []))
      (Header.room_id (message 9).header)
    ≡ log_of memory_storage memory_contract toy_groups toy_dalek toy_server
        (Header.room_id (message 9).header)
      ++ placed_frame memory_storage memory_contract toy_groups toy_dalek toy_server (message 9)
        ∷ []
overtake_ends_log_example =
    overtake_ends_log memory_storage memory_contract toy_groups toy_dalek toy_server 1 2 (message 9)
      (message 9) 0 0 (some room_state) (some room_state) ((3, message 9) ∷ []) toy_server-IsOrdered
      (message-IsAdmitted 9) signed_well message_not_commit second-IsAdmitted second_signed
      message_not_commit refl level

-- A driver with the rooms of the small server, which has accepted one connection.
abbrev empty_driver : ServerDriver toy_libraries
empty_driver = Driver.new toy_libraries toy_server.store default_server_config

abbrev busy_driver : ServerDriver toy_libraries
busy_driver = (handle_connection_accepted toy_libraries 5 0 empty_driver).1

accepted_one :
    process_event toy_libraries 0 (connection_accepted 5) empty_driver
    ≡ some (handle_connection_accepted toy_libraries 5 0 empty_driver)
unfolding process_event
accepted_one = refl

busy-Reachable : Reachable toy_libraries busy_driver
busy-Reachable = step empty_driver busy_driver (start toy_server.store default_server_config) (
    processed 0 (connection_accepted 5) empty_driver busy_driver
      (handle_connection_accepted toy_libraries 5 0 empty_driver).0 accepted_one)

Reachable-IsLinked_example : IsLinked toy_libraries busy_driver
Reachable-IsLinked_example = Reachable-IsLinked toy_libraries busy-Reachable

-- The same, with the room in it.
abbrev room_driver : ServerDriver toy_libraries
room_driver = record empty_driver { room_manager = toy_server.manager }

abbrev turns : List (HashSet × (ℕ × ServerEvent))
turns = (5 ∷ [], (1, connection_accepted 5)) ∷ (5 ∷ [], (2, frame_received 5 (message 9))) ∷ []

abbrev ended_as : Option (ServerDriver toy_libraries) → ServerDriver toy_libraries
ended_as none = room_driver
ended_as (some d) = d

abbrev ended : ServerDriver toy_libraries
ended = ended_as (take_turns toy_libraries room_driver turns)

turns_end : take_turns toy_libraries room_driver turns ≡ some ended
unfolding take_turns take_turn process_event handle_connection_accepted handle_frame_received get
    insert Header.opcode_enum Header.opcode from_be_bytes from_u16 entry_count execute_actions
turns_end = refl

take_turns-serve_example :
    rooms_of toy_libraries ended
    ≡ serve memory_storage toy_groups toy_dalek
        (rooms_of toy_libraries room_driver)
        (arrivals toy_libraries room_driver turns)
take_turns-serve_example = take_turns-serve toy_libraries room_driver ended turns turns_end

-- A Welcome to a room that the driver does not have.
abbrev welcome_frame : Frame
welcome_frame = record (message 9) { header = Header.new welcome }

abbrev welcomed : Option (Result ServerError (List ServerAction) × ServerDriver toy_libraries)
welcomed = process_event toy_libraries 1 (frame_received 5 welcome_frame) busy_driver

abbrev answered_as :
    Option (Result ServerError (List ServerAction) × ServerDriver toy_libraries)
    → Result ServerError (List ServerAction) × ServerDriver toy_libraries
answered_as none = (ok [], busy_driver)
answered_as (some answer) = answer

welcome_code : Header.opcode_enum (Header.new welcome) ≡ some welcome
unfolding Header.opcode_enum Header.opcode from_be_bytes from_u16 Header.new Header.new_bytes
    Header.read_prefix to_be_bytes to_u16
welcome_code = refl

busy_connection :
    get busy_driver.connections 5
    ≡ some (Connection.set_session_id 5 (Connection.new 0 default_config))
unfolding handle_connection_accepted get insert entry_count
busy_connection = refl

welcome_answered : welcomed ≡ some (answered_as welcomed)
unfolding process_event handle_frame_received handle_connection_accepted get insert entry_count
    Header.opcode_enum Header.opcode from_be_bytes from_u16 Header.new Header.new_bytes
    Header.read_prefix to_be_bytes to_u16
welcome_answered = refl

welcome-is_subscribed_example :
    is_subscribed (answered_as welcomed).1.registry 5 (Header.room_id (Header.new welcome)) ≡ true
welcome-is_subscribed_example =
    welcome-is_subscribed toy_libraries 5 1 welcome_frame busy_driver (answered_as welcomed).1
      (Connection.set_session_id 5 (Connection.new 0 default_config)) (answered_as welcomed).0
      (Reachable-IsLinked toy_libraries busy-Reachable) busy_connection welcome_code
      welcome_answered
