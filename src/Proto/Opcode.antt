-- ===== src/Proto/Opcode.antt =====
-- crates/lockframe-proto/src/opcodes.rs: the operation codes of frames.
pub mod RoundTrip
use kalandra.Prelude.{ℕ, ◌==◌, if◌then◌else◌, Bool, true, false, Option, none, some, List, [], ◌∷◌}

pub data Opcode : Type 0 where
  hello hello_reply goodbye ping pong sync_request sync_response error : Opcode
  key_package proposal commit welcome group_info psk_proposal re_init external_commit : Opcode
  app_message app_receipt app_reaction app_edit app_delete typing presence : Opcode
  redact ban unban kick mute pin report : Opcode
  fed_append fed_sync fed_ack fed_nack fed_query : Opcode
  cas_put cas_get cas_delete cas_proof : Opcode

-- `Opcode::to_u16`, the discriminants of the enum.
unfoldable pub to_u16 : Opcode → ℕ
to_u16 hello = 0x0001
to_u16 hello_reply = 0x0002
to_u16 goodbye = 0x0003
to_u16 ping = 0x0004
to_u16 pong = 0x0005
to_u16 sync_request = 0x0006
to_u16 sync_response = 0x0007
to_u16 error = 0x00ff
to_u16 key_package = 0x1000
to_u16 proposal = 0x1001
to_u16 commit = 0x1002
to_u16 welcome = 0x1003
to_u16 group_info = 0x1004
to_u16 psk_proposal = 0x1005
to_u16 re_init = 0x1006
to_u16 external_commit = 0x1007
to_u16 app_message = 0x2000
to_u16 app_receipt = 0x2001
to_u16 app_reaction = 0x2002
to_u16 app_edit = 0x2003
to_u16 app_delete = 0x2004
to_u16 typing = 0x2005
to_u16 presence = 0x2006
to_u16 redact = 0x3000
to_u16 ban = 0x3001
to_u16 unban = 0x3002
to_u16 kick = 0x3003
to_u16 mute = 0x3004
to_u16 pin = 0x3005
to_u16 report = 0x3006
to_u16 fed_append = 0x4000
to_u16 fed_sync = 0x4001
to_u16 fed_ack = 0x4002
to_u16 fed_nack = 0x4003
to_u16 fed_query = 0x4004
to_u16 cas_put = 0x5000
to_u16 cas_get = 0x5001
to_u16 cas_delete = 0x5002
to_u16 cas_proof = 0x5003

-- The arms of the match in `Opcode::from_u16`, in their order.
abbrev pub arms : List (ℕ × Opcode)
arms =
    (0x0001, hello)
    ∷ (0x0002, hello_reply)
    ∷ (0x0003, goodbye)
    ∷ (0x0004, ping)
    ∷ (0x0005, pong)
    ∷ (0x0006, sync_request)
    ∷ (0x0007, sync_response)
    ∷ (0x00ff, error)
    ∷ (0x1000, key_package)
    ∷ (0x1001, proposal)
    ∷ (0x1002, commit)
    ∷ (0x1003, welcome)
    ∷ (0x1004, group_info)
    ∷ (0x1005, psk_proposal)
    ∷ (0x1006, re_init)
    ∷ (0x1007, external_commit)
    ∷ (0x2000, app_message)
    ∷ (0x2001, app_receipt)
    ∷ (0x2002, app_reaction)
    ∷ (0x2003, app_edit)
    ∷ (0x2004, app_delete)
    ∷ (0x2005, typing)
    ∷ (0x2006, presence)
    ∷ (0x3000, redact)
    ∷ (0x3001, ban)
    ∷ (0x3002, unban)
    ∷ (0x3003, kick)
    ∷ (0x3004, mute)
    ∷ (0x3005, pin)
    ∷ (0x3006, report)
    ∷ (0x4000, fed_append)
    ∷ (0x4001, fed_sync)
    ∷ (0x4002, fed_ack)
    ∷ (0x4003, fed_nack)
    ∷ (0x4004, fed_query)
    ∷ (0x5000, cas_put)
    ∷ (0x5001, cas_get)
    ∷ (0x5002, cas_delete)
    ∷ (0x5003, cas_proof)
    ∷ []

-- The first arm whose value is the scrutinee; `none` is the arm `_`.
unfoldable pub match_arm : ℕ → List (ℕ × Opcode) → Option Opcode
match_arm value [] = none
match_arm value ((v, o) ∷ rest) = if value == v then some o else match_arm value rest

-- `Opcode::from_u16`.
unfoldable pub from_u16 : ℕ → Option Opcode
unfolding match_arm
from_u16 value = match_arm value arms

-- `==` on `Option<Opcode>` against `Some(o)`: the derived equality compares discriminants.
unfoldable pub is_some_opcode : Option Opcode → Opcode → Bool
unfolding to_u16
is_some_opcode none o = false
is_some_opcode (some p) o = to_u16 p == to_u16 o
