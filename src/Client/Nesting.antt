-- ===== src/Client/Nesting.antt =====
-- crates/lockframe-client/src/client.rs: the nesting of sync responses is bounded by their length.
use kalandra.Proto.Opcode.{Opcode}
use kalandra.Proto.Header
use kalandra.Proto.Frame.{Frame}
use kalandra.Client.{Client}
