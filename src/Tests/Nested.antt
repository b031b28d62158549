-- ===== src/Tests/Nested.antt =====
-- A client that receives a message in a sync response in another one.
use kalandra.Prelude.{ℕ, ◌≡◌, refl, Bool, true, false, Option, none, some, List, [], ◌∷◌, ◌++◌}
use kalandra.Proto.Opcode
use kalandra.Proto.Header
use kalandra.Proto.Header.{to_bytes}
use kalandra.Proto.Frame
use kalandra.Proto.Frame.{Frame}
use kalandra.Proto.Payload.{Cbor}
use kalandra.Proto.Payload.Types.{SyncResponse}
use kalandra.Client.{ClientLibraries, Client}
use kalandra.Tests.Data.{toy_dalek, toy_cbor, toy_crypto}
use kalandra.Tests.Clients.{client_groups, message_codec}

-- A last page with one frame is the epoch and the frame's bytes.
abbrev write_page : List (List ℕ) → Bool → ℕ → Option (List ℕ)
write_page (bytes ∷ []) false epoch = some (epoch ∷ bytes)
write_page _ _ _ = none

abbrev read_page : List ℕ → Option SyncResponse
read_page [] = none
read_page (epoch ∷ bytes) =
    some (record { frames = bytes ∷ []; has_more = false; server_epoch = epoch })

pub reads_page :
    (frames : List (List ℕ)) (has_more : Bool) (epoch : ℕ) (bytes : List ℕ)
    → write_page frames has_more epoch ≡ some bytes
    → read_page bytes ≡ some (record { frames = frames; has_more = has_more; server_epoch = epoch })
reads_page (frame ∷ []) false epoch bytes e =
    let same : epoch ∷ frame ≡ bytes = cc in rw (← same) refl
reads_page [] has_more epoch bytes e = cc
reads_page (frame ∷ []) true epoch bytes e = cc
reads_page (frame ∷ other ∷ frames) has_more epoch bytes e = cc

abbrev page_codec : Cbor SyncResponse
page_codec = record {
  into_writer = λ r. write_page r.frames r.has_more r.server_epoch;
  from_reader = read_page;
  reads_written = λ r bytes e. reads_page r.frames r.has_more r.server_epoch bytes e;
}

abbrev paging : ClientLibraries
paging = record {
  groups = client_groups;
  dalek = toy_dalek;
  cbor = record toy_cbor { app_message = message_codec; sync_response = page_codec };
  crypto = toy_crypto;
}

abbrev page_of : Frame → Frame
page_of frame =
    Frame.new (Header.set_room_id (Header.new Opcode.sync_response) 7)
      (0 ∷ (to_bytes frame.header ++ frame.payload))

abbrev newcomer : Client paging
newcomer = record { sender_id = 4; rooms = []; pending_joins = [] }
