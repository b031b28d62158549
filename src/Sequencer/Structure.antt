-- ===== src/Sequencer/Structure.antt =====
-- crates/lockframe-server/src/sequencer.rs: which frames `validate_frame_structure` lets through.
use kalandra.Prelude.{◌≤◌, ◌≡◌, ◌≢◌, ◌↔◌, ok, length, arith}
use kalandra.Proto.Header
use kalandra.Proto.Header.{magic_number, current_version}
use kalandra.Proto.Frame.{Frame}
use kalandra.Mls.State.{max_epoch}
use kalandra.Sequencer.{validate_frame_structure}

pub record IsStructured (frame : Frame) : Type 0 where
  pub magic : Header.magic frame.header ≡ magic_number
  pub version : frame.header.version ≡ current_version
  pub sized : Header.payload_size frame.header ≡ length frame.payload
  pub room : Header.room_id frame.header ≢ 0
  pub epoch : Header.epoch frame.header ≤ max_epoch

-- The structural check passes exactly the frames with the right magic number, version and payload
-- size, a room that is not zero and an epoch within the limit.
pub validate_frame_structure_iff :
    (frame : Frame) → (validate_frame_structure frame ≡ ok tt) ↔ IsStructured frame
unfolding validate_frame_structure
validate_frame_structure_iff frame = (λ e. ground arith, λ v. ground arith)
