-- ===== src/Sequencer/Rebuild.antt =====
-- crates/lockframe-server/src/sequencer.rs: `rebuild_frame_with_index` on the frames of the wire.
use kalandra.Proto.Header
use kalandra.Proto.Header.{FrameHeader}
use kalandra.Proto.Frame
use kalandra.Proto.Frame.{Frame}
