-- ===== src/Proto/Header/Fields.antt =====
-- crates/lockframe-proto/src/header.rs: the setters and the accessors.
use kalandra.Prelude.{ℕ, ◌<◌, ◌^◌, ◌≡◌}
use kalandra.Proto.Bytes.{from-to_be_bytes}
use kalandra.Proto.Header
use kalandra.Proto.Header.{FrameHeader}

-- A number that fits the width of its field is read back as it was set.
pub accessors_read_setters :
    (h : FrameHeader) (room id time request : ℕ)
    → room < 2 ^ 128
    → id < 2 ^ 64
    → time < 2 ^ 64
    → request < 2 ^ 32
    → (Header.room_id (Header.set_room_id h room) ≡ room)
      × (Header.log_index (Header.set_log_index h id) ≡ id)
      × (Header.recipient_id (Header.set_recipient_id h id) ≡ id)
      × (Header.sender_id (Header.set_sender_id h id) ≡ id)
      × (Header.epoch (Header.set_epoch h id) ≡ id)
      × (Header.hlc_timestamp (Header.set_hlc_timestamp h time) ≡ time)
      × (Header.request_id (Header.set_request_id h request) ≡ request)
unfolding Header.room_id Header.set_room_id Header.log_index Header.set_log_index
    Header.recipient_id Header.set_recipient_id Header.sender_id Header.set_sender_id Header.epoch
    Header.set_epoch Header.hlc_timestamp Header.set_hlc_timestamp Header.request_id
    Header.set_request_id
accessors_read_setters h room id time request p q r u = (
  from-to_be_bytes 16 room p,
  from-to_be_bytes 8 id q,
  from-to_be_bytes 8 id q,
  from-to_be_bytes 8 id q,
  from-to_be_bytes 8 id q,
  from-to_be_bytes 8 time r,
  from-to_be_bytes 4 request u,
)
