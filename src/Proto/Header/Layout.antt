-- ===== src/Proto/Header/Layout.antt =====
-- crates/lockframe-proto/src/header.rs: the 128 bytes of a header and the header they are cast to.
use kalandra.Prelude.{
  ℕ, ◌≤◌, ◌<◌, suc, ◌≡◌, refl, List, [], ◌∷◌, ◌++◌, append_assoc, length, take, drop, arith,
  length-append, length-take, length-drop, take-append_exact, drop-append_exact, take-append-take,
}
use kalandra.Proto.Header.{FrameHeader, IsShaped, size, first_byte, read_prefix, to_bytes}

module _ (h : FrameHeader) (s : IsShaped h) where
  -- The bytes from each field on, with what follows the header.
  from_epoch : List ℕ → List ℕ
  from_epoch rest = h.epoch ++ (h.signature ++ rest)

  from_context_id : List ℕ → List ℕ
  unfolding from_epoch
  from_context_id rest = h.context_id ++ (h.hlc_timestamp ++ from_epoch rest)

  from_room_id : List ℕ → List ℕ
  unfolding from_context_id
  from_room_id rest = h.room_id ++ (h.sender_id ++ from_context_id rest)

  from_opcode : List ℕ → List ℕ
  unfolding from_room_id
  from_opcode rest = h.opcode ++ (h.request_id ++ (h.payload_size ++ from_room_id rest))

  to_bytes-append :
      (rest : List ℕ) → to_bytes h ++ rest ≡ h.magic ++ (h.version ∷ h.flags ∷ from_opcode rest)
  unfolding to_bytes from_opcode
  to_bytes-append rest = simp append_assoc

  pub length-to_bytes : length (to_bytes h) ≡ size
  unfolding to_bytes
  length-to_bytes = omega (arith, s, length-append {0})

  pub read_prefix-to_bytes : (rest : List ℕ) → read_prefix (to_bytes h ++ rest) ≡ h
  read_prefix-to_bytes rest = rw to_bytes-append (
      unfold from_opcode read_prefix in
      simp (
        take-append_exact 4 h.magic (h.version ∷ h.flags ∷ from_opcode rest) s.magic,
        drop-append_exact 4 h.magic (h.version ∷ h.flags ∷ from_opcode rest) s.magic,
        take-append_exact 2 h.opcode (h.request_id ++ (h.payload_size ++ from_room_id rest))
            s.opcode,
        drop-append_exact 2 h.opcode (h.request_id ++ (h.payload_size ++ from_room_id rest))
            s.opcode,
        take-append_exact 4 h.request_id (h.payload_size ++ from_room_id rest) s.request_id,
        drop-append_exact 4 h.request_id (h.payload_size ++ from_room_id rest) s.request_id,
        take-append_exact 4 h.payload_size (from_room_id rest) s.payload_size,
        drop-append_exact 4 h.payload_size (from_room_id rest) s.payload_size,
        take-append_exact 16 h.room_id (h.sender_id ++ from_context_id rest) s.room_id,
        drop-append_exact 16 h.room_id (h.sender_id ++ from_context_id rest) s.room_id,
        take-append_exact 8 h.sender_id (from_context_id rest) s.sender_id,
        drop-append_exact 8 h.sender_id (from_context_id rest) s.sender_id,
        take-append_exact 8 h.context_id (h.hlc_timestamp ++ from_epoch rest) s.context_id,
        drop-append_exact 8 h.context_id (h.hlc_timestamp ++ from_epoch rest) s.context_id,
        take-append_exact 8 h.hlc_timestamp (from_epoch rest) s.hlc_timestamp,
        drop-append_exact 8 h.hlc_timestamp (from_epoch rest) s.hlc_timestamp,
        take-append_exact 8 h.epoch (h.signature ++ rest) s.epoch,
        drop-append_exact 8 h.epoch (h.signature ++ rest) s.epoch,
        take-append_exact 64 h.signature rest s.signature,
      ))

pub read_prefix-IsShaped : (bytes : List ℕ) → size ≤ length bytes → IsShaped (read_prefix bytes)
unfolding read_prefix
read_prefix-IsShaped bytes h = omega (arith, length-take {0}, length-drop {0})

first_byte-take :
    (n : ℕ) (xs : List ℕ) → 0 < length xs → first_byte xs ∷ take n (drop 1 xs) ≡ take (suc n) xs
unfolding first_byte
first_byte-take n [] h = absurd (omega arith)
first_byte-take n (x ∷ xs) h = refl

-- The cast loses nothing: its bytes are the first 128 of the slice.
pub to_bytes-read_prefix :
    (bytes : List ℕ) → size ≤ length bytes → to_bytes (read_prefix bytes) ≡ take size bytes
unfolding to_bytes read_prefix
to_bytes-read_prefix bytes h = simp (
  take-append-take,
  first_byte-take 122 (drop 1 (drop 4 bytes)) (omega (arith, length-drop {0})),
  first_byte-take 123 (drop 4 bytes) (omega (arith, length-drop {0})),
)
