-- ===== src/Proto/Header/Signing.antt =====
-- crates/lockframe-proto/src/header.rs: what a signature over `signing_data` binds.
use kalandra.Prelude.{
  ℕ, ◌≡◌, ◌↔◌, refl, ap, sym, ◌∙◌, List, [], ◌∷◌, ◌++◌, append_assoc, length, take, drop, arith,
  length-append, take-append_exact, drop-append_exact,
}
use kalandra.Proto.Bytes.{length-to_be_bytes}
use kalandra.Proto.Header.{
  FrameHeader, IsShaped, read_prefix, to_bytes, signing_data, set_log_index,
}
use kalandra.Proto.Header.Layout.{read_prefix-to_bytes}

-- The bytes before the context, and those between it and the signature.
routing : FrameHeader → List ℕ
routing h =
    h.magic
    ++ (h.version
        ∷ h.flags
        ∷ (h.opcode ++ (h.request_id ++ (h.payload_size ++ (h.room_id ++ h.sender_id)))))

binding : FrameHeader → List ℕ
binding h = h.hlc_timestamp ++ h.epoch

module _ (h : FrameHeader) (s : IsShaped h) where
  length-routing : length (routing h) ≡ 40
  unfolding routing
  length-routing = omega (arith, s, length-append {0})

  length-binding : length (binding h) ≡ 16
  unfolding binding
  length-binding = omega (arith, s, length-append {0})

  to_bytes_lem : to_bytes h ≡ routing h ++ (h.context_id ++ (binding h ++ h.signature))
  unfolding to_bytes routing binding
  to_bytes_lem = simp append_assoc

  signing_data_lem : signing_data h ≡ routing h ++ binding h
  unfolding signing_data
  signing_data_lem =
      let front : length (routing h ++ h.context_id) ≡ 48 =
        omega (arith, s, length-routing, length-append (routing h) h.context_id) in
      let tail : List ℕ = binding h ++ h.signature in
      rw (to_bytes_lem, take-append_exact 40 (routing h) (h.context_id ++ tail) length-routing)
        (rw (
          ← append_assoc (routing h) h.context_id tail,
          drop-append_exact 48 (routing h ++ h.context_id) tail front,
          take-append_exact 16 (binding h) h.signature length-binding,
        ))

  -- Joining the signed bytes with the two fields left out gives the header back.
  to_bytes-signing_data :
      to_bytes h
      ≡ take 40 (signing_data h) ++ (h.context_id ++ (drop 40 (signing_data h) ++ h.signature))
  to_bytes-signing_data =
      rw
        (
          signing_data_lem,
          take-append_exact 40 (routing h) (binding h) length-routing,
          drop-append_exact 40 (routing h) (binding h) length-routing,
        )
        to_bytes_lem

-- `h` with the context and the signature of another header.
abbrev pub with_unsigned : FrameHeader → List ℕ → List ℕ → FrameHeader
with_unsigned h context signature = record h { context_id = context; signature = signature }

with_unsigned-IsShaped :
    (h : FrameHeader) (c x : List ℕ)
    → length c ≡ 8
    → length x ≡ 64
    → IsShaped h
    → IsShaped (with_unsigned h c x)
with_unsigned-IsShaped h c x p q s = omega arith

pub signing_data-with_unsigned :
    (h : FrameHeader) (c x : List ℕ)
    → length c ≡ 8
    → length x ≡ 64
    → IsShaped h
    → signing_data (with_unsigned h c x) ≡ signing_data h
signing_data-with_unsigned h c x p q s =
    signing_data_lem (with_unsigned h c x) (with_unsigned-IsShaped h c x p q s)
    ∙ (unfold routing binding in sym (signing_data_lem h s))

-- Assigning a log index leaves the signed bytes as they were.
pub signing_data-set_log_index :
    (h : FrameHeader) (i : ℕ) → IsShaped h → signing_data (set_log_index h i) ≡ signing_data h
unfolding set_log_index
signing_data-set_log_index h i s =
    signing_data-with_unsigned h _ h.signature (length-to_be_bytes 8 i) s.signature s

bytes_equal :
    (h g : FrameHeader)
    → IsShaped h
    → IsShaped g
    → h.context_id ≡ g.context_id
    → h.signature ≡ g.signature
    → signing_data h ≡ signing_data g
    → to_bytes h ≡ to_bytes g
bytes_equal h g s t c x e = cc (to_bytes-signing_data h s, to_bytes-signing_data g t)

to_bytes_injective : (h g : FrameHeader) → IsShaped h → IsShaped g → to_bytes h ≡ to_bytes g → h ≡ g
to_bytes_injective h g s t e =
    sym (read_prefix-to_bytes h s [])
    ∙ ap (λ xs. read_prefix (xs ++ [])) e
    ∙ read_prefix-to_bytes g t []

-- Two headers have the same signed bytes exactly when they differ at most in the context (the log
-- index or the recipient) and in the signature.
pub signing_data_iff :
    (h g : FrameHeader)
    → IsShaped h
    → IsShaped g
    → (signing_data h ≡ signing_data g)
      ↔ (h ≡ record g { context_id = h.context_id; signature = h.signature })
signing_data_iff h g s t =
    let swapped : signing_data (with_unsigned g h.context_id h.signature) ≡ signing_data g =
      signing_data-with_unsigned g h.context_id h.signature s.context_id s.signature t in
    let shaped : IsShaped (with_unsigned g h.context_id h.signature) =
      with_unsigned-IsShaped g h.context_id h.signature s.context_id s.signature t in
    (
      λ e. to_bytes_injective h _ s shaped (bytes_equal h _ s shaped refl refl (e ∙ sym swapped)),
      λ e. ap signing_data e ∙ swapped,
    )
