-- ===== src/Ratchet/Keys.antt =====
-- crates/lockframe-crypto/src/sender_keys/ratchet.rs: the keys of the generations.
use kalandra.Prelude.{
  ℕ, ◌+◌, ◌-◌, ◌%◌, ◌^◌, ◌≤◌, ◌<◌, ◌≡◌, refl, ap, ◌==◌, Option, none, some, false, ◌⊎◌, inl, inr,
  List, ok, err, arith, zero, suc, le→leb, lt→leb_false, le→ltb_false,
}
use kalandra.Ratchet.{
  MessageKey, SymmetricRatchet, max_skip, chain_label, message_label, advance, advance_while,
  advance_to, ratchet_too_far_behind,
}

module _ (hmac : List ℕ → List ℕ → List ℕ) where
  -- The chain key and the message key of a generation.
  abbrev pub chain : List ℕ → ℕ → List ℕ
  chain seed zero = seed
  chain seed (suc n) = hmac (chain seed n) chain_label

  abbrev pub key_of : List ℕ → ℕ → MessageKey
  key_of seed n = record { key = hmac (chain seed n) message_label; generation = n }

  -- The ratchet of a seed at a generation.
  abbrev pub ratchet_at : List ℕ → ℕ → SymmetricRatchet
  ratchet_at seed n = record { chain_key = chain seed n; generation = n }

  pub advance_lem :
      (seed : List ℕ) (n : ℕ)
      → n + 1 < 2 ^ 32
      → advance hmac (ratchet_at seed n) ≡ (ok (key_of seed n), ratchet_at seed (suc n))
  unfolding advance
  advance_lem seed n small =
      let plain : (n + 1) % 2 ^ 32 ≡ suc n = omega arith in
      let more : (n == 2 ^ 32 - 1) ≡ false = ground arith in rw (more, plain) refl

  advance_while_lem :
      (seed : List ℕ) (fuel gap n target : ℕ) (last : Option MessageKey)
      → n + gap ≡ target
      → gap + 2 ≤ fuel
      → target + 1 < 2 ^ 32
      → advance_while hmac fuel target (ratchet_at seed n) last
        ≡ some (ok (some (key_of seed target)), ratchet_at seed (suc target))
  unfolding advance_while
  advance_while_lem seed zero gap n target last e enough small = absurd (omega arith)
  advance_while_lem seed (suc zero) gap n target last e enough small = absurd (omega arith)
  advance_while_lem seed (suc (suc fuel)) zero n target last e enough small =
      let same : n ≡ target = omega arith in
      rw
        (
          le→leb n target (omega arith),
          advance_lem seed n (omega arith),
          lt→leb_false (suc n) target (omega arith),
        )
        (ap (λ (k : ℕ). some (ok (some (key_of seed k)), ratchet_at seed (suc k))) same)
  advance_while_lem seed (suc (suc fuel)) (suc gap) n target last e enough small =
      rw (le→leb n target (omega arith), advance_lem seed n (omega arith))
        (advance_while_lem seed (suc fuel) gap (suc n) target (some (key_of seed n)) (omega arith)
          (omega arith) (omega arith))

  -- A ratchet of a seed that is asked for a generation which it has not passed, and which is at most
  -- 1000 ahead and below the largest one, ends with that generation's key, which depends on the
  -- seed and the generation only, and then stands at the generation after it.
  pub advance_to_lem :
      (seed : List ℕ) (n target : ℕ)
      → n ≤ target
      → target ≤ n + max_skip
      → target + 1 < 2 ^ 32
      → advance_to hmac target (ratchet_at seed n)
        ≡ some (ok (key_of seed target), ratchet_at seed (suc target))
  unfolding advance_to
  advance_to_lem seed n target ahead near small =
      rw
        (
          le→ltb_false target n ahead,
          le→ltb_false max_skip (target - n) (omega arith),
          advance_while_lem seed (max_skip + 2) (target - n) n target none (omega arith)
              (omega arith) small,
        )
        refl

  -- A generation that the ratchet has passed, or that is more than 1000 ahead, is refused, and the
  -- ratchet stays where it was.
  pub advance_to-refuses :
      (r : SymmetricRatchet) (target : ℕ)
      → (target < r.generation) ⊎ (r.generation + max_skip < target)
      → advance_to hmac target r ≡ some (err (ratchet_too_far_behind r.generation target), r)
  unfolding advance_to
  advance_to-refuses r target (inl passed) = ground arith
  advance_to-refuses r target (inr far) = ground arith
