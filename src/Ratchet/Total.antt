-- ===== src/Ratchet/Total.antt =====
-- crates/lockframe-crypto/src/sender_keys/ratchet.rs: the loop of `advance_to` ends.
use kalandra.Prelude.{
  ℕ, zero, suc, ◌+◌, ◌-◌, ◌%◌, ◌^◌, ◌≤◌, ◌<◌, ◌≢◌, refl, ltb, Bool-cases, Option, some, none, ok,
  err, inl, inr, arith, List,
}
use kalandra.Ratchet.{
  SymmetricRatchet, MessageKey, max_skip, advance, advance_while, advance_to, Outcome, unwrap_key,
  derive_message_key, derive_next_chain_key,
}

module _ (hmac : List ℕ → List ℕ → List ℕ) where
  advance_while-total :
      (fuel target : ℕ) (r : SymmetricRatchet) (last : Option MessageKey)
      → r.generation < 2 ^ 32
      → target < 2 ^ 32
      → r.generation ≤ target + 1
      → target + 2 ≤ r.generation + fuel
      → advance_while hmac fuel target r last ≢ none
  unfolding advance_while advance
  advance_while-total zero target r last a b near enough = absurd (omega arith)
  advance_while-total (suc fuel) target r last a b near enough =
      let next : SymmetricRatchet = record {
        chain_key = derive_next_chain_key hmac r;
        generation = (r.generation + 1) % 2 ^ 32;
      } in
      let key : MessageKey = record {
        key = derive_message_key hmac r;
        generation = r.generation;
      } in
      ground (arith, advance_while-total fuel target next (some key))

  unwrap_key-total :
      (current target : ℕ) (o : Outcome hmac) → o ≢ none → unwrap_key hmac current target o ≢ none
  unwrap_key-total current target none h = absurd (h refl)
  unwrap_key-total current target (some (err e, r)) h = λ f. cc
  unwrap_key-total current target (some (ok none, r)) h = λ f. cc
  unwrap_key-total current target (some (ok (some key), r)) h = λ f. cc

  -- For generations of 32 bits, `advance_to` returns.
  pub advance_to-total :
      (target : ℕ) (r : SymmetricRatchet)
      → r.generation < 2 ^ 32
      → target < 2 ^ 32
      → advance_to hmac target r ≢ none
  unfolding advance_to
  advance_to-total target r a b = elim (Bool-cases (ltb target r.generation)) [
    | inl passed ↦ rw passed (λ f. cc)
    | inr ahead ↦ elim (Bool-cases (ltb max_skip (target - r.generation))) [
      | inl far ↦ rw (ahead, far) (λ f. cc)
      | inr near ↦
          rw (ahead, near)
            (unwrap_key-total r.generation target _
              (advance_while-total (max_skip + 2) target r none a b (ground arith) (ground arith)))
    ]
  ]
