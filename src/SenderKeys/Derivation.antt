-- ===== src/SenderKeys/Derivation.antt =====
-- crates/lockframe-crypto/src/sender_keys/derivation.rs. HKDF is a function of the secret and the
-- info, which gives the 32 bytes of a seed.
use kalandra.Prelude.{
  ℕ, ◌^◌, ◌<◌, ◌≡◌, ap, sym, ◌∙◌, List, [], ◌∷◌, ◌++◌, take, drop, take-append_exact,
  drop-append_exact,
}
use kalandra.Proto.Bytes.{to_be_bytes, from_be_bytes, from-to_be_bytes, length-to_be_bytes}

-- "lockframeSenderV1"
abbrev pub sender_key_label : List ℕ
sender_key_label =
    108 ∷ 111 ∷ 99 ∷ 107 ∷ 102 ∷ 114 ∷ 97 ∷ 109 ∷ 101 ∷ 83 ∷ 101 ∷ 110 ∷ 100 ∷ 101 ∷ 114 ∷ 86 ∷ 49
    ∷ []

-- The `info` of `derive_sender_key_seed`.
unfoldable pub seed_info : (epoch sender_index : ℕ) → List ℕ
seed_info epoch sender_index =
    sender_key_label ++ (to_be_bytes 8 epoch ++ to_be_bytes 4 sender_index)

module _ (hkdf : List ℕ → List ℕ → List ℕ) where
  abbrev pub derive_sender_key_seed : List ℕ → (epoch sender_index : ℕ) → List ℕ
  derive_sender_key_seed epoch_secret epoch sender_index =
      hkdf epoch_secret (seed_info epoch sender_index)

  unfoldable pub derive_all_sender_seeds : List ℕ → ℕ → List ℕ → List (ℕ × List ℕ)
  derive_all_sender_seeds epoch_secret epoch [] = []
  derive_all_sender_seeds epoch_secret epoch (index ∷ member_indices) =
      (index, derive_sender_key_seed epoch_secret epoch index)
      ∷ derive_all_sender_seeds epoch_secret epoch member_indices

-- A number at the front is read back, and so is what follows it.
pub front_number :
    (width n n' : ℕ) (rest rest' : List ℕ)
    → n < 256 ^ width
    → n' < 256 ^ width
    → to_be_bytes width n ++ rest ≡ to_be_bytes width n' ++ rest'
    → (n ≡ n') × (rest ≡ rest')
front_number width n n' rest rest' a b same =
    let front : to_be_bytes width n ≡ to_be_bytes width n' =
      sym (take-append_exact width (to_be_bytes width n) rest (length-to_be_bytes width n))
      ∙ ap (take width) same
      ∙ take-append_exact width (to_be_bytes width n') rest' (length-to_be_bytes width n') in
    let back : rest ≡ rest' =
      sym (drop-append_exact width (to_be_bytes width n) rest (length-to_be_bytes width n))
      ∙ ap (drop width) same
      ∙ drop-append_exact width (to_be_bytes width n') rest' (length-to_be_bytes width n') in
    (sym (from-to_be_bytes width n a) ∙ ap from_be_bytes front ∙ from-to_be_bytes width n' b, back)

-- The seeds of two senders or two epochs come from different infos.
pub seed_info-injective :
    (epoch epoch' index index' : ℕ)
    → epoch < 2 ^ 64
    → epoch' < 2 ^ 64
    → index < 2 ^ 32
    → index' < 2 ^ 32
    → seed_info epoch index ≡ seed_info epoch' index'
    → (epoch ≡ epoch') × (index ≡ index')
unfolding seed_info
seed_info-injective epoch epoch' index index' a b c d same =
    let numbers : to_be_bytes 8 epoch ++ to_be_bytes 4 index
        ≡ to_be_bytes 8 epoch' ++ to_be_bytes 4 index' =
      ap (drop 17) same in
    let (epochs, rest) =
      front_number 8 epoch epoch' (to_be_bytes 4 index) (to_be_bytes 4 index') a b numbers in
    (epochs, sym (from-to_be_bytes 4 index c) ∙ ap from_be_bytes rest ∙ from-to_be_bytes 4 index' d)
