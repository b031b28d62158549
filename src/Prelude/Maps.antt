-- ===== src/Prelude/Maps.antt =====
-- Rust's `HashMap` with integer keys, as an association list without repeated keys. The order of
-- the entries stands for the unspecified order in which a `HashMap` is walked.
use Prim.Native.Nat.{ℕ, suc, ◌≤◌}
use mathlib.Core.Path.{◌≡◌, refl}
use mathlib.Core.Bool.{Bool, true, false}
use mathlib.Core.Option.{Option, none, some}
use mathlib.Core.List.{List, [], ◌∷◌}
use native.Mathlib.Omega.{arith}
use kalandra.Prelude.Tests.{◌==◌, if◌then◌else◌, is_some_and}
use kalandra.Prelude.Lists.{length}

abbrev pub HashMap {ℓ} : Type ℓ → Type ℓ
HashMap V = List (ℕ × V)

module _ {ℓ} {V : Type ℓ} where
  unfoldable pub get : HashMap V → ℕ → Option V
  get [] k = none
  get ((j, v) ∷ m) k = if j == k then some v else get m k

  unfoldable pub insert : HashMap V → ℕ → V → HashMap V
  insert [] k v = (k, v) ∷ []
  insert ((j, w) ∷ m) k v = if j == k then (j, v) ∷ m else (j, w) ∷ insert m k v

  unfoldable pub remove : HashMap V → ℕ → HashMap V
  remove [] k = []
  remove ((j, v) ∷ m) k = let rest = remove m k in if j == k then rest else (j, v) ∷ rest

  unfoldable pub contains_key : HashMap V → ℕ → Bool
  unfolding get
  contains_key m k = is_some_and (get m k) (λ _. true)

  unfoldable pub entry_count : HashMap V → ℕ
  entry_count m = length m

  pub get-nil : (k : ℕ) → get [] k ≡ none
  unfolding get
  get-nil k = refl

  pub get-insert :
      (m : HashMap V) (k : ℕ) (v : V) (j : ℕ)
      → get (insert m k v) j ≡ (if k == j then some v else get m j)
  unfolding get insert
  get-insert [] k v j = refl
  get-insert ((i, w) ∷ m) k v j = ground (arith, get-insert m k v j)

  pub get-remove :
      (m : HashMap V) (k j : ℕ) → get (remove m k) j ≡ (if k == j then none else get m j)
  unfolding get remove
  get-remove [] k j = ground arith
  get-remove ((i, w) ∷ m) k j = ground (arith, get-remove m k j)

  pub contains_key-get :
      (m : HashMap V) (k : ℕ) → contains_key m k ≡ is_some_and (get m k) (λ _. true)
  unfolding contains_key
  contains_key-get m k = refl

  pub contains_key-insert :
      (m : HashMap V) (k : ℕ) (v : V) (j : ℕ)
      → contains_key (insert m k v) j ≡ (if k == j then true else contains_key m j)
  unfolding contains_key
  contains_key-insert m k v j = ground (arith, get-insert m k v j)

  pub contains_key-remove :
      (m : HashMap V) (k j : ℕ)
      → contains_key (remove m k) j ≡ (if k == j then false else contains_key m j)
  unfolding contains_key
  contains_key-remove m k j = ground (arith, get-remove m k j)

  -- A key that is there, written again.
  pub contains_key-reinsert :
      (m : HashMap V) (k : ℕ) (v w : V) (j : ℕ)
      → get m k ≡ some w
      → contains_key (insert m k v) j ≡ contains_key m j
  unfolding contains_key
  contains_key-reinsert m k v w j found = ground (arith, get-insert m k v j)

  pub entry_count-insert :
      (m : HashMap V) (k : ℕ) (v : V) → entry_count (insert m k v) ≤ suc (entry_count m)
  unfolding entry_count insert
  entry_count-insert [] k v = omega arith
  entry_count-insert ((i, w) ∷ m) k v = ground (arith, entry_count-insert m k v)

  pub entry_count-reinsert :
      (m : HashMap V) (k : ℕ) (v w : V)
      → get m k ≡ some w
      → entry_count (insert m k v) ≡ entry_count m
  unfolding entry_count insert get
  entry_count-reinsert [] k v w found = cc
  entry_count-reinsert ((i, u) ∷ m) k v w found = ground (arith, entry_count-reinsert m k v w)

  pub entry_count-remove : (m : HashMap V) (k : ℕ) → entry_count (remove m k) ≤ entry_count m
  unfolding entry_count remove
  entry_count-remove [] k = omega arith
  entry_count-remove ((i, w) ∷ m) k = ground (arith, entry_count-remove m k)

pub ruleset map_laws = (get-nil, get-insert, get-remove)
