-- ===== src/Prelude/Sets.antt =====
-- Rust's `HashSet` of integers, as a list. `is_empty` is a match on `[]`.
use Prim.Native.Nat.{ℕ}
use mathlib.Core.Path.{◌≡◌, refl}
use mathlib.Core.Bool.{Bool, true, false}
use mathlib.Core.List.{List, [], ◌∷◌}
use native.Mathlib.Omega.{arith}
use kalandra.Prelude.Tests.{◌==◌, if◌then◌else◌}

abbrev pub HashSet : Type 0
HashSet = List ℕ

unfoldable pub contains : HashSet → ℕ → Bool
contains [] a = false
contains (x ∷ xs) a = if x == a then true else contains xs a

unfoldable pub add : HashSet → ℕ → HashSet
unfolding contains
add xs a = if contains xs a then xs else a ∷ xs

unfoldable pub discard : HashSet → ℕ → HashSet
discard [] a = []
discard (x ∷ xs) a = let rest = discard xs a in if x == a then rest else x ∷ rest

pub contains-nil : (a : ℕ) → contains [] a ≡ false
unfolding contains
contains-nil a = refl

pub contains-add :
    (xs : HashSet) (a b : ℕ) → contains (add xs a) b ≡ (if a == b then true else contains xs b)
unfolding add
contains-add xs a b = ground (arith, contains_step xs a b)
  where
    contains_step : (ys : HashSet) (c d : ℕ) → contains ys c ≡ true → c ≡ d → contains ys d ≡ true
    contains_step ys c d h e = ground arith

pub contains-discard :
    (xs : HashSet) (a b : ℕ) → contains (discard xs a) b ≡ (if a == b then false else contains xs b)
unfolding contains discard
contains-discard [] a b = ground arith
contains-discard (x ∷ xs) a b = ground (arith, contains-discard xs a b)

-- A set that contains nothing is the empty list.
pub contains-empty : (xs : HashSet) → ((a : ℕ) → contains xs a ≡ false) → xs ≡ []
unfolding contains
contains-empty [] h = refl
contains-empty (x ∷ xs) h = ground (arith, h x)

pub ruleset set_laws = (contains-nil, contains-add, contains-discard)
