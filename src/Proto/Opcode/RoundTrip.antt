-- ===== src/Proto/Opcode/RoundTrip.antt =====
-- crates/lockframe-proto/src/opcodes.rs: `to_u16` and `from_u16` invert one another.
use kalandra.Prelude.{
  ℕ, ◌≡◌, refl, ◌↔◌, some, List, [], ◌∷◌, arith, All, ◌==◌, ==_iff, Bool-cases, inl, inr,
}
use kalandra.Proto.Opcode.{Opcode, to_u16, from_u16, arms, match_arm}

pub from-to_u16 : (o : Opcode) → from_u16 (to_u16 o) ≡ some o
unfolding from_u16 to_u16
from-to_u16 Opcode.hello = refl
from-to_u16 _ = refl

abbrev IsArm : ℕ × Opcode → Type 0
IsArm (v, o) = v ≡ to_u16 o

match_arm-IsArm :
    (value : ℕ) (rest : List (ℕ × Opcode)) (o : Opcode)
    → All IsArm rest
    → match_arm value rest ≡ some o
    → to_u16 o ≡ value
unfolding match_arm
match_arm-IsArm value [] o h e = cc
match_arm-IsArm value ((v, p) ∷ rest) o h e = elim (Bool-cases (value == v)) [
  | inl hit ↦ cc ((==_iff value v).0 hit, h.0, rw (hit) at e)
  | inr miss ↦ match_arm-IsArm value rest o h.1 (rw miss at e)
]

arms-IsArm : All IsArm arms
unfolding to_u16
arms-IsArm = omega arith

-- A value is read as an opcode exactly when it is that opcode's code.
pub from_u16_iff : (value : ℕ) (o : Opcode) → (from_u16 value ≡ some o) ↔ (to_u16 o ≡ value)
unfolding from_u16
from_u16_iff value o = (match_arm-IsArm value arms o arms-IsArm, λ e. rw (← e) (from-to_u16 o))
