-- ===== src/Proto/Bytes.antt =====
-- The big-endian codecs of Rust's integers, `to_be_bytes` and `from_be_bytes`, for every width.
use kalandra.Prelude.{
  ℕ, zero, suc, ◌+◌, ◌*◌, ◌/◌, ◌%◌, ◌^◌, ◌<◌, ◌≡◌, refl, List, [], ◌∷◌, ◌++◌, arith, length,
  length-append, All, All-append, append_assoc, append-nil,
}
use native.Mathlib.Nat.{pow-suc}

abbrev pub IsByte : ℕ → Type 0
IsByte b = b < 256

-- The last `width` base-256 digits of a number, the most significant first.
unfoldable pub to_be_bytes : ℕ → ℕ → List ℕ
to_be_bytes zero n = []
to_be_bytes (suc width) n = to_be_bytes width (n / 256) ++ (n % 256) ∷ []

unfoldable pub from_digits : ℕ → List ℕ → ℕ
from_digits acc [] = acc
from_digits acc (b ∷ bs) = from_digits (acc * 256 + b) bs

unfoldable pub from_be_bytes : List ℕ → ℕ
unfolding from_digits
from_be_bytes bs = from_digits 0 bs

from_digits-append :
    (acc : ℕ) (bs cs : List ℕ) → from_digits acc (bs ++ cs) ≡ from_digits (from_digits acc bs) cs
unfolding from_digits
from_digits-append acc [] cs = refl
from_digits-append acc (b ∷ bs) cs = from_digits-append (acc * 256 + b) bs cs

pub length-to_be_bytes : (width n : ℕ) → length (to_be_bytes width n) ≡ width
unfolding to_be_bytes
length-to_be_bytes zero n = refl
length-to_be_bytes (suc width) n = omega (
  arith,
  length-append (to_be_bytes width (n / 256)) ((n % 256) ∷ []),
  length-to_be_bytes width (n / 256),
)

pub to_be_bytes-IsByte : (width n : ℕ) → All IsByte (to_be_bytes width n)
unfolding to_be_bytes
to_be_bytes-IsByte zero n = tt
to_be_bytes-IsByte (suc width) n =
    All-append IsByte (to_be_bytes width (n / 256)) ((n % 256) ∷ [])
      (to_be_bytes-IsByte width (n / 256)) (omega arith, tt)

-- A number that fits the width is read back from its bytes.
pub from-to_be_bytes : (width n : ℕ) → n < 256 ^ width → from_be_bytes (to_be_bytes width n) ≡ n
unfolding from_be_bytes to_be_bytes
from-to_be_bytes zero n h = omega (arith)
from-to_be_bytes (suc width) n h =
    rw (from_digits-append 0 (to_be_bytes width (n / 256)) ((n % 256) ∷ []))
      (omega (arith, from-to_be_bytes width (n / 256) (omega (arith, pow-suc 256 width))))

to_be_bytes-from_digits :
    (j acc : ℕ) (bs : List ℕ)
    → All IsByte bs
    → to_be_bytes (length bs + j) (from_digits acc bs) ≡ to_be_bytes j acc ++ bs
unfolding from_digits to_be_bytes
to_be_bytes-from_digits j acc [] h = let same : 0 + j ≡ j = omega arith in rw (same, append-nil)
to_be_bytes-from_digits j acc (b ∷ bs) h =
    let shift : suc (length bs) + j ≡ length bs + suc j = omega arith in
    let high : (acc * 256 + b) / 256 ≡ acc = omega arith in
    let low : (acc * 256 + b) % 256 ≡ b = omega arith in
    rw shift (
      rw (to_be_bytes-from_digits (suc j) (acc * 256 + b) bs h.1)
        (rw (high, low) (append_assoc (to_be_bytes j acc) (b ∷ []) bs)))

-- Bytes are read as a number that is written as the same bytes.
pub to-from_be_bytes :
    (bs : List ℕ) → All IsByte bs → to_be_bytes (length bs) (from_be_bytes bs) ≡ bs
unfolding from_be_bytes
to-from_be_bytes bs h =
    let same : length bs ≡ length bs + 0 = omega arith in
    rw same (unfold to_be_bytes in to_be_bytes-from_digits 0 0 bs h)
