-- ===== src/Prelude/Exec.antt =====
-- Methods on `&mut self` that may fail. What was written before the error stays written, so the
-- state comes back beside the error too.
use kalandra.Prelude.Tests.{Result, ok, err}

abbrev pub Exec {ℓ} : Type ℓ → Type ℓ → Type ℓ → Type ℓ
Exec S E A = S → Result E A × S

module _ {ℓ} {S E A : Type ℓ} where
  abbrev pub pure : A → Exec S E A
  pure a s = (ok a, s)

  abbrev pub raise : E → Exec S E A
  raise e s = (err e, s)

  abbrev pub lift : Result E A → Exec S E A
  lift r s = (r, s)

  abbrev pub gets : (S → A) → Exec S E A
  gets f s = (ok (f s), s)

module _ {ℓ} {S E : Type ℓ} where
  abbrev pub modify : (S → S) → Exec S E (Unit {ℓ})
  modify f s = (ok tt, f s)

module _ {ℓ} {S E A B : Type ℓ} where
  -- The rest of a block, after a step that returned or failed.
  abbrev pub after : (A → Exec S E B) → Result E A × S → Result E B × S
  after f (ok a, s) = f a s
  after f (err e, s) = (err e, s)

  infixl 5 ◌>>=◌ ◌>>◌
  abbrev pub ◌>>=◌ : Exec S E A → (A → Exec S E B) → Exec S E B
  ◌>>=◌ m f s = after f (m s)

  abbrev pub ◌>>◌ : Exec S E A → Exec S E B → Exec S E B
  ◌>>◌ m n s = after (λ _. n) (m s)
