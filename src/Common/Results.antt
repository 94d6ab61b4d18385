-- ===== src/Common/Results.antt =====
-- A computation that may throw: `err` carries the thrown error.
use mathlib.Core.Path.{◌≡◌, refl}
use mathlib.Core.Bool.{Bool, true, false}
use mathlib.Core.Logic.{◌⊎◌, inl, inr}

pub data Result {ℓ κ} (E : Type κ) (A : Type ℓ) : Type (ℓ ⊔ κ) where
  err : E → Result E A
  ok : A → Result E A

module _ {μ} {E : Type μ} where
  -- `if (test) throw e;`
  abbrev pub throw_if : Bool → E → Result E (Unit {0})
  throw_if false e = ok tt
  throw_if true e = err e

  module _ {κ} {B : Type κ} where
    module _ {ℓ} {A : Type ℓ} where
      infixl 5 ◌>>=◌
      abbrev pub ◌>>=◌ : Result E A → (A → Result E B) → Result E B
      err thrown >>= rest = err thrown
      ok value >>= rest = rest value

      -- If all of it succeeds, so does the first part, and the rest on its value.
      pub >>=-eq-ok :
          (first : Result E A) (rest : A → Result E B) {y : B} (h : (first >>= rest) ≡ ok y)
          → (value : A) × (first ≡ ok value) × (rest value ≡ ok y)
      >>=-eq-ok (err thrown) rest h = cc
      >>=-eq-ok (ok value) rest h = (value, refl, h)

    infixl 5 ◌>>◌
    -- The statements that follow are run unless an error was thrown.
    abbrev pub ◌>>◌ : Result E (Unit {0}) → Result E B → Result E B
    checked >> rest = checked >>= λ _. rest

  pub Result-cases {ℓ} :
      {A : Type ℓ} (r : Result E A)
      → ((value : A) × (r ≡ ok value)) ⊎ ((thrown : E) × (r ≡ err thrown))
  Result-cases (err thrown) = inr (thrown, refl)
  Result-cases (ok value) = inl (value, refl)
