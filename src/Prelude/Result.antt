-- ===== src/Prelude/Result.antt =====
-- Go's `error` values, and functions that return a value or an error.
use Prim.Native.String.{String}
use mathlib.Core.Path.{◌≡◌, refl}
use mathlib.Core.Logic.{◌⊎◌, inl, inr}

-- `errors.New(m)`, and `fmt.Errorf("m: %w", cause)`
pub data Error : Type 0 where
  error : String → Error
  wrap : String → Error → Error

pub data Result {ℓ} (A : Type ℓ) : Type ℓ where
  err : Error → Result A
  ok : A → Result A

module _ {ℓ} {A : Type ℓ} where
  pub Result-cases : (r : Result A) → ((a : A) × (r ≡ ok a)) ⊎ ((cause : Error) × (r ≡ err cause))
  Result-cases (err cause) = inr (cause, refl)
  Result-cases (ok a) = inl (a, refl)

module _ {ℓ κ} {A : Type ℓ} {B : Type κ} where
  infixl 5 ◌>>=◌
  -- `if err != nil { return err }`, and what follows with the value
  abbrev pub ◌>>=◌ : Result A → (A → Result B) → Result B
  err cause >>= next = err cause
  ok a >>= next = next a

  -- a chain that succeeds has had the value of its first step
  pub >>=-eq-ok :
      (r : Result A) (next : A → Result B) {b : B}
      → (r >>= next) ≡ ok b
      → (a : A) × (r ≡ ok a) × (next a ≡ ok b)
  >>=-eq-ok (err cause) next h = cc
  >>=-eq-ok (ok a) next h = (a, refl, h)
