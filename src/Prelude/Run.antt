-- ===== src/Prelude/Run.antt =====
-- Go code that may panic: a value, or the run-time panic that ends the call.
pub data Fault : Type 0 where
  divide_by_zero slice_bounds type_assertion nil_dereference index_range : Fault

pub data Run {ℓ} (A : Type ℓ) : Type ℓ where
  panic : Fault → Run A
  ret : A → Run A

module _ {ℓ κ} {A : Type ℓ} {B : Type κ} where
  infixl 5 ◌>>=◌
  -- what follows is not reached after a panic
  abbrev pub ◌>>=◌ : Run A → (A → Run B) → Run B
  panic fault >>= next = panic fault
  ret a >>= next = next a
