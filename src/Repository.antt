-- ===== src/Repository.antt =====
-- The generic repository of pkg/infrastructure/repositories: what it asks of gorm, and what it makes
-- of the result. gorm with the database is a parameter, over a state that holds the targets of the
-- queries too. Contexts, logging and tracing are left aside.
pub mod Reads
pub mod Writes
pub mod Counts
pub mod Orderless
pub mod Lookups
pub mod Transactions
mod Tests
use msa_core.Prelude.{
  ℕ, String, Bool, true, false, Option, none, some, List, [], ◌∷◌, ◌++◌, map, if◌then◌else◌,
  nat_beq,
}
use msa_core.Prelude.Int.{ℤ, pos, negsuc}
use msa_core.Prelude.Result.{Error, wrap, Result}
use msa_core.Prelude.Text.{◌+++◌}

-- gorm.ErrRecordNotFound, which is ErrNotFound too, and the other errors
pub data DbError : Type 0 where
  record_not_found : DbError
  other : Error → DbError

-- the connection of the repository, or a transaction
pub data On : Type 0 where
  base : On
  in_tx : ℕ → On

-- The calls that build up a statement, in their order. `T` is a target or a model, and `V` a value.
pub data Clause (T V : Type 0) : Type 0 where
  joins preload order : String → Clause T V
  unscoped : Clause T V
  model : T → Clause T V
  where_clause : String → List V → Clause T V
  limit offset : ℤ → Clause T V

-- the call that runs the statement; `scan` is `Raw(sql, args...).Scan(target)`
pub data Action (T V : Type 0) : Type 0 where
  find first create save delete : T → Action T V
  updates : List (String × V) → Action T V
  count : Action T V
  scan : T → String → List V → Action T V
  exec : String → List V → Action T V

-- what is read of the `*gorm.DB` that comes back, and the number that Count has stored
pub record Report : Type 0 where
  pub error : Option DbError
  pub rows_affected : ℤ
  pub counted : ℤ

pub record Gorm (T V S : Type 0) : Type 0 where
  pub execute : On → List (Clause T V) → Action T V → S → Report × S
  pub begin : S → (Option DbError × ℕ) × S
  pub commit : ℕ → S → Option DbError × S

pub record GormRepository : Type 0 where
  pub default_joins : List String

abbrev pub new_gorm_repository : List String → GormRepository
new_gorm_repository default_joins = record { default_joins = default_joins }

-- `HandleError`
unfoldable pub handle_error : Report → Option DbError
handle_error res = elim res.error [
  | none ↦ none
  | some e ↦ elim e [ record_not_found ↦ none | other x ↦ some (other (wrap "error" x)) ]
]

abbrev pub is_one : ℤ → Bool
is_one (pos n) = nat_beq n 1
is_one (negsuc n) = false

-- `HandleOneError`
unfoldable pub handle_one_error : Report → Option DbError
handle_one_error res = elim (handle_error res) [
  | some e ↦ some e
  | none ↦ if is_one res.rows_affected then none else some record_not_found
]

-- `DBWithPreloads`
unfoldable pub db_with_preloads : {T V : Type 0} → GormRepository → List String → List (Clause T V)
db_with_preloads r preloads = map joins r.default_joins ++ map preload preloads

-- `DB`
unfoldable pub db : {T V : Type 0} → GormRepository → List (Clause T V)
db r = db_with_preloads r []

-- `Where(fmt.Sprintf("%v = ?", field), value)`
abbrev pub field_is : {T V : Type 0} → String → V → Clause T V
field_is field value = where_clause (field +++ " = ?") (value ∷ [])

-- the loop over a map of filters, in the order in which the map is gone through
unfoldable pub filtered : {T V : Type 0} → List (String × V) → List (Clause T V)
filtered [] = []
filtered ((field, value) ∷ filters) = field_is field value ∷ filtered filters

abbrev pub M : Type 0 → Type 0 → Type 0
M S A = S → A × S

module _ {T V S : Type 0} (g : Gorm T V S) where
  -- a statement, and HandleError or HandleOneError of its result
  unfoldable pub run :
      (Report → Option DbError) → On → List (Clause T V) → Action T V → M S (Option DbError)
  run handle on clauses action s = let (res, s') = g.execute on clauses action s in (handle res, s')
