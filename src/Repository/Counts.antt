-- ===== src/Repository/Counts.antt =====
-- The operations of pkg/infrastructure/repositories/repository.go that count rows. They give gorm's
-- error as it is, not through HandleError.
use msa_core.Prelude.{
  String, Bool, not, none, some, List, [], ◌∷◌, ◌++◌, ◌==◌, if◌then◌else◌, ◌⊎◌, inl, inr,
}
use msa_core.Prelude.Int.{ℤ, pos, leb_ℤ}
use msa_core.Repository.{
  DbError, base, Clause, joins, model, where_clause, count, Report, Gorm, field_is, filtered, M,
}

-- `res.Error` or the number
abbrev pub count_or_error : Report → DbError ⊎ ℤ
count_or_error res = elim res.error [ some e ↦ inl e | none ↦ inr res.counted ]

-- `count > 0`
abbrev pub some_row : DbError ⊎ ℤ → DbError ⊎ Bool
some_row (inl e) = inl e
some_row (inr n) = inr (not (leb_ℤ n (pos 0)))

module _ {T V S : Type 0} (g : Gorm T V S) where
  counted_rows : List (Clause T V) → M S (DbError ⊎ ℤ)
  counted_rows clauses s =
      let (res, s') = g.execute base clauses count s in (count_or_error res, s')

  exists_rows : List (Clause T V) → M S (DbError ⊎ Bool)
  exists_rows clauses s = let (n, s') = counted_rows clauses s in (some_row n, s')

  unfoldable pub exists_by_field : T → String → V → M S (DbError ⊎ Bool)
  unfolding exists_rows counted_rows
  exists_by_field target field value = exists_rows (model target ∷ field_is field value ∷ [])

  unfoldable pub exists_by_fields : T → List (String × V) → M S (DbError ⊎ Bool)
  unfolding exists_rows counted_rows
  exists_by_fields target filters = exists_rows (model target ∷ filtered filters)

  unfoldable pub count_rows : T → List (String × V) → M S (DbError ⊎ ℤ)
  unfolding counted_rows
  count_rows target filters = counted_rows (model target ∷ filtered filters)

  unfoldable pub count_with_join : T → String → List (String × V) → M S (DbError ⊎ ℤ)
  unfolding counted_rows
  count_with_join target join filters =
      counted_rows
        (model target ∷ ((if join == "" then [] else joins join ∷ []) ++ filtered filters))

  unfoldable pub count_with_where : T → String → List V → M S (DbError ⊎ ℤ)
  unfolding counted_rows
  count_with_where target condition args =
      counted_rows (model target ∷ where_clause condition args ∷ [])
