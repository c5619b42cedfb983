-- ===== src/Repository/Reads.antt =====
-- The queries of pkg/infrastructure/repositories/repository.go. Their result is the error, and the
-- rows are in the target.
use msa_core.Prelude.{String, Option, List, [], ◌∷◌, ◌++◌}
use msa_core.Prelude.Int.{ℤ}
use msa_core.Repository.{
  DbError, base, Clause, order, unscoped, where_clause, limit, offset, find, first, scan, Gorm,
  GormRepository, handle_error, handle_one_error, db_with_preloads, field_is, filtered, M, run,
}

abbrev pub newest_first : {T V : Type 0} → Clause T V
newest_first = order "created_at DESC"

module _ {T V S : Type 0} (g : Gorm T V S) (r : GormRepository) where
  query : List String → List (Clause T V) → T → M S (Option DbError)
  query preloads clauses target =
      run g handle_error base (db_with_preloads r preloads ++ clauses) (find target)

  query_one : List String → List (Clause T V) → T → M S (Option DbError)
  query_one preloads clauses target =
      run g handle_one_error base (db_with_preloads r preloads ++ clauses) (first target)

  unfoldable pub get_all : T → List String → M S (Option DbError)
  unfolding query
  get_all target preloads = query preloads (unscoped ∷ []) target

  unfoldable pub get_batch : T → ℤ → ℤ → List String → M S (Option DbError)
  unfolding query
  get_batch target lim off preloads = query preloads (unscoped ∷ limit lim ∷ offset off ∷ []) target

  unfoldable pub get_where : T → String → List String → M S (Option DbError)
  unfolding query
  get_where target condition preloads =
      query preloads (where_clause condition [] ∷ newest_first ∷ []) target

  unfoldable pub get_where_with_args : T → String → List V → List String → M S (Option DbError)
  unfolding query
  get_where_with_args target condition args preloads =
      query preloads (where_clause condition args ∷ newest_first ∷ []) target

  unfoldable pub get_where_pagging : T → String → ℤ → ℤ → List String → M S (Option DbError)
  unfolding query
  get_where_pagging target condition lim off preloads =
      query preloads (where_clause condition [] ∷ limit lim ∷ offset off ∷ newest_first ∷ []) target

  unfoldable pub get_where_batch : T → String → ℤ → ℤ → List String → M S (Option DbError)
  unfolding query
  get_where_batch target condition lim off preloads =
      query preloads (where_clause condition [] ∷ limit lim ∷ offset off ∷ newest_first ∷ []) target

  unfoldable pub get_where_with_order :
      T → String → String → ℤ → ℤ → List String → List V → M S (Option DbError)
  unfolding query
  get_where_with_order target condition order_by lim off preloads args =
      query preloads (where_clause condition args ∷ order order_by ∷ limit lim ∷ offset off ∷ [])
        target

  unfoldable pub get_by_field : T → String → V → List String → M S (Option DbError)
  unfolding query
  get_by_field target field value preloads =
      query preloads (field_is field value ∷ newest_first ∷ []) target

  unfoldable pub get_by_fields : T → List (String × V) → List String → M S (Option DbError)
  unfolding query
  get_by_fields target filters preloads =
      query preloads (filtered filters ++ newest_first ∷ []) target

  unfoldable pub get_by_field_batch : T → String → V → ℤ → ℤ → List String → M S (Option DbError)
  unfolding query
  get_by_field_batch target field value lim off preloads =
      query preloads (field_is field value ∷ limit lim ∷ offset off ∷ newest_first ∷ []) target

  unfoldable pub get_by_fields_batch :
      T → List (String × V) → ℤ → ℤ → List String → M S (Option DbError)
  unfolding query
  get_by_fields_batch target filters lim off preloads =
      query preloads (filtered filters ++ limit lim ∷ offset off ∷ newest_first ∷ []) target

  unfoldable pub get_one_by_field : T → String → V → List String → M S (Option DbError)
  unfolding query_one
  get_one_by_field target field value preloads =
      query_one preloads (field_is field value ∷ newest_first ∷ []) target

  unfoldable pub get_one_by_fields : T → List (String × V) → List String → M S (Option DbError)
  unfolding query_one
  get_one_by_fields target filters preloads =
      query_one preloads (filtered filters ++ newest_first ∷ []) target

  unfoldable pub get_one_by_id : T → V → List String → M S (Option DbError)
  unfolding query_one
  get_one_by_id target id preloads =
      query_one preloads (field_is "id" id ∷ newest_first ∷ []) target

  unfoldable pub raw_query : T → String → List V → M S (Option DbError)
  raw_query target sql args = run g handle_error base [] (scan target sql args)
