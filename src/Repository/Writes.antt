-- ===== src/Repository/Writes.antt =====
-- The operations of pkg/infrastructure/repositories/repository.go that change rows, on the connection
-- or in a transaction, and the transactions themselves.
use msa_core.Prelude.{ℕ, String, Option, none, some, List, [], ◌∷◌, ◌⊎◌, inl, inr}
use msa_core.Repository.{
  DbError, base, in_tx, model, where_clause, create, save, delete, updates, exec, Gorm,
  GormRepository, handle_error, db, filtered, M, run,
}

-- the transaction, or the error as gorm gives it
abbrev pub begun : Option DbError → ℕ → DbError ⊎ ℕ
begun none tx = inr tx
begun (some e) tx = inl e

module _ {T V S : Type 0} (g : Gorm T V S) (r : GormRepository) where
  -- the default joins are part of this statement, and of no other write
  unfoldable pub create_row : T → M S (Option DbError)
  create_row target = run g handle_error base (db r) (create target)

module _ {T V S : Type 0} (g : Gorm T V S) where
  unfoldable pub create_tx : T → ℕ → M S (Option DbError)
  create_tx target tx = run g handle_error (in_tx tx) [] (create target)

  unfoldable pub save_row : T → M S (Option DbError)
  save_row target = run g handle_error base [] (save target)

  unfoldable pub save_tx : T → ℕ → M S (Option DbError)
  save_tx target tx = run g handle_error (in_tx tx) [] (save target)

  unfoldable pub update : T → List (String × V) → String → List V → M S (Option DbError)
  update target changes condition args =
      run g handle_error base (model target ∷ where_clause condition args ∷ []) (updates changes)

  unfoldable pub update_tx : T → List (String × V) → ℕ → M S (Option DbError)
  update_tx target changes tx = run g handle_error (in_tx tx) (model target ∷ []) (updates changes)

  unfoldable pub update_with_condition_tx :
      T → List (String × V) → String → ℕ → List V → M S (Option DbError)
  update_with_condition_tx target changes condition tx args =
      run g handle_error (in_tx tx) (model target ∷ where_clause condition args ∷ [])
        (updates changes)

  unfoldable pub delete_row : T → M S (Option DbError)
  delete_row target = run g handle_error base [] (delete target)

  unfoldable pub delete_tx : T → ℕ → M S (Option DbError)
  delete_tx target tx = run g handle_error (in_tx tx) [] (delete target)

  unfoldable pub delete_by_fields : T → List (String × V) → M S (Option DbError)
  delete_by_fields target filters =
      run g handle_error base (model target ∷ filtered filters) (delete target)

  unfoldable pub delete_where : T → String → List V → M S (Option DbError)
  delete_where target condition args =
      run g handle_error base (where_clause condition args ∷ []) (delete target)

  unfoldable pub delete_where_tx : T → String → ℕ → List V → M S (Option DbError)
  delete_where_tx target condition tx args =
      run g handle_error (in_tx tx) (where_clause condition args ∷ []) (delete target)

  unfoldable pub exec_sql : String → List V → M S (Option DbError)
  exec_sql sql args = run g handle_error base [] (exec sql args)

  unfoldable pub begin_tx : M S (DbError ⊎ ℕ)
  begin_tx s = let ((e, tx), s') = g.begin s in (begun e tx, s')

  unfoldable pub commit_tx : ℕ → M S (Option DbError)
  commit_tx tx s = g.commit tx s
