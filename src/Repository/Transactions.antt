-- ===== src/Repository/Transactions.antt =====
-- The operations of pkg/infrastructure/repositories/repository.go in a transaction: TransactionRepository,
-- from BeginTx to before CommitTx.
use msa_core.Prelude.{ℕ, String, ◌≡◌, ◌≢◌, refl, ◌∙◌, List, [], ◌∷◌}
use msa_core.Repository.{in_tx, Clause, Action, Gorm, run}
use msa_core.Repository.Writes.{
  create_tx, save_tx, update_tx, update_with_condition_tx, delete_tx, delete_where_tx, begin_tx,
}

-- a call of a method of TransactionRepository that takes a transaction, but for CommitTx
pub data TxMethod (T V : Type 0) : Type 0 where
  create_method save_method delete_method : T → TxMethod T V
  update_method : T → List (String × V) → TxMethod T V
  update_where_method : T → List (String × V) → String → List V → TxMethod T V
  delete_where_method : T → String → List V → TxMethod T V

module _ {T V S : Type 0} (g : Gorm T V S) where
  -- the state after the call
  unfoldable pub tx_effect : ℕ → TxMethod T V → S → S
  tx_effect tx (create_method target) s = (create_tx g target tx s).1
  tx_effect tx (save_method target) s = (save_tx g target tx s).1
  tx_effect tx (delete_method target) s = (delete_tx g target tx s).1
  tx_effect tx (update_method target changes) s = (update_tx g target changes tx s).1
  tx_effect tx (update_where_method target changes condition args) s =
      (update_with_condition_tx g target changes condition tx args s).1
  tx_effect tx (delete_where_method target condition args) s =
      (delete_where_tx g target condition tx args s).1

  -- calls in any number of transactions, each with its transaction, in the order in which they come
  unfoldable pub tx_effects : List (ℕ × TxMethod T V) → S → S
  tx_effects [] s = s
  tx_effects ((tx, m) ∷ ms) s = tx_effects ms (tx_effect tx m s)

-- What a database documents of its transactions: `visible` is what those outside see, and `pending` what
-- a transaction has written. A statement in a transaction changes neither what is visible nor what
-- another transaction has written, and Begin does not either.
pub record IsTransactional {T V S W : Type 0} (g : Gorm T V S) (visible : S → W)
    (pending : S → ℕ → W) : Type 0 where
  pub hidden :
      (n : ℕ) (cs : List (Clause T V)) (a : Action T V) (s : S)
      → visible (g.execute (in_tx n) cs a s).1 ≡ visible s
  pub separate :
      (n m : ℕ) (cs : List (Clause T V)) (a : Action T V) (s : S)
      → n ≢ m
      → pending (g.execute (in_tx n) cs a s).1 m ≡ pending s m
  pub begun : (s : S) → visible (g.begin s).1 ≡ visible s

-- no call of the list is in the transaction
abbrev pub Outside : {T V : Type 0} → ℕ → List (ℕ × TxMethod T V) → Type 0
Outside tx [] = Unit
Outside tx ((n, m) ∷ ms) = (n ≢ tx) × Outside tx ms

module _ {T V S W : Type 0} (g : Gorm T V S) (visible : S → W) (pending : S → ℕ → W)
    (law : IsTransactional g visible pending) where
  tx_effect-visible : (tx : ℕ) (m : TxMethod T V) (s : S) → visible (tx_effect g tx m s) ≡ visible s
  unfolding tx_effect create_tx save_tx delete_tx update_tx update_with_condition_tx delete_where_tx
      run
  tx_effect-visible tx (create_method target) s = law.hidden tx _ _ s
  tx_effect-visible tx (save_method target) s = law.hidden tx _ _ s
  tx_effect-visible tx (delete_method target) s = law.hidden tx _ _ s
  tx_effect-visible tx (update_method target changes) s = law.hidden tx _ _ s
  tx_effect-visible tx (update_where_method target changes condition args) s = law.hidden tx _ _ s
  tx_effect-visible tx (delete_where_method target condition args) s = law.hidden tx _ _ s

  tx_effect-pending :
      (tx other : ℕ) (m : TxMethod T V) (s : S)
      → tx ≢ other
      → pending (tx_effect g tx m s) other ≡ pending s other
  unfolding tx_effect create_tx save_tx delete_tx update_tx update_with_condition_tx delete_where_tx
      run
  tx_effect-pending tx o (create_method target) s ne = law.separate tx o _ _ s ne
  tx_effect-pending tx o (save_method target) s ne = law.separate tx o _ _ s ne
  tx_effect-pending tx o (delete_method target) s ne = law.separate tx o _ _ s ne
  tx_effect-pending tx o (update_method target changes) s ne = law.separate tx o _ _ s ne
  tx_effect-pending tx o (update_where_method target changes condition args) s ne =
      law.separate tx o _ _ s ne
  tx_effect-pending tx o (delete_where_method target condition args) s ne =
      law.separate tx o _ _ s ne

  tx_effects-visible :
      (ms : List (ℕ × TxMethod T V)) (s : S) → visible (tx_effects g ms s) ≡ visible s
  unfolding tx_effects
  tx_effects-visible [] s = refl
  tx_effects-visible ((tx, m) ∷ ms) s =
      tx_effects-visible ms (tx_effect g tx m s) ∙ tx_effect-visible tx m s

  tx_effects-pending :
      (other : ℕ) (ms : List (ℕ × TxMethod T V)) (s : S)
      → Outside other ms
      → pending (tx_effects g ms s) other ≡ pending s other
  unfolding tx_effects
  tx_effects-pending o [] s h = refl
  tx_effects-pending o ((tx, m) ∷ ms) s (ne, h) =
      tx_effects-pending o ms (tx_effect g tx m s) h ∙ tx_effect-pending tx o m s ne

  begin_tx-visible : (s : S) → visible (begin_tx g s).1 ≡ visible s
  unfolding begin_tx
  begin_tx-visible s = law.begun s

-- After BeginTx and any calls of CreateTx, SaveTx, UpdateTx, UpdateWithConditionTx, DeleteTx and
-- DeleteWhereTx, in any number of transactions and in any order, those outside see what they saw
-- before BeginTx, and a transaction that none of the calls is in has written what it had written
-- after BeginTx, whether the calls fail or not. The database's own statements and its Begin are
-- isolated in this way.
pub transactions_isolated :
    {T V S W : Type 0} (g : Gorm T V S) (visible : S → W) (pending : S → ℕ → W)
    → IsTransactional g visible pending
    → (ms : List (ℕ × TxMethod T V)) (other : ℕ) (s : S) → Outside other ms
    → (visible (tx_effects g ms (begin_tx g s).1) ≡ visible s)
      × (pending (tx_effects g ms (begin_tx g s).1) other ≡ pending (begin_tx g s).1 other)
transactions_isolated g visible pending law ms other s h = (
  tx_effects-visible g visible pending law ms (begin_tx g s).1
      ∙ begin_tx-visible g visible pending law s,
  tx_effects-pending g visible pending law other ms (begin_tx g s).1 h,
)
