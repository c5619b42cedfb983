-- ===== src/Repository/Tests.antt =====
-- The repository on a small database: the rows that all see, and for each transaction the number of its
-- statements. A query finds as many rows as its statement says in its one condition.
use msa_core.Prelude.{
  ℕ, suc, ◌+◌, String, ◌≡◌, ◌≢◌, refl, ap, none, some, List, [], ◌∷◌, ◌++◌, arith, nat_beq,
  if◌then◌else◌,
}
use msa_core.Prelude.Int.{pos}
use msa_core.Repository.{
  record_not_found, On, base, in_tx, Clause, joins, preload, order, unscoped, model, where_clause,
  limit, offset, Report, Gorm, GormRepository, new_gorm_repository, filtered, field_is,
}
use msa_core.Repository.Reads.{
  get_by_fields, get_by_fields_batch, get_one_by_fields, get_one_by_field, get_one_by_id,
}
use msa_core.Repository.Writes.{delete_by_fields, begin_tx}
use msa_core.Repository.Counts.{exists_by_fields, count_rows, count_with_join}
use msa_core.Repository.Orderless.{swapped, Conjunctive, filters-Reordered}
use msa_core.Repository.Lookups.{OneRow, report_of, lookups-OneRow}
use msa_core.Repository.Transactions.{
  TxMethod, create_method, delete_method, tx_effects, IsTransactional, transactions_isolated,
}

abbrev State : Type 0
State = ℕ × (ℕ → ℕ)

-- how many conditions a statement has
abbrev conditions : List (Clause ℕ ℕ) → ℕ
conditions [] = 0
conditions (where_clause f v ∷ cs) = suc (conditions cs)
conditions (joins t ∷ cs) = conditions cs
conditions (preload t ∷ cs) = conditions cs
conditions (order t ∷ cs) = conditions cs
conditions (unscoped ∷ cs) = conditions cs
conditions (model t ∷ cs) = conditions cs
conditions (limit n ∷ cs) = conditions cs
conditions (offset n ∷ cs) = conditions cs

abbrev report : ℕ → Report
report n = record {
  error = if nat_beq n 0 then some record_not_found else none;
  rows_affected = pos n;
  counted = pos n;
}

abbrev next_state : On → State → State
next_state base (n, pending) = (n + 1, pending)
next_state (in_tx tx) (n, pending) = (n, λ m. if nat_beq m tx then pending m + 1 else pending m)

abbrev database : Gorm ℕ ℕ State
database = record {
  execute = λ on cs a s. (report (conditions cs), next_state on s);
  begin = λ s. ((none, 7), s);
  commit = λ tx s. (none, s);
}

abbrev start : State
start = (5, λ m. 0)

conditions_swapped :
    (cs : List (Clause ℕ ℕ)) (after : List (Clause ℕ ℕ)) (f h : String) (v w : List ℕ)
    → conditions (cs ++ (where_clause f v ∷ where_clause h w ∷ after))
      ≡ conditions (cs ++ (where_clause h w ∷ where_clause f v ∷ after))
conditions_swapped [] after f h v w = refl
conditions_swapped (where_clause g u ∷ cs) after f h v w =
    ap suc (conditions_swapped cs after f h v w)
conditions_swapped (joins t ∷ cs) after f h v w = conditions_swapped cs after f h v w
conditions_swapped (preload t ∷ cs) after f h v w = conditions_swapped cs after f h v w
conditions_swapped (order t ∷ cs) after f h v w = conditions_swapped cs after f h v w
conditions_swapped (unscoped ∷ cs) after f h v w = conditions_swapped cs after f h v w
conditions_swapped (model t ∷ cs) after f h v w = conditions_swapped cs after f h v w
conditions_swapped (limit n ∷ cs) after f h v w = conditions_swapped cs after f h v w
conditions_swapped (offset n ∷ cs) after f h v w = conditions_swapped cs after f h v w

database-Conjunctive : Conjunctive database
database-Conjunctive on before after f h v w a s =
    ap (λ (n : ℕ). (report n, next_state on s)) (conditions_swapped before after f h v w)

hidden_write : (n : ℕ) (s : State) → (next_state (in_tx n) s).0 ≡ s.0
hidden_write n (k, pending) = refl

separate_write : (n m : ℕ) (s : State) → n ≢ m → (next_state (in_tx n) s).1 m ≡ s.1 m
separate_write n m (k, pending) ne = ground arith

database-IsTransactional : IsTransactional database (λ s. s.0) (λ s. s.1)
database-IsTransactional = record {
  hidden = λ n cs a s. hidden_write n s;
  separate = λ n m cs a s ne. separate_write n m s ne;
  begun = λ s. refl;
}

abbrev repository : GormRepository
repository = new_gorm_repository ("Owner" ∷ [])

abbrev one_way : List (String × ℕ)
one_way = ("name", 1) ∷ ("age", 2) ∷ []

abbrev other_way : List (String × ℕ)
other_way = ("age", 2) ∷ ("name", 1) ∷ []

filters-Reordered_example :
    (get_by_fields database repository 0 one_way [] start
      ≡ get_by_fields database repository 0 other_way [] start)
    × (get_by_fields_batch database repository 0 one_way (pos 10) (pos 0) [] start
        ≡ get_by_fields_batch database repository 0 other_way (pos 10) (pos 0) [] start)
    × (get_one_by_fields database repository 0 one_way [] start
        ≡ get_one_by_fields database repository 0 other_way [] start)
    × (delete_by_fields database 0 one_way start ≡ delete_by_fields database 0 other_way start)
    × (exists_by_fields database 0 one_way start ≡ exists_by_fields database 0 other_way start)
    × (count_rows database 0 one_way start ≡ count_rows database 0 other_way start)
    × (count_with_join database 0 "Owner" one_way start
        ≡ count_with_join database 0 "Owner" other_way start)
filters-Reordered_example =
    filters-Reordered database database-Conjunctive repository 0 [] (pos 10) (pos 0) "Owner" start
      (swapped ("name", 1) ("age", 2))

lookups-OneRow_example :
    OneRow
      (report_of database repository [] (field_is "name" 1 ∷ []) 0 start)
      (get_one_by_field database repository 0 "name" 1 [] start).0
    × OneRow
        (report_of database repository [] (filtered one_way) 0 start)
        (get_one_by_fields database repository 0 one_way [] start).0
    × OneRow
        (report_of database repository [] (field_is "id" 3 ∷ []) 0 start)
        (get_one_by_id database repository 0 3 [] start).0
lookups-OneRow_example = lookups-OneRow database repository 0 [] "name" 1 3 one_way start

abbrev steps : List (ℕ × TxMethod ℕ ℕ)
steps = (7, create_method 1) ∷ (8, delete_method 2) ∷ (7, delete_method 3) ∷ []

transactions_isolated_example :
    ((tx_effects database steps (begin_tx database start).1).0 ≡ start.0)
    × ((tx_effects database steps (begin_tx database start).1).1 9
        ≡ (begin_tx database start).1.1 9)
transactions_isolated_example =
    transactions_isolated database (λ s. s.0) (λ s. s.1) database-IsTransactional steps 9 start
      (omega arith)
