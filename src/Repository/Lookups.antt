-- ===== src/Repository/Lookups.antt =====
-- What the lookups of one row make of gorm's result.
use msa_core.Prelude.{
  String, true, false, ◌≡◌, ◌≢◌, ◌↔◌, ◌⊎◌, inl, inr, refl, ◌∙◌, Option, none, some, List, [], ◌∷◌,
  ◌++◌, arith, Bool-cases, if◌then◌else◌,
}
use msa_core.Prelude.Int.{ℤ, pos, negsuc}
use msa_core.Prelude.Result.{Error, wrap}
use msa_core.Repository.{
  DbError, record_not_found, other, base, Clause, first, Gorm, GormRepository, Report, handle_error,
  handle_one_error, is_one, db_with_preloads, field_is, filtered, run,
}
use msa_core.Repository.Reads.{newest_first, get_one_by_field, get_one_by_fields, get_one_by_id}

-- the report of the statement for one row
abbrev pub report_of :
    {T V S : Type 0}
    → Gorm T V S
    → GormRepository
    → List String
    → List (Clause T V)
    → T
    → S
    → Report
report_of g r preloads clauses target s =
    (g.execute base (db_with_preloads r preloads ++ (clauses ++ newest_first ∷ [])) (first target)
      s).0

-- The three ways in which a lookup ends, by the report: no error exactly if gorm has found one row, or
-- says that it found none and yet counts one; ErrNotFound exactly if there is no other error and the
-- rows are not one; and gorm's error, wrapped, exactly if it has one.
abbrev pub OneRow : Report → Option DbError → Type 0
OneRow res e =
    ((e ≡ none)
      ↔ (((res.error ≡ none) ⊎ (res.error ≡ some record_not_found)) × (res.rows_affected ≡ pos 1)))
    × ((e ≡ some record_not_found) ↔ (
        ((res.error ≡ none) ⊎ (res.error ≡ some record_not_found)) × (res.rows_affected ≢ pos 1)))
    × ((x : Error) → (e ≡ some (other (wrap "error" x))) ↔ (res.error ≡ some (other x)))

is_one_iff : (n : ℤ) → (is_one n ≡ true) ↔ (n ≡ pos 1)
is_one_iff (pos n) = ground arith
is_one_iff (negsuc n) = ground arith

row_cases : (n : ℤ) → ((is_one n ≡ true) × (n ≡ pos 1)) ⊎ ((is_one n ≡ false) × (n ≢ pos 1))
row_cases n = elim (Bool-cases (is_one n)) [
  | inl one ↦ inl (one, (is_one_iff n).0 one)
  | inr many ↦ inr (many, λ e. cc ((is_one_iff n).1 e))
]

rows_OneRow :
    (n counted : ℤ) (o : Option DbError)
    → (o ≡ none) ⊎ (o ≡ some record_not_found)
    → (e : Option DbError) → e ≡ (if is_one n then none else some record_not_found)
    → OneRow (record { error = o; rows_affected = n; counted = counted }) e
rows_OneRow n counted o fine e is = elim (row_cases n) [
  | inl (one, number) ↦
      let e_none : e ≡ none = is ∙ rw one refl in
      (
        (λ q. (fine, number), λ q. e_none),
        (λ q. cc, λ q. absurd (q.1 number)),
        λ x. (λ q. cc, λ q. elim fine [ inl f ↦ cc | inr f ↦ cc ]),
      )
  | inr (many, number) ↦
      let e_missing : e ≡ some record_not_found = is ∙ rw many refl in
      (
        (λ q. cc, λ q. absurd (number q.1)),
        (λ q. (fine, number), λ q. e_missing),
        λ x. (λ q. cc, λ q. elim fine [ inl f ↦ cc | inr f ↦ cc ]),
      )
]

report_OneRow :
    (o : Option DbError) (n counted : ℤ)
    → OneRow
        (record { error = o; rows_affected = n; counted = counted })
        (handle_one_error (record { error = o; rows_affected = n; counted = counted }))
unfolding handle_one_error handle_error
report_OneRow none n counted = rows_OneRow n counted none (inl refl) _ refl
report_OneRow (some record_not_found) n counted =
    rows_OneRow n counted (some record_not_found) (inr refl) _ refl
report_OneRow (some (other y)) n counted = (
  (λ q. cc, λ q. elim q.0 [ inl f ↦ cc | inr f ↦ cc ]),
  (λ q. cc, λ q. elim q.0 [ inl f ↦ cc | inr f ↦ cc ]),
  λ x. (λ q. cc, λ q. cc),
)

handle_one_error-OneRow : (res : Report) → OneRow res (handle_one_error res)
handle_one_error-OneRow res = report_OneRow res.error res.rows_affected res.counted

-- The lookups of one row, by a field, by several fields and by the id, end in one of three ways, by what
-- gorm reports of the one statement that they run (the filters, newest first, the first row). There
-- is no error exactly if gorm counts one row and reports no error but a missing record; the error is
-- ErrNotFound exactly if it counts any other number of rows with no error but that one; and any other
-- error of gorm's is given on, wrapped.
pub lookups-OneRow :
    {T V S : Type 0} (g : Gorm T V S) (r : GormRepository) (target : T) (preloads : List String)
    → (field : String) (value id : V) (filters : List (String × V)) (s : S)
    → OneRow
        (report_of g r preloads (field_is field value ∷ []) target s)
        (get_one_by_field g r target field value preloads s).0
      × OneRow
          (report_of g r preloads (filtered filters) target s)
          (get_one_by_fields g r target filters preloads s).0
      × OneRow
          (report_of g r preloads (field_is "id" id ∷ []) target s)
          (get_one_by_id g r target id preloads s).0
unfolding get_one_by_field get_one_by_fields get_one_by_id run
lookups-OneRow g r target preloads field value id filters s = (
  handle_one_error-OneRow (report_of g r preloads (field_is field value ∷ []) target s),
  handle_one_error-OneRow (report_of g r preloads (filtered filters) target s),
  handle_one_error-OneRow (report_of g r preloads (field_is "id" id ∷ []) target s),
)
