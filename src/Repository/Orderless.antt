-- ===== src/Repository/Orderless.antt =====
-- Filters are a Go map, which is gone through in any order: the order changes no result.
use mathlib.Core.List.{append_assoc, append-nil}
use msa_core.Prelude.{String, ◌≡◌, refl, ap, sym, ◌∙◌, List, [], ◌∷◌, ◌++◌, ◌==◌, if◌then◌else◌}
use msa_core.Prelude.Int.{ℤ}
use msa_core.Repository.{
  On, base, Clause, joins, model, where_clause, limit, offset, Action, find, first, delete, count,
  Gorm, Report, GormRepository, field_is, db_with_preloads, filtered, handle_error,
  handle_one_error, run,
}
use msa_core.Repository.Reads.{newest_first, get_by_fields, get_by_fields_batch, get_one_by_fields}
use msa_core.Repository.Writes.{delete_by_fields}
use msa_core.Repository.Counts.{
  count_or_error, some_row, exists_by_fields, count_rows, count_with_join,
}

-- the same entries in another order
pub data Reordered {A : Type 0} : List A → List A → Type 0 where
  same : {xs : List A} → Reordered xs xs
  keep : {xs ys : List A} (x : A) → Reordered xs ys → Reordered (x ∷ xs) (x ∷ ys)
  swapped : {xs : List A} (x y : A) → Reordered (x ∷ y ∷ xs) (y ∷ x ∷ xs)
  chained : {xs ys zs : List A} → Reordered xs ys → Reordered ys zs → Reordered xs zs

-- What gorm documents of conditions: they are joined by AND, so two in a row can be exchanged.
abbrev pub Conjunctive : {T V S : Type 0} → Gorm T V S → Type 0
Conjunctive {T} {V} {S} g =
    (on : On) (before after : List (Clause T V)) (f h : String) (v w : List V) (action : Action T V)
    (s : S)
    → g.execute on (before ++ (where_clause f v ∷ where_clause h w ∷ after)) action s
      ≡ g.execute on (before ++ (where_clause h w ∷ where_clause f v ∷ after)) action s

module _ {T V S : Type 0} (g : Gorm T V S) (conj : Conjunctive g) where
  filtered-Reordered :
      {fs gs : List (String × V)}
      → Reordered fs gs
      → (on : On) (before after : List (Clause T V)) (action : Action T V) (s : S)
      → g.execute on (before ++ (filtered fs ++ after)) action s
        ≡ g.execute on (before ++ (filtered gs ++ after)) action s
  unfolding filtered
  filtered-Reordered same on before after action s = refl
  filtered-Reordered (keep {xs} {ys} (f, v) p) on before after action s =
      ap (λ (cs : List (Clause T V)). g.execute on cs action s)
        (sym (append_assoc before (field_is f v ∷ []) (filtered xs ++ after)))
      ∙ filtered-Reordered p on (before ++ field_is f v ∷ []) after action s
      ∙ ap (λ (cs : List (Clause T V)). g.execute on cs action s)
          (append_assoc before (field_is f v ∷ []) (filtered ys ++ after))
  filtered-Reordered (swapped {xs} (f, v) (h, w)) on before after action s =
      conj on before (filtered xs ++ after) _ _ (v ∷ []) (w ∷ []) action s
  filtered-Reordered (chained p q) on before after action s =
      filtered-Reordered p on before after action s ∙ filtered-Reordered q on before after action s

  filtered_at_end :
      {fs gs : List (String × V)}
      → Reordered fs gs
      → (on : On) (before : List (Clause T V)) (action : Action T V) (s : S)
      → g.execute on (before ++ filtered fs) action s
        ≡ g.execute on (before ++ filtered gs) action s
  filtered_at_end {fs} {gs} p on before action s =
      ap (λ (cs : List (Clause T V)). g.execute on (before ++ cs) action s)
        (sym (append-nil (filtered fs)))
      ∙ filtered-Reordered p on before [] action s
      ∙ ap (λ (cs : List (Clause T V)). g.execute on (before ++ cs) action s)
          (append-nil (filtered gs))

-- Every operation that takes a map of filters gives the same error, count or answer and leaves the same
-- state, in whatever order the map is gone through, if gorm's conditions can be exchanged: the queries
-- for rows and for one row, the deletion, and the three counts.
pub filters-Reordered :
    {T V S : Type 0} (g : Gorm T V S)
    → Conjunctive g
    → (r : GormRepository) (target : T) (preloads : List String) (lim off : ℤ) (join : String)
      (s : S)
    → {fs gs : List (String × V)} → Reordered fs gs
    → (get_by_fields g r target fs preloads s ≡ get_by_fields g r target gs preloads s)
      × (get_by_fields_batch g r target fs lim off preloads s
          ≡ get_by_fields_batch g r target gs lim off preloads s)
      × (get_one_by_fields g r target fs preloads s ≡ get_one_by_fields g r target gs preloads s)
      × (delete_by_fields g target fs s ≡ delete_by_fields g target gs s)
      × (exists_by_fields g target fs s ≡ exists_by_fields g target gs s)
      × (count_rows g target fs s ≡ count_rows g target gs s)
      × (count_with_join g target join fs s ≡ count_with_join g target join gs s)
unfolding get_by_fields get_by_fields_batch get_one_by_fields delete_by_fields exists_by_fields
    count_rows count_with_join run
filters-Reordered {T} {V} {S} g conj r target preloads lim off join s {fs} {gs} p = (
  ap (λ (o : Report × S). (handle_error o.0, o.1))
      (filtered-Reordered g conj p base (db_with_preloads r preloads) (newest_first ∷ [])
        (find target) s),
  ap (λ (o : Report × S). (handle_error o.0, o.1))
      (filtered-Reordered g conj p base (db_with_preloads r preloads)
        (limit lim ∷ offset off ∷ newest_first ∷ []) (find target) s),
  ap (λ (o : Report × S). (handle_one_error o.0, o.1))
      (filtered-Reordered g conj p base (db_with_preloads r preloads) (newest_first ∷ [])
        (first target) s),
  ap (λ (o : Report × S). (handle_error o.0, o.1))
      (filtered_at_end g conj p base (model target ∷ []) (delete target) s),
  ap (λ (o : Report × S). (some_row (count_or_error o.0), o.1))
      (filtered_at_end g conj p base (model target ∷ []) count s),
  ap (λ (o : Report × S). (count_or_error o.0, o.1))
      (filtered_at_end g conj p base (model target ∷ []) count s),
  ap (λ (o : Report × S). (count_or_error o.0, o.1))
      (filtered_at_end g conj p base (model target ∷ (if join == "" then [] else joins join ∷ []))
        count s),
)
