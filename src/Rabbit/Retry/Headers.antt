-- ===== src/Rabbit/Retry/Headers.antt =====
-- The headers of a message that is published again: the failure counter, and what is carried over.
use msa_core.Prelude.{
  ◌≡◌, refl, ◌∙◌, ◌≢◌, String, Option, none, some, List, [], ◌∷◌, ◌==◌, eq_iff, arith, All,
  Bool-cases, inl, inr, if◌then◌else◌,
}
use msa_core.Prelude.Int.{ℤ, pos, ◌+ℤ◌}
use msa_core.Rabbit.Table.{
  Table, HeaderValue, int32, text, lookup, insert, delete, copy, carrier_set,
}
use msa_core.Rabbit.Table.Laws.{or_else, lookup-insert, lookup-delete, lookup-copy}
use msa_core.Rabbit.Publish.{PublishOptions, or_empty, inject, publish_headers}
use msa_core.Rabbit.Retry.{
  Delivery, to_int32, clone_headers_with_retry_count, application_failure_count, retry_options,
}

abbrev pub Avoids : String → List (String × String) → Type 0
Avoids j fields = All (λ kv. kv.0 ≢ j) fields

-- Fields other than `j` leave the value of `j` alone.
pub lookup-inject :
    (j : String) (t : Table) (fields : List (String × String))
    → Avoids j fields
    → lookup (or_empty (inject (some t) fields)) j ≡ lookup t j
unfolding inject carrier_set
lookup-inject j t [] h = refl
lookup-inject j t ((k, v) ∷ fields) (ne, h) =
    lookup-inject j (insert t k (text v)) fields h
    ∙ (lookup-insert t k (text v) j ∙ ground (arith, eq_iff k j))

or_else-none : (o : Option HeaderValue) → or_else o none ≡ o
or_else-none none = refl
or_else-none (some v) = refl

pub lookup-clone_headers :
    (h : Option Table) (n : ℤ) (j : String)
    → lookup (clone_headers_with_retry_count h n) j ≡ (
        if "x-retry-count" == j
        then some (int32 (to_int32 n))
        else if "x-death" == j
        then none
        else lookup (or_empty h) j)
unfolding clone_headers_with_retry_count lookup
lookup-clone_headers none n j =
    lookup-insert (delete [] "x-death") "x-retry-count" (int32 (to_int32 n)) j
    ∙ rw (lookup-delete [] "x-death" j)
lookup-clone_headers (some t) n j =
    lookup-insert (delete (copy [] t) "x-death") "x-retry-count" (int32 (to_int32 n)) j
    ∙ rw (lookup-delete (copy [] t) "x-death" j, lookup-copy [] t j, or_else-none (lookup t j))

pub lookup-publish_headers :
    (j : String) (fields : List (String × String)) (o : PublishOptions)
    → Avoids j fields
    → j ≢ "x-message-id"
    → lookup (publish_headers fields o) j ≡ lookup (or_empty o.headers) j
unfolding publish_headers lookup
lookup-publish_headers j fields o h ne =
    let kept : lookup (or_empty (inject (some (copy [] (or_empty o.headers))) fields)) j
        ≡ lookup (or_empty o.headers) j =
      lookup-inject j (copy [] (or_empty o.headers)) fields h
      ∙ (lookup-copy [] (or_empty o.headers) j ∙ or_else-none (lookup (or_empty o.headers) j)) in
    elim (Bool-cases (o.message_id == "")) [
      | inl e ↦ rw e kept
      | inr e ↦ rw e (
          lookup-insert _ "x-message-id" (text o.message_id) j
          ∙ ground (arith, eq_iff "x-message-id" j))
    ]

pub retry_counter :
    (d : Delivery) (fields : List (String × String))
    → Avoids "x-retry-count" fields
    → lookup (publish_headers fields (retry_options d)) "x-retry-count"
      ≡ some (int32 (to_int32 (application_failure_count d +ℤ pos 1)))
unfolding retry_options
retry_counter d fields hc =
    lookup-publish_headers _ fields (retry_options d) hc
      (ground (arith, eq_iff "x-retry-count" "x-message-id"))
    ∙ lookup-clone_headers d.headers _ "x-retry-count"

-- The headers of a message that is published again, for a trace context that sets neither key: the
-- failure counter is one more, as a 32-bit number, x-death is gone, and every key `j` that neither
-- the counter, the trace context nor the message id uses keeps its value.
pub retry_headers :
    (d : Delivery) (fields : List (String × String)) (j : String)
    → Avoids "x-retry-count" fields
    → Avoids "x-death" fields
    → Avoids j fields
    → j ≢ "x-retry-count"
    → j ≢ "x-death"
    → j ≢ "x-message-id"
    → (lookup (publish_headers fields (retry_options d)) "x-retry-count"
        ≡ some (int32 (to_int32 (application_failure_count d +ℤ pos 1))))
      × (lookup (publish_headers fields (retry_options d)) "x-death" ≡ none)
      × (lookup (publish_headers fields (retry_options d)) j ≡ lookup (or_empty d.headers) j)
unfolding retry_options
retry_headers d fields j hc hd h nc nd nm = (
  retry_counter d fields hc,
  lookup-publish_headers _ fields (retry_options d) hd
        (ground (arith, eq_iff "x-death" "x-message-id"))
      ∙ lookup-clone_headers d.headers _ "x-death",
  lookup-publish_headers j fields (retry_options d) h nm
      ∙ (lookup-clone_headers d.headers _ j
          ∙ ground (arith, eq_iff "x-retry-count" j, eq_iff "x-death" j)),
)
