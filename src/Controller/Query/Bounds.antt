-- ===== src/Controller/Query/Bounds.antt =====
-- The range of the page, the size and the sorting that a list request is read to.
use Prim.Native.String.{[], ◌∷◌}
use msa_core.Prelude.{
  ℕ, zero, suc, ◌≤◌, ◌<◌, ◌≡◌, refl, ◌↔◌, ◌⊎◌, inl, inr, String, Option, none, some, ◌==◌, eq_iff,
  arith, ltb, Bool-cases,
}
use msa_core.Prelude.Int.{ℤ, pos, negsuc, int64_half}
use msa_core.Prelude.Text.{atoi, decimal, below, positive, negative}
use msa_core.Controller.Reply.{Request}
use msa_core.Controller.Query.{
  positive_or, limited, get_page_from_query, get_size_unlimited, get_page_size_from_query,
  get_page_size_from_query_with_default, get_sorting_from_query, from_desc, checked_order,
}

positive_range :
    (o : Option ℕ) (n : ℕ) → positive (below int64_half o) ≡ some (pos n) → n < int64_half
positive_range none n h = ground arith
positive_range (some m) n h = ground arith

negative_range :
    (o : Option ℕ) (n : ℕ) → negative (below (suc int64_half) o) ≡ some (pos n) → n < int64_half
negative_range none n h = ground arith
negative_range (some zero) n h = ground arith
negative_range (some (suc m)) n h = ground arith

atoi_range : (s : String) (n : ℕ) → atoi s ≡ some (pos n) → n < int64_half
unfolding atoi
atoi_range [] n h = ground arith
atoi_range (c ∷ s) n h = ground (
  arith,
  positive_range (decimal s),
  positive_range (decimal (c ∷ s)),
  negative_range (decimal s),
)

-- a positive integer that an int64 holds and that is at most `m`
abbrev pub Within : ℕ → ℤ → Type 0
Within m k = (n : ℕ) × (k ≡ pos n) × (0 < n) × (n ≤ m)

abbrev pub max_int : ℕ
max_int = 9223372036854775807

positive_or_range :
    (d : ℕ) (o : Option ℤ)
    → 0 < d
    → d ≤ max_int
    → ((n : ℕ) → o ≡ some (pos n) → n < int64_half)
    → Within max_int (positive_or (pos d) o)
positive_or_range d none hd hm h = (d, refl, hd, hm)
positive_or_range d (some (negsuc n)) hd hm h = (d, ground arith, hd, hm)
positive_or_range d (some (pos zero)) hd hm h = (d, ground arith, hd, hm)
positive_or_range d (some (pos (suc n))) hd hm h =
    let b = h (suc n) refl in (suc n, ground arith, omega arith, omega arith)

limited_range : (m d : ℕ) (o : Option ℤ) → 0 < d → d ≤ m → 100 ≤ m → Within m (limited (pos d) o)
limited_range m d none hd hm hc = (d, refl, hd, hm)
limited_range m d (some (negsuc n)) hd hm hc = (d, ground arith, hd, hm)
limited_range m d (some (pos zero)) hd hm hc = (d, ground arith, hd, hm)
limited_range m d (some (pos (suc n))) hd hm hc = elim (Bool-cases (ltb 100 (suc n))) [
  | inl h ↦ (100, ground arith, omega arith, hc)
  | inr h ↦ (suc n, ground arith, omega arith, ground arith)
]

-- Whatever the query parameters are: the page is positive; the size is between 1 and 100, and with
-- a default of the caller's between 1 and any number that bounds 100 and the default; the size that
-- ResponsePage and ResponseListWithPagination read is positive and bounded by the int64 range only.
pub query_range :
    (c : Request) (m d : ℕ)
    → 0 < d
    → d ≤ m
    → 100 ≤ m
    → Within max_int (get_page_from_query c)
      × Within 100 (get_page_size_from_query c)
      × Within m (get_page_size_from_query_with_default c (pos d))
      × Within max_int (get_size_unlimited c)
unfolding get_page_from_query get_size_unlimited get_page_size_from_query
    get_page_size_from_query_with_default
query_range c m d hd hm hc = (
  elim (Bool-cases (c.query "page" == "")) [
    | inl h ↦ rw h (1, refl, omega arith, omega arith)
    | inr h ↦ rw h (
        positive_or_range 1 (atoi (c.query "page")) (omega arith) (omega arith)
          (atoi_range (c.query "page")))
  ],
  elim (Bool-cases (c.query "size" == "")) [
    | inl h ↦ rw h (10, refl, omega arith, omega arith)
    | inr h ↦
        rw h
          (limited_range 100 10 (atoi (c.query "size")) (omega arith) (omega arith) (omega arith))
  ],
  elim (Bool-cases (c.query "size" == "")) [
    | inl h ↦ rw h (d, refl, hd, hm)
    | inr h ↦ rw h (limited_range m d (atoi (c.query "size")) hd hm hc)
  ],
  elim (Bool-cases (c.query "size" == "")) [
    | inl h ↦ rw h (10, refl, omega arith, omega arith)
    | inr h ↦ rw h (
        positive_or_range 10 (atoi (c.query "size")) (omega arith) (omega arith)
          (atoi_range (c.query "size")))
  ],
)

checked_order_range : (s : String) → (checked_order s ≡ "asc") ⊎ (checked_order s ≡ "desc")
checked_order_range s = ground (arith, eq_iff s "asc", eq_iff s "desc")

ascending :
    (order desc : String)
    → (checked_order (from_desc order desc) ≡ "asc")
      ↔ ((order ≡ "asc") ⊎ ((order ≡ "") × (desc ≡ "false")))
ascending order desc = elim (Bool-cases (order == "")) [
  | inl h ↦
      let e : order ≡ "" = ground (arith, eq_iff order "") in
      rw e (elim (Bool-cases (desc == "true")) [
        | inl k ↦
            let f : desc ≡ "true" = ground (arith, eq_iff desc "true") in
            rw f (ground (arith, eq_iff "" "asc", eq_iff "true" "false", eq_iff "desc" "asc"))
        | inr k ↦ elim (Bool-cases (desc == "false")) [
          | inl l ↦
              let f : desc ≡ "false" = ground (arith, eq_iff desc "false") in rw f (ground arith)
          | inr l ↦
              rw (k, l) (ground (arith, eq_iff desc "false", eq_iff "" "asc", eq_iff "desc" "asc"))
        ]
      ])
  | inr h ↦
      ground (arith, eq_iff order "", eq_iff order "asc", eq_iff order "desc", eq_iff "desc" "asc")
]

-- The sort order that is read is "asc" or "desc". It is "asc" exactly when `sort_order` is "asc",
-- or when it is absent and `desc` is "false".
pub sort_order_lem :
    (c : Request)
    → (((get_sorting_from_query c).1 ≡ "asc") ⊎ ((get_sorting_from_query c).1 ≡ "desc"))
      × (((get_sorting_from_query c).1 ≡ "asc") ↔ (
          (c.query "sort_order" ≡ "asc")
          ⊎ ((c.query "sort_order" ≡ "") × (c.query "desc" ≡ "false"))))
unfolding get_sorting_from_query
sort_order_lem c = (
  checked_order_range (from_desc (c.query "sort_order") (c.query "desc")),
  ascending (c.query "sort_order") (c.query "desc"),
)
