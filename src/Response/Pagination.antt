-- ===== src/Response/Pagination.antt =====
-- CalculatePagination: the number of pages, and the two flags.
use msa_core.Prelude.{ℕ, ◌+◌, ◌-◌, ◌*◌, ◌/◌, ◌≤◌, ◌<◌, ◌≡◌, refl, ◌↔◌, true, arith, ltb}
use msa_core.Prelude.Int.{ℤ, pos, negsuc, ◌+ℤ◌, ◌-ℤ◌, div_ℤ, int64_half, add_pos, sub_pos, div_pos}
use msa_core.Prelude.Run.{ret, panic, divide_by_zero, ◌>>=◌}
use msa_core.Response.{PaginationInfo, calculate_pagination}

-- pages of `n` items for `t` items
pub page_count : ℕ → ℕ → ℕ
page_count t n = (t + n - 1) / n

abbrev pub pagination_of : ℕ → ℕ → ℕ → PaginationInfo
pagination_of p n t = record {
  current_page = pos p;
  page_size = pos n;
  total_pages = pos (page_count t n);
  total_items = pos t;
  has_next = ltb p (page_count t n);
  has_prev = ltb 1 p;
}

pub calculate_pagination_ret :
    (p n t : ℕ)
    → 0 < n
    → t + n < int64_half
    → calculate_pagination (pos p) (pos n) (pos t) ≡ ret (pagination_of p n t)
unfolding calculate_pagination page_count
calculate_pagination_ret p n t pos_n small =
    rw
      (
        add_pos t n small,
        sub_pos (t + n) 1 (omega arith) (omega arith),
        div_pos (t + n - 1) n pos_n,
      )
      (ground arith)

pub page_count_bounds : (t n : ℕ) → 0 < n → (t ≤ page_count t n * n) × (page_count t n * n < t + n)
unfolding page_count
page_count_bounds t n h = (omega arith, omega arith)

page_below : (p n t k : ℕ) → k * n < t + n → p < k → p * n < t
page_below p n t k least h = grind arith

below_page : (p n t k : ℕ) → t ≤ k * n → p * n < t → p < k
below_page p n t k enough h = grind arith

-- For a positive page size, and item counts whose sum with it fits an int64, the call returns; its
-- pages hold all items and the last page is not empty; a next page is announced exactly when items
-- remain beyond the current page, and a previous one exactly after the first page.
pub calculate_pagination_pages :
    (p n t : ℕ)
    → 0 < n
    → t + n < int64_half
    → (k : ℕ) × (info : PaginationInfo) × (calculate_pagination (pos p) (pos n) (pos t) ≡ ret info)
      × (info.total_pages ≡ pos k)
      × (t ≤ k * n)
      × (k * n < t + n)
      × ((info.has_next ≡ true) ↔ (p * n < t))
      × ((info.has_prev ≡ true) ↔ (1 < p))
calculate_pagination_pages p n t pos_n small =
    let (enough, least) = page_count_bounds t n pos_n in
    (
      page_count t n,
      pagination_of p n t,
      calculate_pagination_ret p n t pos_n small,
      refl,
      enough,
      least,
      (
        λ h. page_below p n t (page_count t n) least (ground arith),
        λ h. ground (arith, below_page p n t (page_count t n) enough h),
      ),
      (λ h. ground arith, λ h. ground arith),
    )

div-bind :
    (a n : ℤ) (f : ℤ → PaginationInfo)
    → ((div_ℤ a n >>= λ k. ret (f k)) ≡ panic divide_by_zero) ↔ (n ≡ pos 0)
unfolding div_ℤ
div-bind (pos a) (pos n) f = ground arith
div-bind (pos a) (negsuc n) f = ground arith
div-bind (negsuc a) (pos n) f = ground arith
div-bind (negsuc a) (negsuc n) f = ground arith

-- The call panics, by a division, exactly when the page size is zero, whatever the signs of the
-- arguments and whether or not the sum overflows.
pub calculate_pagination-panic :
    (p n t : ℤ) → (calculate_pagination p n t ≡ panic divide_by_zero) ↔ (n ≡ pos 0)
unfolding calculate_pagination
calculate_pagination-panic p n t = div-bind (t +ℤ n -ℤ pos 1) n _
