-- ===== src/Controller/Pages.antt =====
-- The pages that a pagination announces, one after the other.
use msa_core.Prelude.{
  ℕ, zero, suc, ◌+◌, ◌-◌, ◌*◌, ◌≤◌, ◌<◌, ◌≡◌, refl, ap, sym, ◌∙◌, List, [], ◌∷◌, ◌++◌, arith,
  length, take, drop,
}
use msa_core.Prelude.Int.{pos, int64_half}
use msa_core.Prelude.Run.{Run, ◌>>=◌, ret}
use msa_core.Response.{PaginationInfo, calculate_pagination}
use msa_core.Response.Pagination.{
  pagination_of, calculate_pagination_ret, page_count, page_count_bounds,
}
use msa_core.Controller.Paging.{data_slice}
use msa_core.Controller.Slices.{page_items, drop_all, mul_mono, le_mul, pages_step, data_slice_lem}

module _ {T : Type 0} where
  -- the pages `p`, `p + 1`, … `p + k - 1`, one after the other
  abbrev pages_from : ℕ → ℕ → ℕ → List T → List T
  pages_from p zero n content = []
  pages_from p (suc k) n content = page_items p n content ++ pages_from (suc p) k n content

  take-drop : (n : ℕ) (xs : List T) → take n xs ++ drop n xs ≡ xs
  take-drop zero xs = refl
  take-drop (suc n) [] = refl
  take-drop (suc n) (x ∷ xs) = ap (λ l. x ∷ l) (take-drop n xs)

  drop-drop : (m n : ℕ) (xs : List T) → drop n (drop m xs) ≡ drop (m + n) xs
  drop-drop zero n xs = ap (λ k. drop k xs) (omega arith)
  drop-drop (suc m) n [] =
      drop_all {T = T} n [] (omega arith) ∙ sym (drop_all {T = T} (suc m + n) [] (omega arith))
  drop-drop (suc m) n (x ∷ xs) =
      let e : suc (m + n) ≡ suc m + n = omega arith in
      drop-drop m n xs ∙ ap (λ k. drop k (x ∷ xs)) e

  pages_from-eq-drop :
      (k p n : ℕ) (content : List T)
      → 0 < p
      → length content ≤ (p + k - 1) * n
      → pages_from p k n content ≡ drop ((p - 1) * n) content
  pages_from-eq-drop zero p n content h enough =
      let e : (p + 0 - 1) * n ≡ (p - 1) * n = ap (λ k. k * n) (omega arith) in
      sym (drop_all _ content (omega (arith, e)))
  pages_from-eq-drop (suc k) p n content h enough =
      let e : (p + suc k - 1) * n ≡ (suc p + k - 1) * n = ap (λ k. k * n) (omega arith) in
      let next : (p - 1) * n + n ≡ (suc p - 1) * n =
        pages_step (p - 1) n ∙ ap (λ k. k * n) (omega arith) in
      ap (λ l. page_items p n content ++ l)
        (pages_from-eq-drop k (suc p) n content (omega arith) (omega (arith, e))
          ∙ (ap (λ m. drop m content) (sym next) ∙ sym (drop-drop ((p - 1) * n) n content)))
      ∙ take-drop n (drop ((p - 1) * n) content)

  -- the pages `p`, `p + 1`, … `p + k - 1` as data_slice cuts them, one after the other
  unfoldable pub sliced_pages : List T → ℕ → ℕ → ℕ → Run (List T)
  sliced_pages content n p zero = ret []
  sliced_pages content n p (suc k) = do
    page ← data_slice content (pos p) (pos n) (pos (length content))
    rest ← sliced_pages content n (suc p) k
    ret (page ++ rest)

  sliced_pages-eq :
      (content : List T) (n p k : ℕ)
      → 0 < n
      → 0 < p
      → (p + k - 1) * n < length content + n
      → length content + n < int64_half
      → sliced_pages content n p k ≡ ret (pages_from p k n content)
  unfolding sliced_pages
  sliced_pages-eq content n p zero pos_n first announced small = refl
  sliced_pages-eq content n p (suc k) pos_n first announced small =
      let le : p * n ≤ (p + suc k - 1) * n = mul_mono p (p + suc k - 1) n (omega arith) in
      let own : p ≤ p * n = le_mul p n pos_n in
      let step : (p - 1) * n + n ≡ p * n = pages_step (p - 1) n ∙ ap (λ k. k * n) (omega arith) in
      let e : (suc p + k - 1) * n ≡ (p + suc k - 1) * n = ap (λ k. k * n) (omega arith) in
      let within : (p - 1) * n ≤ length content = omega (arith, le, step) in
      rw
        (
          data_slice_lem content p n first (omega (arith, le)) (omega (arith, le, own)),
          sliced_pages-eq content n (suc p) k pos_n (omega arith) (omega (arith, e)) small,
        )
        (ground (arith, within))

  -- For a positive page size, and a list whose length plus that size fits an int64: as many pages
  -- as the pagination announces are cut without a panic, and one after the other they are the list,
  -- so that every item stands on one page, in the order of the list.
  pub pages_cover :
      (content : List T) (n : ℕ)
      → 0 < n
      → length content + n < int64_half
      → (k : ℕ) × (info : PaginationInfo) × (calculate_pagination
            (pos 1)
            (pos n)
            (pos (length content))
          ≡ ret info)
        × (info.total_pages ≡ pos k)
        × (sliced_pages content n 1 k ≡ ret content)
  pages_cover content n h small =
      let k = page_count (length content) n in
      let (enough, least_count) = page_count_bounds (length content) n h in
      let e : (1 + k - 1) * n ≡ k * n = ap (λ k. k * n) (omega arith) in
      let none_before : (1 - 1) * n ≡ 0 = omega arith in
      (
        k,
        pagination_of 1 n (length content),
        calculate_pagination_ret 1 n (length content) h small,
        refl,
        sliced_pages-eq content n 1 k h (omega arith) (omega (arith, least_count, e)) small
            ∙ ap (λ l. ret l)
                (pages_from-eq-drop k 1 n content (omega arith) (omega (arith, enough, e))
                  ∙ ap (λ k. drop k content) none_before),
      )
