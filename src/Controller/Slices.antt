-- ===== src/Controller/Slices.antt =====
-- Which items a page holds, and when cutting it out panics.
use msa_core.Prelude.{
  ℕ, zero, suc, ◌+◌, ◌-◌, ◌*◌, ◌%◌, ◌≤◌, ◌<◌, ◌≡◌, refl, ◌≢◌, ap, sym, ◌∙◌, List, [], ◌∷◌, arith,
  length, length-drop, take, drop, leb, ltb, if◌then◌else◌, is_empty, inl, inr, Bool-cases,
}
use msa_core.Prelude.Int.{
  ℤ, pos, negsuc, int64_half, int64_mod, add_pos, sub_pos, mul_pos, mul_pos_overflow, ltb_ℤ, leb_ℤ,
}
use msa_core.Prelude.Run.{ret, panic, slice_bounds}
use msa_core.Controller.Paging.{slice, page_start, page_end, data_slice, checked_slice}

module _ {T : Type 0} where
  -- the items of page `p` at `n` to a page, counted from 1
  abbrev pub page_items : ℕ → ℕ → List T → List T
  page_items p n content = take n (drop ((p - 1) * n) content)

  take_all : (n : ℕ) (xs : List T) → length xs ≤ n → take n xs ≡ take (length xs) xs
  take_all zero [] h = refl
  take_all zero (x ∷ xs) h = elim h [ ]
  take_all (suc n) [] h = refl
  take_all (suc n) (x ∷ xs) h = ap (λ l. x ∷ l) (take_all n xs (omega arith))

  pub drop_all : (n : ℕ) (xs : List T) → length xs ≤ n → drop n xs ≡ []
  drop_all zero [] h = refl
  drop_all zero (x ∷ xs) h = elim h [ ]
  drop_all (suc n) [] h = refl
  drop_all (suc n) (x ∷ xs) h = drop_all n xs (omega arith)

  take-nil : (n : ℕ) → take {A = T} n [] ≡ []
  take-nil zero = refl
  take-nil (suc n) = refl

page_start_pos :
    (p n : ℕ)
    → 0 < p
    → p < int64_half
    → (p - 1) * n < int64_half
    → page_start (pos p) (pos n) ≡ pos ((p - 1) * n)
unfolding page_start
page_start_pos p n h k small = rw (sub_pos p 1 h k, mul_pos (p - 1) n small)

page_start_neg :
    (p n : ℕ)
    → 0 < p
    → p < int64_half
    → int64_half ≤ (p - 1) * n % int64_mod
    → page_start (pos p) (pos n) ≡ negsuc (int64_mod - (p - 1) * n % int64_mod - 1)
unfolding page_start
page_start_neg p n h k over = rw (sub_pos p 1 h k, mul_pos_overflow (p - 1) n over)

pub mul_mono : (a b n : ℕ) → a ≤ b → a * n ≤ b * n
mul_mono a b n h = grind arith

pub le_mul : (a n : ℕ) → 0 < n → a ≤ a * n
le_mul a n h = grind arith

pub pages_step : (q n : ℕ) → q * n + n ≡ (q + 1) * n
pages_step q n = omega arith

abbrev pub least : ℕ → ℕ → ℕ
least a b = if ltb b a then b else a

page_end_pos :
    (p n t : ℕ)
    → 0 < p
    → p < int64_half
    → (p - 1) * n + n < int64_half
    → page_end (pos p) (pos n) (pos t) ≡ pos (least ((p - 1) * n + n) t)
unfolding page_end
page_end_pos p n t h k small =
    rw (page_start_pos p n h k (omega arith), add_pos ((p - 1) * n) n small) (ground arith)

module _ {T : Type 0} where
  take-least :
      (content : List T) (a n : ℕ)
      → a ≤ length content
      → take (least (a + n) (length content) - a) (drop a content) ≡ take n (drop a content)
  take-least content a n h = elim (Bool-cases (ltb (length content) (a + n))) [
    | inl over ↦
        ap (λ k. take k (drop a content)) (ground (arith, length-drop a content))
        ∙ sym (take_all n (drop a content) (ground (arith, length-drop a content)))
    | inr fits ↦ ap (λ k. take k (drop a content)) (ground arith)
  ]

  slice_page :
      (content : List T) (a n : ℕ)
      → a ≤ length content
      → slice content (pos a) (pos (least (a + n) (length content))) ≡ ret (take n (drop a content))
  unfolding slice
  slice_page content a n h =
      let cut : take (least (a + n) (length content) - a) (drop a content)
          ≡ take n (drop a content) =
        take-least content a n h in
      ground (arith, cut)

  slice_beyond :
      (content : List T) (a n : ℕ)
      → length content < a
      → slice content (pos a) (pos (least (a + n) (length content))) ≡ panic slice_bounds
  unfolding slice
  slice_beyond content a n h = ground arith

  checked_at :
      (content : List T) (a n : ℕ)
      → (if leb_ℤ (pos (length content)) (pos a)
          then ret []
          else if is_empty content
          then ret []
          else slice content (pos a) (
              if ltb_ℤ (pos (length content)) (pos (least (a + n) (length content)))
              then pos (length content)
              else pos (least (a + n) (length content))))
        ≡ ret (take n (drop a content))
  checked_at [] a n = rw (drop_all {T = T} a [] (omega arith), take-nil {T = T} n) (ground arith)
  checked_at (x ∷ xs) a n = elim (Bool-cases (leb (length (x ∷ xs)) a)) [
    | inl beyond ↦ rw (drop_all a (x ∷ xs) (ground arith), take-nil n) (ground arith)
    | inr within ↦ ground (arith, slice_page (x ∷ xs) a n (ground arith))
  ]

  module _ (content : List T) (p n : ℕ) (first : 0 < p) (small : p * n < int64_half)
      (page_int : p < int64_half) where
    end_eq : (p - 1) * n + n ≡ p * n
    end_eq = pages_step (p - 1) n ∙ ap (λ k. k * n) (omega arith)

    data_slice-eq :
        data_slice content (pos p) (pos n) (pos (length content))
        ≡ slice content (pos ((p - 1) * n)) (pos (least ((p - 1) * n + n) (length content)))
    unfolding data_slice
    data_slice-eq = rw (
      page_start_pos p n first page_int (omega (arith, end_eq)),
      page_end_pos p n (length content) first page_int (omega (arith, end_eq)),
    )

    -- Without overflow, and with the list's length for the total, the first slicing function
    -- returns the items of the page as long as the page begins within the list or at its end, and
    -- panics, by a slice out of bounds, for every later page.
    pub data_slice_lem : data_slice content (pos p) (pos n) (pos (length content)) ≡ (
        if leb ((p - 1) * n) (length content)
        then ret (page_items p n content)
        else panic slice_bounds)
    data_slice_lem = elim (Bool-cases (leb ((p - 1) * n) (length content))) [
      | inl h ↦ rw h (data_slice-eq ∙ slice_page content ((p - 1) * n) n (ground arith))
      | inr h ↦ rw h (data_slice-eq ∙ slice_beyond content ((p - 1) * n) n (ground arith))
    ]

    -- Without overflow, and with the list's length for the total, the checked slicing function
    -- returns the items of the page, none if the page begins at or after the end; it never panics.
    pub checked_slice_lem :
        checked_slice content (pos p) (pos n) (pos (length content)) ≡ ret (page_items p n content)
    unfolding checked_slice
    checked_slice_lem =
        rw
          (
            page_start_pos p n first page_int (omega (arith, end_eq)),
            page_end_pos p n (length content) first page_int (omega (arith, end_eq)),
          )
          (checked_at content ((p - 1) * n) n)

  -- Both slicing functions, the one that checks its bounds too, panic on any list that is not empty
  -- when `(page - 1) * pageSize` is negative in 64 bits, which is when the remainder of the exact
  -- product by 2^64 is at least 2^63. The page is at least 1, and it and the length of the list fit an
  -- int.
  pub slices_overflow :
      (content : List T) (p n : ℕ) (t : ℤ)
      → content ≢ []
      → length content < int64_half
      → 0 < p
      → p < int64_half
      → int64_half ≤ (p - 1) * n % int64_mod
      → (data_slice content (pos p) (pos n) t ≡ panic slice_bounds)
        × (checked_slice content (pos p) (pos n) t ≡ panic slice_bounds)
  unfolding data_slice checked_slice slice
  slices_overflow [] p n t ne len first page_int over = absurd (ne refl)
  slices_overflow (x ∷ xs) p n t ne len first page_int over =
      rw (page_start_neg p n first page_int over) (refl, ground arith)
