-- ===== src/Controller/Auto.antt =====
-- ResponseListWithPaginationAuto from the request to the reply: the query, the cut and the answer.
use msa_core.Prelude.{
  leb, if◌then◌else◌, Bool-cases, inl, inr, String, ℕ, ◌+◌, ◌-◌, ◌*◌, ◌<◌, ◌≡◌, refl, none, some,
  List, length,
}
use msa_core.Prelude.Int.{pos, int64_half}
use msa_core.Prelude.Run.{ret, panic, slice_bounds}
use msa_core.I18n.Manager.{Files, Global, translate_with_context}
use msa_core.Response.{success_response, success_response_with_context}
use msa_core.Response.Pagination.{pagination_of, calculate_pagination_ret}
use msa_core.Controller.Reply.{Request, localized, Reply, success, success_with_message}
use msa_core.Controller.Query.{get_page_from_query, get_page_size_from_query}
use msa_core.Controller.Handlers.{Content, listing, served}
use msa_core.Controller.Paging.{
  listing_of, answer_listing, create_pagination_response_with_data_slicing,
  response_list_with_pagination_auto,
}
use msa_core.Controller.Slices.{page_items, data_slice_lem}

module _ (fs : Files) (c : Request) (g : Global) where
  -- the message in the language of the request's header, and the global manager after asking for it
  abbrev pub retrieved : String × Global
  retrieved = translate_with_context fs (localized c) "response.success.retrieved" g

module _ {T : Type 0} (fs : Files) (now : ℕ) (c : Request) (g : Global) where
  -- the reply that shows `content` as page `p`, of `n` items, of `t` items in all
  abbrev pub page_reply : List T → ℕ → ℕ → ℕ → Reply (Content T)
  page_reply content p n t = success 200 (
      success_response now (some (listing (listing_of content (pos t) (pagination_of p n t) none)))
        (retrieved fs c g).0)

  answer_listing_lem :
      (content : List T) (p n t : ℕ)
      → 0 < n
      → t + n < int64_half
      → answer_listing fs now c content (pos t) (pos p) (pos n) none g
        ≡ (ret (page_reply content p n t), (retrieved fs c g).1)
  unfolding answer_listing success_with_message success_response_with_context
  answer_listing_lem content p n t pos_n small =
      rw (calculate_pagination_ret p n t pos_n small) refl

  -- Take the page and the size that are read from the query, without overflow. If the page begins
  -- within the list that the service serves, or at its end, the reply is a success with status 200
  -- that holds the items of the page and the pagination of the whole list. If it begins later, the
  -- handler panics by a slice out of bounds, before it answers anything.
  pub auto_page :
      (content : List T) (p n : ℕ)
      → get_page_from_query c ≡ pos p
      → get_page_size_from_query c ≡ pos n
      → 0 < p
      → 0 < n
      → p < int64_half
      → p * n < int64_half
      → length content + n < int64_half
      → response_list_with_pagination_auto fs now (served content) c g ≡ (
          if leb ((p - 1) * n) (length content)
          then (
            ret (page_reply (page_items p n content) p n (length content)),
            (retrieved fs c g).1,
          )
          else (panic slice_bounds, g))
  unfolding response_list_with_pagination_auto create_pagination_response_with_data_slicing
  auto_page content p n page size pos_p pos_n page_int small fits =
      let cut = data_slice_lem content p n pos_p small page_int in
      elim (Bool-cases (leb ((p - 1) * n) (length content))) [
        | inl h ↦
            rw (page, size, cut, h)
              (answer_listing_lem (page_items p n content) p n (length content) pos_n fits)
        | inr h ↦ rw (page, size, cut, h) refl
      ]
