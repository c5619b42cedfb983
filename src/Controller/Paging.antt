-- ===== src/Controller/Paging.antt =====
-- The list handlers that work out the pagination themselves, of pkg/common/base_controller.go.
use msa_core.Prelude.{
  ℕ, ◌-◌, String, false, ◌&&◌, Option, none, some, List, [], leb, length, take, drop, if◌then◌else◌,
  is_empty,
}
use msa_core.Prelude.Int.{ℤ, pos, negsuc, ◌+ℤ◌, ◌-ℤ◌, ◌*ℤ◌, ltb_ℤ, leb_ℤ}
use msa_core.Prelude.Run.{Run, ret, panic, slice_bounds}
use msa_core.Response.{PaginationInfo, calculate_pagination}
use msa_core.I18n.Manager.{Files, Global}
use msa_core.Controller.Reply.{
  Request, Handled, success_with_message, success_with_pagination, fail,
}
use msa_core.Controller.Query.{
  get_page_from_query, get_size_unlimited, get_page_size_from_query,
  get_page_size_from_query_with_default, get_sorting_from_query,
}
use msa_core.Controller.Handlers.{Meta, Listing, Content, listing, Served, served, failed}

-- `s[start:end]`; every call below keeps `end` within the length
unfoldable pub slice {ℓ} : {T : Type ℓ} → List T → ℤ → ℤ → Run (List T)
slice s (pos a) (pos b) =
    if leb a b && leb b (length s) then ret (take (b - a) (drop a s)) else panic slice_bounds
slice s (pos a) (negsuc b) = panic slice_bounds
slice s (negsuc a) e = panic slice_bounds

abbrev pub meta_of : PaginationInfo → Meta
meta_of p = record {
  current_page = p.current_page;
  page_size = p.page_size;
  total_pages = p.total_pages;
  has_next = p.has_next;
  has_prev = p.has_prev;
}

abbrev pub listing_of :
    {T : Type 0} → List T → ℤ → PaginationInfo → Option (String × String) → Listing T
listing_of content total p sorting = record {
  content = content;
  total = total;
  kind = none;
  pagination = some p;
  sorting = sorting;
  meta = some (meta_of p);
}

-- `(page - 1) * pageSize`
unfoldable pub page_start : ℤ → ℤ → ℤ
page_start page page_size = (page -ℤ pos 1) *ℤ page_size

-- `start + pageSize`, or the total if that is less
unfoldable pub page_end : ℤ → ℤ → ℤ → ℤ
unfolding page_start
page_end page page_size total =
    let e = page_start page page_size +ℤ page_size in if ltb_ℤ total e then total else e

-- the page of createPaginationResponseWithDataSlicing
unfoldable pub data_slice {ℓ} : {T : Type ℓ} → List T → ℤ → ℤ → ℤ → Run (List T)
data_slice content page page_size total =
    slice content (page_start page page_size) (page_end page page_size total)

-- the page of createPaginationResponseWithSortingAndSlicing
unfoldable pub checked_slice {ℓ} : {T : Type ℓ} → List T → ℤ → ℤ → ℤ → Run (List T)
checked_slice content page page_size total =
    if leb_ℤ (pos (length content)) (page_start page page_size)
    then ret []
    else if is_empty content
    then ret []
    else slice content (page_start page page_size) (
        if ltb_ℤ (pos (length content)) (page_end page page_size total)
        then pos (length content)
        else page_end page page_size total)

-- `applyBasicSorting`, a placeholder in the source
unfoldable pub apply_basic_sorting {ℓ} : {T : Type ℓ} → List T → List T
apply_basic_sorting content = content

module _ {T : Type 0} (fs : Files) (now : ℕ) where
  abbrev pub or_panic :
      {A : Type 0} → Run A → (A → Global → Handled (Content T)) → Global → Handled (Content T)
  or_panic (ret a) f g = f a g
  or_panic (panic e) f g = (panic e, g)

  -- what the createPagination functions share: the pagination, the listing and the reply
  unfoldable pub answer_listing :
      Request → List T → ℤ → ℤ → ℤ → Option (String × String) → Global → Handled (Content T)
  answer_listing c content total page page_size sorting =
      or_panic (calculate_pagination page page_size total) λ p.
        success_with_message fs now c (some (listing (listing_of content total p sorting)))
          "response.success.retrieved"

  unfoldable pub create_pagination_response : Request → List T → ℤ → Global → Handled (Content T)
  create_pagination_response c content total =
      answer_listing c content total (get_page_from_query c) (get_page_size_from_query c) none

  unfoldable pub create_pagination_response_with_custom_size :
      Request → List T → ℤ → ℤ → Global → Handled (Content T)
  create_pagination_response_with_custom_size c content total default_page_size =
      answer_listing c content total (get_page_from_query c)
        (get_page_size_from_query_with_default c default_page_size) none

  unfoldable pub create_pagination_response_with_data_slicing :
      Request → List T → ℤ → Global → Handled (Content T)
  create_pagination_response_with_data_slicing c content total =
      or_panic (data_slice content (get_page_from_query c) (get_page_size_from_query c) total)
        λ paginated.
          answer_listing c paginated total (get_page_from_query c) (get_page_size_from_query c) none

  unfoldable pub create_pagination_response_from_db :
      Request → List T → ℤ → Global → Handled (Content T)
  create_pagination_response_from_db c content total =
      answer_listing c content total (get_page_from_query c) (get_page_size_from_query c) none

  unfoldable pub create_pagination_response_from_db_with_sorting :
      Request → List T → ℤ → Global → Handled (Content T)
  create_pagination_response_from_db_with_sorting c content total =
      answer_listing c content total (get_page_from_query c) (get_page_size_from_query c)
        (some (get_sorting_from_query c))

  unfoldable pub create_pagination_response_with_sorting_and_slicing :
      Request → List T → ℤ → Global → Handled (Content T)
  create_pagination_response_with_sorting_and_slicing c content total =
      or_panic
        (checked_slice (apply_basic_sorting content) (get_page_from_query c)
          (get_page_size_from_query c) total)
        λ paginated.
          answer_listing c paginated total (get_page_from_query c) (get_page_size_from_query c)
            (some (get_sorting_from_query c))

  unfoldable pub response_list_with_pagination :
      Served (List T × ℤ) → Request → Global → Handled (Content T)
  response_list_with_pagination (failed e) c = fail fs now c e false
  response_list_with_pagination (served (content, total)) c =
      or_panic (calculate_pagination (get_page_from_query c) (get_size_unlimited c) total) λ p.
        success_with_pagination fs now c
          (some (
            listing (record {
              content = content;
              total = total;
              kind = some "list";
              pagination = some p;
              sorting = none;
              meta = none;
            })))
          total (get_page_from_query c) (get_size_unlimited c) "response.success.retrieved"

  unfoldable pub response_list_with_pagination_simple :
      Served (List T × ℤ) → Request → Global → Handled (Content T)
  response_list_with_pagination_simple (failed e) c = fail fs now c e false
  response_list_with_pagination_simple (served (content, total)) c =
      create_pagination_response c content total

  unfoldable pub response_list_with_pagination_custom :
      Served (List T × ℤ) → ℤ → Request → Global → Handled (Content T)
  response_list_with_pagination_custom (failed e) default_page_size c = fail fs now c e false
  response_list_with_pagination_custom (served (content, total)) default_page_size c =
      create_pagination_response_with_custom_size c content total default_page_size

  unfoldable pub response_list_with_pagination_auto :
      Served (List T) → Request → Global → Handled (Content T)
  response_list_with_pagination_auto (failed e) c = fail fs now c e false
  response_list_with_pagination_auto (served content) c =
      create_pagination_response_with_data_slicing c content (pos (length content))

  unfoldable pub response_list_with_pagination_auto_db :
      Served (List T × ℤ) → Request → Global → Handled (Content T)
  response_list_with_pagination_auto_db (failed e) c = fail fs now c e false
  response_list_with_pagination_auto_db (served (content, total)) c =
      create_pagination_response_from_db c content total

  unfoldable pub response_list_with_pagination_auto_db_and_sorting :
      Served (List T × ℤ) → Request → Global → Handled (Content T)
  response_list_with_pagination_auto_db_and_sorting (failed e) c = fail fs now c e false
  response_list_with_pagination_auto_db_and_sorting (served (content, total)) c =
      create_pagination_response_from_db_with_sorting c content total

  unfoldable pub response_list_with_pagination_and_sorting :
      Served (List T × ℤ) → Request → Global → Handled (Content T)
  response_list_with_pagination_and_sorting (failed e) c = fail fs now c e false
  response_list_with_pagination_and_sorting (served (content, total)) c =
      create_pagination_response_with_sorting_and_slicing c content total
