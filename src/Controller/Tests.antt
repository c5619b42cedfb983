-- ===== src/Controller/Tests.antt =====
-- Runs of the controller model at concrete requests, lists and message files.
use msa_core.Prelude.{
  ℕ, ◌-◌, ◌*◌, ◌≡◌, refl, ◌≢◌, String, false, none, some, List, [], ◌∷◌, ◌==◌, arith, leb,
  if◌then◌else◌,
}
use msa_core.Prelude.Int.{pos}
use msa_core.Prelude.Run.{ret, panic, slice_bounds}
use msa_core.Prelude.Text.{atoi, split, trim_space}
use msa_core.Context.{background}
use msa_core.I18n.Messages.{Messages, str, obj, nil, entry, get_message}
use msa_core.I18n.Manager.{Files, Manager, possible_paths, load_from, first_loaded}
use msa_core.I18n.Locale.{
  get_locale_from_header, drop_region, supported, locale_of_range, first_supported, lower_equals,
}
use msa_core.Response.{PaginationInfo, ErrorResponse, calculate_pagination}
use msa_core.Controller.Reply.{Request, success, failure, success_with_pagination, fail}
use msa_core.Controller.Query.{
  get_page_from_query, get_size_unlimited, get_page_size_from_query,
  get_page_size_from_query_with_default,
}
use msa_core.Controller.Query.Bounds.{Within, max_int, query_range}
use msa_core.Controller.Handlers.{served}
use msa_core.Controller.Paging.{data_slice, checked_slice, response_list_with_pagination_auto}
use msa_core.Controller.Pages.{sliced_pages, pages_cover}
use msa_core.Controller.Slices.{page_items, slices_overflow}
use msa_core.Controller.Status.{has_code, paginated, fail_lem, paginated_after_error}
use msa_core.Controller.Auto.{retrieved, page_reply, auto_page}

abbrev five : List ℕ
five = 10 ∷ 20 ∷ 30 ∷ 40 ∷ 50 ∷ []

-- only en.json exists
abbrev english : Messages
english = entry "response" (obj (entry "ok" (str "Done") nil)) nil

abbrev english_only : Files
english_only = record {
  i18n_dir = "/i18n";
  source_dir = none;
  join = λ dir file. file;
  exists = λ path. path == "en.json";
  read_file = λ path. some "{}";
  unmarshal = λ text. some english;
}

abbrev second_page : String → String
second_page key = if key == "page" then "2" else if key == "size" then "2" else ""

abbrev far_page : String → String
far_page key = if key == "page" then "9" else if key == "size" then "2" else ""

abbrev request : Request
request = record { accept_language = "en"; query = second_page; context = background }

abbrev far_request : Request
far_request = record request { query = far_page }

abbrev vietnamese_request : Request
vietnamese_request = record request { accept_language = "vi" }

abbrev vietnamese : Manager
vietnamese = record { messages = nil; locale = "vn" }

abbrev not_found_error : ErrorResponse
not_found_error = record {
  code = pos 404;
  message = "response.ok";
  details = [];
  timestamp = 0;
  processing_time = pos 0;
}

five_nonempty : five ≢ []
five_nonempty h = cc

-- the largest page, of a hundred items: the product wraps around more than once, to -200
slices_overflow_example :
    (data_slice five (pos 9223372036854775807) (pos 100) (pos 5) ≡ panic slice_bounds)
    × (checked_slice five (pos 9223372036854775807) (pos 100) (pos 5) ≡ panic slice_bounds)
slices_overflow_example =
    slices_overflow five 9223372036854775807 100 (pos 5) five_nonempty (omega arith) (omega arith)
      (omega arith) (omega arith)

pages_cover_example :
    (k : ℕ) × (info : PaginationInfo) × (calculate_pagination (pos 1) (pos 2) (pos 5) ≡ ret info)
    × (info.total_pages ≡ pos k)
    × (sliced_pages five 2 1 k ≡ ret five)
pages_cover_example = pages_cover five 2 (omega arith) (omega arith)

query_range_example :
    Within max_int (get_page_from_query request)
    × Within 100 (get_page_size_from_query request)
    × Within 100 (get_page_size_from_query_with_default request (pos 25))
    × Within max_int (get_size_unlimited request)
query_range_example = query_range request 100 25 (omega arith) (omega arith) (omega arith)

fail_lem_example :
    (body : ErrorResponse) × (i : Manager) × (fail {D = ℕ} english_only 7 request not_found_error
        false none
      ≡ (ret (failure 404 body), some i))
    × (body.code ≡ pos 404)
    × (i.locale ≡ get_locale_from_header "en")
unfolding has_code
fail_lem_example = fail_lem english_only 7 request not_found_error false none

english_loads :
    first_loaded english_only (get_locale_from_header "en") (possible_paths english_only)
    ≡ some english
unfolding first_loaded possible_paths load_from get_locale_from_header first_supported
    locale_of_range supported lower_equals drop_region split trim_space
english_loads = refl

paginated_after_error_example :
    (success_with_pagination {D = ℕ} english_only 7 vietnamese_request
      (some 1)
      (pos 5)
      (pos 2)
      (pos 2)
      "response.ok"
      (fail {D = ℕ} english_only 7 request not_found_error false (some vietnamese)).1).0
    ≡ ret (
        success 200
          (paginated english_only 7 {D = ℕ} (some 1) 2 2 5 (get_message english "response.ok")))
paginated_after_error_example =
    paginated_after_error english_only 7 request vietnamese_request not_found_error false
      (some vietnamese) english (some 1) 2 2 5 "response.ok" english_loads (omega arith)
      (omega arith)

far_page_read : get_page_from_query far_request ≡ pos 9
unfolding get_page_from_query atoi
far_page_read = refl

far_size_read : get_page_size_from_query far_request ≡ pos 2
unfolding get_page_size_from_query atoi
far_size_read = refl

auto_page_example :
    response_list_with_pagination_auto english_only 7 (served five) far_request (some vietnamese)
    ≡ (if leb ((9 - 1) * 2) 5
        then (
          ret (page_reply english_only 7 far_request (some vietnamese) (page_items 9 2 five) 9 2 5),
          (retrieved english_only far_request (some vietnamese)).1,
        )
        else (panic slice_bounds, some vietnamese))
auto_page_example =
    auto_page english_only 7 far_request (some vietnamese) five 9 2 far_page_read far_size_read
      (omega arith) (omega arith) (omega arith) (omega arith) (omega arith)
