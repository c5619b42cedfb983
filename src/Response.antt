-- ===== src/Response.antt =====
-- pkg/common/base_response.go: the response structures and their constructors. The clock's reading
-- is an argument, and so is what a constructor with a message key needs to translate it.
pub mod Code
pub mod Pagination
use Code
use msa_core.Prelude.{ℕ, String, Bool, Option, none, some, List, []}
use msa_core.Prelude.Int.{ℤ, pos, ◌+ℤ◌, ◌-ℤ◌, div_ℤ, ltb_ℤ}
use msa_core.Prelude.Run.{Run, ret, ◌>>=◌}
use msa_core.I18n.Manager.{Files, Global, translate, translate_with_context}
use msa_core.Context.{Context}

pub record PaginationInfo : Type 0 where
  pub current_page : ℤ
  pub page_size : ℤ
  pub total_pages : ℤ
  pub total_items : ℤ
  pub has_next : Bool
  pub has_prev : Bool

-- `content` is the field Data
pub record BaseResponse (D : Type 0) : Type 0 where
  pub code : ℤ
  pub message : String
  pub content : Option D
  pub pagination : Option PaginationInfo
  pub timestamp : ℕ
  pub processing_time : ℤ

pub record ErrorDetail : Type 0 where
  pub field : String
  pub message : String
  pub value : String

pub record ErrorResponse : Type 0 where
  pub code : ℤ
  pub message : String
  pub details : List ErrorDetail
  pub timestamp : ℕ
  pub processing_time : ℤ

module _ {D : Type 0} (now : ℕ) where
  unfoldable pub success_response : Option D → String → BaseResponse D
  success_response content message = record {
    code = Code.success;
    message = message;
    content = content;
    pagination = none;
    timestamp = now;
    processing_time = pos 0;
  }

  unfoldable pub success_response_i18n :
      Files → Option D → String → Global → BaseResponse D × Global
  success_response_i18n fs content message_key g =
      let (message, g') = translate fs message_key g in (success_response content message, g')

  unfoldable pub success_response_with_context :
      Files → Context → Option D → String → Global → BaseResponse D × Global
  success_response_with_context fs ctx content message_key g =
      let (message, g') = translate_with_context fs ctx message_key g in
      (success_response content message, g')

  -- the argument `data` is not stored
  unfoldable pub success_response_with_pagination :
      Option D → String → PaginationInfo → BaseResponse D
  success_response_with_pagination content message pagination = record {
    code = Code.success;
    message = message;
    content = none;
    pagination = some pagination;
    timestamp = now;
    processing_time = pos 0;
  }

  unfoldable pub success_response_with_pagination_i18n :
      Files → Option D → String → PaginationInfo → Global → BaseResponse D × Global
  success_response_with_pagination_i18n fs content message_key pagination g =
      let (message, g') = translate fs message_key g in
      (
        record {
          code = Code.success;
          message = message;
          content = content;
          pagination = some pagination;
          timestamp = now;
          processing_time = pos 0;
        },
        g',
      )

module _ (now : ℕ) where
  unfoldable pub create_error_response : ℤ → String → List ErrorDetail → ErrorResponse
  create_error_response code message details = record {
    code = code;
    message = message;
    details = details;
    timestamp = now;
    processing_time = pos 0;
  }

  unfoldable pub create_error_response_i18n :
      Files → ℤ → String → List ErrorDetail → Global → ErrorResponse × Global
  create_error_response_i18n fs code message_key details g =
      let (message, g') = translate fs message_key g in
      (create_error_response code message details, g')

  unfoldable pub validation_error_i18n : Files → List ErrorDetail → Global → ErrorResponse × Global
  validation_error_i18n fs =
      create_error_response_i18n fs Code.validation_error "response.error.validation"

  unfoldable pub not_found_error_i18n : Files → Global → ErrorResponse × Global
  not_found_error_i18n fs =
      create_error_response_i18n fs Code.not_found "response.error.not_found" []

  unfoldable pub unauthorized_error_i18n : Files → Global → ErrorResponse × Global
  unauthorized_error_i18n fs =
      create_error_response_i18n fs Code.unauthorized "response.error.unauthorized" []

  unfoldable pub internal_error_i18n : Files → Global → ErrorResponse × Global
  internal_error_i18n fs =
      create_error_response_i18n fs Code.internal_error "response.error.internal" []

  unfoldable pub conflict_error_i18n : Files → Global → ErrorResponse × Global
  conflict_error_i18n fs = create_error_response_i18n fs Code.conflict "response.error.conflict" []

  unfoldable pub bad_request_error_i18n : Files → Global → ErrorResponse × Global
  bad_request_error_i18n fs =
      create_error_response_i18n fs Code.bad_request "response.error.bad_request" []

  unfoldable pub validation_error : String → List ErrorDetail → ErrorResponse
  validation_error message details = create_error_response Code.validation_error message details

  unfoldable pub internal_error : String → ErrorResponse
  internal_error message = create_error_response Code.internal_error message []

  unfoldable pub not_found_error : String → ErrorResponse
  not_found_error message = create_error_response Code.not_found message []

  unfoldable pub unauthorized_error : String → ErrorResponse
  unauthorized_error message = create_error_response Code.unauthorized message []

  unfoldable pub bad_request_error : String → ErrorResponse
  bad_request_error message = create_error_response Code.bad_request message []

  unfoldable pub conflict_error : String → ErrorResponse
  conflict_error message = create_error_response Code.conflict message []

unfoldable pub calculate_pagination : ℤ → ℤ → ℤ → Run PaginationInfo
calculate_pagination current_page page_size total_items = do
  total_pages ← div_ℤ (total_items +ℤ page_size -ℤ pos 1) page_size
  ret (record {
    current_page = current_page;
    page_size = page_size;
    total_pages = total_pages;
    total_items = total_items;
    has_next = ltb_ℤ current_page total_pages;
    has_prev = ltb_ℤ (pos 1) current_page;
  })
