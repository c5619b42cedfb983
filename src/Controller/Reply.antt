-- ===== src/Controller/Reply.antt =====
-- Success, SuccessWithMessage, SuccessWithPagination, Error, ErrorWithDetails and the functions
-- that call them, of pkg/common/base_controller.go.
use msa_core.Prelude.{ℕ, String, Bool, Option, none, some, List, [], ◌∷◌, ◌==◌, if◌then◌else◌}
use msa_core.Prelude.Int.{ℤ, pos, beq_ℤ}
use msa_core.Prelude.Run.{Run, ret, panic}
use msa_core.Context.{Context, set_locale_in_context}
use msa_core.I18n.Manager.{Files, Global, get_global, set_locale}
use msa_core.I18n.Locale.{get_locale_from_header}
use msa_core.Response.Code
use msa_core.Response.{
  BaseResponse, ErrorDetail, ErrorResponse, success_response_with_context,
  success_response_with_pagination_i18n, create_error_response_i18n, validation_error_i18n,
  not_found_error_i18n, unauthorized_error_i18n, internal_error_i18n, conflict_error_i18n,
  calculate_pagination,
}

-- what is read of the echo context
pub record Request : Type 0 where
  pub accept_language : String
  -- the query parameters, empty where absent
  pub query : String → String
  pub context : Context

-- `c.JSON(status, body)`
pub data Reply (D : Type 0) : Type 0 where
  success : ℕ → BaseResponse D → Reply D
  failure : ℕ → ErrorResponse → Reply D

abbrev pub Handled : Type 0 → Type 0
Handled D = Run (Reply D) × Global

-- the context that Success and the others make from the header
abbrev pub localized : Request → Context
localized c = set_locale_in_context c.context (get_locale_from_header c.accept_language)

module _ {D : Type 0} (fs : Files) (now : ℕ) where
  unfoldable pub success_with_message : Request → Option D → String → Global → Handled D
  success_with_message c v message_key g =
      let (response, g') = success_response_with_context now fs (localized c) v message_key g in
      (ret (success 200 response), g')

  -- `Success`
  unfoldable pub succeed : Request → Option D → Global → Handled D
  succeed c v = success_with_message c v "response.success.default"

  -- the header's locale goes into a context that is not used
  unfoldable pub success_with_pagination :
      Request → Option D → ℤ → ℤ → ℤ → String → Global → Handled D
  success_with_pagination c v total page page_size message_key g =
      elim (calculate_pagination page page_size total) [
        | panic e ↦ (panic e, g)
        | ret pagination ↦
            let (response, g') =
              success_response_with_pagination_i18n now fs v message_key pagination g in
            (ret (success 200 response), g')
      ]

-- the first switch of Error, and that of ErrorWithDetails
unfoldable pub status_of : ℤ → ℕ
status_of code =
    if beq_ℤ code (pos 400)
    then 400
    else if beq_ℤ code Code.not_found
    then 404
    else if beq_ℤ code Code.unauthorized
    then 401
    else if beq_ℤ code Code.forbidden
    then 403
    else if beq_ℤ code Code.internal_error
    then 500
    else if beq_ℤ code Code.conflict
    then 409
    else 500

module _ (fs : Files) (now : ℕ) where
  -- the second switch of Error, for an error without a message
  unfoldable pub default_error : ErrorResponse → Global → ErrorResponse × Global
  default_error e g =
      if beq_ℤ e.code Code.validation_error
      then validation_error_i18n now fs [] g
      else if beq_ℤ e.code Code.not_found
      then not_found_error_i18n now fs g
      else if beq_ℤ e.code Code.unauthorized
      then unauthorized_error_i18n now fs g
      else if beq_ℤ e.code Code.internal_error
      then internal_error_i18n now fs g
      else if beq_ℤ e.code Code.conflict
      then conflict_error_i18n now fs g
      else (e, g)

  unfoldable pub translated_error : ErrorResponse → Global → ErrorResponse × Global
  translated_error e g =
      if e.message == ""
      then default_error e g
      else create_error_response_i18n now fs e.code e.message e.details g

  abbrev no_detail : ErrorDetail
  no_detail = record { field = ""; message = ""; value = "" }

  -- with custom data, the answer is made anew from the error's code and message
  unfoldable pub error_body : ErrorResponse → Bool → Global → ErrorResponse × Global
  error_body e custom g =
      let (body, g') = translated_error e g in
      if custom
      then create_error_response_i18n now fs e.code e.message (no_detail ∷ []) g'
      else (body, g')

  -- the global manager takes the locale of the header, whether or not its messages load
  unfoldable pub with_header_locale : Request → Global → Global
  with_header_locale c g =
      some (set_locale fs (get_locale_from_header c.accept_language) (get_global fs g)).1

module _ {D : Type 0} (fs : Files) (now : ℕ) where
  -- `Error`; `custom` says that `v` is not nil
  unfoldable pub fail : Request → ErrorResponse → Bool → Global → Handled D
  fail c e custom g =
      let (body, g') = error_body fs now e custom (with_header_locale fs now c g) in
      (ret (failure (status_of e.code) body), g')

  unfoldable pub error_with_details : Request → ℤ → String → List ErrorDetail → Global → Handled D
  error_with_details c code message_key details g =
      let (body, g') = create_error_response_i18n now fs code message_key details g in
      (ret (failure (status_of code) body), g')

  -- `ValidationError`
  unfoldable pub fail_validation : Request → List ErrorDetail → Global → Handled D
  fail_validation c = error_with_details c Code.validation_error "response.error.validation"

  unfoldable pub validation_error_with_message :
      Request → String → List ErrorDetail → Global → Handled D
  validation_error_with_message c = error_with_details c Code.validation_error

-- what c.Bind fails with: an HTTPError with a message that is a string or not, or any other error,
-- each with the text of its Error method
pub data BindError : Type 0 where
  http_error : Option String → String → BindError
  plain_error : String → BindError

abbrev bind_message : BindError → String
bind_message (http_error (some message) text) = message
bind_message (http_error none text) = text
bind_message (plain_error text) = text

module _ {D : Type 0} (fs : Files) (now : ℕ) where
  unfoldable pub handle_bind_error : Request → BindError → String → Global → Handled D
  handle_bind_error c e message_key =
      error_with_details fs now c Code.validation_error message_key
        (record { field = "body"; message = bind_message e; value = "" } ∷ [])
