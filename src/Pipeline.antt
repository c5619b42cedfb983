-- ===== src/Pipeline.antt =====
-- The middleware of pkg/middleware/response_handler.go and the helper of
-- pkg/helpers/response_helper.go. A handler works on the parts of the echo context that these read
-- and set. The call c.JSON is a parameter. Times are milliseconds.
pub mod Helper
pub mod Chain
pub mod Tracing
mod Tests
use msa_core.Prelude.{
  ℕ, ◌-◌, String, Bool, true, false, Option, none, some, List, [], ◌∷◌, nat_beq, if◌then◌else◌,
  ◌==◌,
}
use msa_core.Prelude.Int.{ℤ, pos}
use msa_core.Prelude.Result.{Error}
use msa_core.Prelude.Run.{Run, panic, ret, type_assertion, ◌>>=◌}
use msa_core.Prelude.Text.{atoi}
use msa_core.Response
use msa_core.Response.{
  BaseResponse, ErrorResponse, success_response, create_error_response, internal_error,
  validation_error,
}

-- a value of type `any`, and whether it is a text
pub data Message (D : Type 0) : Type 0 where
  text : String → Message D
  other : D → Message D

-- the value under the key startTime
pub data StartTime : Type 0 where
  started : ℕ → StartTime
  no_time : StartTime

pub data Body (D : Type 0) : Type 0 where
  success : BaseResponse D → Body D
  failure : ErrorResponse → Body D
  content : D → Body D

-- `*echo.HTTPError`, or any other error
pub data HandlerError (D : Type 0) : Type 0 where
  http_error : ℕ → Message D → HandlerError D
  plain : Error → HandlerError D

-- echo.Context: the values that are read here, the status and the responses written, the header
-- X-Processing-Time, and the time
pub record Request (D : Type 0) : Type 0 where
  pub start_time : Option StartTime
  pub response_data : Option D
  pub response_message : Option (Message D)
  pub status : ℕ
  pub written : List (ℕ × Body D)
  pub header : String
  pub clock : ℕ

abbrev pub Handler : Type 0 → Type 0
Handler D = Request D → Run (Option (HandlerError D) × Request D)

-- c.JSON
abbrev pub Json : Type 0 → Type 0
Json D = ℕ → Body D → Request D → Option (HandlerError D) × Request D

abbrev pub message_or : {D : Type 0} → String → Option (Message D) → String
message_or default none = default
message_or default (some (text m)) = m
message_or default (some (other d)) = default

-- strconv.ParseInt of the header, and 0 if it is empty or no number
abbrev pub number_or_zero : Option ℤ → ℤ
number_or_zero none = pos 0
number_or_zero (some n) = n

unfoldable pub header_time : {D : Type 0} → Request D → ℤ
header_time c = if c.header == "" then pos 0 else number_or_zero (atoi c.header)

-- `SetResponseData`
unfoldable pub set_response_data : {D : Type 0} → D → String → Request D → Request D
set_response_data d message c = record c {
  response_data = some d;
  response_message = some (text message);
}

-- `SetResponseDataOnly`
unfoldable pub set_response_data_only : {D : Type 0} → D → Request D → Request D
set_response_data_only d c = record c { response_data = some d }

-- `GetProcessingTime`
unfoldable pub get_processing_time : {D : Type 0} → Request D → ℤ
get_processing_time c = elim c.start_time [
  | none ↦ pos 0
  | some s ↦ elim s [ started t ↦ pos (c.clock - t) | no_time ↦ pos 0 ]
]

module _ {D : Type 0} (json : Json D) where
  -- what `next` has left, wrapped
  unfoldable pub wrapped : ℕ → Request D → Option (HandlerError D) × Request D
  wrapped start c =
      if nat_beq c.status 200
      then (elim c.response_data [
        | none ↦ (none, c)
        | some d ↦
            json 200
              (success
                (record (success_response c.clock (some d)
                  (message_or "Thành công" c.response_message)) {
                    processing_time = pos (c.clock - start);
                  }))
              c
      ])
      else (none, c)

  abbrev pub unless_failed :
      ℕ → Option (HandlerError D) × Request D → Run (Option (HandlerError D) × Request D)
  unless_failed start (some e, c) = ret (some e, c)
  unless_failed start (none, c) = ret (wrapped start c)

  -- `ResponseHandlerMiddleware`
  unfoldable pub response_handler : Handler D → Handler D
  response_handler next c =
      next (record c { start_time = some (started c.clock) }) >>= unless_failed c.clock

  abbrev pub error_answer : HandlerError D → Request D → Run (Option (HandlerError D) × Request D)
  error_answer (http_error code (text m)) c = ret (
      json code
        (failure (record (create_error_response c.clock (pos code) m []) {
          processing_time = header_time c;
        }))
        c)
  error_answer (http_error code (other d)) c = panic type_assertion
  error_answer (plain e) c = ret (
      json 500
        (failure (record (internal_error c.clock "Lỗi hệ thống không xác định") {
          processing_time = header_time c;
        }))
        c)

  abbrev pub answered :
      Option (HandlerError D) × Request D → Run (Option (HandlerError D) × Request D)
  answered (none, c) = ret (none, c)
  answered (some e, c) = error_answer e c

  -- `ErrorHandlerMiddleware`
  unfoldable pub error_handler : Handler D → Handler D
  error_handler next c = next c >>= answered

  abbrev pub validation_answer :
      Option (HandlerError D) × Request D → Option (HandlerError D) × Request D
  validation_answer (none, c) = (none, c)
  validation_answer (some (plain e), c) = (some (plain e), c)
  validation_answer (some (http_error code m), c) =
      if nat_beq code 400
      then json 400
          (failure (record (validation_error c.clock "Dữ liệu không hợp lệ" []) {
            processing_time = pos 0;
          }))
          c
      else (some (http_error code m), c)

  -- `ValidationErrorHandler`
  unfoldable pub validation_error_handler : Handler D → Handler D
  validation_error_handler next c = next c >>= λ r. ret (validation_answer r)
