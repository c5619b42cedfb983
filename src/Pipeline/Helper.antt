-- ===== src/Pipeline/Helper.antt =====
-- The ResponseHelper of pkg/helpers/response_helper.go.
use msa_core.Prelude.{ℕ, ◌-◌, String, Option, none, some, List}
use msa_core.Prelude.Int.{pos}
use msa_core.Response.{
  ErrorResponse, ErrorDetail, validation_error, internal_error, not_found_error, unauthorized_error,
}
use msa_core.Pipeline.{text, StartTime, started, no_time, HandlerError, failure, Request, Json}

-- the results of the two that answer no request themselves
unfoldable pub succeed : {D : Type 0} → D → String → Request D → Option (HandlerError D) × Request D
succeed d message c =
    (none, record c { response_data = some d; response_message = some (text message) })

unfoldable pub success_only : {D : Type 0} → D → Request D → Option (HandlerError D) × Request D
unfolding succeed
success_only d c = succeed d "Thành công" c

abbrev pub timed : {D : Type 0} → Request D → Option StartTime → ErrorResponse → ErrorResponse
timed c none e = e
timed c (some (started t)) e = record e { processing_time = pos (c.clock - t) }
timed c (some no_time) e = e

module _ {D : Type 0} (json : Json D) where
  unfoldable pub fail : ℕ → ErrorResponse → Request D → Option (HandlerError D) × Request D
  fail status e c = json status (failure (timed c c.start_time e)) c

  unfoldable pub fail_validation :
      String → List ErrorDetail → Request D → Option (HandlerError D) × Request D
  fail_validation message details c = fail 400 (validation_error c.clock message details) c

  unfoldable pub fail_internal : String → Request D → Option (HandlerError D) × Request D
  fail_internal message c = fail 500 (internal_error c.clock message) c

  unfoldable pub not_found : String → Request D → Option (HandlerError D) × Request D
  not_found message c = fail 404 (not_found_error c.clock message) c

  unfoldable pub unauthorized : String → Request D → Option (HandlerError D) × Request D
  unauthorized message c = fail 401 (unauthorized_error c.clock message) c

  -- with the code of a validation error, which is that of a bad request too
  unfoldable pub bad_request :
      String → List ErrorDetail → Request D → Option (HandlerError D) × Request D
  bad_request message details c = fail 400 (validation_error c.clock message details) c
