-- ===== src/Response/Code.antt =====
-- The values of ResponseCode, of pkg/common/base_response.go.
use msa_core.Prelude.Int.{ℤ, pos}

abbrev pub success : ℤ
success = pos 200

abbrev pub validation_error : ℤ
validation_error = pos 400

abbrev pub bad_request : ℤ
bad_request = pos 400

abbrev pub unauthorized : ℤ
unauthorized = pos 401

abbrev pub forbidden : ℤ
forbidden = pos 403

abbrev pub not_found : ℤ
not_found = pos 404

abbrev pub method_not_allowed : ℤ
method_not_allowed = pos 405

abbrev pub request_timeout : ℤ
request_timeout = pos 408

abbrev pub conflict : ℤ
conflict = pos 409

abbrev pub too_many_requests : ℤ
too_many_requests = pos 429

abbrev pub internal_error : ℤ
internal_error = pos 500

abbrev pub service_unavailable : ℤ
service_unavailable = pos 503
