-- ===== src/AppErr.antt =====
-- src/apperr/apperr.go: error codes, and their HTTP status.
pub mod Retry
pub mod Samples
use shortner.Shared.{ℕ}

pub data Code : Type 0 where
  bad_request validation_failed unauthorized token_expired token_invalid forbidden : Code
  account_locked csrf_failed not_found method_not_allowed conflict rate_limited : Code
  server_error maintenance gone : Code

unfoldable pub map_code_to_http_status : Code → ℕ
map_code_to_http_status bad_request = 400
map_code_to_http_status validation_failed = 400
map_code_to_http_status unauthorized = 401
map_code_to_http_status token_expired = 401
map_code_to_http_status token_invalid = 401
map_code_to_http_status forbidden = 403
map_code_to_http_status account_locked = 403
map_code_to_http_status csrf_failed = 403
map_code_to_http_status not_found = 404
map_code_to_http_status gone = 410
map_code_to_http_status method_not_allowed = 405
map_code_to_http_status conflict = 409
map_code_to_http_status rate_limited = 429
map_code_to_http_status maintenance = 503
map_code_to_http_status server_error = 500
