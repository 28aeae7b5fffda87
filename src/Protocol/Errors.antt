-- ===== src/Protocol/Errors.antt =====
-- internal/errcat/catalog.go: the error codes of the API.
use codeallremote.Prelude.{ℕ, String, Option, none, some, if◌then◌else◌, ◌==◌, string_eq}

-- `Code`; a Go code is any string, and `other` one that the catalogue does not have.
pub data Code : Type 0 where
  unauthorized forbidden not_found conflict expired_approval idempotency_conflict : Code
  cursor_expired adapter_unavailable invalid_input rate_limited internal unsupported_command : Code
  other : String → Code

-- `HTTPStatus`, with the numbers of net/http.
unfoldable pub http_status : Code → ℕ
http_status unauthorized = 401
http_status forbidden = 403
http_status not_found = 404
http_status conflict = 409
http_status expired_approval = 409
http_status idempotency_conflict = 409
http_status cursor_expired = 409
http_status adapter_unavailable = 503
http_status invalid_input = 400
http_status rate_limited = 429
http_status internal = 500
http_status unsupported_command = 400
http_status (other c) = 500

-- `Error`: the details are the text that the client gets, the cause is for the logs.
pub record ApiError : Type 0 where
  pub code : Code
  pub message : String
  pub details : Option String
  pub cause : Option String

-- `defaultMessage`
unfoldable pub default_message : Code → String
default_message unauthorized = "Authentication required."
default_message forbidden = "This action is not permitted."
default_message not_found = "Resource not found."
default_message conflict = "State conflict."
default_message expired_approval = "Approval is no longer pending."
default_message idempotency_conflict = "Idempotency key was used for a different request."
default_message cursor_expired = "Replay cursor is past retained events."
default_message adapter_unavailable = "The requested adapter is unavailable."
default_message invalid_input = "Request was invalid."
default_message rate_limited = "Too many requests."
default_message internal = "Internal error."
default_message unsupported_command = "Command is not supported."
default_message (other c) = "Internal error."

-- `New`
unfoldable pub new_error : Code → String → ApiError
unfolding default_message
new_error c message = record {
  code = c;
  message = if message == "" then default_message c else message;
  details = none;
  cause = none;
}

-- `WithDetails`
unfoldable pub with_details : String → ApiError → ApiError
with_details d e = record e { details = some d }

-- `Wrap`
unfoldable pub wrap : Code → String → String → ApiError
unfolding new_error
wrap c cause message = record (new_error c message) { cause = some cause }

-- An error of the app layer, by the sentinel that `errors.Is` finds in it, with its text.
pub data AppError : Type 0 where
  app_not_found app_conflict app_invalid app_other : String → AppError

-- `FromAppError`
unfoldable pub from_app_error : AppError → ApiError
unfolding new_error wrap
from_app_error (app_not_found text) = new_error not_found text
from_app_error (app_conflict text) = new_error conflict text
from_app_error (app_invalid text) = new_error invalid_input text
from_app_error (app_other text) = wrap internal text ""
