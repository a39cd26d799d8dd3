-- ===== src/Httpx/Errors.antt =====
-- api/internal/httpx/envelope.go: domain errors and the central error handler; and the classes of
-- status codes that middleware.go counts requests by.
use agentic_mudahurus.Shared.{
  ℕ, Bool, true, false, Option, none, some, List, [], if◌then◌else◌, leb, Text, codes,
}
use agentic_mudahurus.World.{ApiError, Error, not_found, failure, api}

abbrev pub api_error : ℕ → Text → Text → ApiError
api_error status code message = record {
  status = status;
  code = code;
  message = message;
  fields = [];
}

abbrev pub bad_request : Text → Error
bad_request msg = api (api_error 400 (codes "bad_request") msg)

abbrev pub unauthorized : Text → Error
unauthorized msg = api (api_error 401 (codes "unauthorized") msg)

abbrev pub forbidden : Text → Error
forbidden msg = api (api_error 403 (codes "forbidden") msg)

-- `NotFound`; the sentinel of the repositories has the name `not_found`
abbrev pub missing : Text → Error
missing msg = api (api_error 404 (codes "not_found") msg)

abbrev pub conflict : Text → Error
conflict msg = api (api_error 409 (codes "conflict") msg)

abbrev pub internal : Text → ApiError
internal msg = api_error 500 (codes "internal") msg

abbrev pub validation : List (Text × Text) → Error
validation fields = api (record {
  status = 422;
  code = codes "validation_failed";
  message = codes "validation failed";
  fields = fields;
})

-- What reaches the handler: an error of the program, or one of the framework with its text.
pub data Raised : Type 0 where
  raised : Error → Raised
  http_error : (code : ℕ) (message : Option Text) → Raised

module _ (status_text : ℕ → Text) where
  message_or : ℕ → Option Text → Text
  message_or code none = status_text code
  message_or code (some s) = s

  unfoldable pub served : Raised → ApiError
  unfolding message_or
  served (raised (api e)) = e
  served (raised not_found) = internal (codes "an unexpected error occurred")
  served (raised failure) = internal (codes "an unexpected error occurred")
  served (http_error code message) = api_error code (codes "http_error") (message_or code message)

  -- `ErrorHandler`: none if the response is committed already, else what is written
  unfoldable pub error_handler : Bool → Raised → Option ApiError
  unfolding served
  error_handler true e = none
  error_handler false e = some (served e)

pub data StatusClass : Type 0 where
  class_2xx class_3xx class_4xx class_5xx : StatusClass

-- httpx/middleware.go, `statusClass`
unfoldable pub status_class : ℕ → StatusClass
status_class status =
    if leb 500 status
    then class_5xx
    else if leb 400 status
    then class_4xx
    else if leb 300 status
    then class_3xx
    else class_2xx
