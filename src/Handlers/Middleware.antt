-- ===== src/Handlers/Middleware.antt =====
-- The middleware of `install_error_handling` of backend/app/core/errors.py, between the routes with
-- their handlers of errors and the handler of every other exception.
pub mod Ids
use stockstack.Common.{
  ℕ, String, Bool, not, Option, List, [], ◌∷◌, filter, map, leb, ◌+◌, ◌&&◌, if◌then◌else◌,
}
use stockstack.Common.Exec.{Result, ok, raise}
use stockstack.Common.Text.{Text, codes, text_eq}
use stockstack.Errors.{AppError, JsonResponse}
use stockstack.Handlers.{
  RequestError, app_error_handler, validation_error_handler, unknown_error_handler, request_id_of,
}

-- Starlette holds the name of a header in lower case.
abbrev pub Headers : Type 0
Headers = List (Text × Text)

abbrev pub lower : Text → Text
lower = map (λ c. if leb 65 c && leb c 90 then c + 32 else c)

pub record Answer : Type 0 where
  pub status_code : ℕ
  pub headers : Headers

-- What a route comes to: an answer, or an exception.
pub data Outcome : Type 0 where
  replied : Answer → Outcome
  app_error_raised : AppError → Outcome
  invalid_request : List RequestError → Outcome
  other_exception : Outcome

abbrev pub has_name : Text → Text × Text → Bool
has_name name h = text_eq h.0 name

-- `headers[name] = value`: the first header of the name is replaced, and others of it go.
unfoldable pub set_header : Text → Text → Headers → Headers
set_header name value [] = (name, value) ∷ []
set_header name value (h ∷ headers) =
    if has_name name h
    then (name, value) ∷ filter (λ k. not (has_name name k)) headers
    else h ∷ set_header name value headers

abbrev pub x_request_id : Text
x_request_id = lower (codes "X-Request-ID")

abbrev pub as_answer : JsonResponse → Answer
as_answer r = record {
  status_code = r.status_code;
  headers = map (λ h. (lower (codes h.0), h.1)) r.headers;
}

-- The routes, with the two handlers that run behind the middleware.
unfoldable pub call_next : Text → Outcome → Result (Unit {0}) Answer
unfolding app_error_handler validation_error_handler
call_next request_id (replied a) = ok a
call_next request_id (app_error_raised e) = ok (as_answer (app_error_handler request_id e))
call_next request_id (invalid_request errors) =
    ok (as_answer (validation_error_handler request_id errors))
call_next request_id other_exception = raise tt

abbrev identified : Text → Result (Unit {0}) Answer → Result (Unit {0}) Answer
identified request_id (ok a) =
    ok (record a { headers = set_header x_request_id request_id a.headers })
identified request_id (raise e) = raise e

-- `request_id_middleware`, for the value of the request's header.
unfoldable pub request_id_middleware :
    (ℕ → Bool) → Text → Option Text → Outcome → Result (Unit {0}) Answer
unfolding request_id_of set_header call_next
request_id_middleware is_alnum fresh supplied outcome =
    let request_id = request_id_of is_alnum fresh supplied in
    identified request_id (call_next request_id outcome)

abbrev handled : Text → Result (Unit {0}) Answer → Answer
handled request_id (ok a) = a
handled request_id (raise e) = as_answer (unknown_error_handler request_id)

-- The application: an exception that passes the middleware is answered outside of it, with the id
-- that it left in the state of the request.
unfoldable pub application : (ℕ → Bool) → Text → Option Text → Outcome → Answer
unfolding request_id_middleware unknown_error_handler
application is_alnum fresh supplied outcome =
    handled (request_id_of is_alnum fresh supplied)
      (request_id_middleware is_alnum fresh supplied outcome)
