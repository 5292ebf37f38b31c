-- ===== src/Handlers.antt =====
-- The handlers of errors and of request ids: `install_error_handling` of
-- backend/app/core/errors.py. The service groups its messages by path in the same way.
pub mod Messages
pub mod Middleware
mod Tests
use stockstack.Common.{
  ℕ, Bool, true, false, not, ◌||◌, Option, none, some, List, [], ◌∷◌, ◌++◌, filter, if◌then◌else◌,
}
use stockstack.Common.Text.{Text, codes, text_eq}
use stockstack.Errors.{
  FieldErrors, AppError, app_error, field_error, JsonResponse, response, valid_request_id,
}
use stockstack.FieldSchema.{PathPart, key, index, FieldPath, path_text}
use stockstack.Service.{add_message}

-- An error of a request's validation, as FastAPI reports it.
pub record RequestError : Type 0 where
  pub loc : FieldPath
  pub msg : Text

-- `part not in {"body", "query", "path"}`.
abbrev pub is_named : PathPart → Bool
is_named (key k) =
    not (text_eq k (codes "body") || text_eq k (codes "query") || text_eq k (codes "path"))
is_named (index n) = true

-- `path or "request"`.
abbrev pub path_or_request : Text → Text
path_or_request [] = codes "request"
path_or_request (c ∷ path) = c ∷ path

unfoldable pub error_path : RequestError → Text
unfolding path_text
error_path e = path_or_request (path_text (filter is_named e.loc))

unfoldable pub request_errors : FieldErrors → List RequestError → FieldErrors
unfolding error_path add_message
request_errors result [] = result
request_errors result (e ∷ errors) = request_errors (add_message (error_path e) e.msg result) errors

unfoldable pub validation_error_handler : Text → List RequestError → JsonResponse
unfolding request_errors response
validation_error_handler request_id errors =
    response request_id
      (field_error "validation_error" "Request validation failed" 400 (request_errors [] errors))

unfoldable pub app_error_handler : Text → AppError → JsonResponse
unfolding response
app_error_handler request_id error = response request_id error

unfoldable pub unknown_error_handler : Text → JsonResponse
unfolding response
unknown_error_handler request_id =
    response request_id (app_error "internal_error" "An unexpected error occurred" 500)

-- The id of a request: the one that came with it, if it is valid, or a fresh one.
unfoldable pub request_id_of : (ℕ → Bool) → Text → Option Text → Text
unfolding valid_request_id
request_id_of is_alnum fresh none = fresh
request_id_of is_alnum fresh (some supplied) =
    if valid_request_id is_alnum (some supplied) then supplied else fresh
