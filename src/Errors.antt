-- ===== src/Errors.antt =====
-- The error that every layer raises, and its rendering: backend/app/core/errors.py.
use stockstack.Common.{
  ℕ, String, Bool, false, Option, none, some, List, [], ◌∷◌, ◌++◌, all, length, ltb, ◌||◌,
  if◌then◌else◌, member,
}
use stockstack.Common.Text.{Text, codes}

-- `dict[str, list[str]]`, in the order of insertion.
abbrev pub FieldErrors : Type 0
FieldErrors = List (Text × List Text)

pub record AppError : Type 0 where
  pub code : String
  pub message : String
  pub status_code : ℕ
  pub field_errors : FieldErrors
  pub headers : List (String × Text)

-- `AppError(code, message, status)`: the other arguments default to nothing.
abbrev pub app_error : String → String → ℕ → AppError
app_error code message status = record {
  code = code;
  message = message;
  status_code = status;
  field_errors = [];
  headers = [];
}

-- `AppError(code, message, status, field_errors)`.
abbrev pub field_error : String → String → ℕ → FieldErrors → AppError
field_error code message status errors = record (app_error code message status) {
  field_errors = errors;
}

pub record JsonResponse : Type 0 where
  pub status_code : ℕ
  pub code : String
  pub message : String
  pub field_errors : FieldErrors
  pub request_id : Text
  pub headers : List (String × Text)

-- `_response`, with the request's identifier already chosen.
unfoldable pub response : Text → AppError → JsonResponse
response request_id error = record {
  status_code = error.status_code;
  code = error.code;
  message = error.message;
  field_errors = error.field_errors;
  request_id = request_id;
  headers = error.headers ++ ("X-Request-ID", request_id) ∷ [];
}

-- `_valid_request_id`; `is_alnum` is `str.isalnum` of one character.
unfoldable pub valid_request_id : (ℕ → Bool) → Option Text → Bool
valid_request_id is_alnum none = false
valid_request_id is_alnum (some []) = false
valid_request_id is_alnum (some (c ∷ rest)) =
    if ltb 128 (length (c ∷ rest))
    then false
    else all (λ d. is_alnum d || member d (codes "-_.:")) (c ∷ rest)
