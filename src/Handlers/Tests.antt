-- ===== src/Handlers/Tests.antt =====
-- An invalid request, and invalid attributes.
use stockstack.Common.{◌≡◌, List, [], ◌∷◌}
use stockstack.Common.Text.{codes}
use stockstack.FieldSchema.{key, FieldValidationError}
use stockstack.Handlers.{RequestError, error_path, validation_error_handler}
use stockstack.Common.{refl, ℕ, Bool, leb, ◌&&◌, some}
use stockstack.Handlers.Middleware.{
  application, x_request_id, Outcome, app_error_raised, other_exception,
}
use stockstack.Handlers.Middleware.Ids.{values_of}
use stockstack.Errors.{app_error}
use stockstack.Handlers.Messages.{messages_at, validation_error_handler_lem}

abbrev title_long : RequestError
title_long = record { loc = key (codes "body") ∷ key (codes "title") ∷ []; msg = codes "too long" }

abbrev no_body : RequestError
no_body = record { loc = key (codes "body") ∷ []; msg = codes "missing" }

abbrev broken : List RequestError
broken = title_long ∷ no_body ∷ []

validation_error_handler_lem_example :
    ((validation_error_handler (codes "r1") broken).status_code ≡ 400)
    × ((validation_error_handler (codes "r1") broken).request_id ≡ codes "r1")
    × (messages_at (codes "request") (validation_error_handler (codes "r1") broken).field_errors
        ≡ codes "missing" ∷ [])
unfolding error_path
validation_error_handler_lem_example =
    validation_error_handler_lem (codes "r1") (codes "request") broken

abbrev heavy : FieldValidationError
heavy = record { path = key (codes "weight_kg") ∷ []; message = codes "too heavy" }

abbrev is_small_letter : ℕ → Bool
is_small_letter c = leb 97 c && leb c 122

abbrev missing : Outcome
missing = app_error_raised (app_error "product_not_found" "Product not found" 404)

-- An id with a space is not kept.
fresh_id :
    values_of x_request_id
      (application is_small_letter (codes "new") (some (codes "a b")) other_exception).headers
    ≡ codes "new" ∷ []
unfolding application
fresh_id = refl
