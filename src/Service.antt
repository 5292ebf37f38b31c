-- ===== src/Service.antt =====
-- The operations of the administrator: backend/app/catalog/service.py.
-- Each request has one session; what it commits stays. The cache is an interface, and a call of
-- it that raises or takes too long is one that failed.
pub mod Actions
pub mod Outcomes
pub mod Statuses
pub mod Replies
pub mod History
mod Tests
use stockstack.Common.{
  ℕ, zero, suc, String, ◌++◌, Bool, true, false, not, ◌||◌, ◌&&◌, Option, none, some, List, [], ◌∷◌,
  map, leb, ltb, ◌==◌, if◌then◌else◌, is_some,
}
use stockstack.Common.Int.{ℤ, pos, negsuc}
use stockstack.Common.Dict.{Dict}
use stockstack.Common.Exec.{Exec, Result, ok, raise, pure, throw, gets, puts, ◌>>=◌, ◌>>◌}
use stockstack.Common.Text.{Text, codes, text_eq, uuid_text}
use stockstack.Json.{Json, Fields}
use stockstack.Domain.{ProductType, ProductStatus}
use stockstack.Errors.{FieldErrors, AppError, app_error, field_error}
use stockstack.Models.{Product, ProductImage, FieldSchema, Database}
use stockstack.Schemas.{
  ProductCreate, ProductUpdate, ProductVersionRef, ProductBatchStatusUpdate, ProductImageView,
  ProductView, ProductPage,
}
use stockstack.FieldSchema.{FieldValidationError, path_text}
use stockstack.Repository.{
  Reason, RepositoryError, not_found, version_conflict, schema_conflict, duplicate_product_id,
  invalid_images, integrity_error, batch_update, illegal_transition, Session, Repo, ProductModel,
  ProductValues, get_active_schema, get_schema_version, get_detail, update, create_with_images,
  replace_images,
}
use stockstack.Repository.Batch.{batch_update_status}
use stockstack.Repository.Search.{list_products}

-- What a request ends with if it does not answer: an `AppError`, or an exception that no handler
-- of the service expects.
pub data Failure : Type 0 where
  app : AppError → Failure
  crash : Failure

-- `result.setdefault(path, []).append(message)`.
unfoldable pub add_message : Text → Text → FieldErrors → FieldErrors
add_message path message [] = (path, message ∷ []) ∷ []
add_message path message ((p, messages) ∷ errors) =
    if text_eq p path
    then (p, messages ++ message ∷ []) ∷ errors
    else (p, messages) ∷ add_message path message errors

-- `".".join(map(str, error.path)) or "attributes"`.
abbrev pub path_or_attributes : Text → Text
path_or_attributes [] = codes "attributes"
path_or_attributes (c ∷ path) = c ∷ path

unfoldable pub field_errors_from : FieldErrors → List FieldValidationError → FieldErrors
unfolding add_message
field_errors_from result [] = result
field_errors_from result (e ∷ errors) =
    field_errors_from (add_message (path_or_attributes (path_text e.path)) e.message result) errors

-- `_field_errors`.
abbrev pub field_errors : List FieldValidationError → FieldErrors
field_errors errors = field_errors_from [] errors

-- `(image.sort_order, str(image.id))`; the texts of two ids are in the order of the ids.
abbrev int_ltb : ℤ → ℤ → Bool
int_ltb (pos a) (pos b) = ltb a b
int_ltb (pos a) (negsuc b) = false
int_ltb (negsuc a) (pos b) = true
int_ltb (negsuc a) (negsuc b) = ltb b a

abbrev pub image_before : ProductImage → ProductImage → Bool
image_before i j =
    int_ltb i.sort_order j.sort_order || (not (int_ltb j.sort_order i.sort_order) && ltb i.id j.id)

unfoldable pub insert_image_sorted : ProductImage → List ProductImage → List ProductImage
insert_image_sorted i [] = i ∷ []
insert_image_sorted i (j ∷ images) =
    if image_before j i then j ∷ insert_image_sorted i images else i ∷ j ∷ images

unfoldable pub sort_images : List ProductImage → List ProductImage
unfolding insert_image_sorted
sort_images [] = []
sort_images (i ∷ images) = insert_image_sorted i (sort_images images)

abbrev image_view : ProductImage → ProductImageView
image_view i = record {
  kind = i.kind;
  url = i.url;
  sort_order = i.sort_order;
  size_bytes = i.size_bytes;
  mime_type = i.mime_type;
}

-- `_view`.
unfoldable pub view : ProductModel → ProductView
unfolding sort_images
view m = record { columns = m.product; images = map image_view (sort_images m.images) }

-- `_raise_repository_error`.
unfoldable pub repository_error : RepositoryError → AppError
repository_error not_found = app_error "product_not_found" "Product not found" 404
repository_error version_conflict = app_error "version_conflict" "Product version conflict" 409
repository_error (illegal_transition e) =
    app_error "status_conflict" "Product status operation conflicts" 409
repository_error duplicate_product_id =
    app_error "status_conflict" "Product status operation conflicts" 409
repository_error (batch_update failures) =
    app_error "status_conflict" "Product status operation conflicts" 409
repository_error schema_conflict = app_error "product_conflict" "Product data conflicts" 409
repository_error invalid_images = app_error "product_conflict" "Product data conflicts" 409
repository_error integrity_error = app_error "product_conflict" "Product data conflicts" 409

abbrev pub reason_text : Reason → Text
reason_text Reason.duplicate_product_id = codes "duplicate_product_id"
reason_text Reason.not_found = codes "not_found"
reason_text Reason.version_conflict = codes "version_conflict"
reason_text Reason.illegal_transition = codes "illegal_transition"

-- The error that `batch_status` makes of a `BatchUpdateError`, and of any other exception.
unfoldable pub batch_error : RepositoryError → AppError
unfolding repository_error
batch_error (batch_update failures) =
    field_error "batch_status_conflict" "Batch status update conflicts" 409
      (map (λ f. (uuid_text f.0, reason_text f.1 ∷ [])) failures)
batch_error e = repository_error e

-- The cache that a service is given: its state, and `delete`, which tells whether it succeeded
-- within the time allowed.
pub record Cache : Type 1 where
  pub State : Type 0
  pub delete : ℕ → State → Bool × State

-- `retries` are the products whose invalidation goes on in the background, and `errors` the
-- failures that were counted, by the label of their operation.
pub record World (c : Cache) : Type 0 where
  pub session : Session
  pub cache : Option c.State
  pub retries : List ℕ
  pub errors : List String

module _ (c : Cache) where
  abbrev pub Service : Type 0 → Type 0
  Service A = Exec (World c) Failure A

  unfoldable pub commit : Service (Unit {0})
  commit = puts (λ w. record w { session = record w.session { committed = w.session.db } })

  unfoldable pub rollback : World c → World c
  rollback w = record w { session = record w.session { db = w.session.committed } }

  -- The result of a statement that no `except` stands around.
  abbrev pub answered : {A : Type 0} → Result RepositoryError A → Service A
  answered (ok a) = pure a
  answered (raise e) = throw crash

  abbrev pub query : {A : Type 0} → Repo A → Service A
  query m w = answered (m w.session).0 (record w { session = (m w.session).1 })

  -- `except … as error: rollback; raise …`.
  abbrev pub settled :
      {A : Type 0} → (RepositoryError → AppError) → Result RepositoryError A → Service A
  settled f (ok a) w = pure a w
  settled f (raise e) w = (raise (app (f e)), rollback w)

  abbrev pub attempt : {A : Type 0} → (RepositoryError → AppError) → Repo A → Service A
  attempt f m w = settled f (m w.session).0 (record w { session = (m w.session).1 })
