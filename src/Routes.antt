-- ===== src/Routes.antt =====
-- The routes of the administrator: backend/app/catalog/router.py, behind `require_admin` and in
-- front of `ProductService`, with the handlers of errors around them.
-- A request's parts are read by FastAPI and pydantic: a call has the arguments of a route as they
-- were read, the bounds on them are tested here, and `reported` is what is said of those that do
-- not keep them. Every request has a session of its own.
pub mod Expected
pub mod Statuses
pub mod Admission
pub mod Answers
mod Tests
use stockstack.Common.{
  ℕ, Bool, true, false, ◌&&◌, Option, none, some, List, [], ◌∷◌, length, leb, if◌then◌else◌,
}
use stockstack.Common.Exec.{Result, ok, raise}
use stockstack.Common.Int.{ℤ, pos, negsuc, ge, le}
use stockstack.Common.Text.{Text}
use stockstack.Json.{Json, Fields}
use stockstack.Domain.{ProductType, ProductStatus}
use stockstack.Errors.{AppError, JsonResponse}
use stockstack.Handlers.{
  RequestError, app_error_handler, validation_error_handler, unknown_error_handler,
}
use stockstack.Models.{FieldSchema}
use stockstack.Schemas.{
  ProductCreate, ProductUpdate, ProductBatchStatusUpdate, ProductView, ProductPage, valid_create,
  valid_update, valid_batch,
}
use stockstack.FieldSchema.{FieldValidationError}
use stockstack.Auth.{Jwt, Settings, Credentials, require_admin}
use stockstack.Service.{Failure, app, crash, Cache, World, Service, rollback}
use stockstack.Service.Actions.{
  active_schema, schema_version, detail, list, create, update_product, update_status, batch_status,
}

pub record ProductStatusUpdate : Type 0 where
  pub target_status : ProductStatus
  pub version : ℕ

pub record ProductSchemaView : Type 0 where
  pub product_type : ProductType
  pub version : ℕ
  pub field_schema : Json

-- The query of `list_products`, with the defaults put in.
pub record ListQuery : Type 0 where
  pub query : Option Text
  pub product_type : Option ProductType
  pub status : Option ProductStatus
  pub page : ℤ
  pub page_size : ℤ

pub data Call : Type 0 where
  get_active : ProductType → Call
  get_version : ProductType → ℕ → Call
  post_product : ProductCreate → Call
  get_products : ListQuery → Call
  post_batch_status : ProductBatchStatusUpdate → Call
  get_product : ℕ → Call
  put_product : ℕ → ProductUpdate → Call
  patch_status : ℕ → ProductStatusUpdate → Call

abbrev short_query : Option Text → Bool
short_query none = true
short_query (some q) = leb (length q) 120

unfoldable pub valid_listing : ListQuery → Bool
valid_listing q = short_query q.query && ge q.page 1 && ge q.page_size 1 && le q.page_size 100

unfoldable pub valid_call : Call → Bool
unfolding valid_listing
valid_call (get_active t) = true
valid_call (get_version t version) = true
valid_call (post_product p) = valid_create p
valid_call (get_products q) = valid_listing q
valid_call (post_batch_status b) = valid_batch b
valid_call (get_product id) = true
valid_call (put_product id p) = valid_update p
valid_call (patch_status id p) = leb 1 p.version

-- A number that is not below 1.
abbrev natural : ℤ → ℕ
natural (pos n) = n
natural (negsuc n) = 0

abbrev pub schema_view : FieldSchema → ProductSchemaView
schema_view s = record {
  product_type = s.product_type;
  version = s.version;
  field_schema = s.schema;
}

pub data Reply : Type 0 where
  schema : ProductSchemaView → Reply
  product : ProductView → Reply
  products : List ProductView → Reply
  page : ProductPage → Reply

-- A body with its status, or an error's response.
pub data Response : Type 0 where
  answered : ℕ → Reply → Response
  refused : JsonResponse → Response

abbrev pub status_of : Response → ℕ
status_of (answered status reply) = status
status_of (refused r) = r.status_code

-- The response to a failure, from the handlers of `install_error_handling`.
unfoldable pub failed : Text → Failure → JsonResponse
failed request_id (app e) = app_error_handler request_id e
failed request_id crash = unknown_error_handler request_id

-- What of a request does not depend on its route; `now` is in seconds.
pub record Request : Type 0 where
  pub request_id : Text
  pub now : ℕ
  pub credentials : Option Credentials

module _ (c : Cache) (jwt : Jwt) (settings : Settings)
    (validate : Json → Fields → Option (List FieldValidationError)) (clean lower : Text → Text)
    (uuid7 : ℕ → ℕ) (reported : Call → List RequestError) where
  abbrev pub responded :
      {A : Type 0} → Text → ℕ → (A → Reply) → Result Failure A × World c → Response × World c
  responded request_id status reply (ok a, w) = (answered status (reply a), w)
  responded request_id status reply (raise f, w) = (refused (failed request_id f), w)

  -- The function of the route.
  unfoldable pub dispatch : Text → Call → World c → Response × World c
  dispatch r (get_active t) w = responded r 200 (λ s. schema (schema_view s)) (active_schema c t w)
  dispatch r (get_version t version) w =
      responded r 200 (λ s. schema (schema_view s)) (schema_version c t version w)
  dispatch r (post_product p) w = responded r 201 product (create c validate clean uuid7 p w)
  dispatch r (get_products q) w =
      responded r 200 page
        (list c lower q.query q.product_type q.status (natural q.page) (natural q.page_size) w)
  dispatch r (post_batch_status b) w = responded r 200 products (batch_status c b w)
  dispatch r (get_product id) w = responded r 200 product (detail c id w)
  dispatch r (put_product id p) w =
      responded r 200 product (update_product c validate clean uuid7 id p w)
  dispatch r (patch_status id p) w =
      responded r 200 product (update_status c id p.version p.target_status w)

  -- The end of the request, at which its session is closed.
  abbrev pub closed : Response × World c → Response × World c
  closed (r, w) = (r, rollback c w)

  -- The administrator is asked for before the arguments are looked at.
  abbrev pub admitted : Text → Call → Result AppError Text → World c → Response × World c
  admitted request_id call (raise e) w = (refused (app_error_handler request_id e), w)
  admitted request_id call (ok subject) w =
      if valid_call call
      then closed (dispatch request_id call w)
      else (refused (validation_error_handler request_id (reported call)), w)

  unfoldable pub serve : Request → Call → World c → Response × World c
  unfolding valid_call
  serve r call w = admitted r.request_id call (require_admin jwt settings r.now r.credentials) w

  unfoldable pub serve_all : List (Request × Call) → World c → World c
  unfolding serve
  serve_all [] w = w
  serve_all ((r, call) ∷ calls) w = serve_all calls (serve r call w).1
