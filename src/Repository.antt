-- ===== src/Repository.antt =====
-- Persistence inside one transaction: backend/app/catalog/repository.py.
-- A session has the rows that its statements see and the rows that were committed last. The ids
-- of new rows come from `uuid7`, a function of the number of ids drawn before.
pub mod Batch
pub mod Catalogue
pub mod Locking
pub mod Columns
pub mod Rows
pub mod Writes
mod Tests
pub mod Search
use stockstack.Common.{
  ℕ, ◌+◌, Bool, true, false, not, ◌&&◌, ◌||◌, Option, none, some, List, [], ◌∷◌, map, filter, find,
  any, ltb, ◌==◌, if◌then◌else◌,
}
use stockstack.Common.Exec.{Exec, Result, ok, raise, pure, throw, gets, puts, ◌>>=◌, ◌>>◌}
use stockstack.Common.Int.{ℤ}
use stockstack.Common.Text.{Text}
use stockstack.Common.Dict.{Dict}
use stockstack.Json.{Json, Decimal, Fields}
use stockstack.Domain.{
  ProductType, ProductStatus, on_shelf, DeliveryMethod, ReturnRule, type_eq, status_eq,
  IllegalProductStatusTransition,
}
use stockstack.Models.{
  Product, ProductImage, FieldSchema, Database, check_product, insert_product, insert_schema,
  insert_image,
}
use stockstack.Schemas.{ProductImageInput, ProductCreate, main_count, gallery_count}

-- The texts that `BatchUpdateError` gives for a product.
pub data Reason : Type 0 where
  duplicate_product_id not_found version_conflict illegal_transition : Reason

-- The subclasses of `RepositoryError`, and the two other exceptions that the service catches.
pub data RepositoryError : Type 0 where
  not_found version_conflict schema_conflict duplicate_product_id invalid_images : RepositoryError
  integrity_error : RepositoryError
  batch_update : Dict Reason → RepositoryError
  illegal_transition : IllegalProductStatusTransition → RepositoryError

-- `now` is the time at which the transaction began.
pub record Session : Type 0 where
  pub db : Database
  pub committed : Database
  pub draws : ℕ
  pub now : ℕ

abbrev pub Repo : Type 0 → Type 0
Repo A = Exec Session RepositoryError A

-- A product with `images` loaded.
pub record ProductModel : Type 0 where
  pub product : Product
  pub images : List ProductImage

abbrev pub has_id : ℕ → Product → Bool
has_id id p = p.id == id

abbrev pub images_of : ℕ → Database → List ProductImage
images_of id db = filter (λ i. i.product_id == id) db.images

abbrev pub load : Database → Product → ProductModel
load db p = record { product = p; images = images_of p.id db }

unfoldable pub active_schema_of : ProductType → Database → Option FieldSchema
active_schema_of t db = find (λ s. type_eq s.product_type t && s.active) db.schemas

unfoldable pub get_active_schema : ProductType → Repo (Option FieldSchema)
unfolding active_schema_of
get_active_schema t = gets (λ s. active_schema_of t s.db)

unfoldable pub schema_version_of : ProductType → ℕ → Database → Option FieldSchema
schema_version_of t version db =
    find (λ s. type_eq s.product_type t && s.version == version) db.schemas

unfoldable pub get_schema_version : ProductType → ℕ → Repo (Option FieldSchema)
unfolding schema_version_of
get_schema_version t version = gets (λ s. schema_version_of t version s.db)

abbrev pub load_option : Database → Option Product → Option ProductModel
load_option db none = none
load_option db (some p) = some (load db p)

unfoldable pub detail_of : ℕ → Database → Option ProductModel
detail_of id db = load_option db (find (has_id id) db.products)

unfoldable pub get_detail : ℕ → Repo (Option ProductModel)
unfolding detail_of
get_detail id = gets (λ s. detail_of id s.db)

unfoldable pub public_of : ℕ → Database → Option ProductModel
public_of id db =
    load_option db (find (λ p. has_id id p && status_eq p.status on_shelf) db.products)

unfoldable pub get_public : ℕ → Repo (Option ProductModel)
unfolding public_of
get_public id = gets (λ s. public_of id s.db)

-- What `update` assigns: the payload without `version`, `images`, `schema_version` and `status`.
pub record ProductValues : Type 0 where
  pub title : Text
  pub short_title : Text
  pub description_html : Text
  pub price_amount : Decimal
  pub stock : ℤ
  pub delivery_method : DeliveryMethod
  pub return_rule : ReturnRule
  pub attributes : Fields

abbrev pub assign : ProductValues → ℕ → Product → Product
assign v now p = record p {
  title = v.title;
  short_title = v.short_title;
  description_html = v.description_html;
  price_amount = v.price_amount;
  stock = v.stock;
  delivery_method = v.delivery_method;
  return_rule = v.return_rule;
  attributes = v.attributes;
  version = p.version + 1;
  updated_at = now;
}

abbrev at_version : ℕ → ℕ → Product → Bool
at_version id version p = has_id id p && p.version == version

abbrev updated : ℕ → ℕ → ProductValues → ℕ → Database → Database
updated id expected v now db = record db {
  products = map (λ p. if at_version id expected p then assign v now p else p) db.products;
}

-- The row that `UPDATE … RETURNING` gives, or the reason that there is none.
abbrev update_row : ℕ → ℕ → ProductValues → Option Product → Repo Product
update_row id expected v (some p) s =
    if check_product (assign v s.now p)
    then (ok (assign v s.now p), record s { db = updated id expected v s.now s.db })
    else (raise integrity_error, s)
update_row id expected v none s = (
  raise (
      if any (has_id id) s.db.products
      then RepositoryError.version_conflict
      else RepositoryError.not_found),
  s,
)

unfoldable pub update : ℕ → ℕ → ProductValues → Repo Product
unfolding check_product
update id expected v s = update_row id expected v (find (at_version id expected) s.db.products) s

abbrev pub flushed : Option Database → Repo (Unit {0})
flushed none s = (raise integrity_error, s)
flushed (some db) s = (ok tt, record s { db = db })

-- The test that `create_with_images` and `replace_images` begin with.
unfoldable pub check_images : List ProductImageInput → Repo (Unit {0})
check_images images =
    if not (main_count images == 1) || ltb 5 (gallery_count images)
    then throw invalid_images
    else pure tt

abbrev pub image_row : ℕ → ℕ → ProductImageInput → ProductImage
image_row id product_id i = record {
  id = id;
  product_id = product_id;
  kind = i.kind;
  url = i.url;
  sort_order = i.sort_order;
  size_bytes = i.size_bytes;
  mime_type = i.mime_type;
}

abbrev pub product_row : ℕ → ℕ → ProductCreate → Product
product_row id now v = record {
  id = id;
  title = v.title;
  short_title = v.short_title;
  description_html = v.description_html;
  price_amount = v.price_amount;
  stock = v.stock;
  product_type = v.product_type;
  status = v.status;
  delivery_method = v.delivery_method;
  return_rule = v.return_rule;
  attributes = v.attributes;
  schema_version = v.schema_version;
  version = 1;
  created_at = now;
  updated_at = now;
}

module _ (uuid7 : ℕ → ℕ) where
  unfoldable pub draw_id : Repo ℕ
  draw_id s = (ok (uuid7 s.draws), record s { draws = s.draws + 1 })

  -- The loop of `session.add`, and its flush.
  unfoldable pub add_images : ℕ → List ProductImageInput → Repo (Unit {0})
  unfolding draw_id
  add_images product_id [] = pure tt
  add_images product_id (i ∷ images) = do
    id ← draw_id
    (λ s. flushed (insert_image (image_row id product_id i) s.db) s)
    add_images product_id images

  unfoldable pub create_with_images : ProductCreate → List ProductImageInput → Repo ProductModel
  unfolding check_images add_images
  create_with_images v images = do
    check_images images
    id ← draw_id
    now ← gets (λ s. s.now)
    (λ s. flushed (insert_product (product_row id now v) s.db) s)
    add_images id images
    gets (λ s. load s.db (product_row id now v))

  unfoldable pub replace_images : Product → List ProductImageInput → Repo ProductModel
  unfolding check_images add_images
  replace_images p images = do
    check_images images
    puts (λ s. record s {
      db = record s.db { images = filter (λ i. not (i.product_id == p.id)) s.db.images };
    })
    add_images p.id images
    gets (λ s. load s.db p)

  unfoldable pub create_schema : ProductType → ℕ → Json → Bool → Repo FieldSchema
  unfolding draw_id
  create_schema t version schema active = do
    id ← draw_id
    row ←
        pure (record {
          id = id;
          product_type = t;
          version = version;
          schema = schema;
          active = active;
        })
    (λ s. elim (insert_schema row s.db) [
      | none ↦ (raise schema_conflict, s)
      | some db ↦ (ok row, record s { db = db })
    ])
