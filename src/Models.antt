-- ===== src/Models.antt =====
-- The rows of the three tables and their constraints: backend/app/catalog/models.py.
-- A column of an enumeration's texts is held as the enumeration, and `Numeric(18, 2)` as the
-- decimal that was written. The columns of these inserts hold every value; Columns has their ranges.
pub mod Columns
use stockstack.Common.{
  ℕ, Bool, true, false, Option, none, some, List, [], ◌∷◌, ◌++◌, ◌==◌, leb, ◌&&◌, ◌||◌, not, any,
  if◌then◌else◌,
}
use stockstack.Common.Int.{ℤ, ge, le}
use stockstack.Common.Text.{Text}
use stockstack.Json.{Json, Decimal, Fields}
use stockstack.Domain.{ProductType, ProductStatus, DeliveryMethod, ReturnRule, type_eq}

pub data ImageKind : Type 0 where
  main gallery : ImageKind

pub data MimeType : Type 0 where
  jpeg png webp : MimeType

abbrev pub is_main : ImageKind → Bool
is_main main = true
is_main gallery = false

abbrev pub is_gallery : ImageKind → Bool
is_gallery main = false
is_gallery gallery = true

-- `ProductModel`, without the relationship to its images.
pub record Product : Type 0 where
  pub id : ℕ
  pub title : Text
  pub short_title : Text
  pub description_html : Text
  pub price_amount : Decimal
  pub stock : ℤ
  pub product_type : ProductType
  pub status : ProductStatus
  pub delivery_method : DeliveryMethod
  pub return_rule : ReturnRule
  pub attributes : Fields
  pub schema_version : ℕ
  pub version : ℕ
  pub created_at : ℕ
  pub updated_at : ℕ

-- `ProductFieldSchemaModel`.
pub record FieldSchema : Type 0 where
  pub id : ℕ
  pub product_type : ProductType
  pub version : ℕ
  pub schema : Json
  pub active : Bool

-- `ProductImageModel`.
pub record ProductImage : Type 0 where
  pub id : ℕ
  pub product_id : ℕ
  pub kind : ImageKind
  pub url : Text
  pub sort_order : ℤ
  pub size_bytes : ℤ
  pub mime_type : MimeType

-- The three tables.
pub record Database : Type 0 where
  pub products : List Product
  pub images : List ProductImage
  pub schemas : List FieldSchema

-- `value >= 0` for a decimal.
abbrev pub nonnegative : Decimal → Bool
nonnegative d = not d.negative || d.digits == 0

-- The `CheckConstraint`s of each table.
unfoldable pub check_product : Product → Bool
check_product p = nonnegative p.price_amount && ge p.stock 0 && leb 1 p.version

unfoldable pub check_schema : FieldSchema → Bool
check_schema s = leb 1 s.version

unfoldable pub check_image : ProductImage → Bool
check_image i = ge i.sort_order 0 && ge i.size_bytes 1 && le i.size_bytes 2097152

-- What keeps a row out of `product_field_schemas`: its keys and the two unique indices.
unfoldable pub schema_conflicts : FieldSchema → FieldSchema → Bool
schema_conflicts s t =
    s.id == t.id
    || (type_eq s.product_type t.product_type && s.version == t.version)
    || (type_eq s.product_type t.product_type && s.active && t.active)

-- What keeps a row out of `product_images`: its key, and a second main image of a product.
unfoldable pub image_conflicts : ProductImage → ProductImage → Bool
image_conflicts i j =
    i.id == j.id || (i.product_id == j.product_id && is_main i.kind && is_main j.kind)

-- An `INSERT` of one row: `none` stands for `IntegrityError`.
unfoldable pub insert_product : Product → Database → Option Database
unfolding check_product
insert_product p db =
    if check_product p && not (any (λ q. p.id == q.id) db.products)
    then some (record db { products = db.products ++ p ∷ [] })
    else none

unfoldable pub insert_schema : FieldSchema → Database → Option Database
unfolding check_schema schema_conflicts
insert_schema s db =
    if check_schema s && not (any (schema_conflicts s) db.schemas)
    then some (record db { schemas = db.schemas ++ s ∷ [] })
    else none

unfoldable pub insert_image : ProductImage → Database → Option Database
unfolding check_image image_conflicts
insert_image i db =
    if check_image i
      && not (any (image_conflicts i) db.images)
      && any (λ p. p.id == i.product_id) db.products
    then some (record db { images = db.images ++ i ∷ [] })
    else none
