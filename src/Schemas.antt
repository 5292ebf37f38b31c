-- ===== src/Schemas.antt =====
-- The bodies of requests and of responses, with the bounds that pydantic checks:
-- backend/app/catalog/schemas.py.
use stockstack.Common.{
  ℕ, ◌*◌, Bool, true, false, List, all, count, length, leb, ltb, ◌==◌, not, ◌&&◌, if◌then◌else◌,
}
use stockstack.Common.Exec.{Result, ok, raise}
use stockstack.Common.Int.{ℤ, ge, le}
use stockstack.Common.Text.{Text}
use stockstack.Json.{Decimal, Fields}
use stockstack.Domain.{
  ProductType, ProductStatus, on_shelf, off_shelf, penalized, DeliveryMethod, ReturnRule,
}
use stockstack.Models.{ImageKind, is_main, is_gallery, MimeType, Product, nonnegative}

pub record ProductImageInput : Type 0 where
  pub kind : ImageKind
  pub url : Text
  pub sort_order : ℤ
  pub size_bytes : ℤ
  pub mime_type : MimeType

unfoldable pub valid_image_input : ProductImageInput → Bool
valid_image_input i =
    leb 1 (length i.url)
    && ge i.sort_order 0
    && ge i.size_bytes 1
    && le i.size_bytes (2 * 1024 * 1024)

pub data ImageCollectionError : Type 0 where
  exactly_one_main at_most_five_gallery : ImageCollectionError

abbrev pub main_count : List ProductImageInput → ℕ
main_count images = count (λ i. is_main i.kind) images

abbrev pub gallery_count : List ProductImageInput → ℕ
gallery_count images = count (λ i. is_gallery i.kind) images

-- `_assert_image_collection`.
unfoldable pub assert_image_collection :
    List ProductImageInput → Result ImageCollectionError (Unit {0})
assert_image_collection images =
    if not (main_count images == 1)
    then raise exactly_one_main
    else if ltb 5 (gallery_count images)
    then raise at_most_five_gallery
    else ok tt

abbrev pub accepted {ℓ} : {E A : Type ℓ} → Result E A → Bool
accepted (ok a) = true
accepted (raise e) = false

pub record ProductCreate : Type 0 where
  pub title : Text
  pub short_title : Text
  pub description_html : Text
  pub price_amount : Decimal
  pub stock : ℤ
  pub product_type : ProductType
  pub status : ProductStatus
  pub delivery_method : DeliveryMethod
  pub return_rule : ReturnRule
  pub attributes : Fields
  pub schema_version : ℕ
  pub images : List ProductImageInput

-- The payloads that pydantic lets through.
unfoldable pub valid_create : ProductCreate → Bool
unfolding valid_image_input assert_image_collection
valid_create p =
    leb 1 (length p.title)
    && leb (length p.title) 60
    && leb (length p.short_title) 120
    && leb (length p.description_html) 2000
    && nonnegative p.price_amount
    && ge p.stock 0
    && leb 1 p.schema_version
    && all valid_image_input p.images
    && accepted (assert_image_collection p.images)

pub record ProductUpdate : Type 0 where
  pub version : ℕ
  pub title : Text
  pub short_title : Text
  pub description_html : Text
  pub price_amount : Decimal
  pub stock : ℤ
  pub status : ProductStatus
  pub delivery_method : DeliveryMethod
  pub return_rule : ReturnRule
  pub attributes : Fields
  pub schema_version : ℕ
  pub images : List ProductImageInput

unfoldable pub valid_update : ProductUpdate → Bool
unfolding valid_image_input assert_image_collection
valid_update p =
    leb 1 p.version
    && leb 1 (length p.title)
    && leb (length p.title) 60
    && leb (length p.short_title) 120
    && leb (length p.description_html) 2000
    && nonnegative p.price_amount
    && ge p.stock 0
    && leb 1 p.schema_version
    && all valid_image_input p.images
    && accepted (assert_image_collection p.images)

pub record ProductVersionRef : Type 0 where
  pub product_id : ℕ
  pub version : ℕ

pub record ProductBatchStatusUpdate : Type 0 where
  pub product_ids : List ProductVersionRef
  pub target_status : ProductStatus

-- At least one product, versions from 1, and no penalties.
unfoldable pub valid_batch : ProductBatchStatusUpdate → Bool
valid_batch b =
    leb 1 (length b.product_ids)
    && all (λ r. leb 1 r.version) b.product_ids
    && (elim b.target_status [ on_shelf ↦ true | off_shelf ↦ true | penalized ↦ false ])

pub record ProductImageView : Type 0 where
  pub kind : ImageKind
  pub url : Text
  pub sort_order : ℤ
  pub size_bytes : ℤ
  pub mime_type : MimeType

-- Every column of the product, and its images.
pub record ProductView : Type 0 where
  pub columns : Product
  pub open columns use *
  pub images : List ProductImageView

pub record ProductPage : Type 0 where
  pub items : List ProductView
  pub total : ℕ
  pub page : ℕ
  pub page_size : ℕ
