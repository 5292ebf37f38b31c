-- ===== src/Models/Columns.antt =====
-- What the columns of backend/app/catalog/models.py can hold: PostgreSQL refuses another value with
-- an error that is no `IntegrityError`. The inserts of the parent are those into columns that hold
-- every value.
use stockstack.Common.{ℕ, ◌+◌, ◌*◌, ◌/◌, suc, zero, Bool, ◌&&◌, length, leb, ltb}
use stockstack.Common.Int.{ℤ, pos, negsuc}
use stockstack.Common.Text.{Text, codes}
use stockstack.Json.{Decimal}
use stockstack.Domain.{
  ProductType, physical, virtual, creative, ProductStatus, on_shelf, off_shelf, penalized,
  DeliveryMethod, ems, logistics, voucher, ReturnRule, seven_days, no_returns,
}
use stockstack.Models.{ImageKind, main, gallery, MimeType, jpeg, png, webp, Product, ProductImage}

-- The texts of the enumerations.
abbrev pub product_type_text : ProductType → Text
product_type_text physical = codes "physical"
product_type_text virtual = codes "virtual"
product_type_text creative = codes "creative"

abbrev pub product_status_text : ProductStatus → Text
product_status_text on_shelf = codes "on_shelf"
product_status_text off_shelf = codes "off_shelf"
product_status_text penalized = codes "penalized"

abbrev pub delivery_method_text : DeliveryMethod → Text
delivery_method_text ems = codes "ems"
delivery_method_text logistics = codes "logistics"
delivery_method_text voucher = codes "voucher"

abbrev pub return_rule_text : ReturnRule → Text
return_rule_text seven_days = codes "seven_days"
return_rule_text no_returns = codes "no_returns"

abbrev pub image_kind_text : ImageKind → Text
image_kind_text main = codes "main"
image_kind_text gallery = codes "gallery"

abbrev pub mime_type_text : MimeType → Text
mime_type_text jpeg = codes "image/jpeg"
mime_type_text png = codes "image/png"
mime_type_text webp = codes "image/webp"

abbrev fits_signed : ℕ → ℤ → Bool
fits_signed max (pos n) = leb n max
fits_signed max (negsuc n) = leb n max

-- `Integer` and `BigInteger`: numbers of 32 and of 64 bits.
unfoldable pub fits_integer : ℤ → Bool
fits_integer = fits_signed 0x7fffffff

unfoldable pub fits_big_integer : ℤ → Bool
fits_big_integer = fits_signed 0x7fffffffffffffff

-- `String(n)`.
unfoldable pub fits_string : ℕ → Text → Bool
fits_string n t = leb (length t) n

unfoldable pub power_of_ten : ℕ → ℕ
power_of_ten zero = 1
power_of_ten (suc n) = power_of_ten n * 10

-- `Numeric(18, 2)`: eighteen digits, once the number is rounded to hundredths, a half of one up.
unfoldable pub fits_numeric : Decimal → Bool
unfolding power_of_ten
fits_numeric d =
    ltb ((d.digits * 200 + power_of_ten d.places) / (2 * power_of_ten d.places)) (power_of_ten 18)

unfoldable pub fits_product : Product → Bool
unfolding fits_integer fits_string fits_numeric
fits_product p =
    fits_string 60 p.title
    && fits_string 120 p.short_title
    && fits_numeric p.price_amount
    && fits_integer p.stock
    && fits_string 32 (product_type_text p.product_type)
    && fits_string 32 (product_status_text p.status)
    && fits_string 32 (delivery_method_text p.delivery_method)
    && fits_string 32 (return_rule_text p.return_rule)
    && fits_integer (pos p.schema_version)
    && fits_integer (pos p.version)

unfoldable pub fits_image : ProductImage → Bool
unfolding fits_integer fits_big_integer fits_string
fits_image i =
    fits_string 16 (image_kind_text i.kind)
    && fits_integer i.sort_order
    && fits_big_integer i.size_bytes
    && fits_string 64 (mime_type_text i.mime_type)
