-- ===== src/Repository/Columns.antt =====
-- Which bodies of requests fit the columns: backend/app/catalog/schemas.py beside
-- backend/app/catalog/models.py.
use stockstack.Common.{Bool, ◌&&◌, List, all, leb}
use stockstack.Common.Int.{le}
use stockstack.Common.Text.{Text}
use stockstack.Models.{Product, ProductImage}
use stockstack.Models.Columns.{fits_numeric, fits_product, fits_image}
use stockstack.Schemas.{ProductImageInput, ProductCreate}

-- The bounds of the columns that the schemas do not have.
abbrev pub is_within : ProductCreate → Bool
is_within p =
    fits_numeric p.price_amount
    && le p.stock 0x7fffffff
    && leb p.schema_version 0x7fffffff
    && all (λ i. le i.sort_order 0x7fffffff) p.images

abbrev pub rows_fit : Product → (ProductImageInput → ProductImage) → List ProductImageInput → Bool
rows_fit row image images = fits_product row && all (λ i. fits_image (image i)) images
