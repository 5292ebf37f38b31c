-- ===== src/Migrations/Initial.antt =====
-- `upgrade` and `downgrade` of backend/alembic/versions/0001_initial.py.
use stockstack.Common.{some, List, [], ◌∷◌}
use stockstack.Common.Exec.{Exec, ◌>>◌}
use stockstack.Migrations.{
  Column, uuid, text, integer, big_integer, jsonb, boolean, timestamp_tz, varchar, numeric, check,
  primary_key, unique, foreign_key, Table, Index, Operations, column, defaulted, index,
  partial_unique,
}

-- `_timestamps`.
abbrev pub timestamps : List Column
timestamps =
    defaulted "created_at" timestamp_tz "now()" ∷ defaulted "updated_at" timestamp_tz "now()" ∷ []

abbrev pub products : Table
products = record {
  name = "products";
  columns =
      column "id" uuid
      ∷ column "title" (varchar 60)
      ∷ column "short_title" (varchar 120)
      ∷ column "description_html" text
      ∷ column "price_amount" (numeric 18 2)
      ∷ column "stock" integer
      ∷ column "product_type" (varchar 32)
      ∷ column "status" (varchar 32)
      ∷ column "delivery_method" (varchar 32)
      ∷ column "return_rule" (varchar 32)
      ∷ column "attributes" jsonb
      ∷ column "schema_version" integer
      ∷ defaulted "version" integer "1"
      ∷ timestamps;
  constraints =
      check "price_amount >= 0" "ck_products_price_nonnegative"
      ∷ check "stock >= 0" "ck_products_stock_nonnegative"
      ∷ check "version >= 1" "ck_products_version_positive"
      ∷ primary_key ("id" ∷ [])
      ∷ [];
}

abbrev pub products_listing : Index
products_listing =
    index "ix_products_listing" "products"
      ("status" ∷ "product_type" ∷ "updated_at DESC" ∷ "id DESC" ∷ [])

abbrev pub products_title_search : Index
products_title_search =
    record (index "ix_products_title_search" "products" ("to_tsvector('simple', title)" ∷ [])) {
      using = some "gin";
    }

abbrev pub product_field_schemas : Table
product_field_schemas = record {
  name = "product_field_schemas";
  columns =
      column "id" uuid
      ∷ column "product_type" (varchar 32)
      ∷ column "version" integer
      ∷ column "schema" jsonb
      ∷ defaulted "active" boolean "true"
      ∷ timestamps;
  constraints =
      check "version >= 1" "ck_field_schema_version_positive"
      ∷ primary_key ("id" ∷ [])
      ∷ unique ("product_type" ∷ "version" ∷ []) "uq_field_schema_type_version"
      ∷ [];
}

abbrev pub field_schema_active_type : Index
field_schema_active_type =
    partial_unique "uq_field_schema_active_type" "product_field_schemas" ("product_type" ∷ [])
      "active"

abbrev pub product_images : Table
product_images = record {
  name = "product_images";
  columns =
      column "id" uuid
      ∷ column "product_id" uuid
      ∷ column "kind" (varchar 16)
      ∷ column "url" text
      ∷ column "sort_order" integer
      ∷ column "size_bytes" big_integer
      ∷ column "mime_type" (varchar 64)
      ∷ timestamps;
  constraints =
      check "kind IN ('main', 'gallery')" "ck_product_images_kind"
      ∷ check "sort_order >= 0" "ck_product_images_sort_nonnegative"
      ∷ check "size_bytes > 0 AND size_bytes <= 2097152" "ck_product_images_size"
      ∷ foreign_key ("product_id" ∷ []) ("products.id" ∷ []) "CASCADE"
      ∷ primary_key ("id" ∷ [])
      ∷ [];
}

abbrev pub product_images_one_main : Index
product_images_one_main =
    partial_unique "uq_product_images_one_main" "product_images" ("product_id" ∷ []) "kind = 'main'"

module _ (op : Operations) where
  unfoldable pub upgrade : Exec op.State op.Error (Unit {0})
  upgrade = do
    op.create_table products
    op.create_index products_listing
    op.create_index products_title_search
    op.create_table product_field_schemas
    op.create_index field_schema_active_type
    op.create_table product_images
    op.create_index product_images_one_main

  unfoldable pub downgrade : Exec op.State op.Error (Unit {0})
  downgrade = do
    op.drop_index "uq_product_images_one_main" "product_images"
    op.drop_table "product_images"
    op.drop_index "uq_field_schema_active_type" "product_field_schemas"
    op.drop_table "product_field_schemas"
    op.drop_index "ix_products_title_search" "products"
    op.drop_index "ix_products_listing" "products"
    op.drop_table "products"
