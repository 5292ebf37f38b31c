-- ===== src/Migrations/Metadata.antt =====
-- The metadata of `Base` of backend/app/catalog/models.py: what each class declares of its table.
use stockstack.Common.{String, some, List, [], ◌∷◌, ◌++◌}
use stockstack.Common.Exec.{Exec, pure, ◌>>◌}
use stockstack.Migrations.{
  Column, uuid, text, integer, big_integer, jsonb, boolean, timestamp_tz, varchar, numeric,
  Constraint, check, primary_key, unique, foreign_key, Table, Index, Operations, column, defaulted,
  index, partial_unique,
}

-- A class: its own columns, its `__table_args__`, its foreign keys and its indices. `id` is the
-- primary key of each.
pub record Declaration : Type 0 where
  pub tablename : String
  pub columns : List Column
  pub checks : List Constraint
  pub foreign_keys : List Constraint
  pub uniques : List Constraint
  pub indices : List Index

-- `TimestampMixin`.
abbrev timestamp_mixin : List Column
timestamp_mixin =
    defaulted "created_at" timestamp_tz "now()" ∷ defaulted "updated_at" timestamp_tz "now()" ∷ []

-- An index of `__table_args__` is one of the class's table.
abbrev product_model : Declaration
product_model = record {
  tablename = "products";
  columns =
      column "id" uuid
      ∷ column "title" (varchar 60)
      ∷ column "short_title" (varchar 120)
      ∷ column "description_html" text
      ∷ column "price_amount" (numeric 18 2)
      ∷ column "stock" integer
      ∷ column "product_type" (varchar 32)
      ∷ column "status" (varchar 32)
      ∷ column "delivery_method" (varchar 32)
      ∷ column "return_rule" (varchar 32)
      ∷ column "attributes" jsonb
      ∷ column "schema_version" integer
      ∷ defaulted "version" integer "1"
      ∷ [];
  checks =
      check "price_amount >= 0" "ck_products_price_nonnegative"
      ∷ check "stock >= 0" "ck_products_stock_nonnegative"
      ∷ check "version >= 1" "ck_products_version_positive"
      ∷ [];
  foreign_keys = [];
  uniques = [];
  indices =
      index "ix_products_listing" "products"
        ("status" ∷ "product_type" ∷ "updated_at DESC" ∷ "id DESC" ∷ [])
      ∷ record (index "ix_products_title_search" "products" ("to_tsvector('simple', title)" ∷ [])) {
        using = some "gin";
      }
      ∷ [];
}

abbrev field_schema_model : Declaration
field_schema_model = record {
  tablename = "product_field_schemas";
  columns =
      column "id" uuid
      ∷ column "product_type" (varchar 32)
      ∷ column "version" integer
      ∷ column "schema" jsonb
      ∷ defaulted "active" boolean "true"
      ∷ [];
  checks = check "version >= 1" "ck_field_schema_version_positive" ∷ [];
  foreign_keys = [];
  uniques = unique ("product_type" ∷ "version" ∷ []) "uq_field_schema_type_version" ∷ [];
  indices =
      partial_unique "uq_field_schema_active_type" "product_field_schemas" ("product_type" ∷ [])
        "active"
      ∷ [];
}

abbrev product_image_model : Declaration
product_image_model = record {
  tablename = "product_images";
  columns =
      column "id" uuid
      ∷ column "product_id" uuid
      ∷ column "kind" (varchar 16)
      ∷ column "url" text
      ∷ column "sort_order" integer
      ∷ column "size_bytes" big_integer
      ∷ column "mime_type" (varchar 64)
      ∷ [];
  checks =
      check "kind IN ('main', 'gallery')" "ck_product_images_kind"
      ∷ check "sort_order >= 0" "ck_product_images_sort_nonnegative"
      ∷ check "size_bytes > 0 AND size_bytes <= 2097152" "ck_product_images_size"
      ∷ [];
  foreign_keys = foreign_key ("product_id" ∷ []) ("products.id" ∷ []) "CASCADE" ∷ [];
  uniques = [];
  indices =
      partial_unique "uq_product_images_one_main" "product_images" ("product_id" ∷ [])
        "kind = 'main'"
      ∷ [];
}

-- `Base.metadata`, a table after those that it refers to.
abbrev pub metadata : List Declaration
metadata = product_model ∷ field_schema_model ∷ product_image_model ∷ []

abbrev pub table_of : Declaration → Table
table_of d = record {
  name = d.tablename;
  columns = d.columns ++ timestamp_mixin;
  constraints = d.checks ++ d.foreign_keys ++ primary_key ("id" ∷ []) ∷ d.uniques;
}

-- What a database is asked for that is to have the tables of the metadata.
module _ (op : Operations) where
  unfoldable pub create_indices : List Index → Exec op.State op.Error (Unit {0})
  create_indices [] = pure tt
  create_indices (i ∷ indices) = do op.create_index i; create_indices indices

  unfoldable pub create_all : List Declaration → Exec op.State op.Error (Unit {0})
  unfolding create_indices
  create_all [] = pure tt
  create_all (d ∷ declared) = do
    op.create_table (table_of d)
    create_indices d.indices
    create_all declared
