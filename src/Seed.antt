-- ===== src/Seed.antt =====
-- The script that installs the demo templates and products: scripts/seed.py.
-- `files` are those of `UPLOAD_ROOT`, and the session is that of `async with`: it writes what was
-- added before its next query, and what was not committed is gone when an exception leaves it.
pub mod Data
pub mod Adds
pub mod Image
pub mod Listed
pub mod Runs
mod Tests
use stockstack.Common.{
  ℕ, Bool, true, false, Option, none, some, List, [], ◌∷◌, length, take, find, is_some,
}
use stockstack.Common.Exec.{Result, ok, raise, Exec, pure, throw, gets, puts, ◌>>=◌, ◌>>◌}
use stockstack.Common.Int.{ℤ, pos}
use stockstack.Common.Text.{Text, codes}
use stockstack.Json.{Json, Decimal, Fields}
use stockstack.Domain.{
  ProductType, physical, virtual, creative, off_shelf, DeliveryMethod, ems, voucher, seven_days,
}
use stockstack.Models.{
  Product, ProductImage, FieldSchema, main, png, insert_product, insert_image, insert_schema,
}
use stockstack.Repository.{
  RepositoryError, integrity_error, Session, Repo, has_id, flushed, draw_id, schema_version_of,
}
use stockstack.Uploads.{Bytes}
use stockstack.Uploads.Storage.{Files, put_file}
use stockstack.Seed.Data.{png_bytes, schemas, Sample, samples}

pub data SeedError : Type 0 where
  os_error : SeedError
  database_error : RepositoryError → SeedError

abbrev pub seed_main : Text
seed_main = codes "seed-main.png"

-- What fails of the file system: the making of the directory, or the writing of the image after
-- a number of bytes.
pub record DiskFaults : Type 0 where
  pub mkdir : Bool
  pub write : Option ℕ

abbrev pub write_demo : Option ℕ → Exec Files SeedError (Unit {0})
write_demo (some n) files = (raise os_error, put_file seed_main (some (take n png_bytes)) files)
write_demo none files = (ok tt, put_file seed_main (some png_bytes) files)

abbrev pub unless_there : DiskFaults → Option Bytes → Exec Files SeedError (Unit {0})
unless_there f (some content) = pure tt
unless_there f none = write_demo f.write

abbrev pub after_mkdir : Bool → DiskFaults → Exec Files SeedError (Unit {0})
after_mkdir true f files = (raise os_error, files)
after_mkdir false f files = unless_there f (files seed_main) files

unfoldable pub ensure_demo_image : DiskFaults → Exec Files SeedError (Unit {0})
ensure_demo_image f = after_mkdir f.mkdir f

-- `"ems" if product_type == "physical" else "voucher"`.
abbrev pub delivery_of : ProductType → DeliveryMethod
delivery_of physical = ems
delivery_of virtual = voucher
delivery_of creative = voucher

-- The row that `product` gives.
abbrev pub product : ℕ → Sample → Product
product now x = record {
  id = x.id;
  title = x.title;
  short_title = x.title;
  description_html = codes "<p>StockStack 本地演示数据</p>";
  price_amount = record { negative = false; digits = 1990; places = 2 };
  stock = pos 100;
  product_type = x.product_type;
  status = off_shelf;
  delivery_method = delivery_of x.product_type;
  return_rule = seven_days;
  attributes = x.attributes;
  schema_version = 1;
  version = 1;
  created_at = now;
  updated_at = now;
}

-- And its image.
abbrev pub product_image : ℕ → ℕ → ProductImage
product_image image_id id = record {
  id = image_id;
  product_id = id;
  kind = main;
  url = codes "/uploads/seed-main.png";
  sort_order = pos 0;
  size_bytes = pos (length png_bytes);
  mime_type = png;
}

abbrev pub field_schema : ℕ → ProductType → Json → FieldSchema
field_schema id t schema = record {
  id = id;
  product_type = t;
  version = 1;
  schema = schema;
  active = true;
}

module _ (uuid7 : ℕ → ℕ) where
  abbrev pub add_schema : ProductType → Json → Option FieldSchema → Repo (Unit {0})
  add_schema t schema (some existing) = pure tt
  add_schema t schema none = do
    id ← draw_id uuid7
    (λ s. flushed (insert_schema (field_schema id t schema) s.db) s)

  unfoldable pub add_schemas : List (ProductType × Json) → Repo (Unit {0})
  unfolding draw_id
  add_schemas [] = pure tt
  add_schemas ((t, schema) ∷ rest) = do
    existing ← gets (λ s. schema_version_of t 1 s.db)
    add_schema t schema existing
    add_schemas rest

  abbrev pub add_product : Sample → Option Product → Repo (Unit {0})
  add_product x (some existing) = pure tt
  add_product x none = do
    now ← gets (λ s. s.now)
    (λ s. flushed (insert_product (product now x) s.db) s)
    id ← draw_id uuid7
    (λ s. flushed (insert_image (product_image id x.id) s.db) s)

  unfoldable pub add_products : List Sample → Repo (Unit {0})
  unfolding draw_id
  add_products [] = pure tt
  add_products (x ∷ rest) = do
    existing ← gets (λ s. find (has_id x.id) s.db.products)
    add_product x existing
    add_products rest

  abbrev pub committed : Repo (Unit {0})
  committed = puts (λ s. record s { committed = s.db })

  -- The body of the `async with` block, for any templates and samples.
  abbrev pub install : List (ProductType × Json) → List Sample → Repo (Unit {0})
  install templates xs = do add_schemas templates; add_products xs; committed

  -- The end of the `async with` block.
  abbrev pub closed : Result RepositoryError (Unit {0}) → Exec Session SeedError (Unit {0})
  closed (ok u) s = (ok u, s)
  closed (raise e) s = (raise (database_error e), record s { db = s.committed })

  -- What follows `ensure_demo_image`.
  abbrev pub seeded :
      List (ProductType × Json)
      → List Sample
      → Result SeedError (Unit {0}) × Files
      → Session
      → Result SeedError (Unit {0}) × (Files × Session)
  seeded templates xs (raise e, files) s = (raise e, (files, s))
  seeded templates xs (ok u, files) s =
      let t = install templates xs s in let r = closed t.0 t.1 in (r.0, (files, r.1))

  -- `seed`.
  unfoldable pub seed : DiskFaults → Exec (Files × Session) SeedError (Unit {0})
  unfolding ensure_demo_image
  seed f (files, s) = seeded schemas samples (ensure_demo_image f files) s
