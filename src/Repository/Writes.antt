-- ===== src/Repository/Writes.antt =====
-- What the insertions of a product and of its images write.
use stockstack.Common.{
  ℕ, ◌+◌, ◌≡◌, refl, ◌∙◌, true, false, not, List, [], ◌∷◌, ◌++◌, filter, any, ◌==◌, arith,
}
use stockstack.Common.Exec.{ok, bind-rel}
use stockstack.Models.{Product, ProductImage, check_product, insert_product, insert_image}
use stockstack.Schemas.{ProductImageInput, ProductCreate}
use stockstack.Repository.{
  Session, ProductModel, load, flushed, check_images, image_row, add_images, product_row,
  create_with_images, replace_images,
}

-- The second session differs from the first in its images and in the ids drawn, at most.
pub record KeepsRows (s t : Session) : Type 0 where
  pub products : t.db.products ≡ s.db.products
  pub schemas : t.db.schemas ≡ s.db.schemas
  pub committed : t.committed ≡ s.committed
  pub now : t.now ≡ s.now

KeepsRows-refl : (s : Session) → KeepsRows s s
KeepsRows-refl s = record { products = refl; schemas = refl; committed = refl; now = refl }

KeepsRows-trans : {s t u : Session} → KeepsRows s t → KeepsRows t u → KeepsRows s u
KeepsRows-trans h k = record {
  products = k.products ∙ h.products;
  schemas = k.schemas ∙ h.schemas;
  committed = k.committed ∙ h.committed;
  now = k.now ∙ h.now;
}

flushed-KeepsRows :
    (i : ProductImage) (s : Session) → KeepsRows s (flushed (insert_image i s.db) s).1
unfolding insert_image
flushed-KeepsRows i s = ground arith

module _ (uuid7 : ℕ → ℕ) where
  pub add_images-KeepsRows :
      (id : ℕ) (images : List ProductImageInput) (s : Session)
      → KeepsRows s (add_images uuid7 id images s).1
  unfolding add_images
  add_images-KeepsRows id [] s = KeepsRows-refl s
  add_images-KeepsRows id (i ∷ images) s =
      let row = image_row (uuid7 s.draws) id i in
      KeepsRows-trans {t = record s { draws = s.draws + 1 }}
        (record { products = refl; schemas = refl; committed = refl; now = refl })
        (bind-rel KeepsRows (λ s t u. KeepsRows-trans) (λ _. add_images uuid7 id images)
          (λ t. flushed (insert_image row t.db) t) (record s { draws = s.draws + 1 })
          (flushed-KeepsRows row (record s { draws = s.draws + 1 }))
          λ _ u. add_images-KeepsRows id images u)

  -- A creation that answers had a new id, and added one row, which passes its checks.
  pub create_with_images-ok :
      (v : ProductCreate) (images : List ProductImageInput) (s : Session) {m : ProductModel}
      → (create_with_images uuid7 v images s).0 ≡ ok m
      → let t = (create_with_images uuid7 v images s).1 in
        let row = product_row (uuid7 s.draws) s.now v in
        (m ≡ load t.db row)
        × (t.db.products ≡ s.db.products ++ row ∷ [])
        × (any (λ q. row.id == q.id) s.db.products ≡ false)
        × (check_product row ≡ true)
        × (t.db.schemas ≡ s.db.schemas)
        × (t.committed ≡ s.committed)
  unfolding create_with_images check_images insert_product
  create_with_images-ok v images s h =
      let id = uuid7 s.draws in
      let t = record s {
        draws = s.draws + 1;
        db = record s.db { products = s.db.products ++ product_row id s.now v ∷ [] };
      } in
      ground (arith, add_images-KeepsRows id images t)

  pub replace_images-ok :
      (p : Product) (images : List ProductImageInput) (s : Session) {m : ProductModel}
      → (replace_images uuid7 p images s).0 ≡ ok m
      → let t = (replace_images uuid7 p images s).1 in (m ≡ load t.db p) × KeepsRows s t
  unfolding replace_images check_images
  replace_images-ok p images s h =
      let t = record s {
        db = record s.db { images = filter (λ i. not (i.product_id == p.id)) s.db.images };
      } in
      ground (arith, add_images-KeepsRows p.id images t)

  -- Nothing is committed before the caller says so.
  pub create_with_images-committed :
      (v : ProductCreate) (images : List ProductImageInput) (s : Session)
      → (create_with_images uuid7 v images s).1.committed ≡ s.committed
  unfolding create_with_images check_images insert_product
  create_with_images-committed v images s =
      let id = uuid7 s.draws in
      let t = record s {
        draws = s.draws + 1;
        db = record s.db { products = s.db.products ++ product_row id s.now v ∷ [] };
      } in
      ground (arith, add_images-KeepsRows id images t)

  pub replace_images-committed :
      (p : Product) (images : List ProductImageInput) (s : Session)
      → (replace_images uuid7 p images s).1.committed ≡ s.committed
  unfolding replace_images check_images
  replace_images-committed p images s =
      let t = record s {
        db = record s.db { images = filter (λ i. not (i.product_id == p.id)) s.db.images };
      } in
      ground (arith, add_images-KeepsRows p.id images t)
