-- ===== src/Service/Outcomes.antt =====
-- The session after each method: what was committed, on every way out.
use stockstack.Common.{ℕ, ◌≡◌, refl, Option, List, [], ◌∷◌, inl, inr, arith}
use stockstack.Common.Exec.{ok, raise, Result-cases}
use stockstack.Common.Text.{Text}
use stockstack.Json.{Json, Fields}
use stockstack.Models.{Product}
use stockstack.Schemas.{ProductCreate, ProductUpdate, ProductView}
use stockstack.FieldSchema.{FieldValidationError}
use stockstack.Repository.{
  Session, Repo, ProductModel, get_active_schema, get_schema_version, get_detail,
  create_with_images, update, replace_images,
}
use stockstack.Repository.Writes.{create_with_images-committed, replace_images-committed}
use stockstack.Repository.Locking.{update-rest}
use stockstack.Service.{Failure, view, Cache, World, rollback}
use stockstack.Service.Actions.{
  delete_cached, after_delete, invalidate, values_of, create, store_update, update_product,
}

-- What the session sees is what is committed: no request is under way.
abbrev pub IsClean : Session → Type 0
IsClean s = s.db ≡ s.committed

module _ (c : Cache) where
  pub invalidate-session : (ids : List ℕ) (w : World c) → (invalidate c ids w).session ≡ w.session
  unfolding invalidate
  invalidate-session [] w = refl
  invalidate-session (id ∷ ids) w =
      ground (arith, invalidate-session ids (after_delete c id (delete_cached c id w)))

  module _ (validate : Json → Fields → Option (List FieldValidationError)) (clean : Text → Text)
      (uuid7 : ℕ → ℕ) where
    abbrev pub created : ProductCreate → Repo ProductModel
    created p =
        create_with_images uuid7 (record p { description_html = clean p.description_html }) p.images

    abbrev pub updated : ℕ → ProductUpdate → Repo Product
    updated id p = update id p.version (values_of (clean p.description_html) p)

    -- A creation that fails commits nothing.
    pub create-raise :
        (p : ProductCreate) (w : World c) {f : Failure}
        → IsClean w.session
        → (create c validate clean uuid7 p w).0 ≡ raise f
        → let t = (create c validate clean uuid7 p w).1.session in
          (t.committed ≡ w.session.committed) × IsClean t
    unfolding create get_active_schema rollback
    create-raise p w h e = ground (
      arith,
      create_with_images-committed uuid7 (record p { description_html = clean p.description_html })
          p.images w.session,
    )

    -- A creation that answers commits what the repository wrote, and shows it.
    pub create-ok :
        (p : ProductCreate) (w : World c) {v : ProductView}
        → (create c validate clean uuid7 p w).0 ≡ ok v
        → let t = (create c validate clean uuid7 p w).1.session in
          (m : ProductModel) × ((created p w.session).0 ≡ ok m)
          × (v ≡ view m)
          × (t.committed ≡ (created p w.session).1.db)
          × IsClean t
    unfolding create get_active_schema
    create-ok p w e = elim (Result-cases (created p w.session).0) [
      | inl (m, made) ↦
          let t = (created p w.session).1 in
          let u = record w { session = record t { committed = t.db } } in
          (
            m,
            made,
            ground arith,
            ground (arith, invalidate-session (m.product.id ∷ []) u),
            ground (arith, invalidate-session (m.product.id ∷ []) u),
          )
      | inr (f, failed) ↦ absurd (ground arith)
    ]

    store_update-raise :
        (id : ℕ) (p : ProductUpdate) (w : World c) {f : Failure}
        → (store_update c validate clean uuid7 id p w).0 ≡ raise f
        → let t = (store_update c validate clean uuid7 id p w).1.session in
          (t.committed ≡ w.session.committed) × IsClean t
    unfolding store_update rollback
    store_update-raise id p w e = elim (Result-cases (updated id p w.session).0) [
      | inl (row, written) ↦
          let t = (updated id p w.session).1 in
          elim (Result-cases (replace_images uuid7 row p.images t).0) [
            | inl (m, replaced) ↦ absurd (ground arith)
            | inr (g, failed) ↦ ground (
              arith,
              update-rest id p.version (values_of (clean p.description_html) p) w.session,
              replace_images-committed uuid7 row p.images t,
            )
          ]
      | inr (g, failed) ↦
          ground
            (arith, update-rest id p.version (values_of (clean p.description_html) p) w.session)
    ]

    -- An update that fails commits nothing.
    pub update_product-raise :
        (id : ℕ) (p : ProductUpdate) (w : World c) {f : Failure}
        → IsClean w.session
        → (update_product c validate clean uuid7 id p w).0 ≡ raise f
        → let t = (update_product c validate clean uuid7 id p w).1.session in
          (t.committed ≡ w.session.committed) × IsClean t
    unfolding update_product get_detail get_schema_version
    update_product-raise id p w {f} h e = ground (arith, store_update-raise id p w {f = f})

    store_update-ok :
        (id : ℕ) (p : ProductUpdate) (w : World c) {v : ProductView}
        → (store_update c validate clean uuid7 id p w).0 ≡ ok v
        → let t = (store_update c validate clean uuid7 id p w).1.session in
          (row : Product) × (m : ProductModel) × ((updated id p w.session).0 ≡ ok row)
          × ((replace_images uuid7 row p.images (updated id p w.session).1).0 ≡ ok m)
          × (v ≡ view m)
          × (t.committed ≡ (replace_images uuid7 row p.images (updated id p w.session).1).1.db)
          × IsClean t
    unfolding store_update
    store_update-ok id p w e = elim (Result-cases (updated id p w.session).0) [
      | inl (row, written) ↦
          let t = (updated id p w.session).1 in
          elim (Result-cases (replace_images uuid7 row p.images t).0) [
            | inl (m, replaced) ↦
                let t' = (replace_images uuid7 row p.images t).1 in
                let u = record w { session = record t' { committed = t'.db } } in
                (
                  row,
                  m,
                  written,
                  replaced,
                  ground arith,
                  ground (arith, invalidate-session (id ∷ []) u),
                  ground (arith, invalidate-session (id ∷ []) u),
                )
            | inr (f, failed) ↦ absurd (ground arith)
          ]
      | inr (f, failed) ↦ absurd (ground arith)
    ]

    update_product-store :
        (id : ℕ) (p : ProductUpdate) (w : World c) {v : ProductView}
        → (update_product c validate clean uuid7 id p w).0 ≡ ok v
        → update_product c validate clean uuid7 id p w ≡ store_update c validate clean uuid7 id p w
    unfolding update_product get_detail get_schema_version
    update_product-store id p w e = ground arith

    -- An update that answers commits the row and the images that the repository wrote.
    pub update_product-ok :
        (id : ℕ) (p : ProductUpdate) (w : World c) {v : ProductView}
        → (update_product c validate clean uuid7 id p w).0 ≡ ok v
        → let t = (update_product c validate clean uuid7 id p w).1.session in
          (row : Product) × (m : ProductModel) × ((updated id p w.session).0 ≡ ok row)
          × ((replace_images uuid7 row p.images (updated id p w.session).1).0 ≡ ok m)
          × (v ≡ view m)
          × (t.committed ≡ (replace_images uuid7 row p.images (updated id p w.session).1).1.db)
          × IsClean t
    update_product-ok id p w e =
        let same = update_product-store id p w e in rw same (store_update-ok id p w (rw same at e))
