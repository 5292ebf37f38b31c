-- ===== src/Routes/Statuses.antt =====
-- The statuses that the service's failures have: backend/app/catalog/service.py.
use stockstack.Common.{
  ℕ, ◌≡◌, refl, sym, ◌∙◌, subst, true, false, Option, List, find, is_some, ◌==◌, Option-cases,
  Bool-cases, ==_iff, inl, inr, arith,
}
use stockstack.Common.Exec.{ok, raise, Result-cases, ◌>>=◌, ◌>>◌}
use stockstack.Common.Text.{Text}
use stockstack.Json.{Json, Fields}
use stockstack.Domain.{ProductType, ProductStatus, assert_transition}
use stockstack.Models.{FieldSchema}
use stockstack.Schemas.{ProductCreate, ProductUpdate, ProductBatchStatusUpdate}
use stockstack.FieldSchema.{FieldValidationError}
use stockstack.Repository.{
  ProductModel, has_id, get_active_schema, get_schema_version, get_detail, detail_of,
  schema_version_of, update, create_with_images, replace_images,
}
use stockstack.Repository.Rows.{IsKeyed}
use stockstack.Repository.Batch.{batch_update_status}
use stockstack.Repository.Search.{list_products}
use stockstack.Service.{repository_error, Cache, World, attempt, query}
use stockstack.Service.Actions.{
  active_schema, schema_version, detail, list, found, check_attributes, matching, bound, values_of,
  create, store_update, update_product, update_status, batch_status,
}
use stockstack.Service.Outcomes.{IsClean}
use stockstack.Service.Statuses.{batch_status-raise, batch_status-ok, refs_of}
use stockstack.Service.Replies.{StatusChange, update_status_accepted, update_status_refused}
use stockstack.Routes.Expected.{
  Expected, repository_error-expected, batch_error-expected, bind-Expected, attempt-Expected,
  matching-Expected, bound-Expected, found-Expected, check_attributes-Expected,
}

module _ (c : Cache) where
  pub active_schema-Expected : (t : ProductType) (w : World c) → Expected (active_schema c t w).0
  unfolding active_schema get_active_schema
  active_schema-Expected t w = ground arith

  pub schema_version-Expected :
      (t : ProductType) (version : ℕ) (w : World c) → Expected (schema_version c t version w).0
  unfolding schema_version get_schema_version
  schema_version-Expected t version w = ground arith

  pub detail-Expected : (id : ℕ) (w : World c) → Expected (detail c id w).0
  unfolding detail get_detail
  detail-Expected id w = ground arith

  pub list-Expected :
      (lower : Text → Text) (q : Option Text) (t : Option ProductType) (s : Option ProductStatus)
      (page page_size : ℕ) (w : World c)
      → Expected (list c lower q t s page page_size w).0
  unfolding list list_products
  list-Expected lower q t s page page_size w = ground arith

  pub batch_status-Expected :
      (b : ProductBatchStatusUpdate) (w : World c)
      → IsClean w.session
      → Expected (batch_status c b w).0
  batch_status-Expected b w tidy =
      elim (Result-cases (batch_update_status (refs_of c b) b.target_status w.session).0) [
        | inl (rows, done) ↦
            let (stored, clean, views, answer) = batch_status-ok c b w done in
            subst Expected (sym answer) tt
        | inr (e, failed) ↦
            let (answer, rest, clean) = batch_status-raise c b w tidy failed in
            subst Expected (sym answer) (batch_error-expected e)
      ]

  pub update_status-Expected :
      (id version : ℕ) (target : ProductStatus) (w : World c)
      → IsClean w.session
      → IsKeyed w.session.db.products
      → Expected (update_status c id version target w).0
  update_status-Expected id version target w tidy keyed =
      elim (Option-cases (find (has_id id) w.session.db.products)) [
        | inl gone ↦ refused (subst (λ o. ¬ StatusChange target version o) (sym gone) (λ bad. bad))
        | inr (p, there) ↦ elim (Bool-cases (p.version == version)) [
          | inl same ↦ elim (Result-cases (assert_transition p.status target)) [
            | inl (u, legal) ↦
                subst Expected
                  (sym
                    (update_status_accepted c id version target w tidy keyed there
                      ((==_iff p.version version).0 same) legal).0)
                  tt
            | inr (e, illegal) ↦ refused (
                subst (λ o. ¬ StatusChange target version o) (sym there)
                  (λ bad. raise_not (sym illegal ∙ bad.1)))
          ]
          | inr other ↦ refused (
              subst (λ o. ¬ StatusChange target version o) (sym there)
                (λ bad. true_not (sym ((==_iff p.version version).1 bad.0) ∙ other)))
        ]
      ]
    where
      refused :
          ¬ StatusChange target version (find (has_id id) w.session.db.products)
          → Expected (update_status c id version target w).0
      refused bad =
          subst Expected (sym (update_status_refused c id version target w tidy keyed bad).0) refl

      raise_not : {E A : Type 0} {e : E} {a : A} → ¬ (raise e ≡ ok a)
      raise_not h = cc

      true_not : ¬ (true ≡ false)
      true_not h = cc

  module _ (validate : Json → Fields → Option (List FieldValidationError)) (clean : Text → Text)
      (uuid7 : ℕ → ℕ)
      (valid_templates : (schema : Json) (attributes : Fields)
        → is_some (validate schema attributes) ≡ true) where
    pub create-Expected :
        (p : ProductCreate) (w : World c) → Expected (create c validate clean uuid7 p w).0
    unfolding create get_active_schema
    create-Expected p w =
        bind-Expected (matching c _ p.schema_version _) _ w
          (matching-Expected c _ p.schema_version _ w)
          λ schema u.
            bind-Expected (check_attributes c _) _ u
              (check_attributes-Expected c _ u (valid_templates schema.schema p.attributes))
              λ v x.
                let made =
                  create_with_images uuid7
                    (record p { description_html = clean p.description_html }) p.images in
                bind-Expected (attempt c repository_error made) _ x
                  (attempt-Expected c repository_error made x repository_error-expected) λ m y. tt

    store_update-Expected :
        (id : ℕ) (p : ProductUpdate) (w : World c)
        → Expected (store_update c validate clean uuid7 id p w).0
    unfolding store_update
    store_update-Expected id p w =
        let written = update id p.version (values_of (clean p.description_html) p) in
        bind-Expected (attempt c repository_error written) _ w
          (attempt-Expected c repository_error written w repository_error-expected)
          λ row x.
            bind-Expected (attempt c repository_error (replace_images uuid7 row p.images)) _ x
              (attempt-Expected c repository_error (replace_images uuid7 row p.images) x
                repository_error-expected)
              λ m y. tt

    pub update_product-Expected :
        (id : ℕ) (p : ProductUpdate) (w : World c)
        → Expected (update_product c validate clean uuid7 id p w).0
    unfolding update_product get_detail get_schema_version
    update_product-Expected id p w =
        let store = store_update c validate clean uuid7 id p in
        let check =
          λ (t : FieldSchema). check_attributes c (validate t.schema p.attributes) >> store in
        let find_template = λ (e : ProductModel).
          query c (get_schema_version e.product.product_type e.product.schema_version) >>= λ o.
          bound c p.schema_version e.product.schema_version o >>= check in
        let existing =
          found c "product_not_found" "Product not found" (detail_of id w.session.db) in
        bind-Expected existing find_template w
          (found-Expected c "product_not_found" "Product not found" (detail_of id w.session.db) w)
          λ e x.
            let kept = e.product.schema_version in
            let o = schema_version_of e.product.product_type kept x.session.db in
            bind-Expected (bound c p.schema_version kept o) check x
              (bound-Expected c p.schema_version kept o x)
              λ t y.
                bind-Expected (check_attributes c (validate t.schema p.attributes)) (λ u. store) y
                  (check_attributes-Expected c (validate t.schema p.attributes) y
                    (valid_templates t.schema p.attributes))
                  λ u z. store_update-Expected id p z
