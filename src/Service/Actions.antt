-- ===== src/Service/Actions.antt =====
-- The methods of `ProductService`, and its invalidation of the cache.
use stockstack.Common.{
  ℕ, zero, suc, String, ◌++◌, Bool, true, false, not, Option, none, some, List, [], ◌∷◌, map, ◌==◌,
  if◌then◌else◌,
}
use stockstack.Common.Exec.{pure, throw, puts, ◌>>=◌, ◌>>◌}
use stockstack.Common.Text.{Text}
use stockstack.Json.{Json, Fields}
use stockstack.Domain.{ProductType, ProductStatus}
use stockstack.Errors.{app_error, field_error}
use stockstack.Models.{Product, FieldSchema}
use stockstack.Schemas.{
  ProductCreate, ProductUpdate, ProductBatchStatusUpdate, ProductView, ProductPage,
}
use stockstack.FieldSchema.{FieldValidationError}
use stockstack.Repository.{
  ProductModel, ProductValues, get_active_schema, get_schema_version, get_detail, update,
  create_with_images, replace_images,
}
use stockstack.Repository.Batch.{batch_update_status}
use stockstack.Repository.Search.{list_products}
use stockstack.Service.{
  Failure, app, crash, field_errors, view, repository_error, batch_error, Cache, World, Service,
  commit, query, attempt,
}

abbrev pub values_of : Text → ProductUpdate → ProductValues
values_of description p = record {
  title = p.title;
  short_title = p.short_title;
  description_html = description;
  price_amount = p.price_amount;
  stock = p.stock;
  delivery_method = p.delivery_method;
  return_rule = p.return_rule;
  attributes = p.attributes;
}

abbrev pub present : Option ProductModel → List ProductView → List ProductView
present none views = views
present (some m) views = view m ∷ views

module _ (c : Cache) where
  -- One call of `cache.delete`: did it succeed?
  unfoldable pub delete_cached : ℕ → World c → Bool × World c
  delete_cached id w = elim w.cache [
    | none ↦ (true, w)
    | some s ↦ ((c.delete id s).0, record w { cache = some (c.delete id s).1 })
  ]

  -- A deletion that fails is counted, and goes on in the background.
  abbrev pub after_delete : ℕ → Bool × World c → World c
  after_delete id (true, w) = w
  after_delete id (false, w) = record w {
    errors = w.errors ++ "cache_invalidate" ∷ [];
    retries = w.retries ++ id ∷ [];
  }

  -- `_invalidate`.
  unfoldable pub invalidate : List ℕ → World c → World c
  unfolding delete_cached
  invalidate [] w = w
  invalidate (id ∷ ids) w = invalidate ids (after_delete id (delete_cached id w))

  abbrev after_retry : (World c → World c) → Bool × World c → World c
  after_retry again (true, w) = w
  after_retry again (false, w) =
      again (record w { errors = w.errors ++ "cache_invalidate_retry" ∷ [] })

  -- The attempts that are left of a background task.
  unfoldable pub retry : ℕ → ℕ → World c → World c
  unfolding delete_cached
  retry zero id w = w
  retry (suc attempts) id w = after_retry (retry attempts id) (delete_cached id w)

  -- `_retry_invalidation`.
  unfoldable pub retry_invalidation : ℕ → World c → World c
  unfolding retry
  retry_invalidation = retry 2

  abbrev pub found : {A : Type 0} → String → String → Option A → Service c A
  found code message none = throw (app (app_error code message 404))
  found code message (some a) = pure a

  unfoldable pub active_schema : ProductType → Service c FieldSchema
  active_schema t = do
    schema ← query c (get_active_schema t)
    found "schema_not_found" "Active product schema not found" schema

  unfoldable pub schema_version : ProductType → ℕ → Service c FieldSchema
  schema_version t version = do
    schema ← query c (get_schema_version t version)
    found "schema_not_found" "Product schema version not found" schema

  unfoldable pub detail : ℕ → Service c ProductView
  detail id = do
    product ← query c (get_detail id)
    m ← found "product_not_found" "Product not found" product
    pure (view m)

  -- `list`; `lower` is the database's.
  unfoldable pub list :
      (Text → Text)
      → Option Text
      → Option ProductType
      → Option ProductStatus
      → ℕ
      → ℕ
      → Service c ProductPage
  list lower text product_type status page page_size = do
    (items, total) ← query c (list_products lower text product_type status page page_size)
    pure (record { items = map view items; total = total; page = page; page_size = page_size })

  -- The test on the errors that validation gives; `none` stands for `SchemaError`.
  abbrev pub check_attributes : Option (List FieldValidationError) → Service c (Unit {0})
  check_attributes none = throw crash
  check_attributes (some []) = pure tt
  check_attributes (some (e ∷ errors)) = throw (
      app (
        field_error "invalid_product_attributes" "Product attributes are invalid" 400
          (field_errors (e ∷ errors))))

  abbrev schema_conflict_error : String → Failure
  schema_conflict_error message = app (app_error "schema_version_conflict" message 409)

  -- The template, if it has the version.
  abbrev pub matching : String → ℕ → Option FieldSchema → Service c FieldSchema
  matching message version none = throw (schema_conflict_error message)
  matching message version (some schema) =
      if not (schema.version == version) then throw (schema_conflict_error message) else pure schema

  -- The template that `update` finds, if the payload and the product agree on its version.
  abbrev pub bound : ℕ → ℕ → Option FieldSchema → Service c FieldSchema
  bound version existing none =
      throw (schema_conflict_error "Product schema version does not match")
  bound version existing (some schema) =
      if not (version == existing)
      then throw (schema_conflict_error "Product schema version does not match")
      else pure schema

  -- `validate` is `validate_attributes`, `clean` is `nh3.clean`, and `uuid7` gives new ids.
  module _ (validate : Json → Fields → Option (List FieldValidationError)) (clean : Text → Text)
      (uuid7 : ℕ → ℕ) where
    unfoldable pub create : ProductCreate → Service c ProductView
    unfolding commit
    create p = do
      active ← query c (get_active_schema p.product_type)
      schema ← matching "Active schema version does not match" p.schema_version active
      check_attributes (validate schema.schema p.attributes)
      m ← attempt c repository_error (
          create_with_images uuid7 (record p { description_html = clean p.description_html })
            p.images)
      commit c
      puts (invalidate (m.product.id ∷ []))
      pure (view m)

    -- The `try` block of `update`.
    unfoldable pub store_update : ℕ → ProductUpdate → Service c ProductView
    unfolding commit
    store_update id p = do
      row ←
          attempt c repository_error (update id p.version (values_of (clean p.description_html) p))
      m ← attempt c repository_error (replace_images uuid7 row p.images)
      commit c
      puts (invalidate (id ∷ []))
      pure (view m)

    unfoldable pub update_product : ℕ → ProductUpdate → Service c ProductView
    unfolding commit
    update_product id p = do
      product ← query c (get_detail id)
      existing ← found "product_not_found" "Product not found" product
      bound_schema ←
          query c (get_schema_version existing.product.product_type existing.product.schema_version)
      schema ← bound p.schema_version existing.product.schema_version bound_schema
      check_attributes (validate schema.schema p.attributes)
      store_update id p

  -- `products[0]`, and the assertion after it.
  abbrev first : List Product → Service c Product
  first [] = throw crash
  first (p ∷ products) = pure p

  abbrev asserted : Option ProductModel → Service c ProductModel
  asserted none = throw crash
  asserted (some m) = pure m

  unfoldable pub update_status : ℕ → ℕ → ProductStatus → Service c ProductView
  unfolding commit
  update_status id version target = do
    products ← attempt c repository_error (batch_update_status ((id, version) ∷ []) target)
    commit c
    puts (invalidate (id ∷ []))
    p ← first products
    product ← query c (get_detail p.id)
    m ← asserted product
    pure (view m)

  -- The details that are read back; one that is gone is left out.
  unfoldable pub details : List Product → Service c (List ProductView)
  details [] = pure []
  details (p ∷ products) = do
    m ← query c (get_detail p.id)
    views ← details products
    pure (present m views)

  unfoldable pub batch_status : ProductBatchStatusUpdate → Service c (List ProductView)
  unfolding commit details
  batch_status b = do
    products ←
        attempt c batch_error
          (batch_update_status (map (λ r. (r.product_id, r.version)) b.product_ids) b.target_status)
    commit c
    puts (invalidate (map (λ p. p.id) products))
    details products
