-- ===== src/Repository/Search.antt =====
-- `list`: filters, order and pages of the product list.
pub mod Pages
use stockstack.Common.{
  ℕ, ◌-◌, ◌*◌, Bool, true, false, ◌&&◌, ◌||◌, Option, none, some, List, [], ◌∷◌, map, filter, take,
  drop, length, ltb, ◌==◌, if◌then◌else◌,
}
use stockstack.Common.Exec.{gets}
use stockstack.Common.Text.{Text, strip, contains, uuid_text}
use stockstack.Domain.{ProductType, ProductStatus, type_eq, status_eq}
use stockstack.Models.{Product, Database}
use stockstack.Repository.{Repo, ProductModel, load}

abbrev pub optionally {ℓ} : {A : Type ℓ} → (A → Bool) → Option A → Bool
optionally test none = true
optionally test (some a) = test a

-- `query.strip() if query else ""`.
unfoldable pub normalized_query : Option Text → Text
normalized_query none = []
normalized_query (some q) = strip q

-- `ORDER BY updated_at DESC, id DESC`: does `p` come before `q`?
abbrev pub newer : Product → Product → Bool
newer p q = ltb q.updated_at p.updated_at || (q.updated_at == p.updated_at && ltb q.id p.id)

unfoldable pub insert_newest : Product → List Product → List Product
insert_newest p [] = p ∷ []
insert_newest p (q ∷ rows) = if newer q p then q ∷ insert_newest p rows else p ∷ q ∷ rows

unfoldable pub newest_first : List Product → List Product
unfolding insert_newest
newest_first [] = []
newest_first (p ∷ rows) = insert_newest p (newest_first rows)

-- `lower` is the database's, by which `icontains` compares texts.
module _ (lower : Text → Text) where
  -- `column.icontains(query, autoescape=True)`.
  abbrev pub icontains : Text → Text → Bool
  icontains query column = contains (lower query) (lower column)

  -- An empty query is no filter.
  unfoldable pub matches_query : Text → Product → Bool
  unfolding uuid_text
  matches_query [] p = true
  matches_query (c ∷ query) p =
      icontains (c ∷ query) p.title
      || icontains (c ∷ query) p.short_title
      || icontains (c ∷ query) (uuid_text p.id)

  -- The conjunction of the filters.
  unfoldable pub is_listed :
      Option Text → Option ProductType → Option ProductStatus → Product → Bool
  unfolding matches_query normalized_query
  is_listed query product_type status p =
      matches_query (normalized_query query) p
      && optionally (λ t. type_eq p.product_type t) product_type
      && optionally (λ s. status_eq p.status s) status

  -- Every row that the filters let through, in the order of the list.
  unfoldable pub listing :
      Option Text → Option ProductType → Option ProductStatus → List Product → List Product
  unfolding is_listed newest_first
  listing query product_type status products =
      newest_first (filter (is_listed query product_type status) products)

  unfoldable pub list_products :
      Option Text → Option ProductType → Option ProductStatus → ℕ → ℕ → Repo (List ProductModel × ℕ)
  unfolding listing
  list_products query product_type status page page_size = gets (λ s. (
    map (load s.db) (
        take page_size
          (drop ((page - 1) * page_size) (listing query product_type status s.db.products))),
    length (filter (is_listed query product_type status) s.db.products),
  ))
