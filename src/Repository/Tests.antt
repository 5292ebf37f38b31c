-- ===== src/Repository/Tests.antt =====
-- Statements on the sample rows.
use stockstack.Common.{
  true, false, ◌≡◌, refl, [], ◌∷◌, map, filter, length, ◌==◌, none, some, arith,
}
use stockstack.Common.Exec.{ok, raise}
use stockstack.Common.Text.{codes, strip}
use stockstack.Common.Int.{pos}
use stockstack.Schemas.{valid_create, ProductCreate}
use stockstack.Repository.{product_row, image_row}
use stockstack.Models.Columns.{fits_product, fits_image}
use stockstack.Repository.Columns.{rows_fit}
use stockstack.Samples.{new_chair}
use stockstack.Repository.{RepositoryError, ProductValues, assign, update}
use stockstack.Repository.Rows.{IsKeyed}
use stockstack.Repository.Locking.{update-update}
use stockstack.Repository.Search.{is_listed, listing, list_products}
use stockstack.Repository.Search.Pages.{total_of, pages, IsNewestFirst, pages_complete}
use stockstack.Samples.{session, shop, lamp, price, weight, as_is}
use mathlib.Core.List.{Perm}
use stockstack.Common.Int.{pos}
use stockstack.Domain.{ems, no_returns}

program : Unit {0}
unfolding update list_products strip
program = tt

keyed : IsKeyed shop.products
keyed = (refl, (refl, (refl, tt)))

abbrev values : ProductValues
values = record {
  title = codes "Lamp";
  short_title = [];
  description_html = [];
  price_amount = price;
  stock = pos 5;
  delivery_method = ems;
  return_rule = no_returns;
  attributes = weight;
}

written : (update 7 3 values session).0 ≡ ok (assign values 50 lamp)
unfolding program
written = refl

stale : (update 7 2 values session).0 ≡ raise RepositoryError.version_conflict
unfolding program
stale = refl

gone : (update 8 2 values session).0 ≡ raise RepositoryError.not_found
unfolding program
gone = refl

update-update_example :
    update 7 3 values (update 7 3 values session).1
    ≡ (raise RepositoryError.version_conflict, (update 7 3 values session).1)
update-update_example = update-update 7 3 values values session keyed written

-- Newest first, and of two rows as new the one with the greater id.
listed : map (λ p. p.id) (listing as_is none none none shop.products) ≡ 12 ∷ 9 ∷ 7 ∷ []
unfolding program
listed = refl

found : map (λ p. p.id) (listing as_is (some (codes " Gift ")) none none shop.products) ≡ 9 ∷ []
unfolding program
found = refl

pages_complete_example :
    (pages as_is none none none session 2 2
      ≡ map
          (λ p. record { product = p; images = filter (λ i. i.product_id == p.id) shop.images })
          (listing as_is none none none shop.products))
    × (total_of (list_products as_is none none none 2 2 session).0
        ≡ length (listing as_is none none none shop.products))
    × IsNewestFirst (listing as_is none none none shop.products)
    × Perm
        (listing as_is none none none shop.products)
        (filter (is_listed as_is none none none) shop.products)
unfolding list_products is_listed
pages_complete_example = pages_complete as_is none none none session 2 2 (omega arith)

-- The schema lets through a stock that the column does not hold.
abbrev many_chairs : ProductCreate
many_chairs = record new_chair { stock = pos 0x80000000 }

many_chairs_refused :
    (valid_create many_chairs ≡ true)
    × (rows_fit (product_row 5 100 many_chairs) (λ i. image_row 6 5 i) many_chairs.images ≡ false)
unfolding valid_create fits_product fits_image
many_chairs_refused = (refl, refl)
