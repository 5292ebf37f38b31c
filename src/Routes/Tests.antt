-- ===== src/Routes/Tests.antt =====
-- Requests of the administrator and of others.
use stockstack.Common.{◌≡◌, refl, false, none, some, List, [], ◌∷◌}
use stockstack.Json.{Json}
use stockstack.Common.Text.{codes}
use stockstack.Common.Int.{pos, negsuc}
use stockstack.Domain.{on_shelf}
use stockstack.Handlers.{RequestError}
use stockstack.Repository.Rows.{IsKeyed}
use stockstack.Service.History.{perform_all}
use stockstack.Routes.{
  Call, post_product, get_product, patch_status, ListQuery, valid_listing, Request, serve_all,
}
use stockstack.Routes.Admission.{writes_of, serve_all-perform_all}
use stockstack.Samples.{
  always, world, shop, new_chair, uuid7, accepts, as_is, tokens, admin_settings, bearer,
}

keyed : IsKeyed shop.products
keyed = (refl, (refl, (refl, tt)))

abbrev admin : Request
admin = record { request_id = codes "r1"; now = 500; credentials = some bearer }

abbrev stranger : Request
stranger = record admin { credentials = none }

abbrev late : Request
late = record admin { now = 1000 }

abbrev reported : Call → List RequestError
reported call = []

abbrev calls : List (Request × Call)
calls =
    (stranger, post_product new_chair)
    ∷ (admin, get_product 7)
    ∷ (admin, patch_status 7 (record { target_status = on_shelf; version = 3 }))
    ∷ (admin, patch_status 9 (record { target_status = on_shelf; version = 0 }))
    ∷ (late, post_product new_chair)
    ∷ []

abbrev big_page : ListQuery
big_page = record {
  query = none;
  product_type = none;
  status = none;
  page = pos 1;
  page_size = pos 101;
}

too_big : valid_listing big_page ≡ false
unfolding valid_listing
too_big = refl

below_one : valid_listing (record big_page { page = negsuc 0; page_size = pos 100 }) ≡ false
unfolding valid_listing
below_one = refl

serve_all-perform_all_example :
    serve_all always tokens admin_settings accepts as_is as_is uuid7 reported calls world
    ≡ perform_all always accepts as_is uuid7 (writes_of tokens admin_settings calls) world
serve_all-perform_all_example =
    serve_all-perform_all always tokens admin_settings accepts as_is as_is uuid7 reported calls
      world refl keyed
