-- ===== src/Service/Tests.antt =====
-- Requests of an administrator to the sample shop.
use stockstack.Common.{◌≡◌, refl, List, [], ◌∷◌, find, some}
use stockstack.Common.Exec.{Result, ok, raise}
use stockstack.Domain.{assert_transition, on_shelf, off_shelf, penalized}
use stockstack.Errors.{app_error}
use stockstack.Models.{Product, insert_product, insert_image}
use stockstack.Repository.{
  has_id, get_active_schema, get_schema_version, get_detail, load, update, create_with_images,
  replace_images,
}
use stockstack.Repository.Rows.{IsKeyed}
use stockstack.Repository.Batch.{set_status}
use stockstack.Service.{Failure, app, view, rollback}
use stockstack.Service.Replies.{update_status_refused, update_status_accepted}
use stockstack.Service.Outcomes.{IsClean}
use stockstack.Schemas.{ProductView}
use stockstack.Service.Actions.{store_update, create, update_product, update_status}
use stockstack.Service.History.{
  Write, creation, edit, status_change, batch_change, Advances, perform, perform_all,
}
use stockstack.Service.History.Steps.{perform-Advances}
use stockstack.Service.History.Sequences.{Follows, perform_all-Follows, perform_all-penalized}
use stockstack.Samples.{
  always, world, session, shop, lamp, banned, new_chair, new_lamp, uuid7, accepts, as_is,
}

keyed : IsKeyed shop.products
keyed = (refl, (refl, (refl, tt)))

abbrev writes : List Write
writes =
    creation new_chair
    ∷ edit 7 new_lamp
    ∷ status_change 7 4 on_shelf
    ∷ status_change 12 2 on_shelf
    ∷ batch_change (record {
      product_ids = record { product_id = 9; version = 1 } ∷ [];
      target_status = off_shelf;
    })
    ∷ []

perform-Advances_example :
    Advances session (perform always accepts as_is uuid7 (edit 7 new_lamp) world).session
perform-Advances_example =
    perform-Advances always accepts as_is uuid7 world refl keyed (edit 7 new_lamp)

perform_all-Follows_example :
    (q : Product) × (find
        (has_id 7)
        (perform_all always accepts as_is uuid7 writes world).session.committed.products
      ≡ some q)
    × Follows lamp q
perform_all-Follows_example =
    perform_all-Follows always accepts as_is uuid7 writes world 7 refl keyed refl

perform_all-penalized_example :
    (q : Product) × (find
        (has_id 12)
        (perform_all always accepts as_is uuid7 writes world).session.committed.products
      ≡ some q)
    × (q.status ≡ penalized)
perform_all-penalized_example =
    perform_all-penalized always accepts as_is uuid7 writes world 12 {p = banned} refl keyed refl
      refl

program : Unit {0}
unfolding create update_product store_update rollback get_active_schema get_schema_version
    get_detail create_with_images update replace_images insert_product insert_image
program = tt

abbrev answer_or : ProductView → Result Failure ProductView → ProductView
answer_or v (ok u) = u
answer_or v (raise f) = v

abbrev lamp_view : ProductView
lamp_view = view (load shop lamp)

abbrev chair_view : ProductView
chair_view = answer_or lamp_view (create always accepts as_is uuid7 new_chair world).0

abbrev lamp_edited : ProductView
lamp_edited = answer_or lamp_view (update_product always accepts as_is uuid7 7 new_lamp world).0

lamp_updated : (update_product always accepts as_is uuid7 7 new_lamp world).0 ≡ ok lamp_edited
unfolding program
lamp_updated = refl

-- A product that is not there.
update_status_refused_example :
    ((update_status always 8 1 on_shelf world).0
      ≡ raise (app (app_error "status_conflict" "Product status operation conflicts" 409)))
    × ((update_status always 8 1 on_shelf world).1.session.committed ≡ shop)
update_status_refused_example =
    update_status_refused always 8 1 on_shelf world refl keyed (λ bad. bad)

legal : assert_transition off_shelf on_shelf ≡ ok tt
unfolding assert_transition
legal = refl

update_status_accepted_example :
    let t = (update_status always 7 3 on_shelf world).1.session in
    ((update_status always 7 3 on_shelf world).0
      ≡ ok (view (load t.committed (set_status on_shelf 50 lamp))))
    × (find (has_id 7) t.committed.products ≡ some (set_status on_shelf 50 lamp))
    × IsClean t
update_status_accepted_example =
    update_status_accepted always 7 3 on_shelf world refl keyed {p = lamp} refl refl legal
