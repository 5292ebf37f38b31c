-- ===== src/Repository/Batch/Tests.antt =====
-- Batches on the sample rows.
use stockstack.Common.{ℕ, ◌≡◌, ◌↔◌, refl, List, [], ◌∷◌, find}
use stockstack.Common.Exec.{ok}
use stockstack.Common.Dict.{lookup, insert, set_default}
use stockstack.Domain.{assert_transition, on_shelf, off_shelf}
use stockstack.Models.{Product}
use stockstack.Repository.{Reason, has_id}
use stockstack.Repository.Rows.{IsKeyed}
use stockstack.Repository.Batch.{Refs, batch_failures, batch_update_status}
use stockstack.Repository.Batch.Failures.{versions_for, expected_reason, lookup-batch_failures}
use stockstack.Repository.Batch.Effects.{Moves, batch_update_status-eq-ok_iff}
use stockstack.Samples.{session, shop}

program : Unit {0}
unfolding batch_update_status assert_transition lookup insert set_default
program = tt

-- The lamp goes on the shelf.
abbrev publish : Refs
publish = (7, 3) ∷ []

-- A product twice, one that is gone, one at another version and one that is penalized.
abbrev mixed : Refs
mixed = (7, 3) ∷ (7, 3) ∷ (8, 1) ∷ (9, 5) ∷ (12, 2) ∷ []

mixed_failures :
    batch_failures off_shelf mixed shop.products
    ≡ (7, Reason.duplicate_product_id)
      ∷ (8, Reason.not_found)
      ∷ (9, Reason.version_conflict)
      ∷ (12, Reason.illegal_transition)
      ∷ []
unfolding program
mixed_failures = refl

keyed : IsKeyed shop.products
keyed = (refl, (refl, (refl, tt)))

lookup-batch_failures_example :
    lookup 9 (batch_failures off_shelf mixed shop.products)
    ≡ expected_reason off_shelf (versions_for 9 mixed) (find (has_id 9) shop.products)
lookup-batch_failures_example = lookup-batch_failures off_shelf mixed shop.products 9 keyed

batch_update_status-eq-ok_iff_example :
    ((rows : List Product) × ((batch_update_status publish on_shelf session).0 ≡ ok rows))
    ↔ ((id : ℕ) → Moves on_shelf publish shop.products id)
batch_update_status-eq-ok_iff_example = batch_update_status-eq-ok_iff publish on_shelf session keyed
