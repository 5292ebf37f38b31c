-- ===== src/Service/History.antt =====
-- Sequences of writes by administrators, whatever each of them answers, and what becomes of a
-- product along the way.
pub mod Steps
pub mod Sequences
use stockstack.Common.{
  ℕ, suc, ◌+◌, ◌≤◌, ◌≡◌, ◌≢◌, refl, sym, ap, ◌∙◌, subst, Bool, true, false, Option, none, some,
  List, [], ◌∷◌, map, find, ◌==◌, ◌&&◌, ◌++◌, member, if◌then◌else◌, Bool-cases, Option-cases, ◌⊎◌,
  inl, inr, arith,
}
use stockstack.Common.Exec.{Result, ok, raise, Result-cases}
use stockstack.Common.Text.{Text}
use stockstack.Json.{Json, Fields}
use stockstack.Domain.{ProductStatus, penalized, assert_transition}
use stockstack.Domain.Transitions.{assert_transition-eq-ok_iff}
use stockstack.Models.{check_product, Product, Database}
use stockstack.Schemas.{ProductCreate, ProductUpdate, ProductBatchStatusUpdate}
use stockstack.FieldSchema.{FieldValidationError}
use stockstack.Repository.{
  ProductValues, has_id, Session, product_row, replace_images, update, assign,
}
use stockstack.Repository.Rows.{IsKeyed, find-id, find-append, find_fresh, IsKeyed-append}
use stockstack.Repository.Writes.{create_with_images-ok, replace_images-ok}
use stockstack.Repository.Locking.{after_update, update-ok, update-rows, update-IsKeyed}
use stockstack.Repository.Batch.{Refs, set_status, batch_update_status}
use stockstack.Repository.Batch.Failures.{versions_for}
use stockstack.Repository.Batch.Effects.{
  Moves, apart, moves, moved, batch_update_status-eq-ok_iff, batch_update_status-ok,
  batch_update_status-IsKeyed,
}
use stockstack.Service.{Failure, Cache, World}
use stockstack.Service.Actions.{create, update_product, update_status, batch_status, values_of}
use stockstack.Service.Outcomes.{
  IsClean, create-raise, create-ok, update_product-raise, update_product-ok,
}
use stockstack.Service.Statuses.{
  update_status-raise, update_status-ok, batch_status-raise, batch_status-ok, status_batch, refs_of,
}

-- The requests that write.
pub data Write : Type 0 where
  creation : ProductCreate → Write
  edit : ℕ → ProductUpdate → Write
  status_change : ℕ → ℕ → ProductStatus → Write
  batch_change : ProductBatchStatusUpdate → Write

-- What one write makes of a row: nothing, an edit that counts the version up and keeps the status,
-- the type and the template, or an accepted transition that counts the version up.
pub data Changes (p q : Product) : Type 0 where
  kept : q ≡ p → Changes p q
  edited :
      q.version ≡ p.version + 1
      → q.status ≡ p.status
      → q.product_type ≡ p.product_type
      → q.schema_version ≡ p.schema_version
      → Changes p q
  transferred :
      (target : ProductStatus) (now : ℕ)
      → assert_transition p.status target ≡ ok tt
      → q ≡ set_status target now p
      → Changes p q

-- A row is never removed, and a new one begins at version 1.
abbrev pub Evolves : Option Product → Option Product → Type 0
Evolves none none = Unit
Evolves none (some q) = q.version ≡ 1
Evolves (some p) none = ⊥
Evolves (some p) (some q) = Changes p q

-- From one committed state to the next.
pub record Advances (s t : Session) : Type 0 where
  pub clean : IsClean t
  pub keyed : IsKeyed t.committed.products
  pub evolves :
      (id : ℕ)
      → Evolves (find (has_id id) s.committed.products) (find (has_id id) t.committed.products)

module _ (c : Cache) (validate : Json → Fields → Option (List FieldValidationError))
    (clean : Text → Text) (uuid7 : ℕ → ℕ) where
  -- The world after a write, whatever it answers.
  unfoldable pub perform : Write → World c → World c
  perform (creation p) w = (create c validate clean uuid7 p w).1
  perform (edit id p) w = (update_product c validate clean uuid7 id p w).1
  perform (status_change id version target) w = (update_status c id version target w).1
  perform (batch_change b) w = (batch_status c b w).1

  unfoldable pub perform_all : List Write → World c → World c
  perform_all [] w = w
  perform_all (x ∷ writes) w = perform_all writes (perform x w)
