-- ===== src/Domain.antt =====
-- The enumerations of the catalogue and the transitions between statuses:
-- backend/app/catalog/domain.py.
pub mod Transitions
mod Tests
use stockstack.Common.{Bool, true, false, List, [], ◌∷◌, any, not, if◌then◌else◌}
use stockstack.Common.Exec.{Result, ok, raise}

pub data ProductType : Type 0 where
  physical virtual creative : ProductType

pub data ProductStatus : Type 0 where
  on_shelf off_shelf penalized : ProductStatus

pub data DeliveryMethod : Type 0 where
  ems logistics voucher : DeliveryMethod

pub data ReturnRule : Type 0 where
  seven_days no_returns : ReturnRule

-- The exception carries the two statuses, from which the source formats its message.
pub record IllegalProductStatusTransition : Type 0 where
  pub source : ProductStatus
  pub target : ProductStatus

-- `==` on the members of each enumeration.
abbrev pub status_eq : ProductStatus → ProductStatus → Bool
status_eq on_shelf on_shelf = true
status_eq off_shelf off_shelf = true
status_eq penalized penalized = true
status_eq _ _ = false

abbrev pub type_eq : ProductType → ProductType → Bool
type_eq physical physical = true
type_eq virtual virtual = true
type_eq creative creative = true
type_eq _ _ = false

-- `_ALLOWED_TRANSITIONS`.
unfoldable pub allowed_transitions : ProductStatus → List ProductStatus
allowed_transitions on_shelf = off_shelf ∷ penalized ∷ []
allowed_transitions off_shelf = on_shelf ∷ penalized ∷ []
allowed_transitions penalized = []

unfoldable pub assert_transition :
    ProductStatus → ProductStatus → Result IllegalProductStatusTransition (Unit {0})
unfolding allowed_transitions
assert_transition source target =
    if not (any (λ s. status_eq s target) (allowed_transitions source))
    then raise (record { source = source; target = target })
    else ok tt
