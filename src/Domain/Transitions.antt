-- ===== src/Domain/Transitions.antt =====
-- What the table of transitions allows, and where chains of transitions lead.
use stockstack.Common.{◌≡◌, ◌≢◌, ◌↔◌, arith}
use stockstack.Common.Exec.{ok}
use stockstack.Domain.{ProductStatus, on_shelf, off_shelf, penalized, assert_transition}

-- A transition is accepted exactly when the product is not penalized and the status changes.
pub assert_transition-eq-ok_iff :
    (source target : ProductStatus)
    → (assert_transition source target ≡ ok tt) ↔ ((source ≢ penalized) × (source ≢ target))
unfolding assert_transition
assert_transition-eq-ok_iff on_shelf on_shelf = ground arith
assert_transition-eq-ok_iff on_shelf off_shelf = ground arith
assert_transition-eq-ok_iff on_shelf penalized = ground arith
assert_transition-eq-ok_iff off_shelf on_shelf = ground arith
assert_transition-eq-ok_iff off_shelf off_shelf = ground arith
assert_transition-eq-ok_iff off_shelf penalized = ground arith
assert_transition-eq-ok_iff penalized target = ground arith

-- The statuses that a product takes, one accepted transition after another.
pub data Transitions (s : ProductStatus) : ProductStatus → Type 0 where
  here : Transitions s s
  next : {t u : ProductStatus} → Transitions s t → assert_transition t u ≡ ok tt → Transitions s u

-- No chain of accepted transitions leads out of the penalized status.
pub Transitions-penalized : {s t : ProductStatus} → s ≡ penalized → Transitions s t → t ≡ penalized
Transitions-penalized e here = e
Transitions-penalized e (next r step) =
    absurd (((assert_transition-eq-ok_iff _ _).0 step).0 (Transitions-penalized e r))
