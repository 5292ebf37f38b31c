-- ===== src/Domain/Tests.antt =====
-- Transitions that are accepted and refused.
use stockstack.Common.{◌≡◌, refl}
use stockstack.Common.Exec.{ok, raise}
use stockstack.Domain.{on_shelf, off_shelf, penalized, assert_transition}

publish : assert_transition off_shelf on_shelf ≡ ok tt
unfolding assert_transition
publish = refl

pardon :
    assert_transition penalized on_shelf ≡ raise (record { source = penalized; target = on_shelf })
unfolding assert_transition
pardon = refl
