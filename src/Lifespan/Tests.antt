-- ===== src/Lifespan/Tests.antt =====
-- The end of an application whose cache is out of reach for a while.
use stockstack.Common.{
  ℕ, zero, suc, ◌≡◌, refl, Bool, true, false, not, some, List, [], ◌∷◌, filter, length, member,
  ◌==◌,
}
use stockstack.Service.{Cache, World}
use stockstack.Service.Actions.{invalidate}
use stockstack.Lifespan.{shutdown}
use stockstack.Samples.{session}

abbrev without : ℕ → List ℕ → List ℕ
without id = filter (λ j. not (j == id))

-- The cache fails a number of calls, and then forgets.
abbrev forgets : ℕ → ℕ × List ℕ → Bool × (ℕ × List ℕ)
forgets id (suc n, ids) = (false, (n, ids))
forgets id (zero, ids) = (true, (zero, without id ids))

abbrev flaky : Cache
flaky = record { State = ℕ × List ℕ; delete = forgets }

abbrev Forgotten : ℕ → ℕ × List ℕ → Type 0
Forgotten id s = member id s.1 ≡ false

abbrev down_for : ℕ → World flaky
down_for n = record {
  session = session;
  cache = some (n, 7 ∷ 9 ∷ 12 ∷ []);
  retries = [];
  errors = [];
}

abbrev alternating : ℕ → ℕ
alternating (suc (suc n)) = alternating n
alternating n = n

-- Two deletions fail, and one of the retries: both products go in the end.
short_outage :
    (shutdown flaky alternating (invalidate flaky (7 ∷ 9 ∷ []) (down_for 3))).1.cache
    ≡ some (0, 12 ∷ [])
unfolding invalidate shutdown
short_outage = refl

-- Each of two products fails three times.
long_outage :
    length (shutdown flaky alternating (invalidate flaky (7 ∷ 9 ∷ []) (down_for 20))).1.errors ≡ 6
unfolding invalidate shutdown
long_outage = refl
