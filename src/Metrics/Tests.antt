-- ===== src/Metrics/Tests.antt =====
-- A request that is answered, one whose application raises first, and one that is not public.
use stockstack.Common.{◌≡◌, refl, true, false, List, [], ◌∷◌}
use stockstack.Common.Text.{codes, decimal}
use stockstack.Metrics.{Scope, response_start, other, Run, Counters, middleware_all}

abbrev public : Scope
public = record { scope_type = codes "http"; path = codes "/api/v1/public/products/7" }

abbrev health : Scope
health = record public { path = codes "/health" }

abbrev answered : Run
answered = record {
  sends = (response_start 200, false) ∷ (other (codes "http.response.body"), true) ∷ [];
  raises = true;
  seconds = 1;
}

abbrev failing : Run
failing = record { sends = []; raises = true; seconds = 0 }

abbrev requests : List (Scope × Run)
requests = (public, answered) ∷ (public, failing) ∷ (health, answered) ∷ []

abbrev fresh : Counters
fresh = record { public_requests = []; public_latency = [] }

counted : (middleware_all requests fresh).public_requests ≡ codes "200" ∷ codes "500" ∷ []
unfolding middleware_all decimal
counted = refl
