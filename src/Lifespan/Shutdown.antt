-- ===== src/Lifespan/Shutdown.antt =====
-- A write, and the end of the application: `_invalidate` of backend/app/catalog/service.py and
-- `lifespan` of backend/app/main.py.
use stockstack.Common.{
  ℕ, suc, ◌≡◌, ◌≤◌, ◌⊎◌, refl, true, List, [], ◌∷◌, any, all, length, ◌==◌, arith,
}
use stockstack.Service.{Cache, World}
use stockstack.Lifespan.{tasks_of, rounds_of, shutdown}
use stockstack.Lifespan.Ends.{gather-ends, is_started}
use stockstack.Lifespan.Settled.{Gone}

all_started : (ids : List ℕ) → all is_started (tasks_of ids) ≡ true
all_started [] = refl
all_started (id ∷ ids) = ground (arith, all_started ids)

pub shutdown_lem : (c : Cache) (turn : ℕ → ℕ) (w : World c) → (shutdown c turn w).0 ≡ []
unfolding shutdown
shutdown_lem c turn w =
    gather-ends c (rounds_of (tasks_of w.retries)) turn (tasks_of w.retries)
      (record w { retries = [] }) (all_started w.retries) (omega arith)

module _ (c : Cache) (gone : ℕ → c.State → Type 0)
    (deleted : (id : ℕ) (s : c.State) → (c.delete id s).0 ≡ true → gone id (c.delete id s).1)
    (stays : (id j : ℕ) (s : c.State) → gone j s → gone j (c.delete id s).1) where
  -- A product that was to be forgotten: it is gone, or its failure was counted and it waits.
  abbrev Waits : ℕ → ℕ → World c → Type 0
  Waits count id w =
      Gone c gone deleted stays id w.cache
      ⊎ ((any (λ j. j == id) w.retries ≡ true) × (suc count ≤ length w.errors))
