-- ===== src/Lifespan.antt =====
-- The end of the application: `lifespan` of backend/app/main.py, which waits for the tasks of
-- `_INVALIDATION_TASKS` of backend/app/catalog/service.py. The tasks run between each other: whose
-- turn it is is an argument.
pub mod Ends
pub mod Settled
pub mod Shutdown
mod Tests
use stockstack.Common.{ℕ, zero, suc, ◌+◌, Bool, true, false, List, [], ◌∷◌, ◌++◌, map}
use stockstack.Service.{Cache, World}
use stockstack.Service.Actions.{delete_cached}

-- A task: the product whose invalidation it tries, and how often it still will.
abbrev pub Task : Type 0
Task = ℕ × ℕ

-- The tasks of the products that wait, each at the start of its loop.
abbrev pub tasks_of : List ℕ → List Task
tasks_of ids = map (λ id. (id, 2)) ids

-- The task whose turn it is, and the others; the last one, if the number is too large.
unfoldable pub pick : ℕ → Task → List Task → Task × List Task
pick zero t ts = (t, ts)
pick (suc i) t [] = (t, [])
pick (suc i) t (u ∷ ts) = let rest = pick i u ts in (rest.0, t ∷ rest.1)

-- The rounds that tasks have left.
unfoldable pub rounds_of : List Task → ℕ
rounds_of [] = 0
rounds_of (t ∷ ts) = t.1 + rounds_of ts

module _ (c : Cache) where
  abbrev failed : World c → World c
  failed w = record w { errors = w.errors ++ "cache_invalidate_retry" ∷ [] }

  -- A failure ends the loop when no round is left.
  abbrev again : ℕ → ℕ → List Task → World c → List Task × World c
  again id zero others w = (others, w)
  again id (suc n) others w = ((id, suc n) ∷ others, w)

  abbrev tried : ℕ → ℕ → List Task → Bool × World c → List Task × World c
  tried id n others (true, w) = (others, w)
  tried id n others (false, w) = again id n others (failed w)

  -- One round of `_retry_invalidation`.
  unfoldable pub attempt : Task → List Task → World c → List Task × World c
  unfolding delete_cached
  attempt (id, zero) others w = (others, w)
  attempt (id, suc n) others w = tried id n others (delete_cached c id w)

  -- `asyncio.gather` of the tasks, for a number of rounds.
  unfoldable pub gather : ℕ → (ℕ → ℕ) → List Task → World c → List Task × World c
  unfolding pick attempt
  gather zero turn tasks w = (tasks, w)
  gather (suc rounds) turn [] w = ([], w)
  gather (suc rounds) turn (t ∷ ts) w =
      let next = pick (turn rounds) t ts in
      let step = attempt next.0 next.1 w in gather rounds turn step.0 step.1

  -- What `lifespan` waits for.
  unfoldable pub shutdown : (ℕ → ℕ) → World c → List Task × World c
  unfolding gather rounds_of
  shutdown turn w =
      gather (rounds_of (tasks_of w.retries)) turn (tasks_of w.retries) (record w { retries = [] })
