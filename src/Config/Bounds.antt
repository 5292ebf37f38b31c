-- ===== src/Config/Bounds.antt =====
-- What valid settings promise.
use native.Mathlib.Nat.{mod-lt}
use stockstack.Common.{ℕ, ◌+◌, ◌≤◌, ◌<◌, ◌≡◌, true, ◌==◌, Bool-cases, inl, inr, arith}
use stockstack.Cache.{jitter_of}
use stockstack.Config.{Settings, valid_settings, cache_settings, rate_settings}

jitter_of-le : (jitter random : ℕ) → jitter_of jitter random ≤ jitter
unfolding jitter_of
jitter_of-le jitter random = elim (Bool-cases (jitter == 0)) [
  | inl no_jitter ↦ rw no_jitter (omega arith)
  | inr some_jitter ↦ rw some_jitter (omega (arith, mod-lt random {m = jitter + 1} (omega arith)))
]

-- With valid settings a product is kept for a positive time that is no more than the jitter above
-- its base, whatever is drawn; a missing one too is kept for a positive time; the lock outlives
-- the query that is made under it; and the limit lets requests through.
pub valid_settings-bounds :
    (s : Settings) (random : ℕ)
    → valid_settings s ≡ true
    → let c = cache_settings s in
      let ttl = c.base_ttl_seconds + jitter_of c.jitter_seconds random in
      (1 ≤ ttl)
      × (c.base_ttl_seconds ≤ ttl)
      × (ttl ≤ c.base_ttl_seconds + c.jitter_seconds)
      × (1 ≤ c.negative_ttl_seconds)
      × (s.db_query_timeout_ms < c.lock_ttl_ms)
      × (1 ≤ (rate_settings s).rate_limit_requests)
unfolding valid_settings
valid_settings-bounds s random h = grind (arith, jitter_of-le s.cache_ttl_jitter_seconds random)
