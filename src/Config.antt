-- ===== src/Config.antt =====
-- The settings of the cache and of the public service: backend/app/core/config.py, and what
-- `create_app` of backend/app/main.py makes of them.
pub mod Bounds
mod Tests
use stockstack.Common.{ℕ, Bool, ◌&&◌, leb, ltb}
use stockstack.Cache.{CacheSettings}
use stockstack.PublicRouter.{RateSettings}

-- The settings that are numbers; those that are texts have no bounds.
pub record Settings : Type 0 where
  pub access_token_expire_minutes : ℕ
  pub cache_ttl_seconds : ℕ
  pub cache_ttl_jitter_seconds : ℕ
  pub negative_cache_ttl_seconds : ℕ
  pub rate_limit_requests : ℕ
  pub rate_limit_window_seconds : ℕ
  pub db_fallback_concurrency_limit : ℕ
  pub db_fallback_wait_ms : ℕ
  pub db_query_timeout_ms : ℕ
  pub cache_lock_ttl_ms : ℕ
  pub cache_wait_budget_ms : ℕ

-- The bounds of the fields, and `validate_timeouts`.
unfoldable pub valid_settings : Settings → Bool
valid_settings s =
    leb 1 s.access_token_expire_minutes
    && leb 1 s.cache_ttl_seconds
    && leb 1 s.negative_cache_ttl_seconds
    && leb 1 s.rate_limit_requests
    && leb 1 s.rate_limit_window_seconds
    && leb 1 s.db_fallback_concurrency_limit
    && leb 1 s.db_fallback_wait_ms
    && leb 1 s.db_query_timeout_ms
    && leb 100 s.cache_lock_ttl_ms
    && ltb s.db_query_timeout_ms s.cache_lock_ttl_ms

-- The arguments of `ProductCache`.
abbrev pub cache_settings : Settings → CacheSettings
cache_settings s = record {
  base_ttl_seconds = s.cache_ttl_seconds;
  jitter_seconds = s.cache_ttl_jitter_seconds;
  negative_ttl_seconds = s.negative_cache_ttl_seconds;
  lock_ttl_ms = s.cache_lock_ttl_ms;
}

-- What `enforce_rate_limit` reads.
abbrev pub rate_settings : Settings → RateSettings
rate_settings s = record {
  rate_limit_requests = s.rate_limit_requests;
  rate_limit_window_seconds = s.rate_limit_window_seconds;
}
