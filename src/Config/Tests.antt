-- ===== src/Config/Tests.antt =====
-- The settings that the program has by default.
use stockstack.Common.{◌≡◌, true, false, refl}
use stockstack.Config.{Settings, valid_settings}

abbrev defaults : Settings
defaults = record {
  access_token_expire_minutes = 15;
  cache_ttl_seconds = 300;
  cache_ttl_jitter_seconds = 30;
  negative_cache_ttl_seconds = 30;
  rate_limit_requests = 100;
  rate_limit_window_seconds = 60;
  db_fallback_concurrency_limit = 10;
  db_fallback_wait_ms = 100;
  db_query_timeout_ms = 500;
  cache_lock_ttl_ms = 3000;
  cache_wait_budget_ms = 250;
}

accepted_defaults : valid_settings defaults ≡ true
unfolding valid_settings
accepted_defaults = refl

-- The query would outlive the lock.
slow_query : valid_settings (record defaults { db_query_timeout_ms = 3000 }) ≡ false
unfolding valid_settings
slow_query = refl
