-- ===== src/PublicRouter.antt =====
-- The limit of requests in front of the public product: `enforce_rate_limit` of
-- backend/app/catalog/public_router.py, with the client's address and the route behind it.
pub mod Ids
pub mod Characters
pub mod Printed
pub mod Limit
mod Tests
use stockstack.Common.{
  ℕ, ◌*◌, ◌≡◌, ◌==◌, not, if◌then◌else◌, String, Bool, true, false, Option, none, some, List, [],
  ◌∷◌,
}
use stockstack.Common.Exec.{Result, ok, raise, pure, throw, ◌>>=◌, ◌>>◌}
use stockstack.Common.Text.{Text, codes, decimal, strip}
use stockstack.Errors.{AppError, app_error}
use stockstack.Schemas.{ProductView}
use stockstack.Service.{Failure, app}
use stockstack.Cache.{Redis, CacheSettings, rate_limit}
use stockstack.PublicService.{
  Public, Codec, Act, count, call, dependency_errors, rate_limit_results,
}
use stockstack.PublicRouter.Ids.{parse_uuid7}
use stockstack.PublicService.Load.{Draws, detail_public}

-- The settings of the limit.
pub record RateSettings : Type 0 where
  pub rate_limit_requests : ℕ
  pub rate_limit_window_seconds : ℕ

abbrev pub rate_limited : RateSettings → Failure
rate_limited c = app (record (app_error "RATE_LIMITED" "Too many requests" 429) {
  headers = ("Retry-After", decimal c.rate_limit_window_seconds) ∷ [];
})

-- Where a request comes from: the host of its connection, if there is one, and the value of its
-- first header `X-Forwarded-For`.
pub record Origin : Type 0 where
  pub host : Option Text
  pub forwarded_for : Option Text

abbrev text_or : Text → Option Text → Text
text_or default none = default
text_or default (some t) = t

-- `s.split(",", 1)[0]`.
unfoldable pub before_comma : Text → Text
before_comma [] = []
before_comma (c ∷ s) = let rest = before_comma s in if c == 44 then [] else c ∷ rest

-- `_client_ip`; `ip_address` is `str(ipaddress.ip_address(text))`, or none where it raises.
unfoldable pub client_ip : (Text → Option Text) → Bool → Origin → Text
unfolding before_comma
client_ip ip_address trust_proxy_headers o =
    let direct = text_or (codes "unknown") o.host in
    if not trust_proxy_headers
    then direct
    else text_or direct (ip_address (strip (before_comma (text_or [] o.forwarded_for))))

module _ (r : Redis) (c : RateSettings) where
  abbrev read_id : Result AppError ℕ → Act r ℕ
  read_id (ok id) = pure id
  read_id (raise e) = throw (app e)

  -- The answer of Redis, if there is one.
  abbrev pub decided : Option (Bool × ℕ) → Act r (Unit {0})
  decided none = do
    count r (rate_limit_results "fail_open")
    count r (dependency_errors "redis" "rate_limit")
  decided (some (true, n)) = count r (rate_limit_results "allowed")
  decided (some (false, n)) = do count r (rate_limit_results "rejected"); throw (rate_limited c)

  -- `now` is the time in milliseconds, and `member` the text that stands for the request.
  unfoldable pub enforce_rate_limit : Text → ℕ → Text → Act r (Unit {0})
  unfolding call
  enforce_rate_limit ip now member = do
    answer ←
        call r
          (rate_limit r ip c.rate_limit_requests (c.rate_limit_window_seconds * 1000) now member)
    decided answer

  -- `public_product_detail`: the limit comes before the id is read.
  unfoldable pub public_product_detail :
      CacheSettings → Codec → Draws → ℕ → Text → ℕ → Text → Text → Act r ProductView
  unfolding enforce_rate_limit
  public_product_detail settings j drawn budget ip now member product_id = do
    enforce_rate_limit ip now member
    id ← read_id (parse_uuid7 product_id)
    detail_public r settings j id drawn budget
