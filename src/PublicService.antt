-- ===== src/PublicService.antt =====
-- The public detail of a product, read through the cache: backend/app/catalog/public_service.py.
-- Every call of Redis and of the database may fail, and others may act on Redis before it: the
-- world says so, call by call. Requests that share a flight all get the answer of its load.
pub mod Load
pub mod Answers
pub mod Queries
pub mod Total
pub mod Outages
pub mod Fills
pub mod Flights
mod Tests
use stockstack.Common.{
  ℕ, zero, suc, ◌+◌, ◌-◌, String, Bool, true, false, not, ◌&&◌, ◌||◌, Option, none, some, List, [],
  ◌∷◌, ◌++◌, all, any, leb, ltb, ◌==◌, if◌then◌else◌,
}
use stockstack.Common.Exec.{Exec, Result, ok, raise, pure, throw, puts, ◌>>=◌, ◌>>◌}
use stockstack.Common.Text.{Text, codes, text_eq}
use stockstack.Json.{Json, Decimal, Fields, null, bool, num, str, arr, obj, field, end}
use stockstack.Errors.{AppError, app_error}
use stockstack.Models.{Database}
use stockstack.Schemas.{ProductView}
use stockstack.Service.{Failure, app, crash}
use stockstack.Cache.{
  Redis, JsonText, CacheSettings, Cached, absent, invalid, value, get_cached, delete,
}

-- Whether a command is carried out, and whether its caller hears of it in time.
pub data Fault : Type 0 where
  works : Fault
  lost : Fault
  late : Fault

pub record Event (r : Redis) : Type 0 where
  pub meanwhile : r.State → r.State
  pub fault : Fault

-- Whether a slot comes free in time, if none is; and the rows that a query sees, if it answers.
pub record Query : Type 0 where
  pub freed : Bool
  pub rows : Option Database

-- The labels of the counters.
pub data Metric : Type 0 where
  cache_results : String → Metric
  db_fallbacks : String → Metric
  lock_contention : Metric
  dependency_errors : String → String → Metric
  rate_limit_results : String → Metric

pub record Public (r : Redis) : Type 0 where
  pub redis : r.State
  pub events : List (Event r)
  pub queries : List Query
  pub delays : List ℕ
  pub slots : ℕ
  pub metrics : List Metric

-- How views are written into the cache and read back; `none` is a `ValidationError`.
pub record Codec : Type 0 where
  pub text : JsonText
  pub dump : ProductView → Json
  pub validate : Json → Option ProductView

-- What `_cache_get` returns, if it is not `None`.
pub data CachedValue : Type 0 where
  missing : CachedValue
  product : Json → CachedValue

abbrev pub not_found_error : Failure
not_found_error = app (app_error "product_not_found" "Product not found" 404)

abbrev pub unavailable_error : Failure
unavailable_error = app (app_error "dependency_unavailable" "Product service unavailable" 503)

abbrev pub field_keys : Fields → List Text
field_keys end = []
field_keys (field k v fields) = k ∷ field_keys fields

-- `value[key]`.
abbrev pub field_lookup : Text → Fields → Option Json
field_lookup key end = none
field_lookup key (field k v fields) = if text_eq k key then some v else field_lookup key fields

-- `set(value) == {…}`.
unfoldable pub keys_are : List Text → Fields → Bool
keys_are names fields =
    all (λ k. any (λ n. text_eq k n) names) (field_keys fields)
    && all (λ n. any (λ k. text_eq k n) (field_keys fields)) names

abbrev pub is_text : Text → Option Json → Bool
is_text t (some (str u)) = text_eq u t
is_text t _ = false

-- `value == {"kind": "missing"}`.
unfoldable pub is_missing : Fields → Bool
unfolding keys_are
is_missing fields =
    keys_are (codes "kind" ∷ []) fields
    && is_text (codes "missing") (field_lookup (codes "kind") fields)

-- An integer of at least 1 that is no Boolean.
abbrev pub positive_integer : Json → Option ℕ
positive_integer (num d) =
    if (not d.negative && d.places == 0) && leb 1 d.digits then some d.digits else none
positive_integer _ = none

module _ (validate : Json → Option ProductView) (id : ℕ) where
  abbrev pub checked_view : ℕ → Option ProductView → Option ProductView
  checked_view version none = none
  checked_view version (some v) = if v.id == id && v.version == version then some v else none

  abbrev pub checked_product : Option ℕ → Option Json → Option ProductView
  checked_product (some version) (some p) = checked_view version (validate p)
  checked_product none p = none
  checked_product (some version) none = none

  abbrev pub version_of : Option Json → Option ℕ
  version_of none = none
  version_of (some j) = positive_integer j

  -- The view in an envelope, if the envelope, its version and the product in it are valid.
  unfoldable pub envelope_view : Fields → Option ProductView
  unfolding keys_are
  envelope_view fields =
      if keys_are (codes "kind" ∷ codes "product" ∷ codes "version" ∷ []) fields
        && is_text (codes "product") (field_lookup (codes "kind") fields)
      then checked_product (version_of (field_lookup (codes "version") fields))
          (field_lookup (codes "product") fields)
      else none

module _ (r : Redis) where
  abbrev pub Act : Type 0 → Type 0
  Act A = Exec (Public r) Failure A

  abbrev pub count : Metric → Act (Unit {0})
  count m = puts (λ w. record w { metrics = w.metrics ++ m ∷ [] })

  abbrev pub carried : {A : Type 0} → Fault → A × r.State → r.State → Option A × r.State
  carried works (a, t) s = (some a, t)
  carried lost (a, t) s = (none, s)
  carried late (a, t) s = (none, t)

  abbrev pub after_call :
      {A : Type 0} → Public r → Option A × r.State → Result Failure (Option A) × Public r
  after_call w (a, s) = (ok a, record w { redis = s })

  abbrev pub call_in : {A : Type 0} → List (Event r) → (r.State → A × r.State) → Act (Option A)
  call_in [] op w = after_call w (carried works (op w.redis) w.redis)
  call_in (e ∷ events) op w =
      let s = e.meanwhile w.redis in
      after_call (record w { events = events }) (carried e.fault (op s) s)

  -- `asyncio.wait_for` of a command: `none` if it raises or takes too long.
  unfoldable pub call : {A : Type 0} → (r.State → A × r.State) → Act (Option A)
  call op w = call_in w.events op w

  abbrev pub count_failure : String → Option (Unit {0}) → Act (Unit {0})
  count_failure operation none = count (dependency_errors "redis" operation)
  count_failure operation (some _) = pure tt

  -- A command whose failure is only counted.
  unfoldable pub best_effort : String → (r.State → r.State) → Act (Unit {0})
  unfolding call
  best_effort operation op = do done ← call (λ s. (tt, op s)); count_failure operation done

  unfoldable pub discard_invalid_cache : ℕ → Act (Option CachedValue)
  unfolding best_effort
  discard_invalid_cache id = do
    count (cache_results "invalid")
    best_effort "cache_delete_invalid" (delete r id)
    pure none

  module _ (j : Codec) (id : ℕ) where
    abbrev pub checked_envelope : Option ProductView → Act (Option CachedValue)
    checked_envelope none = discard_invalid_cache id
    checked_envelope (some v) = do count (cache_results "product"); pure (some (product (j.dump v)))

    unfoldable pub checked_cache : Option Cached → Act (Option CachedValue)
    unfolding is_missing envelope_view discard_invalid_cache
    checked_cache none = do count (dependency_errors "redis" "cache_get"); pure none
    checked_cache (some absent) = do count (cache_results "miss"); pure none
    checked_cache (some invalid) = discard_invalid_cache id
    checked_cache (some (value fields)) =
        if is_missing fields
        then (do count (cache_results "missing"); pure (some missing))
        else checked_envelope (envelope_view j.validate id fields)

    -- `_cache_get`.
    unfoldable pub cache_get : Act (Option CachedValue)
    unfolding call checked_cache
    cache_get = do found ← call (λ s. (get_cached r j.text id s, s)); checked_cache found

    abbrev validated : Option ProductView → Act ProductView
    validated none = throw crash
    validated (some v) = pure v

    -- `_cached_view`.
    unfoldable pub cached_view : CachedValue → Act ProductView
    cached_view missing = throw not_found_error
    cached_view (product p) = validated (j.validate p)
