-- ===== src/PublicService/Load.antt =====
-- The way of a request that the cache does not answer: `_load`, `_query_db` and `detail` of
-- backend/app/catalog/public_service.py.
-- The wait for another request's lock is counted in milliseconds and is a loop on fuel.
use stockstack.Common.{
  ℕ, zero, suc, ◌+◌, ◌-◌, String, Bool, true, false, Option, none, some, List, [], ◌∷◌, ltb,
  if◌then◌else◌,
}
use stockstack.Common.Exec.{ok, pure, throw, puts, ◌>>=◌, ◌>>◌}
use stockstack.Common.Text.{Text}
use stockstack.Models.{Database}
use stockstack.Schemas.{ProductView}
use stockstack.Repository.{ProductModel, public_of}
use stockstack.Service.{crash, view}
use stockstack.Cache.{Redis, CacheSettings, put_product, put_missing, acquire_lock, release_lock}
use stockstack.PublicService.{
  Query, db_fallbacks, lock_contention, dependency_errors, Codec, CachedValue, not_found_error,
  unavailable_error, Act, count, call, best_effort, cache_get, cached_view,
}

-- The token and the jitter that a request draws.
pub record Draws : Type 0 where
  pub token : Text
  pub random : ℕ

-- How the wait for the lock ends.
pub data Waited : Type 0 where
  hit : CachedValue → Waited
  timed_out : Waited
  out_of_fuel : Waited

-- `min(0.025, wait_budget_ms / 1000)`, in milliseconds.
abbrev pub pause : ℕ → ℕ
pause budget = if ltb budget 25 then budget else 25

module _ (r : Redis) where
  abbrev pub pop_query : List Query → Query × List Query
  pop_query [] = (record { freed = false; rows = none }, [])
  pop_query (q ∷ queries) = (q, queries)

  abbrev pub next_query : Act r Query
  next_query w = let p = pop_query w.queries in (ok p.0, record w { queries = p.1 })

  abbrev pub pop_delay : List ℕ → ℕ × List ℕ
  pop_delay [] = (0, [])
  pop_delay (d ∷ delays) = (d, delays)

  -- How much longer than its sleep an iteration takes.
  abbrev pub next_delay : Act r ℕ
  next_delay w = let p = pop_delay w.delays in (ok p.0, record w { delays = p.1 })

  abbrev pub count_fallback : Option String → Act r (Unit {0})
  count_fallback none = pure tt
  count_fallback (some reason) = count r (db_fallbacks reason)

  abbrev slot_timeout : Act r (Unit {0})
  slot_timeout = do count r (db_fallbacks "capacity_timeout"); throw unavailable_error

  -- A slot that comes free in time is taken at once.
  abbrev pub take_slot : Bool → ℕ → Act r (Unit {0})
  take_slot freed (suc slots) = puts (λ w. record w { slots = slots })
  take_slot true zero = pure tt
  take_slot false zero = slot_timeout

  unfoldable pub acquire_slot : Bool → Act r (Unit {0})
  acquire_slot freed w = take_slot freed w.slots w

  abbrev pub release_slot : Act r (Unit {0})
  release_slot = puts (λ w. record w { slots = w.slots + 1 })

  -- What the query gives; `none` is an exception or a timeout.
  abbrev pub queried : ℕ → Option Database → Act r (Option ProductModel)
  queried id none = do
    count r (dependency_errors "postgres" "public_product")
    throw unavailable_error
  queried id (some db) = pure (public_of id db)

  unfoldable pub fetch : ℕ → Option String → Act r (Option ProductModel)
  unfolding acquire_slot
  fetch id reason = do
    count_fallback reason
    q ← next_query
    acquire_slot q.freed
    release_slot
    queried id q.rows

  module _ (c : CacheSettings) (j : Codec) (id : ℕ) (drawn : Draws) where
    abbrev pub store_missing : Bool → Act r (Unit {0})
    store_missing populate =
        if populate then best_effort r "cache_write" (put_missing r j.text c id) else pure tt

    abbrev pub store_product : Bool → ProductView → Act r (Unit {0})
    store_product populate v =
        if populate
        then best_effort r "cache_write"
            (put_product r j.text c drawn.random id (j.dump v) v.version)
        else pure tt

    unfoldable pub reply : Bool → Option ProductModel → Act r ProductView
    reply populate none = do store_missing populate; throw not_found_error
    reply populate (some m) = do store_product populate (view m); pure (view m)

    -- `_query_db`.
    unfoldable pub query_db : Bool → Option String → Act r ProductView
    unfolding fetch reply
    query_db populate reason = do found ← fetch id reason; reply populate found

    abbrev pub resume : (ℕ → Act r Waited) → ℕ → Option CachedValue → Act r Waited
    resume again left none = again left
    resume again left (some v) = pure (hit v)

    -- The loop, with the time that is left.
    unfoldable pub wait : ℕ → ℕ → ℕ → Act r Waited
    unfolding cache_get
    wait budget zero left = pure out_of_fuel
    wait budget (suc fuel) left =
        let again = wait budget fuel in
        if ltb 0 left
        then (do
          delay ← next_delay
          found ← cache_get r j id
          resume again (left - (pause budget + delay)) found)
        else pure timed_out

    unfoldable pub after_wait : Waited → Act r ProductView
    unfolding query_db cached_view
    after_wait (hit v) = cached_view r j id v
    after_wait timed_out = query_db false (some "lock_timeout")
    after_wait out_of_fuel = throw crash

    -- The body of a `try` whose `finally` releases the lock.
    unfoldable pub with_lock : Text → Act r ProductView
    unfolding query_db best_effort
    with_lock token w =
        let body = query_db true none w in
        (body.0, (best_effort r "lock_release" (release_lock r id token) body.1).1)

    abbrev pub locked : ℕ → Option (Option Text) → Act r ProductView
    locked budget none = do
      count r (dependency_errors "redis" "lock")
      query_db false (some "redis_error")
    locked budget (some (some token)) = with_lock token
    locked budget (some none) = do
      count r lock_contention
      waited ← wait budget (suc budget) budget
      after_wait waited

    -- `_load`.
    unfoldable pub load_public : ℕ → Act r ProductView
    unfolding call with_lock wait after_wait
    load_public budget = do answer ← call r (acquire_lock r c id drawn.token); locked budget answer

    abbrev pub cached_or : ℕ → Option CachedValue → Act r ProductView
    cached_or budget none = load_public budget
    cached_or budget (some v) = cached_view r j id v

    -- `detail`.
    unfoldable pub detail_public : ℕ → Act r ProductView
    unfolding cache_get load_public cached_view
    detail_public budget = do cached ← cache_get r j id; cached_or budget cached
