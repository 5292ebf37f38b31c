-- ===== src/PublicService/Fills.antt =====
-- A request that the cache does not answer fills it for the next one.
use stockstack.Common.{
  ℕ, suc, ◌≡◌, ◌+◌, ap, ◌∙◌, refl, Option, none, some, List, [], ◌∷◌, Bool, true, false, ◌++◌, leb,
  ==_refl,
}
use stockstack.Common.Exec.{ok}
use stockstack.Common.Text.{Text, text_eq, text_eq_refl}
use stockstack.Json.{Json}
use stockstack.Models.{Database}
use stockstack.Repository.{ProductModel, public_of}
use stockstack.Service.{view}
use stockstack.Cache.{
  Redis, CacheSettings, key, lock_key, get_cached, put_product, put_missing, missing_payload,
  product_payload, acquire_lock, release_lock,
}
use stockstack.Cache.Locks.{acquired}
use stockstack.PublicService.{
  Query, Metric, Public, Codec, CachedValue, missing, product, call, best_effort, cache_get,
  checked_cache, envelope_view, is_missing, keys_are, cached_view, cache_results,
}
use stockstack.PublicService.Load.{
  Draws, acquire_slot, fetch, reply, query_db, with_lock, load_public, detail_public,
}
use stockstack.PublicService.Outages.{answer_of, from_rows}
use stockstack.PublicService.Queries.{Fetched, public_of-Fetched}

key_apart : (id : ℕ) → text_eq (key id) (lock_key id) ≡ false
unfolding key lock_key
key_apart id = refl

lock_key_apart : (id : ℕ) → text_eq (lock_key id) (key id) ≡ false
unfolding key lock_key
lock_key_apart id = refl

-- What is written for what was found.
abbrev pub payload : Codec → Option ProductModel → Json
payload j none = missing_payload
payload j (some m) = product_payload (j.dump (view m)) (view m).version

-- What was found is read again as it was written: its version counts from 1, its JSON is read as
-- it is, and the view in it is valid and the same.
unfoldable pub IsReadable : Codec → Option ProductModel → Type 0
IsReadable j none = j.text.loads (j.text.dumps missing_payload) ≡ some missing_payload
IsReadable j (some m) =
    let p = payload j (some m) in
    (leb 1 m.product.version ≡ true)
    × (j.text.loads (j.text.dumps p) ≡ some p)
    × (j.validate (j.dump (view m)) ≡ some (view m))

module _ (r : Redis) (c : CacheSettings) (j : Codec) (id : ℕ) (drawn : Draws) where
  abbrev entry : Option ProductModel → Text
  entry found = j.text.dumps (payload j found)

  abbrev cached : Option ProductModel → CachedValue
  cached none = missing
  cached (some m) = product (j.dump (view m))

  cache_get_absent :
      (w : Public r)
      → r.get (key id) w.redis ≡ none
      → cache_get r j id (record w { events = [] })
        ≡ (ok none, record w { events = []; metrics = w.metrics ++ cache_results "miss" ∷ [] })
  unfolding cache_get checked_cache call get_cached
  cache_get_absent w free = rw free refl

  reply_stored :
      (found : Option ProductModel) (w : Public r)
      → (ttl : ℕ) × (reply r c j id drawn true found (record w { events = [] }) ≡ (
        answer_of found,
        record w { events = []; redis = r.set (key id) (entry found) ttl w.redis },
      ))
  unfolding reply best_effort call put_missing put_product
  reply_stored none w = (_, refl)
  reply_stored (some m) w = (_, refl)

  cache_get_stored :
      (found : Option ProductModel) (w : Public r)
      → r.get (key id) w.redis ≡ some (entry found)
      → Fetched id (ok found)
      → IsReadable j found
      → (m : List Metric) × (cache_get r j id (record w { events = [] })
          ≡ (ok (some (cached found)), record w { events = []; metrics = m }))
  unfolding IsReadable cache_get checked_cache call get_cached Fetched is_missing keys_are
      envelope_view view
  cache_get_stored none w held same readable = rw (held, readable) (_, refl)
  cache_get_stored (some m) w held same (version, text, valid) =
      rw (held, text, version, valid, same, ==_refl id, ==_refl m.product.version) (_, refl)

  cached_view_stored :
      (found : Option ProductModel) (w : Public r)
      → IsReadable j found
      → cached_view r j id (cached found) w ≡ (answer_of found, w)
  unfolding cached_view IsReadable
  cached_view_stored none w readable = refl
  cached_view_stored (some m) w (version, text, valid) = rw valid refl

  -- The lock is set, the entry is written, and the lock is taken back.
  abbrev after_lock : r.State → r.State
  after_lock s = (acquire_lock r c id drawn.token s).1

  after_lock-set :
      (s : r.State)
      → r.get (lock_key id) s ≡ none
      → after_lock s ≡ r.set (lock_key id) drawn.token c.lock_ttl_ms s
  after_lock-set s free = ap (λ p. p.1) (acquired r c id drawn.token s free)

  release_held :
      (s : r.State)
      → r.get (lock_key id) s ≡ some drawn.token
      → release_lock r id drawn.token s ≡ r.del (lock_key id) s
  unfolding release_lock
  release_held s held = rw (held, text_eq_refl drawn.token) refl

  release_stored :
      (s : r.State) (value : Text) (ttl : ℕ)
      → r.get (lock_key id) s ≡ none
      → let t = release_lock r id drawn.token (r.set (key id) value ttl (after_lock s)) in
        (r.get (key id) t ≡ some value) × (r.get (lock_key id) t ≡ none)
  release_stored s value ttl free =
      let locked = r.set (lock_key id) drawn.token c.lock_ttl_ms s in
      let u = r.set (key id) value ttl locked in
      let held : r.get (lock_key id) u ≡ some drawn.token =
        rw
          (
            r.get-set (key id) (lock_key id) value ttl locked,
            key_apart id,
            r.get-set (lock_key id) (lock_key id) drawn.token c.lock_ttl_ms s,
            text_eq_refl (lock_key id),
          )
          refl in
      rw
        (
          after_lock-set s free,
          release_held u held,
          r.get-del (lock_key id) (key id) u,
          lock_key_apart id,
          r.get-del (lock_key id) (lock_key id) u,
          text_eq_refl (lock_key id),
          r.get-set (key id) (key id) value ttl locked,
          text_eq_refl (key id),
        )
        (refl, refl)

  module _ (db : Database) (freed : Bool) (queries : List Query) (slots : ℕ) where
    abbrev start : Public r → Public r
    start w = record w {
      events = [];
      queries = record { freed = freed; rows = some db } ∷ queries;
      slots = suc slots;
    }

    with_lock_stored :
        (w : Public r)
        → (ttl : ℕ) × (with_lock r c j id drawn drawn.token (start w) ≡ (
          answer_of (public_of id db),
          record w {
            events = [];
            queries = queries;
            slots = slots + 1;
            redis =
                release_lock r id drawn.token
                  (r.set (key id) (entry (public_of id db)) ttl w.redis);
          },
        ))
    unfolding with_lock query_db fetch acquire_slot best_effort call
    with_lock_stored w =
        let (ttl, stored) =
          reply_stored (public_of id db) (record w { queries = queries; slots = slots + 1 }) in
        (ttl, rw stored refl)

    load_stored :
        (budget : ℕ) (w : Public r)
        → r.get (lock_key id) w.redis ≡ none
        → load_public r c j id drawn budget (start w)
          ≡ with_lock r c j id drawn drawn.token (start (record w { redis = after_lock w.redis }))
    unfolding load_public call acquire_lock
    load_stored budget w free =
        rw (r.set_nx-free (lock_key id) drawn.token c.lock_ttl_ms w.redis free) refl

    -- The world after the first request.
    abbrev filled : Public r → ℕ → Public r
    filled w ttl = record w {
      events = [];
      metrics = w.metrics ++ cache_results "miss" ∷ [];
      queries = queries;
      slots = slots + 1;
      redis =
          release_lock r id drawn.token
            (r.set (key id) (entry (public_of id db)) ttl (after_lock w.redis));
    }

    first_answer :
        (budget : ℕ) (w : Public r)
        → r.get (key id) w.redis ≡ none
        → r.get (lock_key id) w.redis ≡ none
        → (ttl : ℕ) × (detail_public r c j id drawn budget (start w)
            ≡ (answer_of (public_of id db), filled w ttl))
    unfolding detail_public
    first_answer budget w absent free =
        let u = record w { metrics = w.metrics ++ cache_results "miss" ∷ [] } in
        let (ttl, stored) = with_lock_stored (record u { redis = after_lock w.redis }) in
        (ttl, rw (cache_get_absent (start w) absent) (load_stored budget u free ∙ stored))

    next_answer :
        (budget ttl : ℕ) (w : Public r)
        → r.get (key id) (filled w ttl).redis ≡ some (entry (public_of id db))
        → IsReadable j (public_of id db)
        → (m : List Metric) × (detail_public r c j id drawn budget (filled w ttl)
            ≡ (answer_of (public_of id db), record (filled w ttl) { metrics = m }))
    unfolding detail_public
    next_answer budget ttl w held readable =
        let found = public_of id db in
        let (m, hit) =
          cache_get_stored found (filled w ttl) held (public_of-Fetched id db) readable in
        (m, rw hit (cached_view_stored found (record (filled w ttl) { metrics = m }) readable))

    -- When nobody interferes and the product is neither cached nor locked, a request is answered
    -- from the rows and frees the lock; and the next request gets the same answer, from the cache:
    -- it asks for no rows, whether the product is there or not. What was found is taken to be
    -- readable: a version of at least 1, and JSON and a view that are read as they were written.
    pub detail_public-detail_public :
        (budget budget' : ℕ) (w : Public r)
        → r.get (key id) w.redis ≡ none
        → r.get (lock_key id) w.redis ≡ none
        → IsReadable j (public_of id db)
        → let first = detail_public r c j id drawn budget (record w {
          events = [];
          queries = record { freed = freed; rows = some db } ∷ queries;
          slots = suc slots;
        }) in
          let second = detail_public r c j id drawn budget' first.1 in
          (first.0 ≡ from_rows id (some db))
          × (r.get (lock_key id) first.1.redis ≡ none)
          × (second.0 ≡ first.0)
          × (second.1.queries ≡ first.1.queries)
    unfolding from_rows
    detail_public-detail_public budget budget' w absent free readable =
        let (ttl, first) = first_answer budget w absent free in
        let (held, unlocked) = release_stored w.redis (entry (public_of id db)) ttl free in
        let (m, next) = next_answer budget' ttl w held readable in
        rw (first, next) (refl, unlocked, refl, refl)
