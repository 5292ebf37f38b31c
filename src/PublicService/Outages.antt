-- ===== src/PublicService/Outages.antt =====
-- A request while Redis cannot be reached: the database answers it.
use stockstack.Common.{
  ℕ, suc, ◌≡◌, refl, Option, none, some, List, [], ◌∷◌, Bool, false, ◌++◌, arith,
}
use stockstack.Common.Exec.{Result, ok, raise}
use stockstack.Models.{Database}
use stockstack.Schemas.{ProductView}
use stockstack.Repository.{ProductModel, public_of}
use stockstack.Service.{Failure, view}
use stockstack.Cache.{Redis, get_cached, acquire_lock, CacheSettings}
use stockstack.PublicService.{
  Fault, works, lost, late, Event, Query, Public, Codec, not_found_error, unavailable_error, call,
  carried, dependency_errors, cache_get, checked_cache,
}
use stockstack.PublicService.Load.{
  Draws, acquire_slot, fetch, reply, query_db, load_public, detail_public,
}

-- What the rows that a query sees have to say of a product; without an answer it is 503.
abbrev pub answer_of : Option ProductModel → Result Failure ProductView
answer_of none = raise not_found_error
answer_of (some m) = ok (view m)

unfoldable pub from_rows : ℕ → Option Database → Result Failure ProductView
from_rows id none = raise unavailable_error
from_rows id (some db) = answer_of (public_of id db)

abbrev pub IsDown : Fault → Type 0
IsDown works = ⊥
IsDown lost = Unit
IsDown late = Unit

module _ (r : Redis) (c : CacheSettings) (j : Codec) (id : ℕ) (drawn : Draws) where
  reply_plain :
      (o : Option ProductModel) (w : Public r) → reply r c j id drawn false o w ≡ (answer_of o, w)
  unfolding reply
  reply_plain none w = refl
  reply_plain (some m) w = refl

  query_db-from_rows :
      (freed : Bool) (rows : Option Database) (queries : List Query) (slots : ℕ) (w : Public r)
      → let t = query_db r c j id drawn false (some "redis_error") (record w {
        queries = record { freed = freed; rows = rows } ∷ queries;
        slots = suc slots;
      }) in
        (t.0 ≡ from_rows id rows) × (t.1.slots ≡ suc slots)
  unfolding query_db fetch acquire_slot from_rows
  query_db-from_rows freed none queries slots w = (refl, omega arith)
  query_db-from_rows freed (some db) queries slots w =
      rw (reply_plain (public_of id db)) (refl, omega arith)

  carried_down :
      {A : Type 0} (f : Fault) (a : A × r.State) (s : r.State)
      → IsDown f
      → (t : r.State) × (carried r f a s ≡ (none, t))
  carried_down works a s down = absurd down
  carried_down lost a s down = (s, refl)
  carried_down late a s down = (a.1, refl)

  cache_get_down :
      (e : Event r) (events : List (Event r)) (w : Public r)
      → IsDown e.fault
      → (s : r.State) × (cache_get r j id (record w { events = e ∷ events }) ≡ (
        ok none,
        record w {
          redis = s;
          events = events;
          metrics = w.metrics ++ dependency_errors "redis" "cache_get" ∷ [];
        },
      ))
  unfolding cache_get checked_cache call
  cache_get_down e events w down =
      let s = e.meanwhile w.redis in
      let (t, same) = carried_down e.fault (get_cached r j.text id s, s) s down in (t, rw same refl)

  load_public_down :
      (budget : ℕ) (e : Event r) (events : List (Event r)) (w : Public r)
      → IsDown e.fault
      → (s : r.State) × (load_public r c j id drawn budget (record w { events = e ∷ events })
          ≡ query_db r c j id drawn false (some "redis_error") (record w {
            redis = s;
            events = events;
            metrics = w.metrics ++ dependency_errors "redis" "lock" ∷ [];
          }))
  unfolding load_public call
  load_public_down budget e events w down =
      let s = e.meanwhile w.redis in
      let (t, same) = carried_down e.fault (acquire_lock r c id drawn.token s) s down in
      (t, rw same refl)

  -- While no command of Redis is answered, a request is answered from the rows, as they are, if a
  -- slot is free; and the slot is given back.
  pub detail_public_outage :
      (budget : ℕ) (get lock : Event r) (events : List (Event r)) (q : Query) (queries : List Query)
      (slots : ℕ) (w : Public r)
      → IsDown get.fault
      → IsDown lock.fault
      → let t =
          detail_public r c j id drawn budget
            (record w { events = get ∷ lock ∷ events; queries = q ∷ queries; slots = suc slots }) in
        (t.0 ≡ from_rows id q.rows) × (t.1.slots ≡ suc slots)
  unfolding detail_public
  detail_public_outage budget get lock events q queries slots w down down' =
      let u = record w { queries = q ∷ queries; slots = suc slots } in
      let (s, got) = cache_get_down get (lock ∷ events) u down in
      let u1 = record u {
        redis = s;
        metrics = w.metrics ++ dependency_errors "redis" "cache_get" ∷ [];
      } in
      let (s', locked) = load_public_down budget lock events u1 down' in
      let u2 = record u1 {
        redis = s';
        events = events;
        metrics = u1.metrics ++ dependency_errors "redis" "lock" ∷ [];
      } in
      rw (got, locked) (query_db-from_rows q.freed q.rows queries slots u2)
