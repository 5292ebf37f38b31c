-- ===== src/PublicService/Total.antt =====
-- Every request for a public product is answered, whatever Redis and the database do.
use stockstack.Common.{
  ℕ, suc, ◌≤◌, ◌≡◌, refl, ◌++◌, true, false, Option, none, some, [], ◌∷◌, inl, arith,
}
use stockstack.Common.Text.{Text}
use stockstack.Json.{Json}
use stockstack.Schemas.{ProductView}
use stockstack.Cache.{Redis, CacheSettings, acquire_lock, release_lock}
use stockstack.PublicService.{
  Public, Codec, CachedValue, missing, product, lock_contention, dependency_errors, call,
  cached_view,
}
use stockstack.PublicService.Load.{
  Draws, Waited, hit, timed_out, out_of_fuel, query_db, wait, after_wait, with_lock, locked,
  load_public, cached_or, detail_public,
}
use stockstack.PublicService.Answers.{
  Sound, Ended, call-Kept, best_effort-Kept, cache_get-Sound, wait-ends,
}
use stockstack.PublicService.Queries.{Answered, query_db-Answered}

module _ (r : Redis) (c : CacheSettings) (j : Codec) (id : ℕ) (drawn : Draws)
    (round_trip : (p : Json) (v : ProductView)
      → j.validate p ≡ some v
      → j.validate (j.dump v) ≡ some v) where
  cached_view-Answered :
      (v : CachedValue) (w : Public r)
      → Sound j id (some v)
      → Answered id (cached_view r j id v w).0 × ((cached_view r j id v w).1 ≡ w)
  unfolding cached_view Sound Answered
  cached_view-Answered missing w h = (inl refl, refl)
  cached_view-Answered (product p) w (v, valid, same) = rw valid (same, refl)

  with_lock-Answered :
      (token : Text) (w : Public r)
      → Answered id (with_lock r c j id drawn token w).0
        × (w.slots ≤ (with_lock r c j id drawn token w).1.slots)
  unfolding with_lock
  with_lock-Answered token w =
      let (answer, more) = query_db-Answered r c j id drawn true none w in
      let t = (query_db r c j id drawn true none w).1 in
      let (done, kept) = best_effort-Kept r "lock_release" (release_lock r id token) t in
      (answer, omega (arith, kept.slots))

  after_wait-Answered :
      (a : Waited) (w : Public r)
      → Ended j id a
      → Answered id (after_wait r c j id drawn a w).0
        × (w.slots ≤ (after_wait r c j id drawn a w).1.slots)
  unfolding after_wait Ended
  after_wait-Answered (hit v) w h =
      let (answer, same) = cached_view-Answered v w h in (answer, rw same (omega arith))
  after_wait-Answered timed_out w h = query_db-Answered r c j id drawn false (some "lock_timeout") w
  after_wait-Answered out_of_fuel w h = absurd h

  locked-Answered :
      (budget : ℕ) (answer : Option (Option Text)) (w : Public r)
      → Answered id (locked r c j id drawn budget answer w).0
        × (w.slots ≤ (locked r c j id drawn budget answer w).1.slots)
  locked-Answered budget none w =
      query_db-Answered r c j id drawn false (some "redis_error")
        (record w { metrics = w.metrics ++ dependency_errors "redis" "lock" ∷ [] })
  locked-Answered budget (some (some token)) w = with_lock-Answered token w
  locked-Answered budget (some none) w =
      let u = record w { metrics = w.metrics ++ lock_contention ∷ [] } in
      let (a, answered, ended, kept) =
        wait-ends r j id round_trip c drawn budget (suc budget) budget u (omega arith)
          (omega arith) in
      let (answer, more) =
        after_wait-Answered a (wait r c j id drawn budget (suc budget) budget u).1 ended in
      rw answered (answer, omega (arith, kept.slots))

  load_public-Answered :
      (budget : ℕ) (w : Public r)
      → Answered id (load_public r c j id drawn budget w).0
        × (w.slots ≤ (load_public r c j id drawn budget w).1.slots)
  unfolding load_public
  load_public-Answered budget w =
      let (a, answered, kept) = call-Kept r (acquire_lock r c id drawn.token) w in
      let (answer, more) =
        locked-Answered budget a (call r (acquire_lock r c id drawn.token) w).1 in
      rw answered (answer, omega (arith, kept.slots))

  cached_or-Answered :
      (budget : ℕ) (found : Option CachedValue) (w : Public r)
      → Sound j id found
      → Answered id (cached_or r c j id drawn budget found w).0
        × (w.slots ≤ (cached_or r c j id drawn budget found w).1.slots)
  cached_or-Answered budget none w sound = load_public-Answered budget w
  cached_or-Answered budget (some v) w sound =
      let (answer, same) = cached_view-Answered v w sound in (answer, rw same (omega arith))

  -- Whatever Redis and the database do, a request for a public product ends, and its answer is
  -- that product, 404 `product_not_found` or 503 `dependency_unavailable`; and no slot is lost.
  -- A view that was read is taken to be
  -- read again as it was, when it is written.
  pub detail_public-Answered :
      (budget : ℕ) (w : Public r)
      → Answered id (detail_public r c j id drawn budget w).0
        × (w.slots ≤ (detail_public r c j id drawn budget w).1.slots)
  unfolding detail_public
  detail_public-Answered budget w =
      let (a, answered, sound, kept) = cache_get-Sound r j id round_trip w in
      let (answer, more) = cached_or-Answered budget a _ sound in
      rw answered (answer, omega (arith, kept.slots))
