-- ===== src/PublicService/Queries.antt =====
-- What a query of the database can be answered, and the slots that it takes and gives back.
use stockstack.Common.{
  ℕ, zero, suc, ◌+◌, ◌≤◌, ◌≡◌, refl, if◌then◌else◌, String, Bool, true, false, ◌&&◌, Option, none,
  some, List, [], ◌∷◌, find, ◌⊎◌, inl, inr, arith,
}
use stockstack.Common.Exec.{Result, ok, raise, pure, bind_result, ◌>>◌}
use stockstack.Domain.{status_eq, on_shelf}
use stockstack.Models.{Product, Database}
use stockstack.Schemas.{ProductView}
use stockstack.Repository.{ProductModel, has_id, load_option, public_of}
use stockstack.Service.{Failure, view}
use stockstack.Cache.{Redis, CacheSettings, put_product, put_missing}
use stockstack.PublicService.{Public, Codec, not_found_error, unavailable_error, best_effort}
use stockstack.PublicService.Load.{
  Draws, take_slot, release_slot, queried, acquire_slot, fetch, reply, query_db,
}
use stockstack.PublicService.Answers.{Kept, best_effort-Kept}

-- What a request may be answered: the product that it asks for, 404 or 503.
unfoldable pub Answered : ℕ → Result Failure ProductView → Type 0
Answered id (ok v) = v.id ≡ id
Answered id (raise f) = (f ≡ not_found_error) ⊎ (f ≡ unavailable_error)

unfoldable pub Fetched : ℕ → Result Failure (Option ProductModel) → Type 0
Fetched id (ok none) = Unit
Fetched id (ok (some m)) = m.product.id ≡ id
Fetched id (raise f) = f ≡ unavailable_error

find_public :
    (id : ℕ) (rows : List Product) {p : Product}
    → find (λ p. has_id id p && status_eq p.status on_shelf) rows ≡ some p
    → p.id ≡ id
find_public id [] h = absurd (ground arith)
find_public id (q ∷ rows) {p} h = ground (arith, find_public id rows {p = p})

load_option-Fetched :
    (id : ℕ) (db : Database) (o : Option Product)
    → ((p : Product) → o ≡ some p → p.id ≡ id)
    → Fetched id (ok (load_option db o))
unfolding Fetched
load_option-Fetched id db none h = tt
load_option-Fetched id db (some p) h = h p refl

pub public_of-Fetched : (id : ℕ) (db : Database) → Fetched id (ok (public_of id db))
unfolding public_of
public_of-Fetched id db = load_option-Fetched id db _ (λ p. find_public id db.products)

module _ (r : Redis) where
  queried-Fetched :
      (id : ℕ) (rows : Option Database) (w : Public r)
      → Fetched id (queried r id rows w).0 × (w.slots ≤ (queried r id rows w).1.slots)
  unfolding Fetched
  queried-Fetched id none w = (refl, omega arith)
  queried-Fetched id (some db) w = (public_of-Fetched id db, omega arith)

  slots-Fetched :
      (id : ℕ) (freed : Bool) (slots : ℕ) (rows : Option Database) (w : Public r)
      → let m = (take_slot r freed slots >> (release_slot r >> queried r id rows)) w in
        Fetched id m.0 × (slots ≤ m.1.slots)
  unfolding Fetched
  slots-Fetched id freed (suc slots) rows w =
      let (answer, kept) = queried-Fetched id rows (record w { slots = slots + 1 }) in
      (answer, omega arith)
  slots-Fetched id true zero rows w =
      ((queried-Fetched id rows (record w { slots = w.slots + 1 })).0, omega arith)
  slots-Fetched id false zero rows w = (refl, omega arith)

  fetch-Fetched :
      (id : ℕ) (reason : Option String) (w : Public r)
      → Fetched id (fetch r id reason w).0 × (w.slots ≤ (fetch r id reason w).1.slots)
  unfolding fetch acquire_slot
  fetch-Fetched id none w = slots-Fetched id _ w.slots _ _
  fetch-Fetched id (some reason) w = slots-Fetched id _ w.slots _ _

  module _ (c : CacheSettings) (j : Codec) (id : ℕ) (drawn : Draws) where
    stored :
        (populate : Bool) (operation : String) (op : r.State → r.State) (w : Public r)
        → let m = if populate then best_effort r operation op else pure tt in
          ((m w).0 ≡ ok tt) × Kept w (m w).1
    stored true operation op w = best_effort-Kept r operation op w
    stored false operation op w = (refl, record { slots = refl; queries = refl })

    reply-Answered :
        (populate : Bool) (found : Option ProductModel) (w : Public r)
        → Fetched id (ok found)
        → Answered id (reply r c j id drawn populate found w).0
          × (w.slots ≤ (reply r c j id drawn populate found w).1.slots)
    unfolding reply Fetched Answered
    reply-Answered populate none w h =
        let (done, kept) = stored populate "cache_write" (put_missing r j.text c id) w in
        rw done (inl refl, omega (arith, kept.slots))
    reply-Answered populate (some m) w h =
        let v = view m in
        let (done, kept) =
          stored populate "cache_write"
            (put_product r j.text c drawn.random id (j.dump v) v.version) w in
        rw done (unfold view in h, omega (arith, kept.slots))

    answer-Fetched :
        (populate : Bool) (f : Result Failure (Option ProductModel)) (w : Public r)
        → Fetched id f
        → let m = bind_result (reply r c j id drawn populate) f w in
          Answered id m.0 × (w.slots ≤ m.1.slots)
    unfolding Fetched Answered
    answer-Fetched populate (ok found) w h = reply-Answered populate found w (unfold Fetched in h)
    answer-Fetched populate (raise f) w h = (inr h, omega arith)

    pub query_db-Answered :
        (populate : Bool) (reason : Option String) (w : Public r)
        → Answered id (query_db r c j id drawn populate reason w).0
          × (w.slots ≤ (query_db r c j id drawn populate reason w).1.slots)
    unfolding query_db
    query_db-Answered populate reason w =
        let (fetched, kept) = fetch-Fetched id reason w in
        let (answer, kept') = answer-Fetched populate _ (fetch r id reason w).1 fetched in
        (answer, omega arith)
