-- ===== src/Service/Statuses.antt =====
-- The session after a change of statuses: what was committed, on every way out.
use stockstack.Common.{ℕ, ◌≡◌, refl, some, List, [], ◌∷◌, map, find, arith}
use stockstack.Common.Exec.{ok, raise}
use stockstack.Domain.{ProductStatus}
use stockstack.Models.{Product}
use stockstack.Schemas.{ProductBatchStatusUpdate, ProductView}
use stockstack.Repository.{has_id, load, RepositoryError, detail_of, Repo, get_detail}
use stockstack.Repository.Batch.{Refs, batch_update_status}
use stockstack.Repository.Batch.Effects.{batch_update_status-raise}
use stockstack.Service.{app, view, repository_error, batch_error, Cache, World, rollback}
use stockstack.Service.Actions.{invalidate, update_status, batch_status, details, present}
use stockstack.Service.Outcomes.{IsClean, invalidate-session}

module _ (c : Cache) where
  details-lem :
      (products : List Product) (w : World c)
      → ((details c products w).1 ≡ w)
        × (views : List ProductView) × ((details c products w).0 ≡ ok views)
  unfolding details get_detail
  details-lem [] w = (refl, [], refl)
  details-lem (p ∷ products) w =
      let (same, views, answered) = details-lem products w in
      (rw answered same, present (detail_of p.id w.session.db) views, rw answered)

  -- A change of statuses that fails commits nothing, and one that answers commits what the
  -- repository wrote.
  abbrev pub status_batch : ℕ → ℕ → ProductStatus → Repo (List Product)
  status_batch id version target = batch_update_status ((id, version) ∷ []) target

  pub update_status-raise :
      (id version : ℕ) (target : ProductStatus) (w : World c) {e : RepositoryError}
      → IsClean w.session
      → (status_batch id version target w.session).0 ≡ raise e
      → let t = (update_status c id version target w).1.session in
        ((update_status c id version target w).0 ≡ raise (app (repository_error e)))
        × (t.committed ≡ w.session.committed)
        × IsClean t
  unfolding update_status rollback
  update_status-raise id version target w h e =
      ground (arith, batch_update_status-raise ((id, version) ∷ []) target w.session e)

  pub update_status-ok :
      (id version : ℕ) (target : ProductStatus) (w : World c) {rows : List Product}
      → (status_batch id version target w.session).0 ≡ ok rows
      → let t = (update_status c id version target w).1.session in
        (t.committed ≡ (status_batch id version target w.session).1.db) × IsClean t
  unfolding update_status get_detail
  update_status-ok id version target w {rows} e =
      let t = (status_batch id version target w.session).1 in
      let u = record w { session = record t { committed = t.db } } in
      ground (arith, invalidate-session c (id ∷ []) u)

  -- The answer, if the repository moved one row.
  pub update_status_answer :
      (id version : ℕ) (target : ProductStatus) (w : World c) {q : Product}
      → (status_batch id version target w.session).0 ≡ ok (q ∷ [])
      → find (has_id q.id) (status_batch id version target w.session).1.db.products ≡ some q
      → (update_status c id version target w).0
        ≡ ok (view (load (status_batch id version target w.session).1.db q))
  unfolding update_status get_detail
  update_status_answer id version target w e found =
      let t = (status_batch id version target w.session).1 in
      let u = record w { session = record t { committed = t.db } } in
      ground (arith, invalidate-session c (id ∷ []) u)

  abbrev pub refs_of : ProductBatchStatusUpdate → Refs
  refs_of b = map (λ r. (r.product_id, r.version)) b.product_ids

  pub batch_status-raise :
      (b : ProductBatchStatusUpdate) (w : World c) {e : RepositoryError}
      → IsClean w.session
      → (batch_update_status (refs_of b) b.target_status w.session).0 ≡ raise e
      → let t = (batch_status c b w).1.session in
        ((batch_status c b w).0 ≡ raise (app (batch_error e)))
        × (t.committed ≡ w.session.committed)
        × IsClean t
  unfolding batch_status rollback
  batch_status-raise b w h e =
      ground (arith, batch_update_status-raise (refs_of b) b.target_status w.session e)

  pub batch_status-ok :
      (b : ProductBatchStatusUpdate) (w : World c) {rows : List Product}
      → (batch_update_status (refs_of b) b.target_status w.session).0 ≡ ok rows
      → let t = (batch_status c b w).1.session in
        (t.committed ≡ (batch_update_status (refs_of b) b.target_status w.session).1.db)
        × IsClean t
        × (views : List ProductView) × ((batch_status c b w).0 ≡ ok views)
  unfolding batch_status
  batch_status-ok b w {rows} e =
      let t = (batch_update_status (refs_of b) b.target_status w.session).1 in
      let u = record w { session = record t { committed = t.db } } in
      let done = invalidate c (map (λ p. p.id) rows) u in
      let (same, views, answered) = details-lem rows done in
      (
        ground (arith, invalidate-session c (map (λ p. p.id) rows) u, same),
        ground (arith, invalidate-session c (map (λ p. p.id) rows) u, same),
        views,
        ground (arith, answered),
      )
