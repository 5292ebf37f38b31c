-- ===== src/Service/Replies.antt =====
-- What the methods answer, and what can be read afterwards.
use stockstack.Common.{
  ℕ, ◌≡◌, sym, subst, ap, ◌∙◌, Option, none, some, List, [], ◌∷◌, map, find, ◌==◌, Bool-cases, inl,
  inr, ==_refl, ==_iff, arith,
}
use stockstack.Common.Exec.{ok, raise, Result-cases}
use stockstack.Common.Text.{Text}
use stockstack.Json.{Json, Fields}
use stockstack.Domain.{ProductStatus, assert_transition}
use stockstack.Errors.{app_error}
use stockstack.Models.{Product, Database}
use stockstack.Schemas.{ProductUpdate, ProductView}
use stockstack.FieldSchema.{FieldValidationError}
use stockstack.Repository.{has_id, load, get_detail, update, assign}
use stockstack.Repository.Rows.{IsKeyed, find-id}
use stockstack.Repository.Writes.{replace_images-ok}
use stockstack.Repository.Locking.{update-ok}
use stockstack.Repository.Batch.{set_status, batch_update_status}
use stockstack.Repository.Batch.Failures.{versions_for}
use stockstack.Repository.Batch.Effects.{
  Moves, apart, moves, batch_update_status-eq-ok_iff, batch_update_status-ok,
  batch_update_status-raise, batch_update_status-rows, select_one,
}
use stockstack.Service.{app, view, repository_error, Cache, World}
use stockstack.Service.Actions.{update_product, update_status, detail, values_of}
use stockstack.Service.Outcomes.{update_product-ok, IsClean}
use stockstack.Service.Statuses.{
  update_status-raise, update_status-ok, update_status_answer, status_batch,
}

-- A detail is read from the rows that the session sees.
detail_found :
    (c : Cache) (id : ℕ) (w : World c) {p : Product}
    → find (has_id id) w.session.db.products ≡ some p
    → (detail c id w).0 ≡ ok (view (load w.session.db p))
unfolding detail get_detail
detail_found c id w found = ground arith

-- If the committed row of a view is in a clean session, a request for it shows the view.
detail_shown :
    (c : Cache) (w : World c) (d : Database) (row : Product) {v : ProductView}
    → w.session.db ≡ d
    → find (has_id row.id) d.products ≡ some row
    → v ≡ view (load d row)
    → (detail c v.id w).0 ≡ ok v
unfolding view
detail_shown c w d row e found shown =
    subst (λ (x : ProductView). (detail c x.id w).0 ≡ ok x) (sym shown)
      (subst (λ (b : Database). (detail c row.id w).0 ≡ ok (view (load b row))) e
        (detail_found c row.id w (rw e found)))

module _ (c : Cache) (validate : Json → Fields → Option (List FieldValidationError))
    (clean : Text → Text) (uuid7 : ℕ → ℕ) where
  -- If no two products have one id and `update` answers, a request for the product then shows the
  -- same.
  pub detail-update :
      (id : ℕ) (p : ProductUpdate) (w : World c) {v : ProductView}
      → IsKeyed w.session.db.products
      → (update_product c validate clean uuid7 id p w).0 ≡ ok v
      → (detail c v.id (update_product c validate clean uuid7 id p w).1).0 ≡ ok v
  detail-update id p w keyed answered =
      let (row, m, written, replaced, shown, stored, tidy) =
        update_product-ok c validate clean uuid7 id p w answered in
      let values = values_of (clean p.description_html) p in
      let (old, found, version, same, after) =
        update-ok id p.version values w.session keyed written in
      let (loaded, kept) = replace_images-ok uuid7 row p.images _ replaced in
      let written_rows = (update id p.version values w.session).1.db.products in
      let found_row : find (has_id row.id) written_rows ≡ some row =
        subst (λ (r : Product). find (has_id r.id) written_rows ≡ some r) (sym same)
          (subst (λ k. find (has_id k) written_rows ≡ some (assign values w.session.now old))
            (sym (find-id id w.session.db.products found)) after) in
      detail_shown c _ _ row (tidy ∙ stored) (rw kept.products found_row) (shown ∙ ap view loaded)

-- Why a single change of status is refused: no product, another version, or no such transition.
abbrev pub StatusChange : ProductStatus → ℕ → Option Product → Type 0
StatusChange target version none = ⊥
StatusChange target version (some p) =
    (p.version ≡ version) × (assert_transition p.status target ≡ ok tt)

module _ (c : Cache) (id version : ℕ) (target : ProductStatus) (w : World c)
    (tidy : IsClean w.session) (keyed : IsKeyed w.session.db.products) where
  may_change :
      Moves target ((id, version) ∷ []) w.session.db.products id
      → StatusChange target version (find (has_id id) w.session.db.products)
  unfolding versions_for
  may_change (apart e) = absurd (ground (arith, ==_refl id))
  may_change (moves row found e legal) = rw found (ground (arith, ==_refl id), legal)

  changes :
      {p : Product}
      → find (has_id id) w.session.db.products ≡ some p
      → p.version ≡ version
      → assert_transition p.status target ≡ ok tt
      → (j : ℕ) → Moves target ((id, version) ∷ []) w.session.db.products j
  unfolding versions_for
  changes {p} found v legal j = elim (Bool-cases (id == j)) [
    | inl same ↦ moves p (rw (← (==_iff id j).0 same) found) (rw (same, v)) legal
    | inr other ↦ apart (rw other)
  ]

  -- In a clean session with no id twice, a single change of status that may not be made is
  -- answered 409 `status_conflict`, whether the product is missing, at another version, or may not
  -- move; nothing is committed.
  pub update_status_refused :
      ¬ StatusChange target version (find (has_id id) w.session.db.products)
      → ((update_status c id version target w).0
          ≡ raise (app (app_error "status_conflict" "Product status operation conflicts" 409)))
        × ((update_status c id version target w).1.session.committed ≡ w.session.committed)
  update_status_refused bad = elim (Result-cases (status_batch c id version target w.session).0) [
    | inl (rows, h) ↦ absurd (
        bad (
          may_change (
            (batch_update_status-eq-ok_iff ((id, version) ∷ []) target w.session keyed).0 (rows, h)
              id)))
    | inr (e, h) ↦
        let (answer, kept, clean) = update_status-raise c id version target w tidy h in
        let same = (batch_update_status-raise ((id, version) ∷ []) target w.session h).1 in
        (
          answer ∙ (unfold repository_error in ap (λ x. raise (app (repository_error x))) same),
          kept,
        )
  ]

  -- In a clean session with no id twice, a change of status at the version of the product, to a
  -- status that it may move to, is committed, and its answer is the product as it is then.
  pub update_status_accepted :
      {p : Product}
      → find (has_id id) w.session.db.products ≡ some p
      → p.version ≡ version
      → assert_transition p.status target ≡ ok tt
      → let t = (update_status c id version target w).1.session in
        ((update_status c id version target w).0
          ≡ ok (view (load t.committed (set_status target w.session.now p))))
        × (find (has_id id) t.committed.products ≡ some (set_status target w.session.now p))
        × IsClean t
  update_status_accepted {p} found v legal =
      let refs = (id, version) ∷ [] in
      let (rows, h) =
        (batch_update_status-eq-ok_iff refs target w.session keyed).1 (changes found v legal) in
      let (committed, clean) = update_status-ok c id version target w h in
      let one : rows ≡ set_status target w.session.now p ∷ [] =
        batch_update_status-rows refs target w.session h
        ∙ ap (map (set_status target w.session.now))
            (select_one id version w.session.db.products keyed found) in
      let after = (batch_update_status-ok refs target w.session h).0 id in
      let now = w.session.now in
      let moved_row : find (has_id id) (batch_update_status refs target w.session).1.db.products
          ≡ some (set_status target now p) =
        after ∙ rw (found, ==_refl id) in
      let moved_row' : find (has_id p.id) (batch_update_status refs target w.session).1.db.products
          ≡ some (set_status target now p) =
        subst
          (λ k.
            find (has_id k) (batch_update_status refs target w.session).1.db.products
            ≡ some (set_status target now p))
          (sym (find-id id w.session.db.products found)) moved_row in
      (
        update_status_answer c id version target w (h ∙ ap ok one) moved_row'
            ∙ ap (λ (d : Database). ok (view (load d (set_status target now p)))) (sym committed),
        rw committed moved_row,
        clean,
      )
