-- ===== src/Service/History/Steps.antt =====
-- One write takes every row of the committed state one step, or leaves it.
use stockstack.Common.{
  ℕ, ◌≡◌, refl, subst, false, Option, none, some, List, [], ◌∷◌, map, find, ◌==◌, ◌&&◌, ◌++◌,
  member, Bool-cases, Option-cases, inl, inr, arith,
}
use stockstack.Common.Exec.{ok, Result-cases}
use stockstack.Common.Text.{Text}
use stockstack.Json.{Json, Fields}
use stockstack.Domain.{ProductStatus}
use stockstack.Models.{check_product, Product, Database}
use stockstack.Schemas.{ProductCreate, ProductUpdate, ProductBatchStatusUpdate}
use stockstack.FieldSchema.{FieldValidationError}
use stockstack.Repository.{ProductValues, has_id, Session, assign}
use stockstack.Repository.Rows.{IsKeyed, find-append, find_fresh, IsKeyed-append}
use stockstack.Repository.Writes.{create_with_images-ok, replace_images-ok}
use stockstack.Repository.Locking.{after_update, update-rows, update-IsKeyed}
use stockstack.Repository.Batch.{Refs, batch_update_status}
use stockstack.Repository.Batch.Failures.{versions_for}
use stockstack.Repository.Batch.Effects.{
  Moves, apart, moves, moved, batch_update_status-eq-ok_iff, batch_update_status-ok,
  batch_update_status-IsKeyed,
}
use stockstack.Service.{Cache, World}
use stockstack.Service.Actions.{create, update_product, values_of}
use stockstack.Service.Outcomes.{
  IsClean, create-raise, create-ok, update_product-raise, update_product-ok,
}
use stockstack.Service.Statuses.{
  update_status-raise, update_status-ok, batch_status-raise, batch_status-ok, status_batch, refs_of,
}
use stockstack.Service.History.{
  Write, creation, edit, status_change, batch_change, kept, edited, transferred, Evolves, Advances,
  perform,
}

Evolves-refl : (r : Option Product) → Evolves r r
Evolves-refl none = tt
Evolves-refl (some p) = kept refl

Advances-same :
    (s t : Session)
    → IsKeyed s.committed.products
    → (t.committed ≡ s.committed) × IsClean t
    → Advances s t
Advances-same s t keyed h = record {
  clean = h.1;
  keyed = rw h.0 keyed;
  evolves = λ id. rw h.0 (Evolves-refl _);
}

-- In a clean session the rows that are seen are the rows that are committed.
Evolves-from_db :
    (s : Session) (id : ℕ) (r : Option Product)
    → IsClean s
    → Evolves (find (has_id id) s.db.products) r
    → Evolves (find (has_id id) s.committed.products) r
Evolves-from_db s id r tidy h =
    subst (λ (d : Database). Evolves (find (has_id id) d.products) r) tidy h

not_listed :
    (id : ℕ) (refs : Refs) → versions_for id refs ≡ [] → member id (map (λ r. r.0) refs) ≡ false
unfolding versions_for
not_listed id [] h = refl
not_listed id ((j, v) ∷ refs) h = ground (arith, not_listed id refs)

Evolves-moved :
    (target : ProductStatus) (now : ℕ) (refs : Refs) (products : List Product) (id : ℕ)
    (row : Option Product)
    → find (has_id id) products ≡ row
    → Moves target refs products id
    → Evolves row (moved target now refs id row)
Evolves-moved target now refs products id none f m = tt
Evolves-moved target now refs products id (some p) f (apart e) = kept (rw (not_listed id refs e))
Evolves-moved target now refs products id (some p) f (moves row g v t) =
    let same : p ≡ row = cc in
    elim (Bool-cases (member id (map (λ r. r.0) refs))) [
      | inl listed ↦ transferred target now (rw same t) (rw listed)
      | inr other ↦ kept (rw other)
    ]

Evolves-batch :
    (refs : Refs) (target : ProductStatus) (s : Session) {rows : List Product}
    → IsKeyed s.db.products
    → (batch_update_status refs target s).0 ≡ ok rows
    → (id : ℕ)
    → Evolves
        (find (has_id id) s.db.products)
        (find (has_id id) (batch_update_status refs target s).1.db.products)
Evolves-batch refs target s {rows} keyed h id = rw ((batch_update_status-ok refs target s h).0 id) (
    Evolves-moved target s.now refs s.db.products id _ refl
      ((batch_update_status-eq-ok_iff refs target s keyed).0 (rows, h) id))

Evolves-updated :
    (id expected : ℕ) (v : ProductValues) (now j : ℕ) (row : Option Product)
    → Evolves row (after_update id expected v now j row)
Evolves-updated id expected v now j none = tt
Evolves-updated id expected v now j (some p) =
    elim (Bool-cases ((j == id && p.version == expected) && check_product (assign v now p))) [
      | inl written ↦ rw written (edited refl refl refl refl)
      | inr other ↦ kept (rw other)
    ]

Evolves-created :
    (id : ℕ) (row : Product) (rows : List Product)
    → row.version ≡ 1
    → find (has_id row.id) rows ≡ none
    → Evolves (find (has_id id) rows) (find (has_id id) (rows ++ row ∷ []))
Evolves-created id row rows first fresh =
    rw (find-append id rows row) (elim (Option-cases (find (has_id id) rows)) [
      | inr (p, found) ↦ rw found (kept refl)
      | inl absent ↦ elim (Bool-cases (row.id == id)) [
        | inl same ↦ rw (absent, same) first
        | inr other ↦ rw (absent, other) tt
      ]
    ])

module _ (c : Cache) (validate : Json → Fields → Option (List FieldValidationError))
    (clean : Text → Text) (uuid7 : ℕ → ℕ) where
  module _ (w : World c) (tidy : IsClean w.session)
      (keyed : IsKeyed w.session.committed.products) where
    Advances-creation :
        (p : ProductCreate)
        → Advances w.session (perform c validate clean uuid7 (creation p) w).session
    unfolding perform
    Advances-creation p = elim (Result-cases (create c validate clean uuid7 p w).0) [
      | inr (f, failed) ↦
          Advances-same _ _ keyed (create-raise c validate clean uuid7 p w tidy failed)
      | inl (v, answered) ↦
          let (m, made, shown, stored, tidy') = create-ok c validate clean uuid7 p w answered in
          let (loaded, added, fresh, checked, schemas, kept_committed) =
            create_with_images-ok uuid7 _ p.images w.session made in
          let absent = find_fresh _ w.session.db.products fresh in
          record {
            clean = tidy';
            keyed =
                rw (stored, added) (IsKeyed-append w.session.db.products _ absent (rw tidy keyed));
            evolves = λ id.
                Evolves-from_db w.session id _ tidy
                  (rw (stored, added) (Evolves-created id _ w.session.db.products refl absent));
          }
    ]

    Advances-edit :
        (id : ℕ) (p : ProductUpdate)
        → Advances w.session (perform c validate clean uuid7 (edit id p) w).session
    unfolding perform
    Advances-edit id p = elim (Result-cases (update_product c validate clean uuid7 id p w).0) [
      | inr (f, failed) ↦
          Advances-same _ _ keyed (update_product-raise c validate clean uuid7 id p w tidy failed)
      | inl (v, answered) ↦
          let (row, m, written, replaced, shown, stored, tidy') =
            update_product-ok c validate clean uuid7 id p w answered in
          let values = values_of (clean p.description_html) p in
          let rest = replace_images-ok uuid7 row p.images _ replaced in
          let keyed_db : IsKeyed w.session.db.products = rw tidy keyed in
          record {
            clean = tidy';
            keyed =
                rw (stored, rest.1.products)
                  (update-IsKeyed id p.version values w.session keyed_db);
            evolves = λ j. Evolves-from_db w.session j _ tidy (
                rw (stored, rest.1.products, update-rows id p.version values w.session keyed_db j)
                  (Evolves-updated id p.version values w.session.now j _));
          }
    ]

    Advances-batch :
        (refs : Refs) (target : ProductStatus) (t : Session) {rows : List Product}
        → (batch_update_status refs target w.session).0 ≡ ok rows
        → t.committed ≡ (batch_update_status refs target w.session).1.db
        → IsClean t
        → Advances w.session t
    Advances-batch refs target t h stored tidy' =
        let keyed_db : IsKeyed w.session.db.products = rw tidy keyed in
        record {
          clean = tidy';
          keyed = rw stored (batch_update_status-IsKeyed refs target w.session keyed_db h);
          evolves = λ j.
              Evolves-from_db w.session j _ tidy
                (rw stored (Evolves-batch refs target w.session keyed_db h j));
        }

    Advances-status_change :
        (id version : ℕ) (target : ProductStatus)
        → Advances w.session
            (perform c validate clean uuid7 (status_change id version target) w).session
    unfolding perform
    Advances-status_change id version target =
        elim (Result-cases (status_batch c id version target w.session).0) [
          | inr (f, failed) ↦
              let same = update_status-raise c id version target w tidy failed in
              Advances-same _ _ keyed (same.1, same.2)
          | inl (rows, answered) ↦
              let done = update_status-ok c id version target w answered in
              Advances-batch _ target _ answered done.0 done.1
        ]

    Advances-batch_change :
        (b : ProductBatchStatusUpdate)
        → Advances w.session (perform c validate clean uuid7 (batch_change b) w).session
    unfolding perform
    Advances-batch_change b =
        elim (Result-cases (batch_update_status (refs_of c b) b.target_status w.session).0) [
          | inr (f, failed) ↦
              let same = batch_status-raise c b w tidy failed in
              Advances-same _ _ keyed (same.1, same.2)
          | inl (rows, answered) ↦
              let done = batch_status-ok c b w answered in
              Advances-batch _ b.target_status _ answered done.0 done.1
        ]

    -- In a clean session with no id twice: after any write, whatever it answers, nothing is left
    -- uncommitted, no two products have one id, no product is gone, a new one has version 1, and a
    -- product that changed has the next version and either the status, type and template that it
    -- had or a status that the table of transitions allows.
    pub perform-Advances :
        (x : Write) → Advances w.session (perform c validate clean uuid7 x w).session
    perform-Advances (creation p) = Advances-creation p
    perform-Advances (edit id p) = Advances-edit id p
    perform-Advances (status_change id version target) = Advances-status_change id version target
    perform-Advances (batch_change b) = Advances-batch_change b
