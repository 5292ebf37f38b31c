-- ===== src/Repository/Batch/Effects.antt =====
-- What `batch_update_status` does to the rows: all of a batch moves, or nothing does.
use stockstack.Common.{
  ℕ, ◌≡◌, ◌≢◌, ◌↔◌, ◌⊎◌, inl, inr, refl, ap, subst, sym, ◌∙◌, Bool, true, false, ◌||◌, Option, none,
  some, List, [], ◌∷◌, map, filter, find, ◌==◌, member, is_some, if◌then◌else◌, Bool-cases, ==_iff,
  arith,
}
use stockstack.Common.Dict.{Dict, lookup, insert, lookup-insert}
use stockstack.Common.Exec.{Result, ok, raise}
use stockstack.Domain.{ProductStatus, IllegalProductStatusTransition, assert_transition}
use stockstack.Models.{Product}
use stockstack.Repository.{Reason, RepositoryError, batch_update, has_id, Session}
use stockstack.Repository.Rows.{IsKeyed, IsKeyed-map, map_option, find-id, find-map, member-ids}
use stockstack.Repository.Batch.{
  Refs, dict_of, select_rows, is_illegal, batch_failures, set_status, batch_update_status,
}
use stockstack.Repository.Batch.Failures.{
  versions_for, expected_reason, lookup-batch_failures, find-select_rows,
}

pub nil_of_lookup : (d : Dict Reason) → ((id : ℕ) → lookup id d ≡ none) → d ≡ []
unfolding lookup
nil_of_lookup [] h = refl
nil_of_lookup ((k, v) ∷ d) h = absurd (ground (arith, h k))

-- An id raises no objection exactly when the batch leaves it alone, or gives it once, at its row's
-- version, and its row may move.
pub data Moves (target : ProductStatus) (refs : Refs) (products : List Product) (id : ℕ)
    : Type 0 where
  apart : versions_for id refs ≡ [] → Moves target refs products id
  moves :
      (row : Product)
      → find (has_id id) products ≡ some row
      → versions_for id refs ≡ row.version ∷ []
      → assert_transition row.status target ≡ ok tt
      → Moves target refs products id

accepted_of_legal :
    (r : Result IllegalProductStatusTransition (Unit {0}))
    → ◌≡◌ {A = Bool} (elim r [ ok _ ↦ false | raise _ ↦ true ]) false
    → r ≡ ok tt
accepted_of_legal (ok u) h = refl
accepted_of_legal (raise e) h = cc

Moves-reason :
    (target : ProductStatus) (refs : Refs) (products : List Product) (id : ℕ) (vs : List ℕ)
    (row : Option Product)
    → versions_for id refs ≡ vs
    → find (has_id id) products ≡ row
    → expected_reason target vs row ≡ none
    → Moves target refs products id
unfolding expected_reason is_illegal
Moves-reason target refs products id [] row e f h = apart e
Moves-reason target refs products id (v ∷ []) none e f h = cc
Moves-reason target refs products id (v ∷ []) (some row) e f h =
    moves row f (ground arith)
      (accepted_of_legal (assert_transition row.status target) (ground arith))
Moves-reason target refs products id (v ∷ w ∷ vs) row e f h = cc

pub reason_of_Moves :
    (target : ProductStatus) (refs : Refs) (products : List Product) (id : ℕ)
    → Moves target refs products id
    → expected_reason target (versions_for id refs) (find (has_id id) products) ≡ none
unfolding expected_reason is_illegal
reason_of_Moves target refs products id (apart e) = rw e
reason_of_Moves target refs products id (moves row f e t) = rw (e, f) (ground arith)

pub Dict-cases :
    (d : Dict Reason) → (d ≡ []) ⊎ ((e : ℕ × Reason) × (rest : Dict Reason) × (d ≡ e ∷ rest))
Dict-cases [] = inl refl
Dict-cases (e ∷ rest) = inr (e, rest, refl)

module _ (refs : Refs) (target : ProductStatus) (s : Session) where
  failures : Dict Reason
  failures = batch_failures target refs s.db.products

  nil_of_ok :
      {rows : List Product} → (batch_update_status refs target s).0 ≡ ok rows → failures ≡ []
  unfolding batch_update_status failures
  nil_of_ok h = elim (Dict-cases (batch_failures target refs s.db.products)) [
    | inl e ↦ e
    | inr (e, rest, p) ↦ absurd (ground arith)
  ]

  ok_of_nil :
      failures ≡ [] → (rows : List Product) × ((batch_update_status refs target s).0 ≡ ok rows)
  unfolding batch_update_status failures
  ok_of_nil e = (
    map (set_status target s.now) (select_rows (dict_of [] refs) s.db.products),
    rw (e, batch_update_status),
  )

-- If no two rows have one id, a batch succeeds exactly when no id raises an objection: each is
-- either not in the batch, or once, with the version that its row has, and its row may move to the
-- target.
pub batch_update_status-eq-ok_iff :
    (refs : Refs) (target : ProductStatus) (s : Session)
    → IsKeyed s.db.products
    → ((rows : List Product) × ((batch_update_status refs target s).0 ≡ ok rows))
      ↔ ((id : ℕ) → Moves target refs s.db.products id)
unfolding failures
batch_update_status-eq-ok_iff refs target s keyed = (
  λ (rows, h) id. Moves-reason target refs s.db.products id _ _ refl refl (
      sym (lookup-batch_failures target refs s.db.products id keyed)
      ∙ (unfold lookup in ap (lookup id) (nil_of_ok refs target s h))),
  λ m. ok_of_nil refs target s (
      nil_of_lookup _ λ id.
        lookup-batch_failures target refs s.db.products id keyed
        ∙ reason_of_Moves target refs s.db.products id (m id)),
)

pub batch_update_status-raise :
    (refs : Refs) (target : ProductStatus) (s : Session) {e : RepositoryError}
    → (batch_update_status refs target s).0 ≡ raise e
    → ((batch_update_status refs target s).1 ≡ s)
      × (e ≡ batch_update (batch_failures target refs s.db.products))
      × (batch_failures target refs s.db.products ≢ [])
unfolding batch_update_status
batch_update_status-raise refs target s h =
    elim (Dict-cases (batch_failures target refs s.db.products)) [
      | inl e ↦ absurd (ground arith)
      | inr (e, rest, p) ↦ rw (p, batch_update_status) (refl, ground arith, λ q. cc)
    ]

-- What a row becomes when the batch goes through.
abbrev pub moved : ProductStatus → ℕ → Refs → ℕ → Option Product → Option Product
moved target now refs id none = none
moved target now refs id (some row) =
    some (if member id (map (λ r. r.0) refs) then set_status target now row else row)

is_some-dict_of :
    (id : ℕ) (d : Dict ℕ) (refs : Refs)
    → is_some (lookup id (dict_of d refs))
      ≡ (is_some (lookup id d) || member id (map (λ r. r.0) refs))
unfolding dict_of
is_some-dict_of id d [] = ground arith
is_some-dict_of id d ((j, v) ∷ refs) =
    ground (arith, is_some-dict_of id (insert j v d) refs, lookup-insert j id v d)

module _ (refs : Refs) (target : ProductStatus) (s : Session) where
  abbrev selected : List Product
  selected = select_rows (dict_of [] refs) s.db.products

  step_row : Product → Product
  step_row p = if member p.id (map (λ r. r.id) selected) then set_status target s.now p else p

  step_row-id : (p : Product) → (step_row p).id ≡ p.id
  unfolding step_row
  step_row-id p = ground arith

  moved_row :
      (id : ℕ) (row : Option Product)
      → find (has_id id) s.db.products ≡ row
      → map_option step_row row ≡ moved target s.now refs id row
  unfolding step_row lookup
  moved_row id none f = refl
  moved_row id (some row) f =
      rw
        (
          find-id id s.db.products f,
          member-ids id selected,
          find-select_rows id (dict_of [] refs) s.db.products,
          f,
        )
        (ground (arith, is_some-dict_of id [] refs))

pub batch_update_status-ok :
    (refs : Refs) (target : ProductStatus) (s : Session) {rows : List Product}
    → (batch_update_status refs target s).0 ≡ ok rows
    → ((id : ℕ)
        → find (has_id id) (batch_update_status refs target s).1.db.products
          ≡ moved target s.now refs id (find (has_id id) s.db.products))
      × ((batch_update_status refs target s).1.db.images ≡ s.db.images)
      × ((batch_update_status refs target s).1.db.schemas ≡ s.db.schemas)
      × ((batch_update_status refs target s).1.committed ≡ s.committed)
unfolding batch_update_status step_row failures
batch_update_status-ok refs target s h =
    rw (nil_of_ok refs target s h, batch_update_status)
      (
        λ id.
            find-map id (step_row refs target s) s.db.products (step_row-id refs target s)
            ∙ moved_row refs target s id _ refl,
        refl,
        refl,
        refl,
      )

pub batch_update_status-IsKeyed :
    (refs : Refs) (target : ProductStatus) (s : Session) {rows : List Product}
    → IsKeyed s.db.products
    → (batch_update_status refs target s).0 ≡ ok rows
    → IsKeyed (batch_update_status refs target s).1.db.products
unfolding batch_update_status step_row failures
batch_update_status-IsKeyed refs target s keyed h =
    rw (nil_of_ok refs target s h, batch_update_status)
      (IsKeyed-map (step_row refs target s) s.db.products (step_row-id refs target s) keyed)

pub batch_update_status-rows :
    (refs : Refs) (target : ProductStatus) (s : Session) {rows : List Product}
    → (batch_update_status refs target s).0 ≡ ok rows
    → rows ≡ map (set_status target s.now) (select_rows (dict_of [] refs) s.db.products)
unfolding batch_update_status failures
batch_update_status-rows refs target s h = let e = nil_of_ok refs target s h in ground (arith, e)

-- A batch of one selects the row of its id.
module _ (id version : ℕ) where
  filter_absent :
      (rows : List Product)
      → find (has_id id) rows ≡ none
      → filter (λ p. is_some (lookup p.id ((id, version) ∷ []))) rows ≡ []
  unfolding lookup
  filter_absent [] h = refl
  filter_absent (q ∷ rows) h = ground (arith, filter_absent rows)

  filter_found :
      (rows : List Product) {p : Product}
      → IsKeyed rows
      → find (has_id id) rows ≡ some p
      → filter (λ p. is_some (lookup p.id ((id, version) ∷ []))) rows ≡ p ∷ []
  unfolding lookup
  filter_found [] keyed h = absurd (ground arith)
  filter_found (q ∷ rows) {p} keyed h = elim (Bool-cases (q.id == id)) [
    | inl same ↦
        let absent : find (has_id id) rows ≡ none =
          subst (λ k. find (has_id k) rows ≡ none) ((==_iff q.id id).0 same) keyed.0 in
        ground (arith, filter_absent rows)
    | inr other ↦ ground (arith, filter_found rows {p = p} keyed.1)
  ]

  pub select_one :
      (rows : List Product) {p : Product}
      → IsKeyed rows
      → find (has_id id) rows ≡ some p
      → select_rows (dict_of [] ((id, version) ∷ [])) rows ≡ p ∷ []
  unfolding select_rows dict_of insert
  select_one rows keyed h = rw (filter_found rows keyed h)
