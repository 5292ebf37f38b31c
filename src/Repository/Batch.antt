-- ===== src/Repository/Batch.antt =====
-- `batch_update_status`: every product of a batch moves to a status, or none does.
pub mod Effects
pub mod Failures
mod Tests
use stockstack.Common.{
  ℕ, ◌+◌, Bool, true, false, Option, none, some, List, [], ◌∷◌, map, filter, leb, ◌==◌, member, not,
  is_some, if◌then◌else◌,
}
use stockstack.Common.Exec.{Result, ok, raise}
use stockstack.Common.Dict.{Dict, lookup, insert, set_default, keys}
use stockstack.Domain.{ProductStatus, assert_transition}
use stockstack.Models.{Product, Database}
use stockstack.Repository.{Reason, RepositoryError, batch_update, Repo}

abbrev pub Refs : Type 0
Refs = List (ℕ × ℕ)

-- The loop over `materialized`, with `seen`.
unfoldable pub mark_duplicates : List ℕ → Dict Reason → Refs → Dict Reason
mark_duplicates seen failures [] = failures
mark_duplicates seen failures ((id, _) ∷ refs) =
    mark_duplicates (id ∷ seen)
      (if member id seen then insert id Reason.duplicate_product_id failures else failures) refs

-- `dict(materialized)`: a later version replaces an earlier one.
unfoldable pub dict_of : Dict ℕ → Refs → Dict ℕ
dict_of d [] = d
dict_of d ((id, version) ∷ refs) = dict_of (insert id version d) refs

-- `ORDER BY id`.
unfoldable pub insert_by_id : Product → List Product → List Product
insert_by_id p [] = p ∷ []
insert_by_id p (q ∷ rows) = if leb p.id q.id then p ∷ q ∷ rows else q ∷ insert_by_id p rows

unfoldable pub sort_by_id : List Product → List Product
unfolding insert_by_id
sort_by_id [] = []
sort_by_id (p ∷ rows) = insert_by_id p (sort_by_id rows)

unfoldable pub select_rows : Dict ℕ → List Product → List Product
unfolding sort_by_id
select_rows expected products = sort_by_id (filter (λ p. is_some (lookup p.id expected)) products)

-- The loop over `set(expected) - found`, in the order of `expected`.
unfoldable pub mark_missing : List ℕ → List ℕ → Dict Reason → Dict Reason
mark_missing found [] failures = failures
mark_missing found (id ∷ ids) failures =
    mark_missing found ids
      (if member id found then failures else set_default id Reason.not_found failures)

-- `version != expected[id]`; a row is selected only if its id is a key of `expected`.
abbrev pub version_differs : ℕ → Option ℕ → Bool
version_differs version none = true
version_differs version (some v) = not (version == v)

unfoldable pub is_illegal : ProductStatus → ProductStatus → Bool
is_illegal source target = elim (assert_transition source target) [ ok _ ↦ false | raise _ ↦ true ]

-- The body of the loop over `rows`.
unfoldable pub mark_row : ProductStatus → Dict ℕ → Product → Dict Reason → Dict Reason
unfolding is_illegal
mark_row target expected row failures =
    if is_some (lookup row.id failures)
    then failures
    else if version_differs row.version (lookup row.id expected)
    then insert row.id Reason.version_conflict failures
    else if is_illegal row.status target
    then insert row.id Reason.illegal_transition failures
    else failures

unfoldable pub mark_rows : ProductStatus → Dict ℕ → List Product → Dict Reason → Dict Reason
unfolding mark_row
mark_rows target expected [] failures = failures
mark_rows target expected (row ∷ rows) failures =
    mark_rows target expected rows (mark_row target expected row failures)

-- The failures of the three loops together.
unfoldable pub batch_failures : ProductStatus → Refs → List Product → Dict Reason
unfolding mark_duplicates dict_of select_rows mark_missing mark_rows
batch_failures target refs products =
    let expected = dict_of [] refs in
    let rows = select_rows expected products in
    mark_rows target expected rows
      (mark_missing (map (λ p. p.id) rows) (keys expected) (mark_duplicates [] [] refs))

-- `row.status = target; row.version += 1`, and the column that `onupdate` sets.
abbrev pub set_status : ProductStatus → ℕ → Product → Product
set_status target now p = record p { status = target; version = p.version + 1; updated_at = now }

unfoldable pub batch_update_status : Refs → ProductStatus → Repo (List Product)
unfolding batch_failures
batch_update_status refs target s =
    let rows = select_rows (dict_of [] refs) s.db.products in
    elim (batch_failures target refs s.db.products) [
      | [] ↦ (
        ok (map (set_status target s.now) rows),
        record s {
          db = record s.db {
            products =
                map
                  (λ p. if member p.id (map (λ r. r.id) rows) then set_status target s.now p else p)
                  s.db.products;
          };
        },
      )
      | f ∷ failures ↦ (raise (batch_update (f ∷ failures)), s)
    ]
