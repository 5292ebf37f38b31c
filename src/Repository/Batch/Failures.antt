-- ===== src/Repository/Batch/Failures.antt =====
-- The three loops of `batch_update_status` against the reason that each id deserves.
use stockstack.Common.{
  ℕ, ◌≡◌, refl, ap, ◌∙◌, subst, ==_iff, Bool, true, false, not, Option, none, some, List, [], ◌∷◌,
  map, filter, find, ◌==◌, ◌||◌, member, or_else, is_some, if◌then◌else◌, Bool-cases, inl, inr,
  arith,
}
use stockstack.Common.Dict.{
  Dict, lookup, insert, set_default, keys, lookup-insert, lookup-set_default, member-keys,
}
use stockstack.Domain.{ProductStatus}
use stockstack.Models.{Product}
use stockstack.Repository.{Reason, has_id}
use stockstack.Repository.Rows.{IsKeyed, find-filter, IsKeyed-filter, member-ids}
use stockstack.Repository.Batch.{
  Refs, mark_duplicates, dict_of, insert_by_id, sort_by_id, select_rows, mark_missing,
  version_differs, is_illegal, mark_row, mark_rows, batch_failures,
}

-- The versions that a batch gives for one id.
unfoldable pub versions_for : ℕ → Refs → List ℕ
versions_for id [] = []
versions_for id ((j, version) ∷ refs) =
    if j == id then version ∷ versions_for id refs else versions_for id refs

-- Why an id fails: it is given twice, no row has it, its row has another version, or its row may
-- not move to the target.
unfoldable pub expected_reason : ProductStatus → List ℕ → Option Product → Option Reason
unfolding is_illegal
expected_reason target [] row = none
expected_reason target (v ∷ []) none = some Reason.not_found
expected_reason target (v ∷ []) (some row) =
    if not (row.version == v)
    then some Reason.version_conflict
    else if is_illegal row.status target
    then some Reason.illegal_transition
    else none
expected_reason target (v ∷ w ∷ vs) row = some Reason.duplicate_product_id

-- An id with these versions is a duplicate, if it was `seen` before.
abbrev repeats : Bool → List ℕ → Bool
repeats seen [] = false
repeats true (v ∷ vs) = true
repeats false (v ∷ []) = false
repeats false (v ∷ w ∷ vs) = true

abbrev is_nonempty : List ℕ → Bool
is_nonempty [] = false
is_nonempty (v ∷ vs) = true

repeats-true : (vs : List ℕ) → repeats true vs ≡ is_nonempty vs
repeats-true [] = refl
repeats-true (v ∷ vs) = refl

repeats_cons : (b : Bool) (v : ℕ) (vs : List ℕ) → repeats b (v ∷ vs) ≡ (b || is_nonempty vs)
repeats_cons true v vs = refl
repeats_cons false v [] = refl
repeats_cons false v (w ∷ vs) = refl

lookup-mark_duplicates :
    (id : ℕ) (seen : List ℕ) (failures : Dict Reason) (refs : Refs)
    → lookup id (mark_duplicates seen failures refs) ≡ (
        if repeats (member id seen) (versions_for id refs)
        then some Reason.duplicate_product_id
        else lookup id failures)
unfolding mark_duplicates versions_for
lookup-mark_duplicates id seen failures [] = refl
lookup-mark_duplicates id seen failures ((j, v) ∷ refs) = ground (
  arith,
  repeats-true (versions_for id refs),
  repeats_cons (member id seen) v (versions_for id refs),
  lookup-mark_duplicates id (j ∷ seen)
      (if member j seen then insert j Reason.duplicate_product_id failures else failures) refs,
  lookup-insert j id Reason.duplicate_product_id failures,
)

unfoldable pub last_of : Option ℕ → List ℕ → Option ℕ
last_of o [] = o
last_of o (v ∷ vs) = last_of (some v) vs

pub lookup-dict_of :
    (id : ℕ) (d : Dict ℕ) (refs : Refs)
    → lookup id (dict_of d refs) ≡ last_of (lookup id d) (versions_for id refs)
unfolding dict_of versions_for last_of
lookup-dict_of id d [] = refl
lookup-dict_of id d ((j, v) ∷ refs) =
    ground (arith, lookup-dict_of id (insert j v d) refs, lookup-insert j id v d)

find-insert_by_id :
    (id : ℕ) (p : Product) (rows : List Product)
    → find (has_id id) (insert_by_id p rows) ≡ find (has_id id) (p ∷ rows)
unfolding insert_by_id
find-insert_by_id id p [] = refl
find-insert_by_id id p (q ∷ rows) = ground (arith, find-insert_by_id id p rows)

find-sort_by_id :
    (id : ℕ) (rows : List Product) → find (has_id id) (sort_by_id rows) ≡ find (has_id id) rows
unfolding sort_by_id
find-sort_by_id id [] = refl
find-sort_by_id id (p ∷ rows) =
    ground (arith, find-insert_by_id id p (sort_by_id rows), find-sort_by_id id rows)

IsKeyed-insert_by_id :
    (p : Product) (rows : List Product)
    → find (has_id p.id) rows ≡ none
    → IsKeyed rows
    → IsKeyed (insert_by_id p rows)
unfolding insert_by_id
IsKeyed-insert_by_id p [] fresh keyed = (refl, tt)
IsKeyed-insert_by_id p (q ∷ rows) fresh keyed =
    ground (arith, find-insert_by_id q.id p rows, IsKeyed-insert_by_id p rows)

IsKeyed-sort_by_id : (rows : List Product) → IsKeyed rows → IsKeyed (sort_by_id rows)
unfolding sort_by_id
IsKeyed-sort_by_id [] keyed = tt
IsKeyed-sort_by_id (p ∷ rows) keyed =
    IsKeyed-insert_by_id p (sort_by_id rows) (find-sort_by_id p.id rows ∙ keyed.0)
      (IsKeyed-sort_by_id rows keyed.1)

lookup-mark_missing :
    (id : ℕ) (found ids : List ℕ) (failures : Dict Reason)
    → lookup id (mark_missing found ids failures)
      ≡ or_else
          (lookup id failures)
          (if member id found then none else if member id ids then some Reason.not_found else none)
unfolding mark_missing
lookup-mark_missing id found [] failures = ground arith
lookup-mark_missing id found (j ∷ ids) failures = ground (
  arith,
  lookup-mark_missing id found ids
      (if member j found then failures else set_default j Reason.not_found failures),
  lookup-set_default j id Reason.not_found failures,
)

-- The verdict on the row of an id, against the version that was wanted.
abbrev verdict : ProductStatus → Option ℕ → Option Product → Option Reason
verdict target wanted none = none
verdict target wanted (some row) =
    if version_differs row.version wanted
    then some Reason.version_conflict
    else if is_illegal row.status target
    then some Reason.illegal_transition
    else none

lookup-mark_row :
    (target : ProductStatus) (expected : Dict ℕ) (id : ℕ) (row : Product) (failures : Dict Reason)
    → lookup id (mark_row target expected row failures)
      ≡ or_else
          (lookup id failures)
          (if row.id == id then verdict target (lookup row.id expected) (some row) else none)
unfolding mark_row
lookup-mark_row target expected id row failures = ground (
  arith,
  lookup-insert row.id id Reason.version_conflict failures,
  lookup-insert row.id id Reason.illegal_transition failures,
)

lookup-mark_rows :
    (target : ProductStatus) (expected : Dict ℕ) (id : ℕ) (rows : List Product)
    (failures : Dict Reason)
    → IsKeyed rows
    → lookup id (mark_rows target expected rows failures)
      ≡ or_else (lookup id failures) (verdict target (lookup id expected) (find (has_id id) rows))
unfolding mark_rows
lookup-mark_rows target expected id [] failures keyed = ground arith
lookup-mark_rows target expected id (row ∷ rows) failures keyed =
    let rest = mark_row target expected row failures in
    elim (Bool-cases (row.id == id)) [
      | inl same ↦
          let version : lookup row.id expected ≡ lookup id expected =
            ap (λ k. lookup k expected) ((==_iff row.id id).0 same) in
          let absent : find (has_id id) rows ≡ none =
            subst (λ k. find (has_id k) rows ≡ none) ((==_iff row.id id).0 same) keyed.0 in
          ground (
            arith,
            lookup-mark_rows target expected id rows rest keyed.1,
            lookup-mark_row target expected id row failures,
          )
      | inr other ↦ ground (
        arith,
        lookup-mark_rows target expected id rows rest keyed.1,
        lookup-mark_row target expected id row failures,
      )
    ]

pub find-select_rows :
    (id : ℕ) (expected : Dict ℕ) (products : List Product)
    → find (has_id id) (select_rows expected products)
      ≡ (if is_some (lookup id expected) then find (has_id id) products else none)
unfolding select_rows
find-select_rows id expected products =
    find-sort_by_id id (filter (λ p. is_some (lookup p.id expected)) products)
    ∙ find-filter id (λ k. is_some (lookup k expected)) products

-- What the loops find for an id with these versions and this row.
abbrev found_reason : ProductStatus → List ℕ → Option Product → Option Reason
found_reason target vs row =
    let listed = is_some (last_of none vs) in
    let selected = if listed then row else none in
    or_else
      (or_else (if repeats false vs then some Reason.duplicate_product_id else none)
        (if is_some selected then none else if listed then some Reason.not_found else none))
      (verdict target (last_of none vs) selected)

found_reason-eq-expected_reason :
    (target : ProductStatus) (vs : List ℕ) (row : Option Product)
    → found_reason target vs row ≡ expected_reason target vs row
unfolding expected_reason last_of
found_reason-eq-expected_reason target [] row = refl
found_reason-eq-expected_reason target (v ∷ []) none = refl
found_reason-eq-expected_reason target (v ∷ []) (some row) = ground arith
found_reason-eq-expected_reason target (v ∷ w ∷ vs) row = refl

-- If no two rows have one id, the three loops together find for every id exactly the reason that
-- the versions given for it and its row deserve, and none where they deserve none.
pub lookup-batch_failures :
    (target : ProductStatus) (refs : Refs) (products : List Product) (id : ℕ)
    → IsKeyed products
    → lookup id (batch_failures target refs products)
      ≡ expected_reason target (versions_for id refs) (find (has_id id) products)
unfolding batch_failures
lookup-batch_failures target refs products id keyed =
    let expected = dict_of [] refs in
    let rows = select_rows expected products in
    lookup-mark_rows target expected id rows
      (mark_missing (map (λ p. p.id) rows) (keys expected) (mark_duplicates [] [] refs))
      (IsKeyed-sort_by_id _ (IsKeyed-filter (λ k. is_some (lookup k expected)) products keyed))
    ∙ rw
        (
          lookup-mark_missing id (map (λ p. p.id) rows) (keys expected)
              (mark_duplicates [] [] refs),
          lookup-mark_duplicates id [] [] refs,
          member-ids id rows,
          member-keys id expected,
          find-select_rows id expected products,
          lookup-dict_of id [] refs,
        )
        (unfold lookup in found_reason-eq-expected_reason target (versions_for id refs) _)
