-- ===== src/Repository/Locking.antt =====
-- Optimistic locking by the version of a row: what `update` writes and when it refuses.
use stockstack.Common.{
  ℕ, ◌≡◌, refl, subst, ==_iff, false, Option, none, some, List, [], ◌∷◌, find, any, ◌==◌, ◌&&◌,
  is_some, if◌then◌else◌, Bool-cases, Option-cases, inl, inr, arith,
}
use stockstack.Common.Exec.{Result, ok, raise}
use stockstack.Models.{Product, check_product}
use stockstack.Repository.{
  RepositoryError, integrity_error, Session, has_id, ProductValues, assign, at_version, update,
}
use stockstack.Repository.Rows.{IsKeyed, IsKeyed-map, find-id, find-map}

-- The row, if it has the version.
abbrev pub versioned : ℕ → Option Product → Option Product
versioned version none = none
versioned version (some p) = if p.version == version then some p else none

find-at_version-none :
    (id version : ℕ) (rows : List Product)
    → find (has_id id) rows ≡ none
    → find (at_version id version) rows ≡ none
find-at_version-none id version [] h = refl
find-at_version-none id version (p ∷ rows) h = ground (arith, find-at_version-none id version rows)

find-at_version :
    (id version : ℕ) (rows : List Product)
    → IsKeyed rows
    → find (at_version id version) rows ≡ versioned version (find (has_id id) rows)
find-at_version id version [] keyed = refl
find-at_version id version (p ∷ rows) keyed = elim (Bool-cases (p.id == id)) [
  | inl same ↦
      let absent : find (has_id id) rows ≡ none =
        subst (λ k. find (has_id k) rows ≡ none) ((==_iff p.id id).0 same) keyed.0 in
      ground (arith, find-at_version-none id version rows)
  | inr other ↦ ground (arith, find-at_version id version rows)
]

any-has_id : (id : ℕ) (rows : List Product) → any (has_id id) rows ≡ is_some (find (has_id id) rows)
any-has_id id [] = refl
any-has_id id (p ∷ rows) = ground (arith, any-has_id id rows)

-- What `update` answers for the row that has the id.
pub expected_update : ℕ → ProductValues → ℕ → Option Product → Result RepositoryError Product
expected_update expected v now none = raise RepositoryError.not_found
expected_update expected v now (some p) =
    if p.version == expected
    then if check_product (assign v now p) then ok (assign v now p) else raise integrity_error
    else raise RepositoryError.version_conflict

-- The row of `j` after `update` of `id`.
abbrev pub after_update : ℕ → ℕ → ProductValues → ℕ → ℕ → Option Product → Option Product
after_update id expected v now j none = none
after_update id expected v now j (some p) = some (
    if (j == id && p.version == expected) && check_product (assign v now p)
    then assign v now p
    else p)

-- Writing keeps the tables that `update` does not name.
pub update-rest :
    (id expected : ℕ) (v : ProductValues) (s : Session)
    → ((update id expected v s).1.db.images ≡ s.db.images)
      × ((update id expected v s).1.db.schemas ≡ s.db.schemas)
      × ((update id expected v s).1.committed ≡ s.committed)
unfolding update
update-rest id expected v s = ground arith

module _ (id expected : ℕ) (v : ProductValues) (s : Session) (keyed : IsKeyed s.db.products) where
  -- If no two rows have one id, `update` answers the row with the values and the next version, if
  -- its row has the version expected and the new one meets the constraints; otherwise an integrity
  -- error, a version conflict, or not found if there is no row.
  pub update-result :
      (update id expected v s).0 ≡ expected_update expected v s.now (find (has_id id) s.db.products)
  unfolding update expected_update
  update-result =
      ground (arith, find-at_version id expected s.db.products keyed, any-has_id id s.db.products)

  write : Product → Product
  write p = if at_version id expected p then assign v s.now p else p

  write-id : (p : Product) → (write p).id ≡ p.id
  unfolding write
  write-id p = ground arith

  -- If no two rows have one id, `update` changes the row with its id alone, and that one only if
  -- it has the version expected and the new row meets the constraints.
  pub update-rows :
      (j : ℕ)
      → find (has_id j) (update id expected v s).1.db.products
        ≡ after_update id expected v s.now j (find (has_id j) s.db.products)
  unfolding update write
  update-rows j = elim (Option-cases (find (has_id j) s.db.products)) [
    | inl absent ↦ ground (
      arith,
      find-at_version id expected s.db.products keyed,
      find-map j write s.db.products write-id,
    )
    | inr (p, found) ↦ elim (Bool-cases (j == id)) [
      | inl same ↦
          let found' : find (has_id id) s.db.products ≡ some p =
            subst (λ k. find (has_id k) s.db.products ≡ some p) ((==_iff j id).0 same) found in
          ground (
            arith,
            found',
            find-id j s.db.products found,
            find-at_version id expected s.db.products keyed,
            find-map j write s.db.products write-id,
          )
      | inr other ↦ ground (
        arith,
        find-id j s.db.products found,
        find-at_version id expected s.db.products keyed,
        find-map j write s.db.products write-id,
      )
    ]
  ]

  pub update-IsKeyed : IsKeyed (update id expected v s).1.db.products
  unfolding update write
  update-IsKeyed = ground (arith, keyed, IsKeyed-map write s.db.products write-id keyed)

  -- A row at another version is refused, and nothing changes.
  update_conflict :
      (p : Product)
      → find (has_id id) s.db.products ≡ some p
      → (p.version == expected) ≡ false
      → update id expected v s ≡ (raise RepositoryError.version_conflict, s)
  unfolding update
  update_conflict p found differs =
      ground (arith, find-at_version id expected s.db.products keyed, any-has_id id s.db.products)

  -- An update that goes through found the row at the version that was expected.
  pub update-ok :
      {q : Product}
      → (update id expected v s).0 ≡ ok q
      → (p : Product) × (find (has_id id) s.db.products ≡ some p)
        × (p.version ≡ expected)
        × (q ≡ assign v s.now p)
        × (find (has_id id) (update id expected v s).1.db.products ≡ some (assign v s.now p))
  unfolding expected_update
  update-ok {q} h = elim (Option-cases (find (has_id id) s.db.products)) [
    | inl absent ↦ absurd (ground (arith, update-result))
    | inr (p, found) ↦ (
      p,
      found,
      ground (arith, update-result),
      ground (arith, update-result),
      ground (arith, update-result, update-rows id),
    )
  ]

-- If no two rows have one id, then of two updates that expect one version only the first can go
-- through: once one has, the other is refused with a version conflict, and changes nothing.
pub update-update :
    (id expected : ℕ) (v w : ProductValues) (s : Session) {p : Product}
    → IsKeyed s.db.products
    → (update id expected v s).0 ≡ ok p
    → update id expected w (update id expected v s).1
      ≡ (raise RepositoryError.version_conflict, (update id expected v s).1)
update-update id expected v w s keyed h =
    let (q, found, version, same, written) = update-ok id expected v s keyed h in
    update_conflict id expected w (update id expected v s).1 (update-IsKeyed id expected v s keyed)
      (assign v s.now q) written (ground arith)
