-- ===== src/Repository/Search/Pages.antt =====
-- The pages of a list, put together.
use stockstack.Common.{
  ℕ, zero, suc, ◌+◌, ◌-◌, ◌*◌, ◌≤◌, ◌≡◌, refl, ap, sym, ◌∙◌, true, false, Option, List, [], ◌∷◌,
  ◌++◌, map, filter, take, drop, length, take-all, All, length-take, length-map, Bool-cases, inl,
  inr, arith,
}
use mathlib.Core.List.Perm
use mathlib.Core.List.{Perm}
use native.Mathlib.Nat.{zero-add, suc-add, zero-mul}
use mathlib.Core.List.{map-append}
use stockstack.Common.Exec.{Result, ok, raise}
use stockstack.Common.Text.{Text}
use stockstack.Domain.{ProductType, ProductStatus}
use stockstack.Models.{Product}
use stockstack.Repository.{RepositoryError, ProductModel, Session, load}
use stockstack.Repository.Search.{
  newer, insert_newest, newest_first, is_listed, listing, list_products,
}

-- In the order of the list: no row is newer than one that stands before it.
abbrev pub IsNewestFirst : List Product → Type 0
IsNewestFirst [] = Unit
IsNewestFirst (p ∷ rows) = All (λ q. newer q p ≡ false) rows × IsNewestFirst rows

newer_trans : (p q r : Product) → newer p q ≡ true → newer r q ≡ false → newer r p ≡ false
newer_trans p q r h k = ground arith

newer_asym : (p q : Product) → newer p q ≡ true → newer q p ≡ false
newer_asym p q h = ground arith

newer_trans_false : (p q r : Product) → newer q p ≡ false → newer r q ≡ false → newer r p ≡ false
newer_trans_false p q r h k = ground arith

module _ (p : Product) where
  All-insert_newest :
      (q : Product) (rows : List Product)
      → newer p q ≡ false
      → All (λ r. newer r q ≡ false) rows
      → All (λ r. newer r q ≡ false) (insert_newest p rows)
  unfolding insert_newest
  All-insert_newest q [] h a = (h, tt)
  All-insert_newest q (r ∷ rows) h a = ground (arith, All-insert_newest q rows h)

suc-sub-one : (n : ℕ) → suc n - 1 ≡ n
suc-sub-one n = omega arith

suc-mul : (n size : ℕ) → suc n * size ≡ n * size + size
suc-mul n size = omega arith

take-nil {ℓ} : {A : Type ℓ} (n : ℕ) → take {A = A} n [] ≡ []
take-nil zero = refl
take-nil (suc n) = refl

take-add {ℓ} :
    {A : Type ℓ} (m n : ℕ) (xs : List A) → take (m + n) xs ≡ take m xs ++ take n (drop m xs)
take-add zero n xs = rw zero-add
take-add (suc m) n [] = rw (suc-add, take-nil n)
take-add (suc m) n (x ∷ xs) = rw suc-add (ap (◌∷◌ x) (take-add m n xs))

insert_newest-perm : (p : Product) (rows : List Product) → Perm (insert_newest p rows) (p ∷ rows)
unfolding insert_newest
insert_newest-perm p [] = Perm.refl _
insert_newest-perm p (q ∷ rows) = elim (Bool-cases (newer q p)) [
  | inl before ↦ rw before (Perm.trans (Perm.cons q (insert_newest-perm p rows)) (Perm.swap _ _ _))
  | inr after ↦ rw after (Perm.refl _)
]

All-newer_trans :
    (p q : Product) (rows : List Product)
    → newer p q ≡ false
    → All (λ r. newer r p ≡ false) rows
    → All (λ r. newer r q ≡ false) rows
All-newer_trans p q [] h a = tt
All-newer_trans p q (r ∷ rows) h a = (newer_trans_false q p r h a.0, All-newer_trans p q rows h a.1)

insert_newest-IsNewestFirst :
    (p : Product) (rows : List Product) → IsNewestFirst rows → IsNewestFirst (insert_newest p rows)
unfolding insert_newest
insert_newest-IsNewestFirst p [] h = (tt, tt)
insert_newest-IsNewestFirst p (q ∷ rows) h = elim (Bool-cases (newer q p)) [
  | inl before ↦ rw before (
    All-insert_newest p q rows (newer_asym q p before) h.0,
    insert_newest-IsNewestFirst p rows h.1,
  )
  | inr after ↦ rw after ((after, All-newer_trans q p rows after h.0), h)
]

pub newest_first-IsNewestFirst : (rows : List Product) → IsNewestFirst (newest_first rows)
unfolding newest_first
newest_first-IsNewestFirst [] = tt
newest_first-IsNewestFirst (p ∷ rows) =
    insert_newest-IsNewestFirst p (newest_first rows) (newest_first-IsNewestFirst rows)

pub newest_first-perm : (rows : List Product) → Perm (newest_first rows) rows
unfolding newest_first
newest_first-perm [] = Perm.refl _
newest_first-perm (p ∷ rows) =
    Perm.trans (insert_newest-perm p (newest_first rows)) (Perm.cons p (newest_first-perm rows))

length-insert_newest :
    (p : Product) (rows : List Product) → length (insert_newest p rows) ≡ suc (length rows)
unfolding insert_newest
length-insert_newest p [] = refl
length-insert_newest p (q ∷ rows) = ground (arith, length-insert_newest p rows)

length-newest_first : (rows : List Product) → length (newest_first rows) ≡ length rows
unfolding newest_first
length-newest_first [] = refl
length-newest_first (p ∷ rows) =
    ground (arith, length-insert_newest p (newest_first rows), length-newest_first rows)

abbrev pub items_of : Result RepositoryError (List ProductModel × ℕ) → List ProductModel
items_of (ok (items, total)) = items
items_of (raise e) = []

abbrev pub total_of : Result RepositoryError (List ProductModel × ℕ) → ℕ
total_of (ok (items, total)) = total
total_of (raise e) = 0

module _ (lower : Text → Text) (query : Option Text) (product_type : Option ProductType)
    (status : Option ProductStatus) (s : Session) where
  abbrev pub rows : List Product
  rows = listing lower query product_type status s.db.products

  -- The items of the first `n` pages, one after the other.
  abbrev pub pages : ℕ → ℕ → List ProductModel
  pages zero size = []
  pages (suc n) size =
      pages n size ++ items_of (list_products lower query product_type status (suc n) size s).0

  pages-take : (n size : ℕ) → pages n size ≡ map (load s.db) (take (n * size) rows)
  unfolding list_products
  pages-take zero size = rw zero-mul
  pages-take (suc n) size = rw (
    pages-take n size,
    suc-sub-one n,
    ← map-append,
    ← take-add (n * size) size rows,
    suc-mul n size,
  )

  -- If there are pages enough for the total, the pages together are the rows that the filters let
  -- through, each as often as it is in the table, newest first; and the total is their number.
  pub pages_complete :
      (n size : ℕ)
      → total_of (list_products lower query product_type status n size s).0 ≤ n * size
      → (pages n size ≡ map (load s.db) rows)
        × (total_of (list_products lower query product_type status n size s).0 ≡ length rows)
        × IsNewestFirst rows
        × Perm rows (filter (is_listed lower query product_type status) s.db.products)
  unfolding list_products listing
  pages_complete n size h =
      let found = filter (is_listed lower query product_type status) s.db.products in
      (
        pages-take n size
            ∙ ap (map (load s.db)) (
                take-all (newest_first found) (n * size)
                  (omega (arith, length-newest_first found))),
        sym (length-newest_first found),
        newest_first-IsNewestFirst found,
        newest_first-perm found,
      )

  -- A page holds no more items than its size.
  pub length-page :
      (page size : ℕ)
      → length (items_of (list_products lower query product_type status page size s).0) ≤ size
  unfolding list_products
  length-page page size =
      let start = drop ((page - 1) * size) rows in
      omega (arith, length-map (load s.db) (take size start), length-take size start)
