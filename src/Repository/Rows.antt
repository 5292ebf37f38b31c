-- ===== src/Repository/Rows.antt =====
-- Rows by their primary key.
use stockstack.Common.{
  ℕ, ◌≡◌, refl, Bool, false, Option, none, some, List, [], ◌∷◌, map, filter, find, member, is_some,
  if◌then◌else◌, or_else, any, ◌++◌, ◌==◌, arith,
}
use stockstack.Models.{Product}
use stockstack.Repository.{has_id}

-- No two rows have one id.
abbrev pub IsKeyed : List Product → Type 0
IsKeyed [] = Unit
IsKeyed (p ∷ products) = (find (has_id p.id) products ≡ none) × IsKeyed products

abbrev pub map_option : (Product → Product) → Option Product → Option Product
map_option f none = none
map_option f (some p) = some (f p)

pub find-id :
    (id : ℕ) (rows : List Product) {p : Product} → find (has_id id) rows ≡ some p → p.id ≡ id
find-id id [] h = absurd (ground arith)
find-id id (q ∷ rows) {p} h = ground (arith, find-id id rows {p = p})

-- A change of rows that keeps their ids.
pub find-map :
    (id : ℕ) (f : Product → Product) (rows : List Product)
    → ((p : Product) → (f p).id ≡ p.id)
    → find (has_id id) (map f rows) ≡ map_option f (find (has_id id) rows)
find-map id f [] h = refl
find-map id f (p ∷ rows) h = ground (arith, find-map id f rows h, h p)

pub IsKeyed-map :
    (f : Product → Product) (rows : List Product)
    → ((p : Product) → (f p).id ≡ p.id)
    → IsKeyed rows
    → IsKeyed (map f rows)
IsKeyed-map f [] h keyed = tt
IsKeyed-map f (p ∷ rows) h keyed =
    ground (arith, h p, find-map (f p).id f rows h, find-map p.id f rows h, IsKeyed-map f rows h)

-- A filter that looks only at ids.
pub find-filter :
    (id : ℕ) (test : ℕ → Bool) (rows : List Product)
    → find (has_id id) (filter (λ p. test p.id) rows)
      ≡ (if test id then find (has_id id) rows else none)
find-filter id test [] = ground arith
find-filter id test (p ∷ rows) = ground (arith, find-filter id test rows)

pub IsKeyed-filter :
    (test : ℕ → Bool) (rows : List Product) → IsKeyed rows → IsKeyed (filter (λ p. test p.id) rows)
IsKeyed-filter test [] keyed = tt
IsKeyed-filter test (p ∷ rows) keyed =
    ground (arith, find-filter p.id test rows, IsKeyed-filter test rows)

pub member-ids :
    (id : ℕ) (rows : List Product)
    → member id (map (λ p. p.id) rows) ≡ is_some (find (has_id id) rows)
member-ids id [] = refl
member-ids id (p ∷ rows) = ground (arith, member-ids id rows)

-- A new row at the end.
pub find-append :
    (id : ℕ) (rows : List Product) (p : Product)
    → find (has_id id) (rows ++ p ∷ [])
      ≡ or_else (find (has_id id) rows) (if p.id == id then some p else none)
find-append id [] p = ground arith
find-append id (q ∷ rows) p = ground (arith, find-append id rows p)

pub find_fresh :
    (id : ℕ) (rows : List Product)
    → any (λ q. id == q.id) rows ≡ false
    → find (has_id id) rows ≡ none
find_fresh id [] h = refl
find_fresh id (q ∷ rows) h = ground (arith, find_fresh id rows)

pub IsKeyed-append :
    (rows : List Product) (p : Product)
    → find (has_id p.id) rows ≡ none
    → IsKeyed rows
    → IsKeyed (rows ++ p ∷ [])
IsKeyed-append [] p fresh keyed = (refl, tt)
IsKeyed-append (q ∷ rows) p fresh keyed =
    ground (arith, find-append q.id rows p, IsKeyed-append rows p)
