-- ===== src/Seed/Listed.antt =====
-- The rows that a run of the script of scripts/seed.py added are there.
use stockstack.Common.{
  ℕ, ◌≡◌, refl, sym, ap, ◌∙◌, true, Option, none, some, List, [], ◌∷◌, map, find, All, is_some,
  or_else, arith,
}
use stockstack.Json.{Json}
use stockstack.Domain.{ProductType, physical, virtual, creative, type_eq}
use stockstack.Models.{FieldSchema, Database}
use stockstack.Repository.{Session, has_id, schema_version_of}
use stockstack.Seed.Data.{Sample}
use stockstack.Seed.{product}
use stockstack.Seed.Adds.{content, listed, Adds}

-- The templates and the products of a list that the database has.
abbrev pub HasSchema : Database → ProductType × Json → Type 0
HasSchema db x = is_some (schema_version_of x.0 1 db) ≡ true

abbrev pub HasProduct : Database → Sample → Type 0
HasProduct db x = is_some (find (has_id x.id) db.products) ≡ true

weaken : {A : Type 0} (P Q : A → Type 0) (xs : List A) → ((x : A) → P x → Q x) → All P xs → All Q xs
weaken P Q [] f h = tt
weaken P Q (x ∷ xs) f (p, rest) = (f x p, weaken P Q xs f rest)

type_eq_refl : (t : ProductType) → type_eq t t ≡ true
type_eq_refl physical = refl
type_eq_refl virtual = refl
type_eq_refl creative = refl

listed-All : (a : List (ProductType × Json)) → All (λ x. is_some (listed x.0 1 a) ≡ true) a
listed-All [] = tt
listed-All (x ∷ a) = (
  ground (arith, type_eq_refl x.0),
  weaken (λ y. is_some (listed y.0 1 a) ≡ true) (λ y. is_some (listed y.0 1 (x ∷ a)) ≡ true) a
      (λ y h. ground arith) (listed-All a),
)

find-All :
    (now : ℕ) (xs : List Sample)
    → All (λ x. is_some (find (has_id x.id) (map (product now) xs)) ≡ true) xs
find-All now [] = tt
find-All now (x ∷ xs) = (
  ground arith,
  weaken (λ y. is_some (find (has_id y.id) (map (product now) xs)) ≡ true)
      (λ y. is_some (find (has_id y.id) (map (product now) (x ∷ xs))) ≡ true) xs
      (λ y h. ground arith) (find-All now xs),
)

is_some-or_else : {A : Type 0} (o p : Option A) → is_some p ≡ true → is_some (or_else o p) ≡ true
is_some-or_else none p h = h
is_some-or_else (some a) p h = refl

is_some-content : (o : Option FieldSchema) → is_some (content o) ≡ is_some o
is_some-content none = refl
is_some-content (some r) = refl

-- What was added is there.
pub Adds-HasSchema :
    (a : List (ProductType × Json)) (xs : List Sample) (s t : Session)
    → Adds a xs s t
    → All (HasSchema t.db) a
Adds-HasSchema a xs s t h =
    weaken (λ x. is_some (listed x.0 1 a) ≡ true) (HasSchema t.db) a
      (λ x there.
        sym (is_some-content (schema_version_of x.0 1 t.db))
        ∙ ap is_some (h.templates x.0 1)
        ∙ is_some-or_else (content (schema_version_of x.0 1 s.db)) (listed x.0 1 a) there)
      (listed-All a)

pub Adds-HasProduct :
    (a : List (ProductType × Json)) (xs : List Sample) (s t : Session)
    → Adds a xs s t
    → All (HasProduct t.db) xs
Adds-HasProduct a xs s t h =
    weaken (λ x. is_some (find (has_id x.id) (map (product s.now) xs)) ≡ true) (HasProduct t.db) xs
      (λ x there.
        ap is_some (h.products x.id)
        ∙ is_some-or_else (find (has_id x.id) s.db.products)
            (find (has_id x.id) (map (product s.now) xs)) there)
      (find-All s.now xs)
