-- ===== src/Seed/Adds.antt =====
-- What the two loops of `seed` of scripts/seed.py find and add.
use stockstack.Common.{
  ℕ, ◌≡◌, refl, sym, subst, ◌∙◌, Bool, true, Option, none, some, List, [], ◌∷◌, ◌++◌, map, find,
  or_else, ◌==◌, ◌&&◌, if◌then◌else◌, Option-cases, Bool-cases, inl, inr, arith,
}
use stockstack.Common.Exec.{ok}
use stockstack.Json.{Json}
use stockstack.Domain.{ProductType, physical, virtual, creative, type_eq}
use stockstack.Models.{Product, FieldSchema, insert_product, insert_image, insert_schema}
use stockstack.Repository.{Session, has_id, draw_id, schema_version_of}
use stockstack.Repository.Rows.{find-append}
use stockstack.Seed.Data.{Sample}
use stockstack.Seed.{product, field_schema, add_schema, add_product}

-- The content of a template.
abbrev pub content : Option FieldSchema → Option Json
content none = none
content (some s) = some s.schema

-- The template of a type and a version in a list that has version 1 of some types.
abbrev pub listed : ProductType → ℕ → List (ProductType × Json) → Option Json
listed t version [] = none
listed t version ((u, schema) ∷ rest) =
    if type_eq u t && 1 == version then some schema else listed t version rest

-- What a loop leaves alone, and what the tables show after it.
pub record Adds (schemas : List (ProductType × Json)) (xs : List Sample) (s t : Session)
    : Type 0 where
  pub committed : t.committed ≡ s.committed
  pub now : t.now ≡ s.now
  pub products :
      (id : ℕ)
      → find (has_id id) t.db.products
        ≡ or_else (find (has_id id) s.db.products) (find (has_id id) (map (product s.now) xs))
  pub templates :
      (u : ProductType) (version : ℕ)
      → content (schema_version_of u version t.db)
        ≡ or_else (content (schema_version_of u version s.db)) (listed u version schemas)

pub or_else-none : {A : Type 0} (o : Option A) → or_else o none ≡ o
or_else-none none = refl
or_else-none (some a) = refl

or_else_assoc : {A : Type 0} (o p q : Option A) → or_else (or_else o p) q ≡ or_else o (or_else p q)
or_else_assoc none p q = refl
or_else_assoc (some a) p q = refl

pub Adds-refl : (s : Session) → Adds [] [] s s
Adds-refl s = record {
  committed = refl;
  now = refl;
  products = λ id. sym (or_else-none _);
  templates = λ u version. sym (or_else-none _);
}

listed-append :
    (u : ProductType) (version : ℕ) (xs ys : List (ProductType × Json))
    → listed u version (xs ++ ys) ≡ or_else (listed u version xs) (listed u version ys)
listed-append u version [] ys = refl
listed-append u version ((t, schema) ∷ xs) ys = ground (arith, listed-append u version xs ys)

find-map-append :
    (id now : ℕ) (xs ys : List Sample)
    → find (has_id id) (map (product now) (xs ++ ys))
      ≡ or_else (find (has_id id) (map (product now) xs)) (find (has_id id) (map (product now) ys))
find-map-append id now [] ys = refl
find-map-append id now (x ∷ xs) ys = ground (arith, find-map-append id now xs ys)

pub Adds-trans :
    {a b : List (ProductType × Json)} {xs ys : List Sample} {s t u : Session}
    → Adds a xs s t
    → Adds b ys t u
    → Adds (a ++ b) (xs ++ ys) s u
Adds-trans {a} {b} {xs} {ys} {s} {t} {u} h k = record {
  committed = k.committed ∙ h.committed;
  now = k.now ∙ h.now;
  products = λ id. ground (
    arith,
    h.products id,
    k.products id,
    h.now,
    find-map-append id s.now xs ys,
    or_else_assoc (find (has_id id) s.db.products) (find (has_id id) (map (product s.now) xs))
        (find (has_id id) (map (product s.now) ys)),
  );
  templates = λ v version. ground (
    arith,
    h.templates v version,
    k.templates v version,
    listed-append v version a b,
    or_else_assoc (content (schema_version_of v version s.db)) (listed v version a)
        (listed v version b),
  );
}

type_eq→≡ : (t u : ProductType) → type_eq t u ≡ true → t ≡ u
type_eq→≡ physical physical h = refl
type_eq→≡ physical virtual h = cc
type_eq→≡ physical creative h = cc
type_eq→≡ virtual physical h = cc
type_eq→≡ virtual virtual h = refl
type_eq→≡ virtual creative h = cc
type_eq→≡ creative physical h = cc
type_eq→≡ creative virtual h = cc
type_eq→≡ creative creative h = refl

find_schema-append :
    (test : FieldSchema → Bool) (rows : List FieldSchema) (r : FieldSchema)
    → find test (rows ++ r ∷ []) ≡ or_else (find test rows) (if test r then some r else none)
find_schema-append test [] r = refl
find_schema-append test (q ∷ rows) r = ground (arith, find_schema-append test rows r)

module _ (uuid7 : ℕ → ℕ) where
  -- The row that is there already is the one that is listed.
  kept-product :
      (x : Sample) (s : Session) {p : Product}
      → find (has_id x.id) s.db.products ≡ some p
      → Adds [] (x ∷ []) s s
  kept-product x s {p} e = record {
    committed = refl;
    now = refl;
    products = λ id. elim (Bool-cases (x.id == id)) [
      | inl same ↦ ground arith
      | inr other ↦ ground (arith, or_else-none (find (has_id id) s.db.products))
    ];
    templates = λ u version. sym (or_else-none _);
  }

  pub add_product-Adds :
      (x : Sample) (s : Session)
      → (add_product uuid7 x (find (has_id x.id) s.db.products) s).0 ≡ ok tt
      → Adds [] (x ∷ []) s (add_product uuid7 x (find (has_id x.id) s.db.products) s).1
  unfolding draw_id insert_product insert_image schema_version_of
  add_product-Adds x s h = elim (Option-cases (find (has_id x.id) s.db.products)) [
    | inl none_yet ↦ record {
      committed = ground arith;
      now = ground arith;
      products = λ id. ground (
        arith,
        find-append id s.db.products (product s.now x),
        or_else-none (find (has_id id) s.db.products),
      );
      templates =
          λ u version. ground (arith, or_else-none (content (schema_version_of u version s.db)));
    }
    | inr (p, there) ↦
        subst (λ o. Adds [] (x ∷ []) s (add_product uuid7 x o s).1) (sym there)
          (kept-product x s there)
  ]

  kept-schema :
      (t : ProductType) (schema : Json) (s : Session) {r : FieldSchema}
      → schema_version_of t 1 s.db ≡ some r
      → Adds ((t, schema) ∷ []) [] s s
  kept-schema t schema s {r} e = record {
    committed = refl;
    now = refl;
    products = λ id. sym (or_else-none _);
    templates = λ u version. elim (Bool-cases (type_eq t u && 1 == version)) [
      | inl same ↦ ground (arith, type_eq→≡ t u)
      | inr other ↦ ground (arith, or_else-none (content (schema_version_of u version s.db)))
    ];
  }

  pub add_schema-Adds :
      (t : ProductType) (schema : Json) (s : Session)
      → (add_schema uuid7 t schema (schema_version_of t 1 s.db) s).0 ≡ ok tt
      → Adds ((t, schema) ∷ []) [] s (add_schema uuid7 t schema (schema_version_of t 1 s.db) s).1
  unfolding draw_id insert_schema schema_version_of
  add_schema-Adds t schema s h = elim (Option-cases (schema_version_of t 1 s.db)) [
    | inl none_yet ↦ record {
      committed = ground arith;
      now = ground arith;
      products = λ id. ground (arith, or_else-none (find (has_id id) s.db.products));
      templates = λ u version. ground (
        arith,
        find_schema-append (λ q. type_eq q.product_type u && q.version == version) s.db.schemas
            (field_schema (uuid7 s.draws) t schema),
        or_else-none (content (schema_version_of u version s.db)),
      );
    }
    | inr (r, there) ↦
        subst (λ o. Adds ((t, schema) ∷ []) [] s (add_schema uuid7 t schema o s).1) (sym there)
          (kept-schema t schema s there)
  ]
