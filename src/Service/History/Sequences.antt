-- ===== src/Service/History/Sequences.antt =====
-- What any sequence of writes makes of a product.
use stockstack.Common.{ℕ, ◌≤◌, ◌≡◌, refl, ◌∙◌, Option, none, some, List, [], ◌∷◌, find, arith}
use stockstack.Common.Text.{Text}
use stockstack.Json.{Json, Fields}
use stockstack.Domain.{ProductStatus, penalized}
use stockstack.Domain.Transitions.{Transitions, here, next, Transitions-penalized}
use stockstack.Models.{Product}
use stockstack.FieldSchema.{FieldValidationError}
use stockstack.Repository.{has_id}
use stockstack.Repository.Rows.{IsKeyed}
use stockstack.Service.{Cache, World}
use stockstack.Service.Outcomes.{IsClean}
use stockstack.Service.History.{
  Write, Changes, kept, edited, transferred, Evolves, perform, perform_all,
}
use stockstack.Service.History.Steps.{perform-Advances}

-- A later state of a product: its version did not fall, an equal version is the same row, its
-- type and template are what they were, and its status came by accepted transitions.
pub record Follows (p q : Product) : Type 0 where
  pub version : p.version ≤ q.version
  pub same : q.version ≡ p.version → q ≡ p
  pub product_type : q.product_type ≡ p.product_type
  pub schema_version : q.schema_version ≡ p.schema_version
  pub path : Transitions p.status q.status

Follows-refl : (p : Product) → Follows p p
Follows-refl p = record {
  version = omega arith;
  same = λ e. refl;
  product_type = refl;
  schema_version = refl;
  path = here;
}

Transitions-trans : {s t u : ProductStatus} → Transitions s t → Transitions t u → Transitions s u
Transitions-trans h here = h
Transitions-trans h (next r step) = next (Transitions-trans h r) step

Follows-trans : {p q r : Product} → Follows p q → Follows q r → Follows p r
Follows-trans {p} {q} {r} h k = record {
  version = omega (arith, h.version, k.version);
  same = λ e.
      k.same (omega (arith, h.version, k.version)) ∙ h.same (omega (arith, h.version, k.version));
  product_type = k.product_type ∙ h.product_type;
  schema_version = k.schema_version ∙ h.schema_version;
  path = Transitions-trans h.path k.path;
}

Follows-Changes : (p q : Product) → Changes p q → Follows p q
Follows-Changes p q (kept e) = rw e (Follows-refl p)
Follows-Changes p q (edited v s t k) = record {
  version = omega arith;
  same = λ e. absurd (omega arith);
  product_type = t;
  schema_version = k;
  path = rw s here;
}
Follows-Changes p q (transferred target now legal e) = rw e (record {
  version = omega arith;
  same = λ e. absurd (omega arith);
  product_type = refl;
  schema_version = refl;
  path = next here legal;
})

Follows-Evolves :
    (p : Product) (r : Option Product)
    → Evolves (some p) r
    → (q : Product) × (r ≡ some q) × Follows p q
Follows-Evolves p none h = absurd h
Follows-Evolves p (some q) h = (q, refl, Follows-Changes p q h)

module _ (c : Cache) (validate : Json → Fields → Option (List FieldValidationError))
    (clean : Text → Text) (uuid7 : ℕ → ℕ) where
  -- In a clean session with no id twice: whatever the writes and their answers, a committed
  -- product is still there, its version did not fall, an equal version is the same row, its type
  -- and template are what they were, and its status came by accepted transitions.
  pub perform_all-Follows :
      (writes : List Write) (w : World c) (id : ℕ) {p : Product}
      → IsClean w.session
      → IsKeyed w.session.committed.products
      → find (has_id id) w.session.committed.products ≡ some p
      → (q : Product) × (find
            (has_id id)
            (perform_all c validate clean uuid7 writes w).session.committed.products
          ≡ some q)
        × Follows p q
  unfolding perform_all
  perform_all-Follows [] w id {p} tidy keyed found = (p, found, Follows-refl p)
  perform_all-Follows (x ∷ writes) w id {p} tidy keyed found =
      let step = perform-Advances c validate clean uuid7 w tidy keyed x in
      let (q, found', follows) = Follows-Evolves p _ (rw found at (step.evolves id)) in
      let (r, last, rest) =
        perform_all-Follows writes (perform c validate clean uuid7 x w) id step.clean step.keyed
          found' in
      (r, last, Follows-trans follows rest)

  -- In a clean session with no id twice, a product that is penalized is so after any sequence of
  -- writes.
  pub perform_all-penalized :
      (writes : List Write) (w : World c) (id : ℕ) {p : Product}
      → IsClean w.session
      → IsKeyed w.session.committed.products
      → find (has_id id) w.session.committed.products ≡ some p
      → p.status ≡ penalized
      → (q : Product) × (find
            (has_id id)
            (perform_all c validate clean uuid7 writes w).session.committed.products
          ≡ some q)
        × (q.status ≡ penalized)
  perform_all-penalized writes w id tidy keyed found h =
      let (q, last, follows) = perform_all-Follows writes w id tidy keyed found in
      (q, last, Transitions-penalized h follows.path)
