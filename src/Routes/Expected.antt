-- ===== src/Routes/Expected.antt =====
-- Failures that a client is told of, and the steps of the service that have no others:
-- backend/app/catalog/service.py.
use stockstack.Common.{
  ℕ, String, ◌≡◌, refl, Bool, true, false, Option, none, some, List, [], ◌∷◌, member, is_some, inl,
  inr, arith,
}
use stockstack.Common.Exec.{Exec, Result, ok, raise, Result-cases, bind_result, ◌>>=◌}
use stockstack.Errors.{AppError}
use stockstack.Models.{FieldSchema}
use stockstack.FieldSchema.{FieldValidationError}
use stockstack.Repository.{
  Repo, RepositoryError, not_found, version_conflict, schema_conflict, duplicate_product_id,
  invalid_images, integrity_error, batch_update, illegal_transition,
}
use stockstack.Service.{Failure, app, crash, repository_error, batch_error, Cache, World, attempt}
use stockstack.Service.Actions.{found, check_attributes, matching, bound}

-- What a client can be told: that the request was wrong, that there is no such thing, or that it
-- conflicts. An exception that nobody expects is none of them.
abbrev pub expected : Failure → Bool
expected (app e) = member e.status_code (400 ∷ 404 ∷ 409 ∷ [])
expected crash = false

-- Of a result that is a failure.
abbrev pub Expected : {A : Type 0} → Result Failure A → Type 0
Expected (ok a) = Unit
Expected (raise f) = expected f ≡ true

pub repository_error-expected : (e : RepositoryError) → expected (app (repository_error e)) ≡ true
unfolding repository_error
repository_error-expected not_found = refl
repository_error-expected version_conflict = refl
repository_error-expected (illegal_transition e) = refl
repository_error-expected duplicate_product_id = refl
repository_error-expected (batch_update failures) = refl
repository_error-expected schema_conflict = refl
repository_error-expected invalid_images = refl
repository_error-expected integrity_error = refl

pub batch_error-expected : (e : RepositoryError) → expected (app (batch_error e)) ≡ true
unfolding batch_error repository_error
batch_error-expected not_found = refl
batch_error-expected version_conflict = refl
batch_error-expected (illegal_transition e) = refl
batch_error-expected duplicate_product_id = refl
batch_error-expected (batch_update failures) = refl
batch_error-expected schema_conflict = refl
batch_error-expected invalid_images = refl
batch_error-expected integrity_error = refl

pub bind_result-Expected :
    {S A B : Type 0} (f : A → Exec S Failure B) (r : Result Failure A) (s : S)
    → Expected r
    → ((a : A) (t : S) → Expected (f a t).0)
    → Expected (bind_result f r s).0
bind_result-Expected f (ok a) s h k = k a s
bind_result-Expected f (raise e) s h k = h

-- A sequence fails as its parts do.
pub bind-Expected :
    {S A B : Type 0} (m : Exec S Failure A) (f : A → Exec S Failure B) (s : S)
    → Expected (m s).0
    → ((a : A) (t : S) → Expected (f a t).0)
    → Expected (◌>>=◌ m f s).0
bind-Expected m f s h k = bind_result-Expected f (m s).0 (m s).1 h k

module _ (c : Cache) where
  pub attempt-Expected :
      {A : Type 0} (f : RepositoryError → AppError) (m : Repo A) (w : World c)
      → ((e : RepositoryError) → expected (app (f e)) ≡ true)
      → Expected (attempt c f m w).0
  attempt-Expected f m w h = elim (Result-cases (m w.session).0) [
    | inl (a, e) ↦ rw e tt
    | inr (x, e) ↦ rw e (h x)
  ]

  pub matching-Expected :
      (message : String) (version : ℕ) (o : Option FieldSchema) (w : World c)
      → Expected (matching c message version o w).0
  matching-Expected message version none w = refl
  matching-Expected message version (some r) w = ground arith

  pub bound-Expected :
      (version existing : ℕ) (o : Option FieldSchema) (w : World c)
      → Expected (bound c version existing o w).0
  bound-Expected version existing none w = refl
  bound-Expected version existing (some r) w = ground arith

  pub found-Expected :
      {A : Type 0} (code message : String) (o : Option A) (w : World c)
      → Expected (found c code message o w).0
  found-Expected code message none w = refl
  found-Expected code message (some a) w = tt

  pub check_attributes-Expected :
      (o : Option (List FieldValidationError)) (w : World c)
      → is_some o ≡ true
      → Expected (check_attributes c o w).0
  check_attributes-Expected none w h = cc
  check_attributes-Expected (some []) w h = tt
  check_attributes-Expected (some (e ∷ errors)) w h = refl
