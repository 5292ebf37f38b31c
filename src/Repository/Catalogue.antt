-- ===== src/Repository/Catalogue.antt =====
-- The catalogue that the repository keeps, without the order of its rows: a product or none for
-- every id. `update` and `batch_update_status` of backend/app/catalog/repository.py are its
-- operations, and whatever sequence of them is carried out, the answers and the catalogue after it
-- are those of the specification here, which knows neither tables nor loops.
pub mod Refinement
mod Tests
use stockstack.Common.{
  ℕ, ◌≡◌, ◌⊎◌, refl, sym, ap, ◌∙◌, Bool, true, false, Option, none, some, List, [], ◌∷◌, map, find,
  any, member, is_some, ◌==◌, if◌then◌else◌, Bool-cases, Option-cases, inl, inr, arith,
}
use mathlib.Core.Path.{fun_ext}
use stockstack.Common.Exec.{Result, ok, raise, Result-cases}
use stockstack.Common.Dict.{Dict, lookup}
use stockstack.Domain.{ProductStatus}
use stockstack.Models.{Product}
use stockstack.Repository.{
  Reason, RepositoryError, batch_update, Session, has_id, ProductValues, update,
}
use stockstack.Repository.Rows.{IsKeyed}
use stockstack.Repository.Locking.{
  expected_update, after_update, update-result, update-rows, update-IsKeyed,
}
use stockstack.Repository.Batch.{Refs, batch_failures, set_status, batch_update_status}
use stockstack.Repository.Batch.Failures.{versions_for, expected_reason, lookup-batch_failures}
use stockstack.Repository.Batch.Effects.{
  nil_of_lookup, Dict-cases, moved, batch_update_status-ok, batch_update_status-raise,
  batch_update_status-IsKeyed,
}

abbrev pub Catalogue : Type 0
Catalogue = ℕ → Option Product

pub data Command : Type 0 where
  edit : ℕ → ℕ → ProductValues → Command
  move : Refs → ProductStatus → Command

-- The answer to an edit, and the reasons against a move, by id: none, if it went through.
pub data Reply : Type 0 where
  edited : Result RepositoryError Product → Reply
  objections : (ℕ → Option Reason) → Reply

-- What stands against a move of a product.
unfoldable pub objection : ProductStatus → Refs → Catalogue → ℕ → Option Reason
objection target refs rows id = expected_reason target (versions_for id refs) (rows id)

unfoldable pub is_refused : ProductStatus → Refs → Catalogue → Bool
unfolding objection
is_refused target refs rows = any (λ r. is_some (objection target refs rows r.0)) refs

-- The specification: an edit of a product that is at the version expected replaces it, and a move
-- with no objection moves the products that it lists.
unfoldable pub specified : ℕ → Command → Catalogue → Reply × Catalogue
unfolding is_refused objection
specified now (edit id version v) rows = (
  edited (expected_update version v now (rows id)),
  λ j. after_update id version v now j (rows j),
)
specified now (move refs target) rows = (
  objections (objection target refs rows),
  λ j. if is_refused target refs rows then rows j else moved target now refs j (rows j),
)

unfoldable pub specified_all : ℕ → List Command → Catalogue → List Reply × Catalogue
unfolding specified
specified_all now [] rows = ([], rows)
specified_all now (x ∷ commands) rows =
    let step = specified now x rows in
    let rest = specified_all now commands step.1 in (step.0 ∷ rest.0, rest.1)

-- The repository, seen so.
abbrev pub catalogue : Session → Catalogue
catalogue s id = find (has_id id) s.db.products

abbrev pub reasons_of : {A : Type 0} → Result RepositoryError A → ℕ → Option Reason
reasons_of (raise (batch_update failures)) id = lookup id failures
reasons_of _ id = none

unfoldable pub carry_out : Command → Session → Reply × Session
carry_out (edit id version v) s = let r = update id version v s in (edited r.0, r.1)
carry_out (move refs target) s =
    let r = batch_update_status refs target s in (objections (reasons_of r.0), r.1)

unfoldable pub carry_out_all : List Command → Session → List Reply × Session
unfolding carry_out
carry_out_all [] s = ([], s)
carry_out_all (x ∷ commands) s =
    let step = carry_out x s in
    let rest = carry_out_all commands step.1 in (step.0 ∷ rest.0, rest.1)
