-- ===== src/Common/Dict.antt =====
-- Python's `dict` with integer keys, in the order of insertion.
use Prim.Native.Nat.{ℕ}
use mathlib.Core.Path.{◌≡◌, refl}
use mathlib.Core.Option.{Option, none, some}
use mathlib.Core.List.{List, [], ◌∷◌, map}
use native.Mathlib.Omega.{arith}
use stockstack.Common.Tests.{◌==◌, if◌then◌else◌, or_else, is_some}
use stockstack.Common.Lists.{member}

abbrev pub Dict {ℓ} : Type ℓ → Type ℓ
Dict V = List (ℕ × V)

module _ {ℓ} {V : Type ℓ} where
  -- `d.get(k)`.
  unfoldable pub lookup : ℕ → Dict V → Option V
  lookup k [] = none
  lookup k ((j, v) ∷ d) = if j == k then some v else lookup k d

  -- `d[k] = v`.
  unfoldable pub insert : ℕ → V → Dict V → Dict V
  insert k v [] = (k, v) ∷ []
  insert k v ((j, w) ∷ d) = if j == k then (k, v) ∷ d else (j, w) ∷ insert k v d

  -- `d.setdefault(k, v)`.
  unfoldable pub set_default : ℕ → V → Dict V → Dict V
  set_default k v d = if is_some (lookup k d) then d else insert k v d

  abbrev pub keys : Dict V → List ℕ
  keys d = map (λ e. e.0) d

  pub lookup-insert :
      (k j : ℕ) (v : V) (d : Dict V)
      → lookup j (insert k v d) ≡ (if k == j then some v else lookup j d)
  unfolding lookup insert
  lookup-insert k j v [] = refl
  lookup-insert k j v ((i, w) ∷ d) = ground (arith, lookup-insert k j v d)

  pub lookup-set_default :
      (k j : ℕ) (v : V) (d : Dict V)
      → lookup j (set_default k v d) ≡ or_else (lookup j d) (if k == j then some v else none)
  unfolding set_default
  lookup-set_default k j v d = ground (arith, lookup-insert k j v d)

  -- A key is among the keys exactly when looking it up finds a value.
  pub member-keys : (k : ℕ) (d : Dict V) → member k (keys d) ≡ is_some (lookup k d)
  unfolding lookup
  member-keys k [] = refl
  member-keys k ((j, v) ∷ d) = ground (arith, member-keys k d)
