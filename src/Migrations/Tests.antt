-- ===== src/Migrations/Tests.antt =====
-- The migration on databases that are lists of the names in use.
use stockstack.Common.{◌≡◌, refl, List, [], ◌∷◌, any, if◌then◌else◌, arith}
use stockstack.Common.Exec.{Exec, ok, raise}
use stockstack.Common.Text.{Text, codes, text_eq, text_eq_refl}
use stockstack.Migrations.{Operations}
use stockstack.Migrations.Initial.{upgrade, downgrade}
use stockstack.Migrations.Metadata.{metadata, create_all}
use stockstack.Migrations.Roundtrip.{downgrade-upgrade, upgrade-metadata}

data NameError : Type 0 where
  name_error : NameError

-- A name is used once, and only one that is in use is dropped.
abbrev add_name : Text → Exec (List Text) NameError (Unit {0})
add_name n names = if any (text_eq n) names then (raise name_error, names) else (ok tt, n ∷ names)

abbrev drop_name : Text → Exec (List Text) NameError (Unit {0})
drop_name n [] = (raise name_error, [])
drop_name n (m ∷ names) =
    let rest = drop_name n names in if text_eq n m then (ok tt, names) else (rest.0, m ∷ rest.1)

drop_name-add_name :
    (n : Text) (names : List Text)
    → (add_name n names).0 ≡ ok tt
    → drop_name n (add_name n names).1 ≡ (ok tt, names)
drop_name-add_name n names h = ground (arith, text_eq_refl n)

abbrev named : Operations
named = record {
  State = List Text;
  Error = NameError;
  create_table = λ t. add_name (codes t.name);
  create_index = λ i. add_name (codes i.name);
  drop_index = λ name table. drop_name (codes name);
  drop_table = λ name. drop_name (codes name);
  drop_index-create_index = λ i. drop_name-add_name (codes i.name);
  drop_table-create_table = λ t. drop_name-add_name (codes t.name);
}

abbrev others : List Text
others = codes "alembic_version" ∷ []

runs : (upgrade named others).0 ≡ ok tt
unfolding upgrade
runs = refl

taken : (upgrade named (codes "products" ∷ others)).0 ≡ raise name_error
unfolding upgrade
taken = refl

downgrade-upgrade_example : downgrade named (upgrade named others).1 ≡ (ok tt, others)
downgrade-upgrade_example = downgrade-upgrade named others runs

upgrade-metadata_example : upgrade named others ≡ create_all named metadata others
upgrade-metadata_example = upgrade-metadata named others
