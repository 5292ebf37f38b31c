-- ===== src/Migrations.antt =====
-- The migration that makes the tables: backend/alembic/versions/0001_initial.py.
-- The operations of Alembic on a database are an interface, whose laws say that what is dropped
-- right after it was made is gone, and that nothing else changed.
pub mod Metadata
pub mod Initial
pub mod Roundtrip
mod Tests
use stockstack.Common.{ℕ, ◌≡◌, String, Bool, true, false, Option, none, some, List, [], ◌∷◌}
use stockstack.Common.Exec.{Exec, ok}

pub data ColumnType : Type 0 where
  uuid text integer big_integer jsonb boolean timestamp_tz : ColumnType
  varchar : ℕ → ColumnType
  numeric : ℕ → ℕ → ColumnType

pub record Column : Type 0 where
  pub name : String
  pub column_type : ColumnType
  pub server_default : Option String
  pub nullable : Bool

-- A check has its condition and its name; a foreign key its columns, what they refer to and its
-- `ON DELETE`.
pub data Constraint : Type 0 where
  check : String → String → Constraint
  primary_key : List String → Constraint
  unique : List String → String → Constraint
  foreign_key : List String → List String → String → Constraint

pub record Table : Type 0 where
  pub name : String
  pub columns : List Column
  pub constraints : List Constraint

pub record Index : Type 0 where
  pub name : String
  pub table : String
  pub expressions : List String
  pub is_unique : Bool
  pub using : Option String
  pub condition : Option String

-- `op`: what `drop` of it is given are names.
pub record Operations : Type 1 where
  pub State : Type 0
  pub Error : Type 0
  pub create_table : Table → Exec State Error (Unit {0})
  pub create_index : Index → Exec State Error (Unit {0})
  pub drop_index : String → String → Exec State Error (Unit {0})
  pub drop_table : String → Exec State Error (Unit {0})
  pub drop_index-create_index :
      (i : Index) (s : State)
      → (create_index i s).0 ≡ ok tt
      → drop_index i.name i.table (create_index i s).1 ≡ (ok tt, s)
  pub drop_table-create_table :
      (t : Table) (s : State)
      → (create_table t s).0 ≡ ok tt
      → drop_table t.name (create_table t s).1 ≡ (ok tt, s)

-- A column that is not null, without a default of the server.
abbrev pub column : String → ColumnType → Column
column name t = record { name = name; column_type = t; server_default = none; nullable = false }

abbrev pub defaulted : String → ColumnType → String → Column
defaulted name t default = record (column name t) { server_default = some default }

-- An index that is not unique, by the method of the database's choice.
abbrev pub index : String → String → List String → Index
index name table expressions = record {
  name = name;
  table = table;
  expressions = expressions;
  is_unique = false;
  using = none;
  condition = none;
}

-- A unique index of the rows with a condition.
abbrev pub partial_unique : String → String → List String → String → Index
partial_unique name table expressions condition = record (index name table expressions) {
  is_unique = true;
  condition = some condition;
}
