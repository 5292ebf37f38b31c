-- ===== src/FieldSchema.antt =====
-- Validation of the attributes of a product against the template of its type:
-- backend/app/catalog/field_schema.py.
pub mod Attributes
pub mod Order
pub mod Url
pub mod Ports
pub mod Acceptance
mod Tests
use stockstack.Common.{ℕ, List, [], ◌∷◌, ◌++◌}
use stockstack.Common.Text.{Text, decimal}

-- A part of the path to a value: a key of an object or a position in a list.
pub data PathPart : Type 0 where
  key : Text → PathPart
  index : ℕ → PathPart

abbrev pub FieldPath : Type 0
FieldPath = List PathPart

-- `str(part)`.
unfoldable pub part_text : PathPart → Text
unfolding decimal
part_text (key name) = name
part_text (index n) = decimal n

pub record FieldValidationError : Type 0 where
  pub path : FieldPath
  pub message : Text

-- `".".join(map(str, path))`.
unfoldable pub path_text : FieldPath → Text
unfolding part_text
path_text [] = []
path_text (p ∷ []) = part_text p
path_text (p ∷ q ∷ path) = part_text p ++ b'.' ∷ path_text (q ∷ path)
