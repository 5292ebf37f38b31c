-- ===== src/FieldSchema/Order.antt =====
-- The errors of `validate_attributes`: their order, and that none is lost.
use mathlib.Core.List.Perm
use mathlib.Core.List.{Perm}
use stockstack.Common.{◌≡◌, false, List, [], ◌∷◌}
use stockstack.Common.Text.{Text}
use stockstack.Json.{Json}
use stockstack.FieldSchema.{FieldValidationError}
use stockstack.FieldSchema.Attributes.{error_less}

-- No error comes before one that is less.
abbrev pub IsOrdered : List FieldValidationError → Type 0
IsOrdered [] = Unit
IsOrdered (a ∷ []) = Unit
IsOrdered (a ∷ b ∷ errors) = (error_less b a ≡ false) × IsOrdered (b ∷ errors)
