-- ===== src/Json.antt =====
-- The values of `dict[str, Any]`: what `json` decodes and JSONB stores.
use stockstack.Common.{ℕ, Bool}
use stockstack.Common.Text.{Text}

-- A decimal: `digits` at `places` behind the point, with its sign.
pub record Decimal : Type 0 where
  pub negative : Bool
  pub digits : ℕ
  pub places : ℕ

mutual
  pub data Json : Type 0 where
    null : Json
    bool : Bool → Json
    num : Decimal → Json
    str : Text → Json
    arr : Items → Json
    obj : Fields → Json

  pub data Items : Type 0 where
    nil : Items
    cons : Json → Items → Items

  pub data Fields : Type 0 where
    end : Fields
    field : Text → Json → Fields → Fields
