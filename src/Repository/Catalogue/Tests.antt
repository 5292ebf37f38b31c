-- ===== src/Repository/Catalogue/Tests.antt =====
-- An edit, the same again, and a move after it.
use stockstack.Common.{List, [], ◌∷◌}
use stockstack.Common.Int.{pos}
use stockstack.Common.Text.{codes}
use stockstack.Domain.{on_shelf, logistics, no_returns}
use stockstack.Repository.{ProductValues}
use stockstack.Repository.Catalogue.{Command, edit, move}
use stockstack.Samples.{price, weight}

abbrev floor_lamp : ProductValues
floor_lamp = record {
  title = codes "Floor Lamp";
  short_title = codes "lamp";
  description_html = [];
  price_amount = price;
  stock = pos 2;
  delivery_method = logistics;
  return_rule = no_returns;
  attributes = weight;
}

abbrev commands : List Command
commands =
    edit 7 3 floor_lamp
    ∷ edit 7 3 floor_lamp
    ∷ move ((7, 4) ∷ (12, 2) ∷ []) on_shelf
    ∷ move ((7, 4) ∷ []) on_shelf
    ∷ []
