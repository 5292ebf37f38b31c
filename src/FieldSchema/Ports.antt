-- ===== src/FieldSchema/Ports.antt =====
-- Which URLs `_has_empty_port` of backend/app/catalog/field_schema.py finds, and which texts
-- `_HOST_LABEL` matches.
use stockstack.Common.{ℕ, Bool, true, false, not, ◌&&◌, Option, none, some, [], ◌∷◌, ◌++◌, any, leb}
use stockstack.Common.Text.{Text, codes}
use stockstack.FieldSchema.Url.{ends_authority}

-- The end of an authority: nothing, or what begins with `/`, `?` or `#`.
abbrev pub begins_path : Text → Bool
begins_path [] = true
begins_path (c ∷ s) = ends_authority c

abbrev pub is_empty : Text → Bool
is_empty [] = true
is_empty (c ∷ s) = false

abbrev pub is_digit : ℕ → Bool
is_digit c = leb 48 c && leb c 57

-- The parts of a URL in front of its host.
abbrev pub scheme_of : Bool → Text
scheme_of true = codes "https://"
scheme_of false = codes "http://"

abbrev pub credentials : Option Text → Text
credentials none = []
credentials (some user) = user ++ 64 ∷ []

abbrev pub is_plain_user : Option Text → Bool
is_plain_user none = true
is_plain_user (some user) = not (any ends_authority user)
