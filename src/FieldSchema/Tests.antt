-- ===== src/FieldSchema/Tests.antt =====
-- The errors of two attributes, as `jsonschema` may report them.
use stockstack.Common.{◌≡◌, ◌↔◌, refl, Bool, true, false, Option, none, some, List, [], ◌∷◌}
use stockstack.Common.Text.{Text, codes, contains, is_space}
use stockstack.Json.{Json, Fields, null, str, arr, obj, nil, cons, field, end}
use stockstack.FieldSchema.{key, part_text}
use stockstack.FieldSchema.Attributes.{SchemaError, validate_attributes}
use stockstack.FieldSchema.Url.{ParsedUrl, has_empty_port, has_valid_host_labels, is_http_url}
use stockstack.FieldSchema.Acceptance.{IsMissing, validate_attributes-accepts_iff}

abbrev attributes : Fields
attributes = field (codes "color") (str (codes "red")) end

-- `weight_kg` is missing, by two rules.
abbrev lacks : SchemaError
lacks = record {
  validator = codes "required";
  validator_value = arr (cons (str (codes "color")) (cons (str (codes "weight_kg")) nil));
  absolute_path = [];
  message = [];
  instance_value = obj attributes;
  schema = end;
}

abbrev extra : SchemaError
extra = record lacks { validator = codes "additionalProperties"; message = codes "unexpected" }

abbrev reported : Json → Fields → List SchemaError
reported schema fields = lacks ∷ lacks ∷ extra ∷ []

abbrev quoted : Text → Text
quoted t = t

abbrev valid : Json → Bool
valid schema = true

-- One error for the missing name and one for the unknown one, in the order of the names.
errors :
    validate_attributes contains quoted valid reported null attributes
    ≡ some (
        record {
          path = key (codes "color") ∷ [];
          message = codes "additional property color is not allowed";
        }
        ∷ record {
          path = key (codes "weight_kg") ∷ [];
          message = codes "required property weight_kg is missing";
        }
        ∷ [])
unfolding validate_attributes part_text
errors = refl

listed : IsMissing lacks
listed h = refl

listed_extra : IsMissing extra
listed_extra h = refl

validate_attributes-accepts_iff_example :
    (validate_attributes contains quoted valid reported null attributes ≡ some [])
    ↔ (lacks ∷ lacks ∷ extra ∷ [] ≡ [])
validate_attributes-accepts_iff_example =
    validate_attributes-accepts_iff contains quoted valid reported null attributes refl
      (listed, (listed, (listed_extra, tt)))

abbrev shop_host : Text
shop_host = codes "cdn.example"

-- A host with its port in brackets, and the long s of a scheme.
bracketed : has_empty_port (codes "HTTP://[::1]:") ≡ true
unfolding has_empty_port
bracketed = refl

bracketed_port : has_empty_port (codes "http://[::1]:8/") ≡ false
unfolding has_empty_port
bracketed_port = refl

long_s : has_empty_port (codes "httpſ://a:") ≡ true
unfolding has_empty_port
long_s = refl

abbrev reads : Text → Option ParsedUrl
reads t = some (record { username = none; password = none; host = shop_host })

url_accepted : is_http_url reads (str (codes "https://cdn.example/a%20b.png")) ≡ true
unfolding is_http_url is_space
url_accepted = refl

bad_escape : is_http_url reads (str (codes "https://cdn.example/100%")) ≡ false
unfolding is_http_url is_space
bad_escape = refl

labels : has_valid_host_labels (codes "a-b.c.") ≡ true
unfolding has_valid_host_labels
labels = refl

empty_label : has_valid_host_labels (codes "a..c") ≡ false
unfolding has_valid_host_labels
empty_label = refl
