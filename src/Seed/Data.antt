-- ===== src/Seed/Data.antt =====
-- The data of scripts/seed.py: `PNG`, `SCHEMAS`, `SAMPLES` and the ids of the products.
use stockstack.Common.{ℕ, String, false, List, [], ◌∷◌}
use stockstack.Common.Text.{Text, codes}
use stockstack.Json.{Json, Items, Fields, bool, num, str, arr, obj, nil, cons, end, field}
use stockstack.Domain.{ProductType, physical, virtual, creative}
use stockstack.Uploads.{Bytes}

pub record Sample : Type 0 where
  pub id : ℕ
  pub product_type : ProductType
  pub title : Text
  pub attributes : Fields

-- `PNG`, decoded.
abbrev pub png_bytes : Bytes
png_bytes =
    137 ∷ 80 ∷ 78 ∷ 71 ∷ 13 ∷ 10 ∷ 26 ∷ 10 ∷ 0 ∷ 0 ∷ 0 ∷ 13 ∷ 73 ∷ 72 ∷ 68 ∷ 82 ∷ 0 ∷ 0 ∷ 0 ∷ 1 ∷ 0
    ∷ 0 ∷ 0 ∷ 1 ∷ 8 ∷ 4 ∷ 0 ∷ 0 ∷ 0 ∷ 181 ∷ 28 ∷ 12 ∷ 2 ∷ 0 ∷ 0 ∷ 0 ∷ 11 ∷ 73 ∷ 68 ∷ 65 ∷ 84 ∷ 120
    ∷ 218 ∷ 99 ∷ 100 ∷ 248 ∷ 15 ∷ 0 ∷ 1 ∷ 5 ∷ 1 ∷ 1 ∷ 39 ∷ 24 ∷ 227 ∷ 102 ∷ 0 ∷ 0 ∷ 0 ∷ 0 ∷ 73 ∷ 69
    ∷ 78 ∷ 68 ∷ 174 ∷ 66 ∷ 96 ∷ 130 ∷ []

abbrev text : String → Json
text s = str (codes s)

abbrev int : ℕ → Json
int n = num (record { negative = false; digits = n; places = 0 })

abbrev texts : List String → Items
texts [] = nil
texts (s ∷ rest) = cons (text s) (texts rest)

abbrev fields : List (String × Json) → Fields
fields [] = end
fields ((k, v) ∷ rest) = field (codes k) v (fields rest)

abbrev dict : List (String × Json) → Json
dict entries = obj (fields entries)

-- A schema, by its properties and the names that it requires.
abbrev object_schema : List (String × Json) → List String → Json
object_schema properties required = dict (
    ("$schema", text "https://json-schema.org/draft/2020-12/schema")
    ∷ ("type", text "object")
    ∷ ("properties", dict properties)
    ∷ ("required", arr (texts required))
    ∷ ("additionalProperties", bool false)
    ∷ [])

-- `SCHEMAS`.
abbrev pub schemas : List (ProductType × Json)
schemas =
    (
      physical,
      object_schema
          (("weight_kg", dict (("type", text "number") ∷ ("minimum", int 0) ∷ []))
            ∷ ("specification", dict (("type", text "string") ∷ ("maxLength", int 100) ∷ []))
            ∷ (
              "shipping_template",
              dict (("enum", arr (texts ("standard" ∷ "cold_chain" ∷ []))) ∷ []),
            )
            ∷ [])
          ("weight_kg" ∷ "specification" ∷ "shipping_template" ∷ []),
    )
    ∷ (
      virtual,
      object_schema
          (("validity_days", dict (("type", text "integer") ∷ ("minimum", int 1) ∷ []))
            ∷ (
              "verification_method",
              dict (("enum", arr (texts ("code" ∷ "qr" ∷ "manual" ∷ []))) ∷ []),
            )
            ∷ (
              "redemption_instructions",
              dict (("type", text "string") ∷ ("maxLength", int 500) ∷ []),
            )
            ∷ [])
          ("validity_days" ∷ "verification_method" ∷ "redemption_instructions" ∷ []),
    )
    ∷ (
      creative,
      object_schema
          (("asset_type", dict (("enum", arr (texts ("image" ∷ "video" ∷ "html" ∷ []))) ∷ []))
            ∷ (
              "dimensions",
              dict (("type", text "string") ∷ ("pattern", text "^[1-9][0-9]*x[1-9][0-9]*$") ∷ []),
            )
            ∷ ("file_url", dict (("type", text "string") ∷ ("format", text "http-url") ∷ []))
            ∷ [])
          ("asset_type" ∷ "dimensions" ∷ "file_url" ∷ []),
    )
    ∷ []

-- `LOAD_TEST_PRODUCT_ID`.
abbrev pub load_test_product_id : ℕ
load_test_product_id = 0x0198c8bc12347abc8def0123456789ab

-- `SAMPLES`, each with its id.
abbrev pub samples : List Sample
samples =
    record {
      id = load_test_product_id;
      product_type = physical;
      title = codes "演示实物商品";
      attributes = fields (
          ("weight_kg", num (record { negative = false; digits = 12; places = 1 }))
          ∷ ("specification", text "标准盒装")
          ∷ ("shipping_template", text "standard")
          ∷ []);
    }
    ∷ record {
      id = 0x0198c8bc12347abc8def0123456789ac;
      product_type = virtual;
      title = codes "演示虚拟商品";
      attributes = fields (
          ("validity_days", int 30)
          ∷ ("verification_method", text "code")
          ∷ ("redemption_instructions", text "下单后输入兑换码")
          ∷ []);
    }
    ∷ record {
      id = 0x0198c8bc12347abc8def0123456789ad;
      product_type = creative;
      title = codes "演示创意商品";
      attributes = fields (
          ("asset_type", text "image")
          ∷ ("dimensions", text "1200x800")
          ∷ ("file_url", text "https://assets.example/demo.png")
          ∷ []);
    }
    ∷ []
