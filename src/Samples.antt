-- ===== src/Samples.antt =====
-- Concrete rows, payloads and worlds for the tests.
use stockstack.Common.{
  ℕ, ◌+◌, ◌≡◌, ◌≤◌, ◌<◌, ◌&&◌, true, false, Option, none, some, List, [], ◌∷◌, leb, ltb,
  if◌then◌else◌, arith,
}
use stockstack.Common.Int.{pos}
use stockstack.Common.Text.{Text, codes}
use stockstack.Json.{Json, Decimal, Fields, null, str, field, end}
use stockstack.Domain.{
  off_shelf, on_shelf, penalized, physical, virtual, ems, logistics, seven_days,
}
use stockstack.Models.{Product, ProductImage, FieldSchema, Database, main, gallery, png, jpeg}
use stockstack.Schemas.{ProductImageInput, ProductCreate, ProductUpdate}
use stockstack.Auth.{Jwt, Claims, Settings, Credentials}
use stockstack.FieldSchema.{FieldValidationError}
use stockstack.Repository.{Session}
use stockstack.Service.{Cache, World}

abbrev pub price : Decimal
price = record { negative = false; digits = 1990; places = 2 }

abbrev pub weight : Fields
weight = field (codes "weight_kg") (str (codes "1")) end

abbrev pub lamp : Product
lamp = record {
  id = 7;
  title = codes "Desk Lamp";
  short_title = codes "lamp";
  description_html = codes "<p>bright</p>";
  price_amount = price;
  stock = pos 100;
  product_type = physical;
  status = off_shelf;
  delivery_method = ems;
  return_rule = seven_days;
  attributes = weight;
  schema_version = 1;
  version = 3;
  created_at = 10;
  updated_at = 20;
}

abbrev pub card : Product
card = record lamp {
  id = 9;
  title = codes "Gift Card";
  product_type = virtual;
  status = on_shelf;
  version = 1;
  updated_at = 30;
}

abbrev pub banned : Product
banned = record lamp { id = 12; status = penalized; version = 2; updated_at = 30 }

abbrev pub template : FieldSchema
template = record { id = 1; product_type = physical; version = 1; schema = null; active = true }

abbrev pub lamp_image : ProductImage
lamp_image = record {
  id = 70;
  product_id = 7;
  kind = main;
  url = codes "/uploads/lamp.png";
  sort_order = pos 0;
  size_bytes = pos 68;
  mime_type = png;
}

abbrev pub shop : Database
shop = record {
  products = lamp ∷ card ∷ banned ∷ [];
  images = lamp_image ∷ [];
  schemas = template ∷ [];
}

abbrev pub session : Session
session = record { db = shop; committed = shop; draws = 0; now = 50 }

-- New ids, far from those of the rows.
abbrev pub uuid7 : ℕ → ℕ
uuid7 n = 1000 + n

abbrev pub front : ProductImageInput
front = record {
  kind = main;
  url = codes "/uploads/front.png";
  sort_order = pos 0;
  size_bytes = pos 2048;
  mime_type = png;
}

abbrev pub side : ProductImageInput
side = record front {
  kind = gallery;
  url = codes "/uploads/side.jpg";
  sort_order = pos 1;
  mime_type = jpeg;
}

abbrev pub new_chair : ProductCreate
new_chair = record {
  title = codes "Chair";
  short_title = [];
  description_html = codes "<p>wood</p>";
  price_amount = price;
  stock = pos 4;
  product_type = physical;
  status = off_shelf;
  delivery_method = logistics;
  return_rule = seven_days;
  attributes = weight;
  schema_version = 1;
  images = front ∷ side ∷ [];
}

abbrev pub new_lamp : ProductUpdate
new_lamp = record {
  version = 3;
  title = codes "Desk Lamp 2";
  short_title = codes "lamp";
  description_html = codes "<p>brighter</p>";
  price_amount = price;
  stock = pos 80;
  status = on_shelf;
  delivery_method = ems;
  return_rule = seven_days;
  attributes = weight;
  schema_version = 1;
  images = front ∷ [];
}

-- A cache that is a list of the products it holds; it can be out of reach.
abbrev pub always : Cache
always = record { State = List ℕ; delete = λ id s. (true, []) }

abbrev pub never : Cache
never = record { State = List ℕ; delete = λ id s. (false, s) }

abbrev pub world : World always
world = record { session = session; cache = some (7 ∷ []); retries = []; errors = [] }

abbrev pub world_down : World never
world_down = record { session = session; cache = some (7 ∷ []); retries = []; errors = [] }

-- No attribute is refused, and every text is clean.
abbrev pub accepts : Json → Fields → Option (List FieldValidationError)
accepts schema attributes = some []

abbrev pub as_is : Text → Text
as_is t = t

-- Tokens that are lists of their claims, and one of the administrator's from 100 to 1000.
abbrev read_claims : Text → Text → ℕ → Option (Option Json)
read_claims (i ∷ e ∷ s) secret now = if leb i now && ltb now e then some (some (str s)) else none
read_claims _ secret now = none

pub reads_issued :
    (c : Claims) (secret : Text) (now : ℕ)
    → c.iat ≤ now
    → now < c.exp
    → read_claims (c.iat ∷ c.exp ∷ c.sub) secret now ≡ some (some (str c.sub))
reads_issued c secret now after before = ground arith

abbrev pub tokens : Jwt
tokens = record {
  encode = λ c secret. c.iat ∷ c.exp ∷ c.sub;
  decode = read_claims;
  decode-encode = reads_issued;
}

abbrev pub admin_settings : Settings
admin_settings = record {
  jwt_secret = codes "secret";
  admin_username = codes "admin";
  admin_password_hash = codes "pw";
  access_token_expire_minutes = 15;
}

abbrev pub bearer : Credentials
bearer = record { scheme = codes "Bearer"; token = 100 ∷ 1000 ∷ codes "admin" }
