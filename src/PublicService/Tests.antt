-- ===== src/PublicService/Tests.antt =====
-- Requests for a public product, run on a Redis in memory.
use stockstack.Common.{ℕ, ◌≡◌, ◌≤◌, refl, true, Option, none, some, [], ◌∷◌, if◌then◌else◌, arith}
use stockstack.Common.Text.{Text, codes, text_eq}
use stockstack.Json.{Json, null, bool, num, str, arr, obj, field, end}
use stockstack.Schemas.{ProductView}
use stockstack.Repository.{load, public_of}
use stockstack.Service.{view}
use stockstack.Cache.{CacheSettings, missing_payload, product_payload, lock_key}
use stockstack.Cache.Memory.{memory, empty_memory}
use stockstack.PublicService.{works, lost, Event, Query, Public, Codec}
use stockstack.PublicService.Load.{Draws, detail_public}
use stockstack.PublicService.Answers.{if-some}
use stockstack.PublicService.Queries.{Answered}
use stockstack.PublicService.Total.{detail_public-Answered}
use stockstack.PublicService.Outages.{from_rows, detail_public_outage}
use stockstack.PublicService.Fills.{IsReadable, detail_public-detail_public}
use stockstack.PublicService.Flights.{
  Flights, no_flights, board, land, Flown, grounded, boarded, landed, Flown-one_load,
}
use stockstack.Samples.{shop, card}

abbrev card_view : ProductView
card_view = view (load shop card)

abbrev card_json : Json
card_json = str (codes "card")

abbrev validate_card : Json → Option ProductView
validate_card (str t) = if text_eq t (codes "card") then some card_view else none
validate_card _ = none

abbrev card_payload : Json
card_payload = product_payload card_json 1

-- A cache that knows two values.
abbrev dump_known : Json → Text
dump_known (obj (field k v end)) = codes "m"
dump_known _ = codes "p"

abbrev load_known : Text → Option Json
load_known t =
    if text_eq t (codes "m")
    then some missing_payload
    else if text_eq t (codes "p")
    then some card_payload
    else none

abbrev codec : Codec
codec = record {
  text = record { dumps = dump_known; loads = load_known };
  dump = λ v. card_json;
  validate = validate_card;
}

card_trip :
    (p : Json) (v : ProductView) → validate_card p ≡ some v → validate_card card_json ≡ some v
card_trip (str t) v h = (if-some (text_eq t (codes "card")) h).1
card_trip null v h = ground arith
card_trip (bool b) v h = ground arith
card_trip (num d) v h = ground arith
card_trip (arr a) v h = ground arith
card_trip (obj f) v h = ground arith

abbrev settings : CacheSettings
settings = record {
  base_ttl_seconds = 300;
  jitter_seconds = 60;
  negative_ttl_seconds = 30;
  lock_ttl_ms = 5000;
}

abbrev drawn : Draws
drawn = record { token = codes "a1"; random = 17 }

abbrev seen : Query
seen = record { freed = true; rows = some shop }

abbrev idle : Public memory
idle = record {
  redis = empty_memory;
  events = [];
  queries = seen ∷ [];
  delays = 5 ∷ [];
  slots = 2;
  metrics = [];
}

abbrev down : Event memory
down = record { meanwhile = λ s. s; fault = lost }

-- Answered once, and then down.
abbrev failing : Public memory
failing = record idle { events = record down { fault = works } ∷ down ∷ [] }

detail_public-Answered_example :
    Answered 9 (detail_public memory settings codec 9 drawn 250 failing).0
    × (2 ≤ (detail_public memory settings codec 9 drawn 250 failing).1.slots)
detail_public-Answered_example =
    detail_public-Answered memory settings codec 9 drawn card_trip 250 failing

detail_public_outage_example :
    let t =
      detail_public memory settings codec 9 drawn 250 (record idle { events = down ∷ down ∷ [] }) in
    (t.0 ≡ from_rows 9 (some shop)) × (t.1.slots ≡ 2)
detail_public_outage_example =
    detail_public_outage memory settings codec 9 drawn 250 down down [] seen [] 1 idle tt tt

readable : IsReadable codec (public_of 9 shop)
unfolding IsReadable public_of view
readable = (refl, refl, refl)

detail_public-detail_public_example :
    let first = detail_public memory settings codec 9 drawn 250 idle in
    let second = detail_public memory settings codec 9 drawn 250 first.1 in
    (first.0 ≡ from_rows 9 (some shop))
    × (memory.get (lock_key 9) first.1.redis ≡ none)
    × (second.0 ≡ first.0)
    × (second.1.queries ≡ first.1.queries)
detail_public-detail_public_example =
    detail_public-detail_public memory settings codec 9 drawn shop true [] 1 250 250 idle refl refl
      readable

-- Two requests for product 9, the load of the first, and a third request.
abbrev flown : Flights
flown = (board 9 (land 0 9 (board 9 (board 9 no_flights).1).1)).1

runs : (board 9 (board 9 no_flights).1).1.loads 0 ≡ some 9
unfolding board
runs = refl

in_flight : Flown flown
in_flight = boarded 9 (landed 0 9 runs (boarded 9 (boarded 9 grounded)))

second : flown.loads 1 ≡ some 9
unfolding board land
second = refl

abbrev task : ℕ
task = 1

Flown-one_load_example : (task ≡ task) × (board 9 flown ≡ (task, flown))
Flown-one_load_example = Flown-one_load 9 task task in_flight second second
