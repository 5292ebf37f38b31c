-- ===== src/PublicRouter/Tests.antt =====
-- Two requests in a second, of which one is allowed.
use stockstack.Common.{ℕ, ◌≡◌, ◌<◌, refl, true, false, none, some, [], arith}
use stockstack.Common.Exec.{ok, raise}
use stockstack.Common.Text.{Text, codes, uuid_text, strip, is_space}
use stockstack.Cache.{rate_limit}
use stockstack.Cache.Memory.{Memory, memory, empty_memory}
use stockstack.PublicService.{works, Event, Public}
use stockstack.PublicRouter.Ids.{
  remove, strip_of, hex_value, int_16, parse_uuid, id_error, is_version_7, parse_uuid7,
}
use stockstack.PublicRouter.Printed.{power, parse_uuid7-uuid_text}
use stockstack.PublicRouter.{Origin, before_comma, client_ip, RateSettings}

abbrev settings : RateSettings
settings = record { rate_limit_requests = 1; rate_limit_window_seconds = 1 }

abbrev client : Text
client = codes "203.0.113.9"

-- Redis after a first request.
abbrev seen : Memory
seen = (rate_limit memory client 1 1000 5 (codes "a1") empty_memory).1

abbrev idle : Public memory
idle = record {
  redis = empty_memory;
  events = [];
  queries = [];
  delays = [];
  slots = 2;
  metrics = [];
}

-- Another request comes first.
abbrev busy : Event memory
busy = record { meanwhile = λ s. seen; fault = works }

abbrev demo_id : ℕ
demo_id = 0x0198c8bc12347abc8def0123456789ab

below : demo_id < power 32
unfolding power
below = omega arith

seven : is_version_7 demo_id ≡ true
unfolding is_version_7
seven = refl

in_braces : parse_uuid7 (codes "{URN:0198C8BC-1234-7abc-8def-0123456789ab}") ≡ raise id_error
unfolding parse_uuid7 parse_uuid is_version_7 remove strip_of int_16 is_space hex_value
in_braces = refl

upper_case : parse_uuid7 (codes "urn:uuid:0198C8BC-1234-7abc-8def-0123456789ab") ≡ ok demo_id
unfolding parse_uuid7 parse_uuid is_version_7 remove strip_of int_16 is_space hex_value
upper_case = refl

version_4 : parse_uuid7 (codes "0198c8bc-1234-4abc-8def-0123456789ab") ≡ raise id_error
unfolding parse_uuid7 parse_uuid is_version_7 remove strip_of int_16 is_space hex_value
version_4 = refl

parse_uuid7-uuid_text_example : parse_uuid7 (uuid_text demo_id) ≡ ok demo_id
parse_uuid7-uuid_text_example = parse_uuid7-uuid_text demo_id below seven

abbrev proxied : Origin
proxied = record {
  host = some (codes "10.0.0.1");
  forwarded_for = some (codes " 198.51.100.10, 10.0.0.1");
}

first_of_list : client_ip some true proxied ≡ codes "198.51.100.10"
unfolding client_ip strip before_comma
first_of_list = refl

not_trusted : client_ip some false proxied ≡ codes "10.0.0.1"
unfolding client_ip
not_trusted = refl

no_address : client_ip (λ t. none) true proxied ≡ codes "10.0.0.1"
unfolding client_ip
no_address = refl
