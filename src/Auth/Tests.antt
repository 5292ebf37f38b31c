-- ===== src/Auth/Tests.antt =====
-- A login and the requests that bear its token, with tokens that are lists of their claims.
use stockstack.Common.{◌≡◌, ◌≢◌, refl, some, [], ◌∷◌, arith}
use stockstack.Common.Exec.{ok}
use stockstack.Common.Text.{codes, text_eq}
use stockstack.Samples.{tokens, admin_settings}
use stockstack.Auth.{LoginRequest, TokenResponse, require_admin, login}
use stockstack.Auth.Tokens.{require_admin-login}

abbrev good : LoginRequest
good = record { username = codes "admin"; password = codes "pw" }

abbrev response : TokenResponse
response = record {
  access_token = 100 ∷ 1000 ∷ codes "admin";
  token_type = codes "bearer";
  expires_in = 900;
}

let_in : login tokens text_eq (codes "x") good admin_settings 100 ≡ ok response
unfolding login
let_in = refl

named : codes "admin" ≢ []
named h = ground arith

require_admin-login_example :
    require_admin tokens admin_settings 999
      (some (record { scheme = codes "BEARER"; token = response.access_token }))
    ≡ ok (codes "admin")
require_admin-login_example =
    require_admin-login tokens text_eq (codes "x") good admin_settings 100 999 (codes "BEARER")
      {t = response} named refl let_in (omega arith) (omega arith)
