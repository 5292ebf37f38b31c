-- ===== src/Auth.antt =====
-- The administrator's login and the test of its tokens: backend/app/auth/router.py,
-- backend/app/auth/service.py and backend/app/core/security.py.
-- PyJWT and pwdlib are arguments: how a token is made and read, and whether a password has a hash.
pub mod Tokens
mod Tests
use stockstack.Common.{
  ℕ, ◌+◌, ◌*◌, ◌≡◌, ◌≤◌, ◌<◌, Bool, true, false, ◌&&◌, Option, none, some, List, [], ◌∷◌, map, leb,
  if◌then◌else◌,
}
use stockstack.Common.Exec.{Result, ok, raise}
use stockstack.Common.Text.{Text, codes, text_eq}
use stockstack.Json.{Json, str}
use stockstack.Errors.{AppError, app_error}

-- The settings that authentication reads.
pub record Settings : Type 0 where
  pub jwt_secret : Text
  pub admin_username : Text
  pub admin_password_hash : Text
  pub access_token_expire_minutes : ℕ

-- The claims of a token, with times in seconds.
pub record Claims : Type 0 where
  pub sub : Text
  pub iat : ℕ
  pub exp : ℕ

-- `jwt.encode` and `jwt.decode`, which reads the subject of a token at a time, or raises a
-- `PyJWTError`: it reads what it wrote, from the time of issue until the token expires.
pub record Jwt : Type 0 where
  pub encode : Claims → Text → Text
  pub decode : Text → Text → ℕ → Option (Option Json)
  pub decode-encode :
      (c : Claims) (secret : Text) (now : ℕ)
      → c.iat ≤ now
      → now < c.exp
      → decode (encode c secret) secret now ≡ some (some (str c.sub))

pub record LoginRequest : Type 0 where
  pub username : Text
  pub password : Text

pub record TokenResponse : Type 0 where
  pub access_token : Text
  pub token_type : Text
  pub expires_in : ℕ

-- The scheme and the token of a request's header.
pub record Credentials : Type 0 where
  pub scheme : Text
  pub token : Text

abbrev pub authentication_failed : AppError
authentication_failed = app_error "authentication_failed" "Invalid authentication credentials" 401

-- `scheme.lower()`, of which only letters of ASCII become those of "bearer".
abbrev pub lower_ascii : Text → Text
lower_ascii = map (λ c. if leb 65 c && leb c 90 then c + 32 else c)

-- A subject is a text that is not empty.
abbrev pub subject_of : Option (Option Json) → Result AppError Text
subject_of (some (some (str (c ∷ s)))) = ok (c ∷ s)
subject_of _ = raise authentication_failed

-- `verify` is `PASSWORD_HASH.verify`, and `dummy` the hash that stands in for a wrong name.
module _ (verify : Text → Text → Bool) (dummy : Text) where
  unfoldable pub authenticate_admin : Text → Text → Settings → Bool
  authenticate_admin username password settings =
      let username_matches = text_eq username settings.admin_username in
      let password_hash = if username_matches then settings.admin_password_hash else dummy in
      let password_matches = verify password password_hash in username_matches && password_matches

module _ (jwt : Jwt) where
  unfoldable pub create_access_token : Text → Text → ℕ → ℕ → Text
  create_access_token subject secret seconds now =
      jwt.encode (record { sub = subject; iat = now; exp = now + seconds }) secret

  unfoldable pub decode_access_token : Text → Text → ℕ → Result AppError Text
  decode_access_token token secret now = subject_of (jwt.decode token secret now)

  abbrev pub admin_only : Settings → Result AppError Text → Result AppError Text
  admin_only settings (ok subject) =
      if text_eq subject settings.admin_username then ok subject else raise authentication_failed
  admin_only settings (raise e) = raise e

  unfoldable pub require_admin : Settings → ℕ → Option Credentials → Result AppError Text
  unfolding decode_access_token
  require_admin settings now none = raise authentication_failed
  require_admin settings now (some c) =
      if text_eq (lower_ascii c.scheme) (codes "bearer")
      then admin_only settings (decode_access_token c.token settings.jwt_secret now)
      else raise authentication_failed

  unfoldable pub login :
      (Text → Text → Bool) → Text → LoginRequest → Settings → ℕ → Result AppError TokenResponse
  unfolding authenticate_admin create_access_token
  login verify dummy payload settings now =
      if authenticate_admin verify dummy payload.username payload.password settings
      then ok (record {
        access_token =
            create_access_token settings.admin_username settings.jwt_secret
              (settings.access_token_expire_minutes * 60) now;
        token_type = codes "bearer";
        expires_in = settings.access_token_expire_minutes * 60;
      })
      else raise authentication_failed
