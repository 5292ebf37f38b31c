-- ===== src/Auth/Tokens.antt =====
-- Who gets a token, and whom a token lets in.
use stockstack.Common.{
  ℕ, ◌+◌, ◌*◌, ◌≡◌, ◌≢◌, subst, ◌↔◌, ◌≤◌, ◌<◌, refl, sym, ap, ◌∙◌, Bool, true, some, [], ◌∷◌,
  Bool-cases, inl, inr, arith,
}
use stockstack.Common.Exec.{Result, ok, raise, Result-cases}
use stockstack.Common.Text.{Text, codes, text_eq, text_eq_refl, text_eq→≡}
use stockstack.Errors.{AppError}
use stockstack.Json.{str}
use stockstack.Auth.{
  Settings, Claims, Jwt, LoginRequest, TokenResponse, Credentials, lower_ascii, subject_of,
  create_access_token, decode_access_token, admin_only, require_admin, authenticate_admin, login,
}

abbrev ok_or : {A : Type 0} → A → Result AppError A → A
ok_or d (ok a) = a
ok_or d (raise e) = d

subject_of-ok : (s : Text) → s ≢ [] → subject_of (some (some (str s))) ≡ ok s
subject_of-ok [] named = absurd (named refl)
subject_of-ok (c ∷ s) named = refl

module _ (jwt : Jwt) where
  decode-issued :
      (settings : Settings) (seconds now later : ℕ)
      → settings.admin_username ≢ []
      → now ≤ later
      → later < now + seconds
      → decode_access_token jwt
          (create_access_token jwt settings.admin_username settings.jwt_secret seconds now)
          settings.jwt_secret
          later
        ≡ ok settings.admin_username
  unfolding decode_access_token create_access_token
  decode-issued settings seconds now later named after before =
      let claims : Claims = record {
        sub = settings.admin_username;
        iat = now;
        exp = now + seconds;
      } in
      rw (jwt.decode-encode claims settings.jwt_secret later after before)
        (subject_of-ok settings.admin_username named)

  admin_only-ok :
      (settings : Settings) (s : Text) {subject : Text}
      → admin_only jwt settings (ok s) ≡ ok subject
      → (s ≡ subject) × (subject ≡ settings.admin_username)
  admin_only-ok settings s {subject} h = elim (Bool-cases (text_eq s settings.admin_username)) [
    | inl same ↦
        let admin = text_eq→≡ s settings.admin_username same in
        let is : admin_only jwt settings (ok s) ≡ ok s = rw same refl in
        let here : s ≡ subject = ap (ok_or s) (sym is ∙ h) in (here, sym here ∙ admin)
    | inr other ↦ absurd (ground arith)
  ]

module _ (jwt : Jwt) (verify : Text → Text → Bool) (dummy : Text) where
  -- A login succeeds exactly with the administrator's name and a password that has its hash.
  pub login-eq-ok_iff :
      (payload : LoginRequest) (settings : Settings) (now : ℕ)
      → ((t : TokenResponse) × (login jwt verify dummy payload settings now ≡ ok t)) ↔ (
          (payload.username ≡ settings.admin_username)
          × (verify payload.password settings.admin_password_hash ≡ true))
  unfolding login
  login-eq-ok_iff payload settings now = (
    λ h. elim (Bool-cases (text_eq payload.username settings.admin_username)) [
      | inl same ↦ (
        text_eq→≡ _ _ same,
        elim (Bool-cases (verify payload.password settings.admin_password_hash)) [
          | inl verified ↦ verified
          | inr unverified ↦ absurd (ground arith)
        ],
      )
      | inr other ↦ absurd (ground arith)
    ],
    λ h. rw (h.0, text_eq_refl settings.admin_username, h.1) (_, refl),
  )

  login-issued :
      (payload : LoginRequest) (settings : Settings) (now : ℕ) {t : TokenResponse}
      → login jwt verify dummy payload settings now ≡ ok t
      → let seconds = settings.access_token_expire_minutes * 60 in
        record {
          access_token =
              create_access_token jwt settings.admin_username settings.jwt_secret seconds now;
          token_type = codes "bearer";
          expires_in = seconds;
        }
        ≡ t
  unfolding login
  login-issued payload settings now {t} h =
      elim (Bool-cases
        (authenticate_admin verify dummy payload.username payload.password settings)) [
          | inl good ↦
              let seconds = settings.access_token_expire_minutes * 60 in
              let token =
                create_access_token jwt settings.admin_username settings.jwt_secret seconds now in
              let issued : TokenResponse = record {
                access_token = token;
                token_type = codes "bearer";
                expires_in = seconds;
              } in
              let is : login jwt verify dummy payload settings now ≡ ok issued = rw good refl in
              ap (ok_or t) (sym is ∙ h)
          | inr bad ↦ absurd (ground (arith, bad))
        ]

  -- Until it expires, the token of a login lets its bearer in as the administrator, whose name is
  -- not empty, in whatever letters the scheme is written.
  pub require_admin-login :
      (payload : LoginRequest) (settings : Settings) (now later : ℕ) (scheme : Text)
      {t : TokenResponse}
      → settings.admin_username ≢ []
      → text_eq (lower_ascii scheme) (codes "bearer") ≡ true
      → login jwt verify dummy payload settings now ≡ ok t
      → now ≤ later
      → later < now + t.expires_in
      → require_admin jwt settings later (some (record { scheme = scheme; token = t.access_token }))
        ≡ ok settings.admin_username
  unfolding login require_admin
  require_admin-login payload settings now later scheme {t} named bearer answered after before =
      let seconds = settings.access_token_expire_minutes * 60 in
      let issued : TokenResponse = record {
        access_token =
            create_access_token jwt settings.admin_username settings.jwt_secret seconds now;
        token_type = codes "bearer";
        expires_in = seconds;
      } in
      let same : issued ≡ t = login-issued payload settings now answered in
      subst
        (λ (x : TokenResponse).
          later < now + x.expires_in
          → require_admin jwt settings later
              (some (record { scheme = scheme; token = x.access_token }))
            ≡ ok settings.admin_username)
        same
        (λ in_time.
          rw
            (
              bearer,
              decode-issued jwt settings seconds now later named after in_time,
              text_eq_refl settings.admin_username,
            )
            refl)
        before

module _ (jwt : Jwt) where
  -- A request is let in exactly if it bears, as such, a token that the administrator is the
  -- subject of at that time.
  pub require_admin-eq-ok_iff :
      (settings : Settings) (now : ℕ) (c : Credentials) (subject : Text)
      → (require_admin jwt settings now (some c) ≡ ok subject) ↔ (
          (text_eq (lower_ascii c.scheme) (codes "bearer") ≡ true)
          × (decode_access_token jwt c.token settings.jwt_secret now ≡ ok subject)
          × (subject ≡ settings.admin_username))
  unfolding require_admin
  require_admin-eq-ok_iff settings now c subject = (
    λ h. elim (Bool-cases (text_eq (lower_ascii c.scheme) (codes "bearer"))) [
      | inr other ↦ absurd (ground arith)
      | inl bearer ↦ elim (Result-cases (decode_access_token jwt c.token settings.jwt_secret now)) [
        | inr (e, bad) ↦ absurd (ground arith)
        | inl (s, read) ↦
            let (here, admin) = admin_only-ok jwt settings s (sym (rw (bearer, read) refl) ∙ h) in
            (bearer, read ∙ ap ok here, admin)
      ]
    ],
    λ h. rw (h.0, h.1, h.2, text_eq_refl settings.admin_username) refl,
  )
