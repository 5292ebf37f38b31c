-- ===== src/Routes/Admission.antt =====
-- What requests to the administrator's routes can do, and how they are answered:
-- backend/app/catalog/router.py.
use stockstack.Common.{
  ℕ, ◌≡◌, refl, sym, ap, ◌∙◌, Bool, ◌&&◌, Option, List, [], ◌∷◌, ◌++◌, if◌then◌else◌, Bool-cases,
  inl, inr, arith,
}
use stockstack.Common.Exec.{Result, ok, raise}
use stockstack.Common.Text.{Text}
use stockstack.Json.{Json, Fields}
use stockstack.Errors.{AppError}
use stockstack.Handlers.{RequestError}
use stockstack.Schemas.{accepted}
use stockstack.FieldSchema.{FieldValidationError}
use stockstack.Auth.{Jwt, Settings, require_admin}
use stockstack.Repository.Rows.{IsKeyed}
use stockstack.Repository.{get_active_schema, get_schema_version, get_detail}
use stockstack.Repository.Search.{list_products}
use stockstack.Service.{Cache, World, rollback}
use stockstack.Service.Actions.{active_schema, schema_version, detail, list}
use stockstack.Service.Outcomes.{IsClean}
use stockstack.Service.History.{
  Write, creation, edit, status_change, batch_change, perform, perform_all,
}
use stockstack.Service.History.Steps.{perform-Advances}
use stockstack.Routes.{
  Call, get_active, get_version, post_product, get_products, post_batch_status, get_product,
  put_product, patch_status, valid_call, Request, admitted, dispatch, serve, serve_all,
}

-- The write that a route makes, if it makes one.
abbrev pub write_of : Call → List Write
write_of (get_active t) = []
write_of (get_version t version) = []
write_of (post_product p) = creation p ∷ []
write_of (get_products q) = []
write_of (post_batch_status b) = batch_change b ∷ []
write_of (get_product id) = []
write_of (put_product id p) = edit id p ∷ []
write_of (patch_status id p) = status_change id p.version p.target_status ∷ []

abbrev pub is_admin : Jwt → Settings → Request → Bool
is_admin jwt settings r = accepted (require_admin jwt settings r.now r.credentials)

-- The writes of the requests that the administrator makes with valid arguments.
abbrev pub writes_of : Jwt → Settings → List (Request × Call) → List Write
writes_of jwt settings [] = []
writes_of jwt settings ((r, call) ∷ calls) =
    (if is_admin jwt settings r && valid_call call then write_of call else [])
    ++ writes_of jwt settings calls

module _ (c : Cache) (jwt : Jwt) (settings : Settings)
    (validate : Json → Fields → Option (List FieldValidationError)) (clean lower : Text → Text)
    (uuid7 : ℕ → ℕ) (reported : Call → List RequestError) where
  -- A route that writes performs its write, and the others leave everything alone.
  dispatch-write :
      (t : Text) (call : Call) (w : World c)
      → (dispatch c jwt settings validate clean lower uuid7 reported t call w).1
        ≡ perform_all c validate clean uuid7 (write_of call) w
  unfolding dispatch perform_all perform active_schema schema_version detail list list_products
      get_active_schema get_schema_version get_detail
  dispatch-write t (get_active x) w = ground arith
  dispatch-write t (get_version x version) w = ground arith
  dispatch-write t (post_product p) w = ground arith
  dispatch-write t (get_products q) w = ground arith
  dispatch-write t (post_batch_status b) w = ground arith
  dispatch-write t (get_product id) w = ground arith
  dispatch-write t (put_product id p) w = ground arith
  dispatch-write t (patch_status id p) w = ground arith

  perform_all-append :
      (a b : List Write) (w : World c)
      → perform_all c validate clean uuid7 (a ++ b) w
        ≡ perform_all c validate clean uuid7 b (perform_all c validate clean uuid7 a w)
  unfolding perform_all
  perform_all-append [] b w = refl
  perform_all-append (x ∷ a) b w = perform_all-append a b (perform c validate clean uuid7 x w)

  perform_all-clean :
      (writes : List Write) (w : World c)
      → IsClean w.session
      → IsKeyed w.session.committed.products
      → let t = (perform_all c validate clean uuid7 writes w).session in
        IsClean t × IsKeyed t.committed.products
  unfolding perform_all
  perform_all-clean [] w tidy keyed = (tidy, keyed)
  perform_all-clean (x ∷ writes) w tidy keyed =
      let step = perform-Advances c validate clean uuid7 w tidy keyed x in
      perform_all-clean writes (perform c validate clean uuid7 x w) step.clean step.keyed

  rollback_clean : (w : World c) → IsClean w.session → rollback c w ≡ w
  unfolding rollback
  rollback_clean w tidy = ap (λ d. record w { session = record w.session { db = d } }) (sym tidy)

  abbrev after : List Write → World c → World c
  after = perform_all c validate clean uuid7

  admitted-write :
      (t : Text) (call : Call) (a : Result AppError Text) (w : World c)
      → IsClean w.session
      → IsKeyed w.session.committed.products
      → (admitted c jwt settings validate clean lower uuid7 reported t call a w).1
        ≡ after (if accepted a && valid_call call then write_of call else []) w
  unfolding perform_all
  admitted-write t call (raise e) w tidy keyed = refl
  admitted-write t call (ok subject) w tidy keyed = elim (Bool-cases (valid_call call)) [
    | inl fits ↦
        let written = dispatch-write t call w in
        rw fits (
          ap (rollback c) written
          ∙ rollback_clean (after (write_of call) w)
              (perform_all-clean (write_of call) w tidy keyed).0)
    | inr not_fits ↦ rw not_fits refl
  ]

  -- In a clean session with no id twice: any sequence of requests, whoever makes them and
  -- whatever they ask for, leaves the world as the writes do that the administrator asked for with
  -- valid arguments; every other request leaves it alone.
  pub serve_all-perform_all :
      (calls : List (Request × Call)) (w : World c)
      → IsClean w.session
      → IsKeyed w.session.committed.products
      → serve_all c jwt settings validate clean lower uuid7 reported calls w
        ≡ after (writes_of jwt settings calls) w
  unfolding serve_all serve perform_all
  serve_all-perform_all [] w tidy keyed = refl
  serve_all-perform_all ((r, call) ∷ calls) w tidy keyed =
      let a = require_admin jwt settings r.now r.credentials in
      let writes = if accepted a && valid_call call then write_of call else [] in
      let (tidy', keyed') = perform_all-clean writes w tidy keyed in
      ap (serve_all c jwt settings validate clean lower uuid7 reported calls)
        (admitted-write r.request_id call a w tidy keyed)
      ∙ serve_all-perform_all calls (after writes w) tidy' keyed'
      ∙ sym (perform_all-append writes (writes_of jwt settings calls) w)
