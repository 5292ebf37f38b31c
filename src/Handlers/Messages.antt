-- ===== src/Handlers/Messages.antt =====
-- Messages grouped by path: none is lost, and none is added.
use stockstack.Common.{
  append_assoc, ◌≡◌, refl, sym, ap, ◌∙◌, Bool, true, false, List, [], ◌∷◌, ◌++◌, map, filter,
  if◌then◌else◌, Bool-cases, inl, inr, arith,
}
use stockstack.Common.Text.{Text, text_eq, text_eq→≡, text_eq_refl}
use stockstack.Errors.{FieldErrors, response}
use stockstack.FieldSchema.{FieldValidationError, path_text}
use stockstack.Service.{add_message, field_errors_from, field_errors, path_or_attributes}
use stockstack.Handlers.{RequestError, error_path, request_errors, validation_error_handler}

-- The messages under a path.
abbrev pub messages_at : Text → FieldErrors → List Text
messages_at t [] = []
messages_at t ((p, messages) ∷ errors) = if text_eq p t then messages else messages_at t errors

append-nil : {A : Type 0} (xs : List A) → xs ++ [] ≡ xs
append-nil [] = refl
append-nil (x ∷ xs) = ap (◌∷◌ x) (append-nil xs)

differs : (p path t : Text) → text_eq p path ≡ false → text_eq p t ≡ true → text_eq path t ≡ false
differs p path t other here = elim (Bool-cases (text_eq path t)) [
  | inr apart ↦ apart
  | inl same ↦
      let equal : text_eq p path ≡ true =
        rw (text_eq→≡ p t here, text_eq→≡ path t same, text_eq_refl t) refl in
      absurd (ground (arith, equal))
]

messages_at-add_message :
    (t path message : Text) (errors : FieldErrors)
    → messages_at t (add_message path message errors)
      ≡ messages_at t errors ++ (if text_eq path t then message ∷ [] else [])
unfolding add_message
messages_at-add_message t path message [] = refl
messages_at-add_message t path message ((p, messages) ∷ errors) =
    elim (Bool-cases (text_eq p path)) [
      | inl same ↦
          let e = text_eq→≡ p path same in
          elim (Bool-cases (text_eq path t)) [
            | inl here ↦ rw (same, e, here) refl
            | inr there ↦ rw (same, e, there) (sym (append-nil (messages_at t errors)))
          ]
      | inr other ↦ elim (Bool-cases (text_eq p t)) [
        | inl here ↦ rw (other, here, differs p path t other here) (sym (append-nil messages))
        | inr there ↦ rw (other, there) (messages_at-add_message t path message errors)
      ]
    ]

request_errors-from :
    (t : Text) (errors : List RequestError) (result : FieldErrors)
    → messages_at t (request_errors result errors)
      ≡ messages_at t result ++ map (λ e. e.msg) (filter (λ e. text_eq (error_path e) t) errors)
unfolding request_errors
request_errors-from t [] result = sym (append-nil (messages_at t result))
request_errors-from t (e ∷ errors) result =
    request_errors-from t errors (add_message (error_path e) e.msg result)
    ∙ (ap (λ m. m ++ rest) (messages_at-add_message t (error_path e) e.msg result)
        ∙ (append_assoc (messages_at t result) (if text_eq (error_path e) t then e.msg ∷ [] else [])
              rest
            ∙ ap (λ m. messages_at t result ++ m) (kept (text_eq (error_path e) t))))
  where
    rest : List Text
    rest = map (λ e. e.msg) (filter (λ e. text_eq (error_path e) t) errors)

    kept :
        (b : Bool)
        → (if b then e.msg ∷ [] else []) ++ rest
          ≡ map
              (λ e. e.msg)
              (if b
                then e ∷ filter (λ e. text_eq (error_path e) t) errors
                else filter (λ e. text_eq (error_path e) t) errors)
    kept true = refl
    kept false = refl

field_errors-from :
    (t : Text) (errors : List FieldValidationError) (result : FieldErrors)
    → messages_at t (field_errors_from result errors)
      ≡ messages_at t result
        ++ map
            (λ e. e.message)
            (filter (λ e. text_eq (path_or_attributes (path_text e.path)) t) errors)
unfolding field_errors_from
field_errors-from t [] result = sym (append-nil (messages_at t result))
field_errors-from t (e ∷ errors) result =
    field_errors-from t errors
      (add_message (path_or_attributes (path_text e.path)) e.message result)
    ∙ (ap (λ m. m ++ rest)
          (messages_at-add_message t (path_or_attributes (path_text e.path)) e.message result)
        ∙ (append_assoc (messages_at t result) (if here e then e.message ∷ [] else []) rest
            ∙ ap (λ m. messages_at t result ++ m) (kept (here e))))
  where
    here : FieldValidationError → Bool
    here f = text_eq (path_or_attributes (path_text f.path)) t

    rest : List Text
    rest = map (λ e. e.message) (filter here errors)

    kept :
        (b : Bool)
        → (if b then e.message ∷ [] else []) ++ rest
          ≡ map (λ e. e.message) (if b then e ∷ filter here errors else filter here errors)
    kept true = refl
    kept false = refl

-- The response to an invalid request is a 400 that has, under every path, the messages of the
-- errors at that path, all of them, in their order.
pub validation_error_handler_lem :
    (request_id t : Text) (errors : List RequestError)
    → let r = validation_error_handler request_id errors in
      (r.status_code ≡ 400)
      × (r.request_id ≡ request_id)
      × (messages_at t r.field_errors
          ≡ map (λ e. e.msg) (filter (λ e. text_eq (error_path e) t) errors))
unfolding validation_error_handler response
validation_error_handler_lem request_id t errors = (refl, refl, request_errors-from t errors [])

-- The errors of attributes have, under every path, the messages of the errors at that path, all of
-- them, in their order.
pub messages_at-field_errors :
    (t : Text) (errors : List FieldValidationError)
    → messages_at t (field_errors errors)
      ≡ map
          (λ e. e.message)
          (filter (λ e. text_eq (path_or_attributes (path_text e.path)) t) errors)
messages_at-field_errors t errors = field_errors-from t errors []
