-- ===== src/FieldSchema/Acceptance.antt =====
-- Which attributes `validate_attributes` finds nothing against.
use mathlib.Core.Option.{some-injective}
use stockstack.Common.{
  ◌≡◌, ◌↔◌, refl, Bool, true, not, ◌&&◌, some, List, [], ◌∷◌, ◌++◌, any, filter, All, Bool-cases,
  inl, inr, arith,
}
use stockstack.Common.Text.{Text, codes, text_eq}
use stockstack.Json.{Json, Fields}
use stockstack.FieldSchema.{FieldPath, FieldValidationError}
use stockstack.FieldSchema.Attributes.{
  SchemaError, object_names, is_object, list_texts, has_text, is_unknown, unknown_errors,
  additional_property_errors, missing_errors, collect_errors, insert_error, sort_errors,
  validate_attributes,
}

-- An error of the keyword `required` for an object lists a name that the object does not have.
abbrev pub IsMissing : SchemaError → Type 0
IsMissing e =
    text_eq e.validator (codes "required") && is_object e.instance_value ≡ true
    → any (λ n. not (has_text n (object_names e.instance_value))) (list_texts e.validator_value)
      ≡ true

module _ (search : Text → Text → Bool) (repr : Text → Text) where
  missing_errors-some :
      (path : FieldPath) (present required : List Text)
      → any (λ n. not (has_text n present)) required ≡ true
      → ¬ ((missing_errors search repr path present [] required).0 ≡ [])
  unfolding missing_errors
  missing_errors-some path present [] h empty = ground arith
  missing_errors-some path present (n ∷ required) h empty =
      ground (arith, missing_errors-some path present required)

  unknown_errors-some :
      (e : SchemaError) (unknown : List Text) → ¬ (unknown_errors search repr e unknown ≡ [])
  unknown_errors-some e [] empty = ground arith
  unknown_errors-some e (n ∷ unknown) empty = ground arith

  additional_property_errors-some :
      (e : SchemaError) → ¬ (additional_property_errors search repr e ≡ [])
  unfolding additional_property_errors
  additional_property_errors-some e empty = elim (Bool-cases (is_object e.instance_value)) [
    | inl object ↦
        unknown_errors-some e
          (filter (is_unknown search repr e.schema) (object_names e.instance_value))
          (rw object at empty)
    | inr other ↦ absurd (ground arith)
  ]

  append_nil : {A : Type 0} (xs ys : List A) → xs ++ ys ≡ [] → xs ≡ []
  append_nil [] ys h = refl
  append_nil (x ∷ xs) ys h = ground arith

  collect_errors-some :
      (e : SchemaError) (errors : List SchemaError)
      → IsMissing e
      → ¬ (collect_errors search repr [] (e ∷ errors) ≡ [])
  unfolding collect_errors
  collect_errors-some e errors missing empty =
      elim (Bool-cases (text_eq e.validator (codes "additionalProperties"))) [
        | inl additional ↦
            additional_property_errors-some e (append_nil _ _ (rw additional at empty))
        | inr other ↦
            elim (Bool-cases
              (text_eq e.validator (codes "required") && is_object e.instance_value)) [
                | inl required ↦
                    missing_errors-some e.absolute_path (object_names e.instance_value)
                      (list_texts e.validator_value) (missing required)
                      (append_nil _ _ (rw (other, required) at empty))
                | inr plain ↦ absurd (ground arith)
              ]
      ]

  insert_error-some :
      (e : FieldValidationError) (errors : List FieldValidationError)
      → ¬ (insert_error e errors ≡ [])
  unfolding insert_error
  insert_error-some e [] h = ground arith
  insert_error-some e (f ∷ errors) h = ground arith

  sort_errors-nil : (errors : List FieldValidationError) → sort_errors errors ≡ [] → errors ≡ []
  unfolding sort_errors
  sort_errors-nil [] h = refl
  sort_errors-nil (e ∷ errors) h = absurd (insert_error-some e (sort_errors errors) h)

  collect_errors-nil :
      (errors : List SchemaError)
      → All IsMissing errors
      → (collect_errors search repr [] errors ≡ []) ↔ (errors ≡ [])
  unfolding collect_errors
  collect_errors-nil [] missing = (λ h. refl, λ h. refl)
  collect_errors-nil (e ∷ errors) missing =
      (λ h. absurd (collect_errors-some e errors missing.0 h), λ h. absurd (ground arith))

module _ (search : Text → Text → Bool) (repr : Text → Text) (check_schema : Json → Bool)
    (iter_errors : Json → Fields → List SchemaError) (schema : Json) (attributes : Fields) where
  -- By a valid schema nothing is found against attributes exactly if `jsonschema` reports no error.
  -- An error of `required` is taken to list a name that is missing.
  pub validate_attributes-accepts_iff :
      check_schema schema ≡ true
      → All IsMissing (iter_errors schema attributes)
      → (validate_attributes search repr check_schema iter_errors schema attributes ≡ some [])
        ↔ (iter_errors schema attributes ≡ [])
  unfolding validate_attributes
  validate_attributes-accepts_iff valid missing =
      let (fro, back) = collect_errors-nil search repr (iter_errors schema attributes) missing in
      rw valid
        (λ h. fro (sort_errors-nil search repr _ (some-injective _ _ h)), λ h. rw (back h) refl)
