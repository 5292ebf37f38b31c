-- ===== src/FieldSchema/Attributes.antt =====
-- `validate_attributes` of backend/app/catalog/field_schema.py, on the errors that `jsonschema`
-- reports.
use stockstack.Common.{
  Bool, true, false, not, ◌&&◌, ◌||◌, Option, none, some, List, [], ◌∷◌, ◌++◌, map, filter, any,
  ltb, ◌==◌, if◌then◌else◌,
}
use stockstack.Common.Text.{Text, codes, text_eq}
use stockstack.Json.{Json, Fields, Items, str, arr, obj, nil, cons, field, end}
use stockstack.FieldSchema.{PathPart, key, index, FieldPath, part_text, FieldValidationError}

-- An error of `jsonschema`: the keyword that failed and its value, where, in what value, and by
-- what schema.
pub record SchemaError : Type 0 where
  pub validator : Text
  pub validator_value : Json
  pub absolute_path : FieldPath
  pub message : Text
  pub instance_value : Json
  pub schema : Fields

abbrev pub names_of : Fields → List Text
names_of end = []
names_of (field k v fields) = k ∷ names_of fields

-- The keys of an object.
abbrev pub object_names : Json → List Text
object_names (obj fields) = names_of fields
object_names _ = []

abbrev pub is_object : Json → Bool
is_object (obj fields) = true
is_object _ = false

-- The texts of a list, as those that `required` gives.
abbrev pub item_texts : Items → List Text
item_texts nil = []
item_texts (cons (str t) items) = t ∷ item_texts items
item_texts (cons _ items) = item_texts items

abbrev pub list_texts : Json → List Text
list_texts (arr items) = item_texts items
list_texts _ = []

abbrev pub has_text : Text → List Text → Bool
has_text t ts = any (λ u. text_eq u t) ts

-- `schema.get(name, {})`, of which only the keys are read.
abbrev pub names_at : Text → Fields → List Text
names_at name end = []
names_at name (field k v fields) = if text_eq k name then object_names v else names_at name fields

-- `_field_path` and the message.
abbrev pub plain_error : SchemaError → FieldValidationError
plain_error e = record { path = e.absolute_path; message = e.message }

abbrev same_part : PathPart → PathPart → Bool
same_part (key s) (key t) = text_eq s t
same_part (index m) (index n) = m == n
same_part _ _ = false

abbrev same_path : FieldPath → FieldPath → Bool
same_path [] [] = true
same_path (p ∷ path) (q ∷ path') = same_part p q && same_path path path'
same_path _ _ = false

-- The order of texts by their code points.
unfoldable pub text_less : Text → Text → Bool
text_less s [] = false
text_less [] (d ∷ t) = true
text_less (c ∷ s) (d ∷ t) = ltb c d || (c == d && text_less s t)

unfoldable pub texts_less : List Text → List Text → Bool
unfolding text_less
texts_less p [] = false
texts_less [] (t ∷ q) = true
texts_less (s ∷ p) (t ∷ q) = text_less s t || (text_eq s t && texts_less p q)

-- `(tuple(map(str, path)), message)`.
unfoldable pub error_less : FieldValidationError → FieldValidationError → Bool
unfolding texts_less
error_less a b =
    texts_less (map part_text a.path) (map part_text b.path)
    || (not (texts_less (map part_text b.path) (map part_text a.path))
        && text_less a.message b.message)

-- Before the errors that are not less.
unfoldable pub insert_error :
    FieldValidationError → List FieldValidationError → List FieldValidationError
unfolding error_less
insert_error e [] = e ∷ []
insert_error e (f ∷ errors) =
    let later = insert_error e errors in if error_less f e then f ∷ later else e ∷ f ∷ errors

-- `sorted`, which keeps the order of equals.
unfoldable pub sort_errors : List FieldValidationError → List FieldValidationError
unfolding insert_error
sort_errors [] = []
sort_errors (e ∷ errors) = insert_error e (sort_errors errors)

-- `search` is `re.search`, and `repr` the text of a name in a message.
module _ (search : Text → Text → Bool) (repr : Text → Text) where
  abbrev pub is_unknown : Fields → Text → Bool
  is_unknown schema name =
      not (has_text name (names_at (codes "properties") schema))
      && not (any (λ p. search p name) (names_at (codes "patternProperties") schema))

  abbrev pub unknown_errors : SchemaError → List Text → List FieldValidationError
  unknown_errors e [] = plain_error e ∷ []
  unknown_errors e (name ∷ unknown) =
      map
        (λ n. record {
          path = e.absolute_path ++ key n ∷ [];
          message = codes "additional property " ++ repr n ++ codes " is not allowed";
        })
        (name ∷ unknown)

  -- `_additional_property_errors`.
  unfoldable pub additional_property_errors : SchemaError → List FieldValidationError
  additional_property_errors e =
      if is_object e.instance_value
      then unknown_errors e (filter (is_unknown e.schema) (object_names e.instance_value))
      else plain_error e ∷ []

  abbrev pub required_error : FieldPath → Text → FieldValidationError
  required_error path name = record {
    path = path ++ key name ∷ [];
    message = codes "required property " ++ repr name ++ codes " is missing";
  }

  -- The loop over the names that an error requires, with `seen_required`.
  unfoldable pub missing_errors :
      FieldPath
      → List Text
      → List (FieldPath × Text)
      → List Text
      → List FieldValidationError × List (FieldPath × Text)
  missing_errors path present seen [] = ([], seen)
  missing_errors path present seen (name ∷ required) =
      let skipped =
        has_text name present || any (λ m. same_path m.0 path && text_eq m.1 name) seen in
      let rest =
        missing_errors path present (if skipped then seen else (path, name) ∷ seen) required in
      (if skipped then rest.0 else required_error path name ∷ rest.0, rest.1)

  -- The loop over the errors.
  unfoldable pub collect_errors :
      List (FieldPath × Text) → List SchemaError → List FieldValidationError
  unfolding missing_errors additional_property_errors
  collect_errors seen [] = []
  collect_errors seen (e ∷ errors) =
      let missing =
        missing_errors e.absolute_path (object_names e.instance_value) seen
          (list_texts e.validator_value) in
      let is_required = text_eq e.validator (codes "required") && is_object e.instance_value in
      let is_additional = text_eq e.validator (codes "additionalProperties") in
      let rest =
        collect_errors (if not is_additional && is_required then missing.1 else seen) errors in
      if is_additional
      then additional_property_errors e ++ rest
      else if is_required
      then missing.0 ++ rest
      else plain_error e ∷ rest

  -- `check_schema` tells whether a schema is one, and `iter_errors` are the errors that `jsonschema`
  -- finds, with the `http-url` format; `none` is a `SchemaError`.
  unfoldable pub validate_attributes :
      (Json → Bool)
      → (Json → Fields → List SchemaError)
      → Json
      → Fields
      → Option (List FieldValidationError)
  unfolding collect_errors sort_errors
  validate_attributes check_schema iter_errors schema attributes =
      if check_schema schema
      then some (sort_errors (collect_errors [] (iter_errors schema attributes)))
      else none
