-- ===== src/Contract/Configuration/Field.antt =====
-- `_choices`, `_suggestions` and `_validate_field` of configuration.py.
use Prim.Native.String
use pullbox_direct_providers.Prelude.{
  ℕ, Bool, true, false, not, ◌&&◌, ◌||◌, Option, none, some, List, [], ◌∷◌, ◌++◌, ltb, leb,
  if◌then◌else◌, length, ◌==◌, ℕ_eq, String_eq, String, contains,
}
use pullbox_direct_providers.Prelude.Json.{
  Json, null, bool, str, arr, obj, Fields, elems, props, get,
}
use pullbox_direct_providers.Prelude.Dict.{lookup}
use pullbox_direct_providers.Prelude.Result.{Result, ok, raised, ◌>>=◌, ◌>>◌, require}
use pullbox_direct_providers.Prelude.Text.{is_char}
use pullbox_direct_providers.Contract.Net.{Net}
use pullbox_direct_providers.Contract.Configuration.{
  SchemaError, schema_error, type_error, Controls, field_keys, field_types, mapping,
  reject_unknown_keys, optional_text, optional_nonnegative_int, optional_number,
  validate_typed_value, is_choice, is_none, is_safe_https_origin,
}

-- The loop of `_choices`, with the choices so far.
unfoldable pub add_choices : String → List Json → List Json → Result SchemaError (List Json)
unfolding validate_typed_value is_choice
add_choices value_type choices [] = ok choices
add_choices value_type choices (value ∷ values) = do
  validate_typed_value value value_type
  require (not (is_choice value choices)) schema_error
  add_choices value_type (choices ++ value ∷ []) values

abbrev pub is_nonempty : {A : Type 0} → List A → Bool
is_nonempty [] = false
is_nonempty (x ∷ xs) = true

-- `_choices`
unfoldable pub choices_of : Json → String → Result SchemaError (List Json)
unfolding add_choices
choices_of null value_type = ok []
choices_of (arr items) value_type = do
  require (is_nonempty (elems items) && leb (length (elems items)) 100) schema_error
  add_choices value_type [] (elems items)
choices_of _ value_type = raised schema_error

-- `"string"` and no secret, and the only format that there is
unfoldable pub format_of : Json → String → Bool → Result SchemaError Bool
format_of null value_type secret = ok false
format_of (str s) value_type secret = do
  require (s == "uri" && value_type == "string" && not secret) schema_error
  ok true
format_of (arr items) value_type secret = raised type_error
format_of (obj fields) value_type secret = raised type_error
format_of _ value_type secret = raised schema_error

-- field.get(name, False), a bool
abbrev pub marker_of : Option Json → Result SchemaError Bool
marker_of none = ok false
marker_of (some (bool b)) = ok b
marker_of (some v) = raised schema_error

unfoldable pub marker : String → Fields → Result SchemaError Bool
marker name raw_field = marker_of (lookup name (props raw_field))

-- A field's type, whether it is a secret, and whether its format is "uri".
unfoldable pub value_type_of : Json → Result SchemaError String
value_type_of (str s) = do require (contains s field_types) schema_error; ok s
value_type_of _ = raised schema_error

unfoldable pub control_of : Fields → Result SchemaError (String × Bool × Bool)
unfolding value_type_of marker format_of get
control_of raw_field = do
  value_type ← value_type_of (get "type" raw_field)
  secret ← marker "x-pullbox-secret" raw_field
  require (not secret || value_type == "string") schema_error
  is_uri ← format_of (get "format" raw_field) value_type secret
  ok (value_type, secret, is_uri)

module _ (net : Net) where
  abbrev pub safe_origin : Json → Result SchemaError String
  safe_origin (str s) = do require (is_safe_https_origin net s) schema_error; ok s
  safe_origin _ = raised schema_error

  -- The loop of `_suggestions`, with the suggestions so far.
  unfoldable pub add_suggestions : List String → List Json → Result SchemaError (List String)
  add_suggestions suggestions [] = ok suggestions
  add_suggestions suggestions (value ∷ values) = do
    s ← safe_origin value
    require (not (contains s suggestions)) schema_error
    add_suggestions (suggestions ++ s ∷ []) values

  unfoldable pub listed_suggestions : Json → Result SchemaError (List String)
  unfolding add_suggestions
  listed_suggestions (arr items) = do
    require (is_nonempty (elems items) && leb (length (elems items)) 20) schema_error
    add_suggestions [] (elems items)
  listed_suggestions _ = raised schema_error

  -- `_suggestions`
  unfoldable pub suggestions_of : Json → String × Bool × Bool → Result SchemaError (List String)
  unfolding listed_suggestions
  suggestions_of null control = ok []
  suggestions_of raw (value_type, secret, is_uri) = do
    require (value_type == "string" && is_uri && not secret) schema_error
    listed_suggestions raw

  abbrev pub is_safe_default : Json → Bool
  is_safe_default (str s) = is_safe_https_origin net s
  is_safe_default _ = false

  -- The checks of a default that is there.
  unfoldable pub checked_default : Option Json → String → List Json → Bool → Result SchemaError Json
  unfolding validate_typed_value is_choice
  checked_default none value_type choices as_origin = ok null
  checked_default (some default) value_type choices as_origin = do
    validate_typed_value default value_type
    require (not (is_nonempty choices) || is_choice default choices) schema_error
    require (not as_origin || is_safe_default default) schema_error
    ok default

-- not (both are there and the first exceeds the second)
abbrev pub in_order : {A : Type 0} → (A → A → Bool) → Option A → Option A → Bool
in_order exceeds (some a) (some b) = not (exceeds a b)
in_order exceeds _ _ = true

abbrev pub greater : ℕ → ℕ → Bool
greater a b = ltb b a

abbrev pub is_numeric : String → Bool
is_numeric value_type = value_type == "integer" || value_type == "number"

pub record Bounds (controls : Controls) : Type 0 where
  pub minimum : Option controls.Float
  pub maximum : Option controls.Float
  pub min_length : Option ℕ
  pub max_length : Option ℕ

-- The bounds of a field: numeric ones only on numbers, lengths only on the other types.
unfoldable pub bounds_of :
    (controls : Controls) → Fields → String → Result SchemaError (Bounds controls)
unfolding optional_number optional_nonnegative_int get
bounds_of controls raw_field value_type = do
  minimum ← optional_number controls (get "minimum" raw_field)
  maximum ← optional_number controls (get "maximum" raw_field)
  require (in_order controls.exceeds minimum maximum) schema_error
  min_length ← optional_nonnegative_int (get "minLength" raw_field)
  max_length ← optional_nonnegative_int (get "maxLength" raw_field)
  require
      (if is_numeric value_type
        then is_none min_length && is_none max_length
        else is_none minimum && is_none maximum)
      schema_error
  require (in_order greater min_length max_length) schema_error
  ok (record {
    minimum = minimum;
    maximum = maximum;
    min_length = min_length;
    max_length = max_length;
  })

pub record ConfigurationField (controls : Controls) : Type 0 where
  pub name : String
  pub value_type : String
  pub title : String
  pub description : Option String
  pub required : Bool
  pub secret : Bool
  -- whether `input_format` is "uri"; the other value is None
  pub is_uri : Bool
  pub default : Json
  pub choices : List Json
  pub bounds : Bounds controls
  pub placeholder : Option String
  pub suggestions : List String
  pub source_origin : Bool

-- name.replace("_", " ")
unfoldable pub spaced : String → String
spaced String.[] = String.[]
spaced (String.◌∷◌ c s) =
    if is_char b'_' c then String.◌++◌ " " (spaced s) else String.◌∷◌ c (spaced s)

abbrev pub title_or : String → Option String → String
title_or other none = other
title_or other (some title) = title

module _ (net : Net) (controls : Controls) where
  -- The controls that a field offers: its choices, its suggestions, whether it is a source origin,
  -- and its default.
  unfoldable pub offers_of :
      Fields → String × Bool × Bool → Result SchemaError (List Json × List String × Bool × Json)
  unfolding choices_of suggestions_of marker checked_default get
  offers_of raw_field control = do
    choices ← choices_of (get "enum" raw_field) control.0
    suggestions ← suggestions_of net (get "x-pullbox-suggestions" raw_field) control
    source_origin ← marker "x-pullbox-source-origin" raw_field
    require (not source_origin || (control.0 == "string" && control.2 && not control.1))
        schema_error
    default ←
        checked_default net (lookup "default" (props raw_field)) control.0 choices
          (source_origin || is_nonempty suggestions)
    ok (choices, suggestions, source_origin, default)

  -- `_validate_field`
  unfoldable pub validate_field :
      String → Json → Bool → Result SchemaError (ConfigurationField controls)
  unfolding mapping reject_unknown_keys control_of offers_of bounds_of optional_text spaced get
  validate_field name raw required = do
    raw_field ← mapping raw
    reject_unknown_keys (props raw_field) field_keys
    control ← control_of raw_field
    offers ← offers_of raw_field control
    bounds ← bounds_of controls raw_field control.0
    title ← optional_text (get "title" raw_field)
    description ← optional_text (get "description" raw_field)
    placeholder ← optional_text (get "x-pullbox-placeholder" raw_field)
    ok (record {
      name = name;
      value_type = control.0;
      title = title_or (controls.title (spaced name)) title;
      description = description;
      required = required;
      secret = control.1;
      is_uri = control.2;
      default = offers.3;
      choices = offers.0;
      bounds = bounds;
      placeholder = placeholder;
      suggestions = offers.1;
      source_origin = offers.2;
    })
