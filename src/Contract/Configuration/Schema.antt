-- ===== src/Contract/Configuration/Schema.antt =====
-- `_required_names` and `validate_configuration_schema` of configuration.py.

use pullbox_direct_providers.Prelude.{
  Bool, true, false, not, ◌&&◌, Option, none, some, List, [], ◌∷◌, leb, length, ◌==◌, ℕ_eq,
  String_eq, String, all, contains,
}
use pullbox_direct_providers.Prelude.Json.{Json, bool, str, arr, elems, props, get}
use pullbox_direct_providers.Prelude.Dict.{lookup}
use pullbox_direct_providers.Prelude.Result.{Result, ok, raised, ◌>>=◌, ◌>>◌, require}
use pullbox_direct_providers.Contract.Net.{Net}
use pullbox_direct_providers.Contract.Configuration.{
  SchemaError, schema_error, Controls, max_fields, top_level_keys, is_field_name, mapping,
  reject_unknown_keys, optional_text, is_none,
}
use pullbox_direct_providers.Contract.Configuration.Field.{ConfigurationField, validate_field}

module _ (net : Net) (controls : Controls) where
  abbrev pub is_string : Json → Bool
  is_string (str s) = true
  is_string _ = false

  abbrev pub strings : List Json → List String
  strings [] = []
  strings (str s ∷ values) = s ∷ strings values
  strings (_ ∷ values) = strings values

  abbrev pub is_distinct : List String → Bool
  is_distinct [] = true
  is_distinct (s ∷ ss) = not (contains s ss) && is_distinct ss

  -- The names, a list of distinct texts, at most fifty, each of a property.
  unfoldable pub listed_names : Json → List (String × Json) → Result SchemaError (List String)
  listed_names (arr items) properties = do
    require (all is_string (elems items)) schema_error
    require (leb (length (elems items)) max_fields) schema_error
    require (is_distinct (strings (elems items))) schema_error
    require (all (λ s. not (is_none (lookup s properties))) (strings (elems items))) schema_error
    ok (strings (elems items))
  listed_names _ properties = raised schema_error

  -- `_required_names`, where a missing list is empty
  unfoldable pub required_names :
      Option Json → List (String × Json) → Result SchemaError (List String)
  unfolding listed_names
  required_names none properties = ok []
  required_names (some raw) properties = listed_names raw properties

  -- The loop of `validate_configuration_schema`.
  unfoldable pub validate_fields :
      List String
      → List (String × Json)
      → Result SchemaError (List (String × ConfigurationField controls))
  unfolding is_field_name
  validate_fields required [] = ok []
  validate_fields required ((name, raw) ∷ properties) = do
    require (is_field_name name) schema_error
    raw_field ← validate_field net controls name raw (contains name required)
    fields ← validate_fields required properties
    ok ((name, raw_field) ∷ fields)

  abbrev pub is_false : Json → Bool
  is_false (bool b) = not b
  is_false _ = false

  abbrev pub is_text : String → Json → Bool
  is_text s (str t) = t == s
  is_text s _ = false

  pub record ConfigurationSchema : Type 0 where
    pub title : Option String
    pub description : Option String
    pub properties : List (String × ConfigurationField controls)

  -- `validate_configuration_schema`
  unfoldable pub validate_configuration_schema : Json → Result SchemaError ConfigurationSchema
  unfolding mapping reject_unknown_keys required_names validate_fields optional_text get
  validate_configuration_schema raw = do
    schema ← mapping raw
    reject_unknown_keys (props schema) top_level_keys
    require (is_text "object" (get "type" schema)) schema_error
    require (is_false (get "additionalProperties" schema)) schema_error
    raw_properties ← mapping (get "properties" schema)
    require (leb (length (props raw_properties)) max_fields) schema_error
    required ← required_names (lookup "required" (props schema)) (props raw_properties)
    properties ← validate_fields required (props raw_properties)
    title ← optional_text (get "title" schema)
    description ← optional_text (get "description" schema)
    ok (record { title = title; description = description; properties = properties })
