-- ===== src/Contract/Configuration/Sound.antt =====
-- `validate_configuration_schema` of configuration.py as a whole.
use pullbox_direct_providers.Prelude.{
  ℕ, ◌≤◌, ◌≡◌, refl, ap, subst, true, List, [], ◌∷◌, arith, leb, length, String_eq, ℕ_eq, String,
  all, contains,
}
use pullbox_direct_providers.Prelude.Json.{Json, Fields, props, get}
use pullbox_direct_providers.Prelude.Dict.{lookup}
use pullbox_direct_providers.Prelude.Result.{ok, >>=-eq-ok, require-eq-ok, ok-injective}
use pullbox_direct_providers.Contract.Net.{Net}
use pullbox_direct_providers.Contract.Configuration.{
  schema_error, Controls, max_fields, top_level_keys, is_field_name, mapping, reject_unknown_keys,
  optional_text,
}
use pullbox_direct_providers.Contract.Configuration.Field.{ConfigurationField, validate_field}
use pullbox_direct_providers.Contract.Configuration.Schema.{
  required_names, validate_fields, ConfigurationSchema, is_text, is_false,
  validate_configuration_schema,
}
use pullbox_direct_providers.Contract.Configuration.Safe.{IsNative, validate_field-IsNative}

le_of_leb : (a b : ℕ) → leb a b ≡ true → a ≤ b
le_of_leb a b h = ground arith

module _ (net : Net) (controls : Controls) where
  -- Each property has a field of its name, in order, that maps to a native control.
  abbrev pub AllNative : List (String × Json) → List (String × ConfigurationField controls) → Type 0
  AllNative [] [] = Unit
  AllNative ((name, raw) ∷ properties) ((key, f) ∷ fields) =
      (key ≡ name)
      × (is_field_name name ≡ true)
      × IsNative net controls raw f
      × AllNative properties fields
  AllNative _ _ = ⊥

  validate_fields-AllNative :
      (required : List String) (properties : List (String × Json))
      (fields : List (String × ConfigurationField controls))
      → validate_fields net controls required properties ≡ ok fields
      → AllNative properties fields
  unfolding validate_fields
  validate_fields-AllNative required [] fields h = subst (AllNative []) (ok-injective h) tt
  validate_fields-AllNative required ((name, raw) ∷ properties) fields h =
      let (named, h₁) = require-eq-ok (is_field_name name) schema_error _ h in
      let (f, a, h₂) =
        >>=-eq-ok (validate_field net controls name raw (contains name required)) _ h₁ in
      let (rest, b, h₃) = >>=-eq-ok (validate_fields net controls required properties) _ h₂ in
      subst (AllNative ((name, raw) ∷ properties)) (ok-injective h₃) (
        refl,
        named,
        validate_field-IsNative net controls name raw (contains name required) f a,
        validate_fields-AllNative required properties rest b,
      )

  -- An object of known keys with at most fifty properties, each of a snake-case name, which map to
  -- native controls.
  pub record IsSafe (raw : Json) (result : ConfigurationSchema net controls) : Type 0 where
    pub schema : Fields
    pub properties : Fields
    pub read : mapping raw ≡ ok schema
    pub properties_read : mapping (get "properties" schema) ≡ ok properties
    pub known_keys : all (λ entry. contains entry.0 top_level_keys) (props schema) ≡ true
    pub is_closed : is_false net controls (get "additionalProperties" schema) ≡ true
    pub few : length (props properties) ≤ max_fields
    pub native : AllNative (props properties) result.properties

  -- A schema that `validate_configuration_schema` returns is an object of known keys that allows no
  -- additional properties, with at most fifty properties in snake case. Each has a field of the same
  -- name and place: of a known type; secret only as a text; with a URI format only as a text that is
  -- no secret; with at most a hundred distinct choices of its type; with URI suggestions only on a
  -- URI control, each a safe https origin; with a default of its type and among its choices, and a
  -- safe origin where it is a source origin or has suggestions; with bounds in order and of its type.
  pub validate_configuration_schema-IsSafe :
      (raw : Json) (result : ConfigurationSchema net controls)
      → validate_configuration_schema net controls raw ≡ ok result
      → IsSafe raw result
  unfolding validate_configuration_schema reject_unknown_keys
  validate_configuration_schema-IsSafe raw result h =
      let (schema, read, h₁) = >>=-eq-ok (mapping raw) _ h in
      let (known, h₂) =
        require-eq-ok (all (λ entry. contains entry.0 top_level_keys) (props schema)) schema_error _
          h₁ in
      let (typed, h₃) =
        require-eq-ok (is_text net controls "object" (get "type" schema)) schema_error _ h₂ in
      let (shut, h₄) =
        require-eq-ok (is_false net controls (get "additionalProperties" schema)) schema_error _
          h₃ in
      let (properties, a, h₅) = >>=-eq-ok (mapping (get "properties" schema)) _ h₄ in
      let (few, h₆) =
        require-eq-ok (leb (length (props properties)) max_fields) schema_error _ h₅ in
      let (required, b, h₇) =
        >>=-eq-ok
          (required_names net controls (lookup "required" (props schema)) (props properties)) _
          h₆ in
      let (fields, c, h₈) =
        >>=-eq-ok (validate_fields net controls required (props properties)) _ h₇ in
      let (title, d, h₉) = >>=-eq-ok (optional_text (get "title" schema)) _ h₈ in
      let (description, e, last) = >>=-eq-ok (optional_text (get "description" schema)) _ h₉ in
      let same : fields ≡ result.properties =
        ap (λ (s : ConfigurationSchema net controls). s.properties) (ok-injective last) in
      record {
        schema = schema;
        properties = properties;
        read = read;
        properties_read = a;
        known_keys = known;
        is_closed = shut;
        few = le_of_leb _ _ few;
        native =
            subst (AllNative (props properties)) same
              (validate_fields-AllNative required (props properties) fields c);
      }
