-- ===== src/Contract/Configuration/Safe.antt =====
-- The schemas that configuration.py returns map to native controls.
use pullbox_direct_providers.Prelude.{
  ◌≤◌, ◌≡◌, sym, subst, ◌⊎◌, inl, inr, Bool, true, false, not, ◌&&◌, ◌||◌, Option, none, some, List,
  [], arith, if◌then◌else◌, length, ◌==◌, ℕ_eq, String_eq, String, eq_iff, all, contains,
  Bool-cases,
}
use pullbox_direct_providers.Prelude.Json.{
  Json, null, str, bool, int, float, arr, obj, Fields, props, get,
}
use pullbox_direct_providers.Prelude.Dict.{lookup}
use pullbox_direct_providers.Prelude.Result.{ok, >>=-eq-ok, require-eq-ok, ok-injective}
use pullbox_direct_providers.Contract.Net.{Net}
use pullbox_direct_providers.Contract.Configuration.{
  schema_error, Controls, field_keys, field_types, mapping, reject_unknown_keys, optional_text,
  optional_nonnegative_int, optional_number, is_none,
}
use pullbox_direct_providers.Contract.Configuration.Field.{
  choices_of, format_of, value_type_of, marker, control_of, suggestions_of, checked_default,
  in_order, greater, is_numeric, is_nonempty, Bounds, bounds_of, ConfigurationField, spaced,
  offers_of, validate_field, title_or,
}
use pullbox_direct_providers.Contract.Configuration.Native.{
  IsChoices, choices_of-IsChoices, SuggestionsFit, suggestions_of-Fit, DefaultFits,
  checked_default-Fits,
}

-- Type, secret and format of a control: a known type; a secret is a text; "uri" only on a text that
-- is no secret.
pub record IsControl (control : String × Bool × Bool) : Type 0 where
  pub known : contains control.0 field_types ≡ true
  pub secret_text : (control.1 ≡ false) ⊎ (control.0 ≡ "string")
  pub uri_text : (control.2 ≡ false) ⊎ ((control.0 ≡ "string") × (control.1 ≡ false))

value_type_of-known :
    (raw : Json) (value_type : String)
    → value_type_of raw ≡ ok value_type
    → contains value_type field_types ≡ true
unfolding value_type_of
value_type_of-known (str s) value_type h =
    let (known, same) = require-eq-ok (contains s field_types) schema_error (ok s) h in
    subst (λ t. contains t field_types ≡ true) (ok-injective same) known
value_type_of-known null value_type h = cc
value_type_of-known (bool b) value_type h = cc
value_type_of-known (int n) value_type h = cc
value_type_of-known (float m k) value_type h = cc
value_type_of-known (arr items) value_type h = cc
value_type_of-known (obj fields) value_type h = cc

format_of-text :
    (raw : Json) (value_type : String) (secret is_uri : Bool)
    → format_of raw value_type secret ≡ ok is_uri
    → (is_uri ≡ false) ⊎ ((value_type ≡ "string") × (secret ≡ false))
unfolding format_of
format_of-text null value_type secret is_uri h = inl (sym (ok-injective h))
format_of-text (str s) value_type secret is_uri h =
    let (fits, h₁) =
      require-eq-ok (s == "uri" && value_type == "string" && not secret) schema_error (ok true) h in
    inr ((eq_iff value_type "string").0 (ground arith), ground arith)
format_of-text (bool b) value_type secret is_uri h = cc
format_of-text (int n) value_type secret is_uri h = cc
format_of-text (float m k) value_type secret is_uri h = cc
format_of-text (arr items) value_type secret is_uri h = cc
format_of-text (obj fields) value_type secret is_uri h = cc

control_of-IsControl :
    (raw_field : Fields) (control : String × Bool × Bool)
    → control_of raw_field ≡ ok control
    → IsControl control
unfolding control_of
control_of-IsControl raw_field control h =
    let (t, typed, h₁) = >>=-eq-ok (value_type_of (get "type" raw_field)) _ h in
    let (secret, marked, h₂) = >>=-eq-ok (marker "x-pullbox-secret" raw_field) _ h₁ in
    let (secret_fits, h₃) = require-eq-ok (not secret || t == "string") schema_error _ h₂ in
    let (is_uri, formatted, h₄) = >>=-eq-ok (format_of (get "format" raw_field) t secret) _ h₃ in
    let is_control : IsControl (t, secret, is_uri) = record {
      known = value_type_of-known (get "type" raw_field) t typed;
      secret_text = elim (Bool-cases secret) [
        | inl set ↦ inr ((eq_iff t "string").0 (ground arith))
        | inr unset ↦ inl unset
      ];
      uri_text = format_of-text (get "format" raw_field) t secret is_uri formatted;
    } in
    subst IsControl (ok-injective h₄) is_control

-- Bounds in order: of numbers only on numeric types, of lengths only on the others.
pub record BoundsFit (controls : Controls) (value_type : String) (bounds : Bounds controls)
    : Type 0 where
  pub ordered : in_order controls.exceeds bounds.minimum bounds.maximum ≡ true
  pub lengths_ordered : in_order greater bounds.min_length bounds.max_length ≡ true
  pub of_type :
      (if is_numeric value_type
        then is_none bounds.min_length && is_none bounds.max_length
        else is_none bounds.minimum && is_none bounds.maximum)
      ≡ true

bounds_of-Fit :
    (controls : Controls) (raw_field : Fields) (value_type : String) (bounds : Bounds controls)
    → bounds_of controls raw_field value_type ≡ ok bounds
    → BoundsFit controls value_type bounds
unfolding bounds_of
bounds_of-Fit controls raw_field value_type bounds h =
    let (minimum, a, h₁) = >>=-eq-ok (optional_number controls (get "minimum" raw_field)) _ h in
    let (maximum, b, h₂) = >>=-eq-ok (optional_number controls (get "maximum" raw_field)) _ h₁ in
    let (ordered, h₃) =
      require-eq-ok (in_order controls.exceeds minimum maximum) schema_error _ h₂ in
    let (low, c, h₄) = >>=-eq-ok (optional_nonnegative_int (get "minLength" raw_field)) _ h₃ in
    let (high, d, h₅) = >>=-eq-ok (optional_nonnegative_int (get "maxLength" raw_field)) _ h₄ in
    let (of_type, h₆) = require-eq-ok _ schema_error _ h₅ in
    let (lengths_ordered, h₇) = require-eq-ok (in_order greater low high) schema_error _ h₆ in
    let fits : BoundsFit controls value_type
        (record { minimum = minimum; maximum = maximum; min_length = low; max_length = high }) =
      record { ordered = ordered; lengths_ordered = lengths_ordered; of_type = of_type } in
    subst (BoundsFit controls value_type) (ok-injective h₇) fits

module _ (net : Net) (controls : Controls) where
  pub record OffersFit (raw_default : Option Json) (control : String × Bool × Bool)
      (offers : List Json × List String × Bool × Json) : Type 0 where
    pub few_choices : length offers.0 ≤ 100
    pub choices : IsChoices control.0 [] offers.0
    pub suggestions : SuggestionsFit net control offers.1
    pub origin_uri :
        (offers.2 ≡ false) ⊎ ((control.0 ≡ "string") × (control.1 ≡ false) × (control.2 ≡ true))
    pub default :
        (raw_default ≡ none)
        ⊎ ((raw_default ≡ some offers.3)
            × (DefaultFits net control.0 offers.0 (offers.2 || is_nonempty offers.1) offers.3))

  offers_of-Fit :
      (raw_field : Fields) (control : String × Bool × Bool)
      (offers : List Json × List String × Bool × Json)
      → offers_of net controls raw_field control ≡ ok offers
      → OffersFit (lookup "default" (props raw_field)) control offers
  unfolding offers_of
  offers_of-Fit raw_field control offers h =
      let (choices, a, h₁) = >>=-eq-ok (choices_of (get "enum" raw_field) control.0) _ h in
      let (suggestions, b, h₂) =
        >>=-eq-ok (suggestions_of net (get "x-pullbox-suggestions" raw_field) control) _ h₁ in
      let (origin, c, h₃) = >>=-eq-ok (marker "x-pullbox-source-origin" raw_field) _ h₂ in
      let (fits, h₄) =
        require-eq-ok (not origin || (control.0 == "string" && control.2 && not control.1))
          schema_error _ h₃ in
      let (default, d, h₅) =
        >>=-eq-ok
          (checked_default net (lookup "default" (props raw_field)) control.0 choices
            (origin || is_nonempty suggestions))
          _ h₄ in
      let (few, are) = choices_of-IsChoices (get "enum" raw_field) control.0 choices a in
      let all_fit : OffersFit (lookup "default" (props raw_field)) control
          (choices, suggestions, origin, default) =
        record {
          few_choices = few;
          choices = are;
          suggestions =
              suggestions_of-Fit net (get "x-pullbox-suggestions" raw_field) control suggestions b;
          origin_uri = elim (Bool-cases origin) [
            | inl set ↦
                inr ((eq_iff control.0 "string").0 (ground arith), ground arith, ground arith)
            | inr unset ↦ inl unset
          ];
          default =
              checked_default-Fits net (lookup "default" (props raw_field)) control.0 choices
                (origin || is_nonempty suggestions) default d;
        } in
      subst (OffersFit (lookup "default" (props raw_field)) control) (ok-injective h₅) all_fit

  -- A field that maps to a native control.
  pub record IsNative (raw : Json) (f : ConfigurationField controls) : Type 0 where
    pub raw_field : Fields
    pub read : mapping raw ≡ ok raw_field
    pub known_keys : all (λ entry. contains entry.0 field_keys) (props raw_field) ≡ true
    pub control : IsControl (f.value_type, f.secret, f.is_uri)
    pub offers :
        OffersFit
          (lookup "default" (props raw_field))
          (f.value_type, f.secret, f.is_uri)
          (f.choices, f.suggestions, f.source_origin, f.default)
    pub bounds : BoundsFit controls f.value_type f.bounds

  pub validate_field-IsNative :
      (name : String) (raw : Json) (required : Bool) (f : ConfigurationField controls)
      → validate_field net controls name raw required ≡ ok f
      → IsNative raw f
  unfolding validate_field reject_unknown_keys
  validate_field-IsNative name raw required f h =
      let (raw_field, read, h₁) = >>=-eq-ok (mapping raw) _ h in
      let (known, h₂) =
        require-eq-ok (all (λ entry. contains entry.0 field_keys) (props raw_field)) schema_error _
          h₁ in
      let (control, a, h₃) = >>=-eq-ok (control_of raw_field) _ h₂ in
      let (offers, b, h₄) = >>=-eq-ok (offers_of net controls raw_field control) _ h₃ in
      let (bounds, c, h₅) = >>=-eq-ok (bounds_of controls raw_field control.0) _ h₄ in
      let (title, d, h₆) = >>=-eq-ok (optional_text (get "title" raw_field)) _ h₅ in
      let (description, e, h₇) = >>=-eq-ok (optional_text (get "description" raw_field)) _ h₆ in
      let (placeholder, g, h₈) =
        >>=-eq-ok (optional_text (get "x-pullbox-placeholder" raw_field)) _ h₇ in
      let native : IsNative raw (record {
        name = name;
        value_type = control.0;
        title = title_or (controls.title (spaced name)) title;
        description = description;
        required = required;
        secret = control.1;
        is_uri = control.2;
        default = offers.3;
        choices = offers.0;
        bounds = bounds;
        placeholder = placeholder;
        suggestions = offers.1;
        source_origin = offers.2;
      }) =
        record {
          raw_field = raw_field;
          read = read;
          known_keys = known;
          control = control_of-IsControl raw_field control a;
          offers = offers_of-Fit raw_field control offers b;
          bounds = bounds_of-Fit controls raw_field control.0 bounds c;
        } in
      subst (IsNative raw) (ok-injective h₈) native
