-- ===== src/Contract/Configuration.antt =====
-- configuration.py of packages/provider_contract/src/pullbox_provider_contract: the values and the
-- checks of single controls. A schema comes from pydantic as the value of `json.loads`, whose
-- objects have distinct names.
pub mod Field
pub mod Schema
mod Tests
pub mod Sound
pub mod Safe
pub mod Native
use Prim.Native.String
use Prim.Native.Char.{Char, code}
use pullbox_direct_providers.Prelude.{
  ℕ, ◌*◌, ◌^◌, Bool, true, false, not, ◌&&◌, ◌||◌, Option, none, some, List, [], ◌∷◌, ltb, leb,
  nat_beq, if◌then◌else◌, length, ◌==◌, ℕ_eq, String_eq, String, any, all, contains, suc,
}
use pullbox_direct_providers.Prelude.Int.{ℤ, pos, negsuc, is_negative}
use pullbox_direct_providers.Prelude.Json.{
  Json, null, bool, int, float, str, arr, obj, Items, Fields, elems, props, get,
}
use pullbox_direct_providers.Prelude.Dict.{lookup}
use pullbox_direct_providers.Prelude.Result.{Result, ok, raised, ◌>>=◌, ◌>>◌, require, of_option}
use pullbox_direct_providers.Prelude.Text.{
  strip, is_blank, text_len, is_empty, is_char, is_digit, all_chars,
}
use pullbox_direct_providers.Contract.Net.{Url, Net}
use pullbox_direct_providers.Contract.Hostname.{is_public_source_hostname_syntax}
use pullbox_direct_providers.Contract.Resolver.Target.{folded_host}

-- `ConfigurationSchemaError`, the TypeError of an unhashable value, and the OverflowError of an int
-- that is too large for a float.
pub data SchemaError : Type 0 where
  schema_error type_error overflow_error : SchemaError

-- What the code takes from Python's float type and from `str.title`: the conversion of a number,
-- none if it is too large, and the comparison of two floats.
pub record Controls : Type 1 where
  pub Float : Type 0
  pub float_of : Json → Option Float
  pub exceeds : Float → Float → Bool
  pub title : String → String

abbrev pub max_fields : ℕ
max_fields = 50

abbrev pub max_text_length : ℕ
max_text_length = 2000

abbrev pub top_level_keys : List String
top_level_keys =
    "type" ∷ "title" ∷ "description" ∷ "properties" ∷ "required" ∷ "additionalProperties" ∷ []

abbrev pub field_keys : List String
field_keys =
    "type" ∷ "title" ∷ "description" ∷ "default" ∷ "enum" ∷ "format" ∷ "minimum" ∷ "maximum"
    ∷ "minLength" ∷ "maxLength" ∷ "x-pullbox-secret" ∷ "x-pullbox-placeholder"
    ∷ "x-pullbox-suggestions" ∷ "x-pullbox-source-origin" ∷ []

abbrev pub field_types : List String
field_types = "string" ∷ "boolean" ∷ "integer" ∷ "number" ∷ []

abbrev is_name_char : Char → Bool
is_name_char c = (leb b'a' (code c) && leb (code c) b'z') || is_digit c || is_char b'_' c

-- [a-z][a-z0-9_]{0,63}
unfoldable pub is_field_name : String → Bool
unfolding all_chars text_len
is_field_name String.[] = false
is_field_name (String.◌∷◌ c s) =
    (leb b'a' (code c) && leb (code c) b'z') && all_chars is_name_char s && leb (text_len s) 63

-- `_mapping`
unfoldable pub mapping : Json → Result SchemaError Fields
mapping (obj fields) = ok fields
mapping _ = raised schema_error

-- `_reject_unknown_keys`
unfoldable pub reject_unknown_keys :
    List (String × Json) → List String → Result SchemaError (Unit {0})
reject_unknown_keys entries allowed =
    require (all (λ entry. contains entry.0 allowed) entries) schema_error

-- `_optional_text`
unfoldable pub optional_text : Json → Result SchemaError (Option String)
unfolding is_blank text_len strip
optional_text null = ok none
optional_text (str s) =
    if is_blank s || ltb max_text_length (text_len s)
    then raised schema_error
    else ok (some (strip s))
optional_text _ = raised schema_error

-- `_optional_nonnegative_int`
unfoldable pub optional_nonnegative_int : Json → Result SchemaError (Option ℕ)
optional_nonnegative_int null = ok none
optional_nonnegative_int (int (pos n)) = ok (some n)
optional_nonnegative_int _ = raised schema_error

abbrev some_float : {A : Type 0} → Result SchemaError A → Result SchemaError (Option A)
some_float (ok a) = ok (some a)
some_float (raised e) = raised e

-- `_optional_number`
unfoldable pub optional_number :
    (controls : Controls) → Json → Result SchemaError (Option controls.Float)
optional_number controls null = ok none
optional_number controls (int n) = some_float (of_option overflow_error (controls.float_of (int n)))
optional_number controls (float m k) =
    some_float (of_option overflow_error (controls.float_of (float m k)))
optional_number controls _ = raised schema_error

-- The condition of `_validate_typed_value`.
unfoldable pub is_typed : Json → String → Bool
is_typed (str s) value_type = value_type == "string"
is_typed (bool b) value_type = value_type == "boolean"
is_typed (int n) value_type = value_type == "integer" || value_type == "number"
is_typed (float m k) value_type = value_type == "number"
is_typed _ value_type = false

-- `_validate_typed_value`
unfoldable pub validate_typed_value : Json → String → Result SchemaError (Unit {0})
unfolding is_typed
validate_typed_value value value_type = require (is_typed value value_type) schema_error

abbrev magnitude : ℤ → ℕ
magnitude (pos n) = n
magnitude (negsuc n) = suc n

abbrev same_sign : Bool → Bool → Bool
same_sign true b = b
same_sign false b = not b

-- m / 2 ^ k == n / 2 ^ j
abbrev same_number : ℤ → ℕ → ℤ → ℕ → Bool
same_number m k n j =
    same_sign (is_negative m) (is_negative n) && nat_beq (magnitude m * 2 ^ j) (magnitude n * 2 ^ k)

-- Python's `==` on two values of one control's type.
unfoldable pub same_value : Json → Json → Bool
same_value (str a) (str b) = a == b
same_value (bool a) (bool b) = same_sign a b
same_value (int m) (int n) = same_number m 0 n 0
same_value (int m) (float n j) = same_number m 0 n j
same_value (float m k) (int n) = same_number m k n 0
same_value (float m k) (float n j) = same_number m k n j
same_value _ _ = false

-- value in choices
unfoldable pub is_choice : Json → List Json → Bool
unfolding same_value
is_choice value choices = any (same_value value) choices

abbrev pub is_none : {A : Type 0} → Option A → Bool
is_none none = true
is_none (some a) = false

-- port in {None, 443}
abbrev pub is_https_port : Option ℕ → Bool
is_https_port none = true
is_https_port (some n) = nat_beq n 443

module _ (net : Net) where
  abbrev origin_parts : Url → Option ℕ → Bool
  origin_parts parsed port =
      parsed.scheme == "https"
      && is_none parsed.username
      && is_none parsed.password
      && is_https_port port
      && (parsed.path == "" || parsed.path == "/")
      && is_empty parsed.query
      && is_empty parsed.fragment

  abbrev origin_host : Option String → Bool
  origin_host none = false
  origin_host (some hostname) = is_public_source_hostname_syntax net (folded_host net hostname)

  abbrev with_port : Url → Option (Option ℕ) → Bool
  with_port parsed none = false
  with_port parsed (some port) = origin_host parsed.hostname && origin_parts parsed port

  abbrev parsed_origin : Option Url → Bool
  parsed_origin none = false
  parsed_origin (some parsed) = with_port parsed parsed.port

  -- `_is_safe_https_origin`
  unfoldable pub is_safe_https_origin : String → Bool
  unfolding text_len is_public_source_hostname_syntax folded_host
  is_safe_https_origin raw =
      not (is_empty raw) && leb (text_len raw) max_text_length && parsed_origin (net.urlsplit raw)
