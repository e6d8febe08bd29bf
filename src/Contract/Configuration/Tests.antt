-- ===== src/Contract/Configuration/Tests.antt =====
-- The settings schema of a provider with one source URL, and the theorem at it.

use pullbox_direct_providers.Prelude.{
  ℕ, ◌≡◌, refl, true, false, none, some, [], ◌∷◌, if◌then◌else◌, ◌==◌, ℕ_eq, String_eq,
}
use pullbox_direct_providers.Prelude.Json.{Json, bool, str, arr, obj, Fields, nil, cons, end, field}
use pullbox_direct_providers.Prelude.Result.{ok, raised}
use pullbox_direct_providers.Contract.Net.{Url, Net}
use pullbox_direct_providers.Contract.Configuration.{type_error, Controls, is_safe_https_origin}
use pullbox_direct_providers.Contract.Configuration.Field.{
  ConfigurationField, validate_field, add_suggestions,
}
use pullbox_direct_providers.Contract.Configuration.Schema.{
  ConfigurationSchema, validate_configuration_schema,
}
use pullbox_direct_providers.Contract.Configuration.Sound.{
  IsSafe, validate_configuration_schema-IsSafe,
}

abbrev origin : Url
origin = record {
  scheme = "https";
  netloc = "libgen.gl";
  hostname = some "libgen.gl";
  username = none;
  password = none;
  port = some none;
  path = "";
  query = "";
  fragment = "";
}

abbrev net : Net
net = record {
  urlsplit = λ s. if s == "https://libgen.gl" then some origin else none;
  urlunsplit = λ scheme netloc path query fragment. "";
  urljoin = λ base url. none;
  ip_address = λ s. none;
  casefold = λ s. s;
  show = λ n. "";
  decode = λ bytes. "";
  encoded_length = λ s. 0;
}

abbrev controls : Controls
controls = record { Float = ℕ; float_of = λ v. some 0; exceeds = λ a b. false; title = λ s. s }

abbrev source_url : Fields
source_url = field "type" (str "string") (
    field "title" (str "Source") (
      field "format" (str "uri") (
        field "default" (str "https://libgen.gl") (
          field "x-pullbox-source-origin" (bool true)
            (field "x-pullbox-suggestions" (arr (cons (str "https://libgen.gl") nil)) end)))))

abbrev schema_with : Fields → Json
schema_with control = obj (
    field "type" (str "object") (
      field "additionalProperties" (bool false) (
        field "properties" (obj (field "source_url" (obj control) end))
          (field "required" (arr (cons (str "source_url") nil)) end))))

abbrev source_field : ConfigurationField controls
source_field = record {
  name = "source_url";
  value_type = "string";
  title = "Source";
  description = none;
  required = true;
  secret = false;
  is_uri = true;
  default = str "https://libgen.gl";
  choices = [];
  bounds = record { minimum = none; maximum = none; min_length = none; max_length = none };
  placeholder = none;
  suggestions = "https://libgen.gl" ∷ [];
  source_origin = true;
}

abbrev accepted : ConfigurationSchema net controls
accepted = record {
  title = none;
  description = none;
  properties = ("source_url", source_field) ∷ [];
}

accepts : validate_configuration_schema net controls (schema_with source_url) ≡ ok accepted
unfolding validate_configuration_schema is_safe_https_origin add_suggestions validate_field
accepts = refl

-- A format that is a list is no ConfigurationSchemaError: `in` a frozenset raises a TypeError.
unhashable_format :
    validate_configuration_schema net controls
      (schema_with (field "type" (str "string") (field "format" (arr nil) end)))
    ≡ raised type_error
unfolding validate_configuration_schema validate_field
unhashable_format = refl

validate_configuration_schema-IsSafe_example : IsSafe net controls (schema_with source_url) accepted
unfolding validate_configuration_schema is_safe_https_origin add_suggestions validate_field
validate_configuration_schema-IsSafe_example =
    validate_configuration_schema-IsSafe net controls (schema_with source_url) accepted refl
