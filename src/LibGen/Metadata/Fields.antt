-- ===== src/LibGen/Metadata/Fields.antt =====
-- The normalisation of fields in metadata.py. A value that is a list or a dict makes
-- `value in {None, ""}` raise TypeError, and `int` refuses more than 4300 digits with a ValueError.

use Prim.Native.Char.{code}
use pullbox_direct_providers.Prelude.{
  ℕ, zero, ◌+◌, ◌-◌, ◌*◌, Bool, true, false, not, ◌&&◌, ◌||◌, Option, none, some, List, [], ◌∷◌,
  ltb, leb, nat_beq, if◌then◌else◌, contains, ◌==◌, ℕ_eq, String_eq, String,
}
use pullbox_direct_providers.Prelude.Dict.{lookup}
use pullbox_direct_providers.Prelude.Int.{pos}
use pullbox_direct_providers.Prelude.Json.{
  Json, null, bool, int, float, str, arr, obj, Fields, nil, end, field, props,
}
use pullbox_direct_providers.Prelude.Result.{Result, ok, raised, ◌>>=◌, ◌>>◌, require}
use pullbox_direct_providers.Prelude.Text.{
  text_len, all_chars, any_char, is_char, is_digit, is_empty, lstrip, strip, collapse,
}
use pullbox_direct_providers.Contract.Net.{Net}
use pullbox_direct_providers.Contract.Hostname.{is_hex_digit}
use pullbox_direct_providers.Contract.ComicParser.{show_int}
use pullbox_direct_providers.LibGen.Service.Origins.{
  ServiceError, metadata_error, value_error, other_error,
}
use pullbox_direct_providers.LibGen.Metadata.Records.{Python}

-- not value
unfoldable pub is_falsy : Json → Bool
is_falsy null = true
is_falsy (bool b) = not b
is_falsy (int (pos zero)) = true
is_falsy (float (pos zero) k) = true
is_falsy (str s) = is_empty s
is_falsy (arr nil) = true
is_falsy (obj end) = true
is_falsy _ = false

-- `_INTEGER.fullmatch`: 0, or digits without a leading zero
unfoldable pub is_integer : String → Bool
unfolding all_chars
is_integer String.[] = false
is_integer (String.◌∷◌ c s) =
    (is_char b'0' c && is_empty s)
    || (leb b'1' (code c) && leb (code c) b'9' && all_chars is_digit s)

-- The number that digits write.
unfoldable pub digits_value : ℕ → String → ℕ
digits_value n String.[] = n
digits_value n (String.◌∷◌ c s) = digits_value (10 * n + (code c - b'0')) s

abbrev pub max_int_digits : ℕ
max_int_digits = 4300

-- `int` of ASCII digits
unfoldable pub int_of_digits : String → Result ServiceError ℕ
unfolding text_len digits_value
int_of_digits s =
    if ltb max_int_digits (text_len s) then raised value_error else ok (digits_value 0 s)

-- `value in {None, ""}`
unfoldable pub is_missing : Json → Result ServiceError Bool
is_missing null = ok true
is_missing (str s) = ok (is_empty s)
is_missing (arr vs) = raised other_error
is_missing (obj fs) = raised other_error
is_missing _ = ok false

-- None if the value is missing, and what `read` makes of it if not
abbrev pub unless_missing {ℓ} :
    {A : Type ℓ} → Result ServiceError Bool → Result ServiceError A → A → Result ServiceError A
unless_missing (raised e) value default = raised e
unless_missing (ok true) value default = ok default
unless_missing (ok false) value default = value

abbrev pub mapped_some {ℓ} : {A : Type ℓ} → Result ServiceError A → Result ServiceError (Option A)
mapped_some (ok a) = ok (some a)
mapped_some (raised e) = raised e

abbrev pub supported_extensions : List String
supported_extensions = "cb7" ∷ "cbr" ∷ "cbz" ∷ "pdf" ∷ []

-- set.add
abbrev pub add : ℕ → List ℕ → List ℕ
add n ns = if contains n ns then ns else n ∷ ns

-- `_MD5.fullmatch`
unfoldable pub is_md5_text : String → Bool
unfolding text_len all_chars is_hex_digit
is_md5_text s = nat_beq (text_len s) 32 && all_chars is_hex_digit s

-- An identity of digits, which is at least 1.
unfoldable pub identifier_of : String → Result ServiceError ℕ
unfolding is_integer int_of_digits
identifier_of normalized = do
  require (is_integer normalized) metadata_error
  n ← int_of_digits normalized
  require (leb 1 n) metadata_error
  ok n

unfoldable pub integer_of : String → Result ServiceError ℕ
unfolding is_integer int_of_digits
integer_of normalized = do require (is_integer normalized) metadata_error; int_of_digits normalized

abbrev pub is_year : Option ℕ → Bool
is_year none = true
is_year (some year) = leb 1800 year && leb year 2200

unfoldable pub flag_of : String → Result ServiceError Bool
flag_of normalized =
    if contains normalized ("1" ∷ "true" ∷ "y" ∷ "yes" ∷ [])
    then ok true
    else if contains normalized ("0" ∷ "false" ∷ "n" ∷ "no" ∷ [])
    then ok false
    else raised metadata_error

-- What follows the last slash or backslash.
unfoldable pub last_part : String → String
unfolding any_char
last_part String.[] = String.[]
last_part (String.◌∷◌ c s) =
    if any_char (λ d. is_char b'/' d || is_char 0x5c d) (String.◌∷◌ c s)
    then last_part s
    else String.◌∷◌ c s

unfoldable pub filename_of : Option String → Result ServiceError (Option String)
unfolding last_part strip text_len
filename_of none = ok none
filename_of (some locator) =
    let filename = strip (last_part locator) in
    if contains filename ("" ∷ "." ∷ ".." ∷ []) || ltb 1000 (text_len filename)
    then raised metadata_error
    else ok (some filename)

module _ (net : Net) (python : Python) where
  -- str(value)
  unfoldable pub text_of : Json → String
  unfolding show_int
  text_of null = "None"
  text_of (bool true) = "True"
  text_of (bool false) = "False"
  text_of (int n) = show_int net n
  text_of (str s) = s
  text_of value = python.repr value

  -- str(value or "")
  unfoldable pub or_empty : Json → String
  unfolding is_falsy text_of
  or_empty value = if is_falsy value then "" else text_of value

  -- `_required_md5`
  unfoldable pub required_md5 : Json → Result ServiceError String
  unfolding or_empty is_md5_text
  required_md5 value =
      let normalized = net.casefold (or_empty value) in
      if is_md5_text normalized then ok normalized else raised metadata_error

  -- `_positive_identifier`
  unfoldable pub positive_identifier : Json → Result ServiceError ℕ
  unfolding or_empty identifier_of
  positive_identifier value = identifier_of (or_empty value)

  -- `_optional_identifier`
  unfoldable pub optional_identifier : Json → Result ServiceError (Option ℕ)
  unfolding is_missing positive_identifier
  optional_identifier value =
      unless_missing (is_missing value) (mapped_some (positive_identifier value)) none

  -- `_optional_integer`
  unfoldable pub optional_integer : Json → Result ServiceError (Option ℕ)
  unfolding is_missing text_of integer_of
  optional_integer value =
      unless_missing (is_missing value) (mapped_some (integer_of (text_of value))) none

  -- `_optional_year`
  unfoldable pub optional_year : Json → Result ServiceError (Option ℕ)
  unfolding optional_integer
  optional_year value = do
    year ← optional_integer value
    require (is_year year) metadata_error
    ok year

  -- `_optional_extension`
  unfoldable pub optional_extension : Json → Result ServiceError (Option String)
  unfolding or_empty lstrip
  optional_extension value =
      let normalized = lstrip (is_char b'.') (net.casefold (or_empty value)) in
      if is_empty normalized || normalized == "unknown"
      then ok none
      else if contains normalized supported_extensions
      then ok (some normalized)
      else raised metadata_error

  -- `_optional_text`
  unfoldable pub optional_text : ℕ → Json → Result ServiceError (Option String)
  unfolding or_empty collapse text_len any_char
  optional_text max_length value =
      let normalized = collapse (or_empty value) in
      if is_empty normalized
      then ok none
      else if ltb max_length (text_len normalized) || any_char (is_char 0) normalized
      then raised metadata_error
      else ok (some normalized)

  -- `_source_flag`
  unfoldable pub source_flag : Bool → Json → Result ServiceError Bool
  unfolding is_missing text_of flag_of
  source_flag default value =
      unless_missing (is_missing value) (flag_of (net.casefold (text_of value))) default

  -- The identities of the relations, of those that are dicts with the field.
  abbrev pub relation_value : String → Json → Option Json
  unfolding lookup
  relation_value key (obj relation) = lookup key (props relation)
  relation_value key _ = none

  abbrev pub with_identifier :
      Option Json → Result ServiceError (List ℕ) → Result ServiceError (List ℕ)
  unfolding positive_identifier
  with_identifier none later = later
  with_identifier (some value) later = do
    n ← positive_identifier value
    rest ← later
    ok (add n rest)

  unfoldable pub relation_ids_of : String → Fields → Result ServiceError (List ℕ)
  unfolding positive_identifier lookup
  relation_ids_of key end = ok []
  relation_ids_of key (field name relation rest) =
      with_identifier (relation_value key relation) (relation_ids_of key rest)

  -- `_relation_ids`: the members of the set, in some order
  unfoldable pub relation_ids : String → Json → Result ServiceError (List ℕ)
  unfolding relation_ids_of
  relation_ids key null = ok []
  relation_ids key (str s) = if is_empty s then ok [] else raised metadata_error
  relation_ids key (obj relations) = relation_ids_of key relations
  relation_ids key _ = raised metadata_error

  -- `_locator_filename`
  unfoldable pub locator_filename : Json → Result ServiceError (Option String)
  unfolding optional_text filename_of
  locator_filename value = do locator ← optional_text 2000 value; filename_of locator

module _ (net : Net) where
  -- `_language_code`
  unfoldable pub language_code : Option String → Option String
  unfolding text_len
  language_code none = none
  language_code (some value) =
      let normalized = net.casefold value in
      if normalized == "english"
      then some "en"
      else if leb (text_len normalized) 5
      then some normalized
      else none
