-- ===== src/LibGen/Metadata/Parse.antt =====
-- `_decode_keyed_object`, `_parse_file_metadata`, `parse_file_metadata` and
-- `parse_file_metadata_by_md5` of metadata.py.
pub mod Agrees
use Prim.Native.Char.{Char}
use Prim.Native.String
use pullbox_direct_providers.Prelude.{
  ℕ, ◌+◌, ◌-◌, ◌*◌, ◌≤◌, min, Bool, true, false, not, ◌&&◌, ◌||◌, Option, none, some, List, [], ◌∷◌,
  ltb, leb, nat_beq, if◌then◌else◌, contains, ◌==◌, ℕ_eq, String_eq, String,
}
use pullbox_direct_providers.Prelude.Dict.{lookup}
use pullbox_direct_providers.Prelude.Json.{
  Json, null, bool, int, float, str, arr, obj, Fields, end, field, props, get,
}
use pullbox_direct_providers.Prelude.Result.{Result, ok, raised, ◌>>=◌, ◌>>◌, require, of_option}
use pullbox_direct_providers.Prelude.Text.{is_char, is_empty, is_digit}
use pullbox_direct_providers.Contract.Net.{Net}
use pullbox_direct_providers.Contract.ComicParser.{normalize_issue, is_letter}
use pullbox_direct_providers.Contract.SearchTerms.{Unicode, span}
use pullbox_direct_providers.LibGen.Service.Origins.{ServiceError, metadata_error, value_error}
use pullbox_direct_providers.LibGen.Metadata.Records.{
  DiscoveredRecord, FileMetadata, EditionMetadata, Python, DecodeError, json_decode_error,
  unicode_decode_error, stopped,
}
use pullbox_direct_providers.LibGen.Metadata.Fields.{
  text_of, required_md5, positive_identifier, optional_identifier, optional_integer, optional_year,
  optional_extension, optional_text, source_flag, relation_ids, locator_filename,
}

abbrev pub max_json_bytes : ℕ
max_json_bytes = 512 * 1024

-- The expectations that a caller has of a file.
pub record Expected : Type 0 where
  pub md5 : String
  pub file_id : Option ℕ
  pub edition_id : Option ℕ
  pub size_bytes : Option ℕ
  pub size_tolerance_bytes : Option ℕ
  pub extension : Option String

abbrev pub decoded : Result DecodeError Json → Result ServiceError Fields
decoded (ok (obj (field key value rest))) = ok (field key value rest)
decoded (ok _) = raised metadata_error
decoded (raised json_decode_error) = raised metadata_error
decoded (raised unicode_decode_error) = raised metadata_error
decoded (raised (stopped e)) = raised e

abbrev pub as_object : Json → Result ServiceError Fields
as_object (obj record_fields) = ok record_fields
as_object _ = raised metadata_error

abbrev pub one_match : List (String × Fields) → Result ServiceError (String × Fields)
one_match (found ∷ []) = ok found
one_match _ = raised metadata_error

abbrev pub or_zero : Option ℕ → ℕ
or_zero none = 0
or_zero (some n) = n

-- abs(a - b)
abbrev pub distance : ℕ → ℕ → ℕ
distance a b = (a - b) + (b - a)

abbrev pub size_fits : Option ℕ → Option ℕ → Option ℕ → Bool
size_fits (some expected) tolerance (some size) = leb (distance size expected) (or_zero tolerance)
size_fits _ tolerance _ = true

abbrev pub extension_fits : Option String → Option String → Bool
extension_fits (some expected) (some extension) = extension == expected
extension_fits _ _ = true

abbrev pub id_fits : Option ℕ → ℕ → Bool
id_fits none n = true
id_fits (some expected) n = nat_beq n expected

abbrev pub least : ℕ → List ℕ → ℕ
least n [] = n
least n (m ∷ ms) = least (min n m) ms

abbrev pub is_listed : ℕ → List ℕ → Bool
is_listed n [] = true
is_listed n (m ∷ ms) = contains n (m ∷ ms)

-- The edition of a file: the expected one, if the relations name it or none, or the least.
unfoldable pub edition_choice : Option ℕ → List ℕ → Result ServiceError (Option ℕ)
edition_choice (some expected) ids =
    if is_listed expected ids then ok (some expected) else raised metadata_error
edition_choice none [] = ok none
edition_choice none (n ∷ ns) = ok (some (least n ns))

-- record.get(key, {}) and record.get(key, "")
unfoldable pub get_or : Json → String → Fields → Json
unfolding lookup
get_or default key fields = elim (lookup key (props fields)) [ none ↦ default | some v ↦ v ]

abbrev pub expectation : DiscoveredRecord → Expected
expectation discovered = record {
  md5 = discovered.md5;
  file_id = discovered.file_id;
  edition_id = discovered.edition_id;
  size_bytes = discovered.size_bytes;
  size_tolerance_bytes = discovered.size_tolerance_bytes;
  extension = discovered.extension;
}

-- Nothing but the MD5.
abbrev pub md5_expectation : String → Expected
md5_expectation md5 = record {
  md5 = md5;
  file_id = none;
  edition_id = none;
  size_bytes = none;
  size_tolerance_bytes = none;
  extension = none;
}

module _ (net : Net) (python : Python) where
  -- `_decode_keyed_object`
  unfoldable pub decode_keyed_object : String → Result ServiceError Fields
  decode_keyed_object payload = do
    require (leb (net.encoded_length payload) max_json_bytes) metadata_error
    decoded (python.json_loads payload)

  -- Whether the entry of a dict is a record with this MD5.
  abbrev pub md5_entry : String → String → Json → List (String × Fields) → List (String × Fields)
  unfolding text_of lookup get_or
  md5_entry md5 key (obj record_fields) later =
      if net.casefold (text_of net python (get_or (str "") "md5" record_fields)) == md5
      then (key, record_fields) ∷ later
      else later
  md5_entry md5 key _ later = later

  unfoldable pub matches_of : String → Fields → List (String × Fields)
  unfolding text_of get_or
  matches_of md5 end = []
  matches_of md5 (field key value rest) = md5_entry md5 key value (matches_of md5 rest)

  -- The record of the expected file, or the one record with the expected MD5.
  unfoldable pub file_record : Option ℕ → String → Fields → Result ServiceError (String × Fields)
  unfolding get matches_of
  file_record (some file_id) md5 records = do
    record_fields ← as_object (get (net.show file_id) records)
    ok (net.show file_id, record_fields)
  file_record none md5 records = one_match (matches_of md5 records)

  -- The identity of a record: its key and its MD5, as expected.
  unfoldable pub file_identity : Expected → String → Fields → Result ServiceError (ℕ × String)
  unfolding positive_identifier required_md5 get
  file_identity expected key fields = do
    file_id ← positive_identifier net python (str key)
    require (id_fits expected.file_id file_id) metadata_error
    md5 ← required_md5 net python (get "md5" fields)
    require (md5 == expected.md5) metadata_error
    ok (file_id, md5)

  -- A file that is visible and not broken.
  unfoldable pub file_available : Fields → Result ServiceError (Unit {0})
  unfolding source_flag get
  file_available fields = do
    visible ← source_flag net python true (get "visible" fields)
    require visible metadata_error
    broken ← source_flag net python false (get "broken" fields)
    require (not broken) metadata_error

  -- The size and the extension, as expected.
  unfoldable pub file_shape : Expected → Fields → Result ServiceError (Option ℕ × Option String)
  unfolding optional_integer optional_extension get
  file_shape expected fields = do
    size_bytes ← optional_integer net python (get "filesize" fields)
    require (size_fits expected.size_bytes expected.size_tolerance_bytes size_bytes) metadata_error
    extension ← optional_extension net python (get "extension" fields)
    require (extension_fits expected.extension extension) metadata_error
    ok (size_bytes, extension)

  unfoldable pub file_edition : Option ℕ → Fields → Result ServiceError (Option ℕ)
  unfolding relation_ids edition_choice get_or
  file_edition expected fields = do
    edition_ids ← relation_ids net python "e_id" (get_or (obj end) "editions" fields)
    edition_choice expected edition_ids

  -- The metadata of a file, with the fields that nothing is expected of.
  unfoldable pub file_rest :
      Fields → ℕ × String → Option ℕ × Option String → Option ℕ → Result ServiceError FileMetadata
  unfolding optional_integer locator_filename optional_identifier get
  file_rest fields (file_id, md5) (size_bytes, extension) edition_id = do
    pages ← optional_integer net python (get "pages" fields)
    filename ← locator_filename net python (get "locator" fields)
    comics_id ← optional_identifier net python (get "comics_id" fields)
    ok (record {
      file_id = file_id;
      md5 = md5;
      pages = pages;
      size_bytes = size_bytes;
      extension = extension;
      locator_filename = filename;
      comics_id = comics_id;
      edition_id = edition_id;
    })

  -- The checks on a record and the metadata that it gives.
  unfoldable pub file_of : Expected → String → Fields → Result ServiceError FileMetadata
  unfolding file_identity file_available file_shape file_edition file_rest
  file_of expected key fields = do
    identity ← file_identity expected key fields
    file_available fields
    shape ← file_shape expected fields
    edition_id ← file_edition expected.edition_id fields
    file_rest fields identity shape edition_id

  -- `_parse_file_metadata`
  unfoldable pub parse_expected : String → Expected → Result ServiceError FileMetadata
  unfolding decode_keyed_object file_record file_of
  parse_expected payload expected = do
    records ← decode_keyed_object payload
    entry ← file_record expected.file_id expected.md5 records
    file_of expected entry.0 entry.1

  -- `parse_file_metadata`
  unfoldable pub parse_file_metadata : String → DiscoveredRecord → Result ServiceError FileMetadata
  unfolding parse_expected
  parse_file_metadata payload discovered = parse_expected payload (expectation discovered)

  -- `parse_file_metadata_by_md5`
  unfoldable pub parse_file_metadata_by_md5 : String → String → Result ServiceError FileMetadata
  unfolding parse_expected required_md5
  parse_file_metadata_by_md5 payload expected_md5 = do
    md5 ← required_md5 net python (str expected_md5)
    parse_expected payload (md5_expectation md5)
