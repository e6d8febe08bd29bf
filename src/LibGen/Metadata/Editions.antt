-- ===== src/LibGen/Metadata/Editions.antt =====
-- `parse_edition_metadata` of metadata.py.

use pullbox_direct_providers.Prelude.{
  ℕ, Bool, true, not, ◌&&◌, ◌||◌, Option, none, some, ℕ_eq, String_eq, String,
}
use pullbox_direct_providers.Prelude.Json.{obj, Fields, end, get}
use pullbox_direct_providers.Prelude.Result.{Result, ok, ◌>>=◌, ◌>>◌, require, of_option}
use pullbox_direct_providers.Prelude.Text.{is_char, is_empty}
use pullbox_direct_providers.Contract.Net.{Net}
use pullbox_direct_providers.Contract.ComicParser.{normalize_issue, is_letter}
use pullbox_direct_providers.Contract.SearchTerms.{Unicode, span}
use pullbox_direct_providers.LibGen.Service.Origins.{ServiceError, metadata_error, value_error}
use pullbox_direct_providers.LibGen.Metadata.Records.{EditionMetadata, Python}
use pullbox_direct_providers.LibGen.Metadata.Fields.{
  optional_year, optional_text, source_flag, relation_ids,
}
use pullbox_direct_providers.LibGen.Metadata.Parse.{
  decode_keyed_object, as_object, is_listed, get_or,
}

module _ (unicode : Unicode) where
  -- The optional letter at the end of an issue number.
  abbrev issue_tail : String → Bool
  unfolding is_letter
  issue_tail String.[] = true
  issue_tail (String.◌∷◌ c s) = is_letter c && is_empty s

  abbrev fraction_tail : String × String → Bool
  fraction_tail (digits, rest) = not (is_empty digits) && issue_tail rest

  abbrev whole_tail : String × String → Bool
  unfolding span
  whole_tail (digits, String.[]) = not (is_empty digits)
  whole_tail (digits, String.◌∷◌ c s) =
      not (is_empty digits)
      && (issue_tail (String.◌∷◌ c s)
          || (is_char b'.' c && fraction_tail (span unicode.is_decimal s)))

  -- `_ISSUE.fullmatch`
  unfoldable pub is_issue : String → Bool
  unfolding span is_letter
  is_issue s = whole_tail (span unicode.is_decimal s)

module _ (net : Net) (unicode : Unicode) (python : Python) where
  abbrev pub checked_issue : Option String → Result ServiceError (Option String)
  unfolding is_issue normalize_issue
  checked_issue none = ok none
  checked_issue (some issue) = do
    require (is_issue unicode issue) metadata_error
    normalized ← of_option value_error (normalize_issue net python.int_of_text issue)
    ok (some normalized)

  -- The checks on an edition's record and the metadata that it gives.
  unfoldable pub edition_of_fields : ℕ → ℕ → Fields → Result ServiceError EditionMetadata
  unfolding source_flag relation_ids optional_text is_issue normalize_issue optional_year get get_or
  edition_of_fields edition_id file_id fields = do
    visible ← source_flag net python true (get "visible" fields)
    require visible metadata_error
    related ← relation_ids net python "f_id" (get_or (obj end) "files" fields)
    require (is_listed file_id related) metadata_error
    raw_issue ← optional_text net python 50 (get "issue_number" fields)
    issue_number ← checked_issue raw_issue
    title ← optional_text net python 1000 (get "title" fields)
    series_name ← optional_text net python 1000 (get "series_name" fields)
    title_add ← optional_text net python 1000 (get "title_add" fields)
    publisher ← optional_text net python 500 (get "publisher" fields)
    year ← optional_year net python (get "year" fields)
    cover_url ← optional_text net python 2000 (get "cover_url" fields)
    issue_volume ← optional_text net python 100 (get "issue_volume" fields)
    edition_type ← optional_text net python 100 (get "type" fields)
    ok (record {
      edition_id = edition_id;
      title = title;
      series_name = series_name;
      title_add = title_add;
      publisher = publisher;
      year = year;
      cover_url = cover_url;
      issue_number = issue_number;
      issue_volume = issue_volume;
      edition_type = edition_type;
    })

  -- `parse_edition_metadata`, of an edition that is expected
  unfoldable pub parse_edition_metadata : String → ℕ → ℕ → Result ServiceError EditionMetadata
  unfolding decode_keyed_object get edition_of_fields
  parse_edition_metadata payload expected_edition_id expected_file_id = do
    records ← decode_keyed_object net python payload
    fields ← as_object (get (net.show expected_edition_id) records)
    edition_of_fields expected_edition_id expected_file_id fields
