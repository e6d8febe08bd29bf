-- ===== src/LibGen/Metadata/Records.antt =====
-- The records of metadata.py, `DiscoveredRecord` of parser.py, and what the code takes from Python.
use pullbox_direct_providers.Prelude.{ℕ, Option, String}
use pullbox_direct_providers.Prelude.Int.{ℤ}
use pullbox_direct_providers.Prelude.Json.{Json}
use pullbox_direct_providers.Prelude.Result.{Result}
use pullbox_direct_providers.LibGen.Service.Origins.{ServiceError}

-- A row of the source's search page, as far as metadata.py reads it.
pub record DiscoveredRecord : Type 0 where
  pub md5 : String
  pub source_reference : String
  pub display_title : String
  pub raw_title : String
  pub file_id : Option ℕ
  pub edition_id : Option ℕ
  pub source_series_id : Option ℕ
  pub publisher : Option String
  pub year : Option ℕ
  pub language : Option String
  pub size_bytes : Option ℕ
  pub size_tolerance_bytes : Option ℕ
  pub extension : Option String

pub record FileMetadata : Type 0 where
  pub file_id : ℕ
  pub md5 : String
  pub pages : Option ℕ
  pub size_bytes : Option ℕ
  pub extension : Option String
  pub locator_filename : Option String
  pub comics_id : Option ℕ
  pub edition_id : Option ℕ

pub record EditionMetadata : Type 0 where
  pub edition_id : ℕ
  pub title : Option String
  pub series_name : Option String
  pub title_add : Option String
  pub publisher : Option String
  pub year : Option ℕ
  pub cover_url : Option String
  pub issue_number : Option String
  pub issue_volume : Option String
  pub edition_type : Option String

-- The exceptions of `json.loads`.
pub data DecodeError : Type 0 where
  json_decode_error unicode_decode_error : DecodeError
  stopped : ServiceError → DecodeError

-- `str` of floats, lists and dicts, `int` of a text in any script (`none` is a ValueError), and
-- `json.loads`.
pub record Python : Type 0 where
  pub repr : Json → String
  pub int_of_text : String → Option ℤ
  pub json_loads : String → Result DecodeError Json
