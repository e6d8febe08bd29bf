-- ===== src/LibGen/Metadata/Tests.antt =====
-- Metadata of a small source, and the theorems at it.

use pullbox_direct_providers.Prelude.{
  ◌+◌, ◌*◌, ◌≡◌, refl, Option, none, some, [], ◌∷◌, if◌then◌else◌, ◌==◌, ℕ_eq, String_eq, String,
}
use pullbox_direct_providers.Prelude.Dict.{lookup, move_to_end, put, remove}
use pullbox_direct_providers.Prelude.Int.{pos}
use pullbox_direct_providers.Prelude.Json.{Json, str, obj, arr, nil, end, field}
use pullbox_direct_providers.Prelude.Result.{Result, ok, raised}
use pullbox_direct_providers.Prelude.Text.{is_digit}
use pullbox_direct_providers.Contract.Net.{Url, Net}
use pullbox_direct_providers.Contract.Models.{Candidate}
use pullbox_direct_providers.Contract.SearchTerms.{Unicode}
use pullbox_direct_providers.LibGen.Cache.{evict}
use pullbox_direct_providers.LibGen.Service.Origins.{ServiceError, metadata_error, other_error}
use pullbox_direct_providers.LibGen.Metadata.Records.{DiscoveredRecord, FileMetadata, Python}
use pullbox_direct_providers.LibGen.Metadata.Fields.{optional_identifier, positive_identifier}
use pullbox_direct_providers.LibGen.Metadata.Parse.{
  expectation, parse_file_metadata, parse_file_metadata_by_md5,
}
use pullbox_direct_providers.LibGen.Metadata.Parse.Agrees.{Agrees, parse_file_metadata-Agrees}
use pullbox_direct_providers.LibGen.Metadata.Keys.{Surroundings, source_origin}
use pullbox_direct_providers.LibGen.Metadata.Enrich.{Enricher, enrich}
use pullbox_direct_providers.LibGen.Metadata.Enrich.Requests.{enrich-metadata_error}
use pullbox_direct_providers.LibGen.Metadata.Batch.{enrich_many}
use pullbox_direct_providers.LibGen.Metadata.Batch.Requests.{IsBounded, enrich_many-IsBounded}

abbrev url_of : String → Url
url_of scheme = record {
  scheme = scheme;
  netloc = "libgen.gl";
  hostname = some "libgen.gl";
  username = none;
  password = none;
  port = some none;
  path = "/a";
  query = "";
  fragment = "";
}

abbrev net : Net
net = record {
  urlsplit =
      λ s. if s == "https://libgen.gl/a" then some (url_of "https") else some (url_of "http");
  urlunsplit = λ scheme netloc path query fragment. "https://libgen.gl";
  urljoin = λ base url. none;
  ip_address = λ s. none;
  casefold = λ s. s;
  show = λ n. if n == 7 then "7" else if n == 3 then "3" else "0";
  decode = λ bytes. "";
  encoded_length = λ s. 0;
}

abbrev md5 : String
md5 = "0123456789abcdef0123456789abcdef"

abbrev keyed_files : Json
keyed_files = obj (
    field "7"
      (obj (
        field "md5" (str md5) (
          field "filesize" (str "100") (
            field "extension" (str ".cbz") (
              field "locator" (str "a/b\\Saga  7.cbz")
                (field "editions" (obj (field "x" (obj (field "e_id" (str "3") end)) end)) end))))))
      end)

abbrev keyed_editions : Json
keyed_editions =
    obj (field "3" (obj (field "title" (str "Saga") (field "issue_number" (str "007") end))) end)

abbrev python : Python
python = record {
  repr = λ value. "";
  int_of_text = λ s. some (pos 7);
  json_loads = λ s. if s == "editions" then ok keyed_editions else ok keyed_files;
}

abbrev unicode : Unicode
unicode = record { is_decimal = λ c. is_digit c; title = λ s. s }

abbrev discovered : DiscoveredRecord
discovered = record {
  md5 = md5;
  source_reference = "https://libgen.gl/a";
  display_title = "Saga";
  raw_title = "Saga";
  file_id = some 7;
  edition_id = none;
  source_series_id = none;
  publisher = none;
  year = none;
  language = some "english";
  size_bytes = some 90;
  size_tolerance_bytes = some 10;
  extension = some "cbz";
}

abbrev file : FileMetadata
file = record {
  file_id = 7;
  md5 = md5;
  pages = none;
  size_bytes = some 100;
  extension = some "cbz";
  locator_filename = some "Saga 7.cbz";
  comics_id = none;
  edition_id = some 3;
}

parses : parse_file_metadata net python "files" discovered ≡ ok file
unfolding parse_file_metadata
parses = refl

parses_by_md5 : parse_file_metadata_by_md5 net python "files" md5 ≡ ok file
unfolding parse_file_metadata_by_md5
parses_by_md5 = refl

refuses_size :
    parse_file_metadata net python "files" (record discovered { size_bytes = some 89 })
    ≡ raised metadata_error
unfolding parse_file_metadata
refuses_size = refl

parse_file_metadata-Agrees_example : Agrees (expectation discovered) file
parse_file_metadata-Agrees_example =
    parse_file_metadata-Agrees net python "files" discovered file parses

-- A list where a number is expected is no LibGenMetadataError.
unhashable : optional_identifier net python (arr nil) ≡ raised other_error
unfolding optional_identifier
unhashable = refl

leading_zero : positive_identifier net python (str "07") ≡ raised metadata_error
unfolding positive_identifier
leading_zero = refl

abbrev around : Surroundings
around = record {
  net = net;
  unicode = unicode;
  python = python;
  parse_comic_title =
      λ title. record { series_title = "Saga"; issue_numbers = []; volume = none; year = none };
  urlencode = λ params. "";
  fetcher = λ k url. if k == 0 then ok "files" else ok "editions";
  clock = λ k. k;
}

abbrev enricher : Enricher
enricher = record {
  cache = record {
    max_entries = 2048;
    ttl_seconds = 3600;
    negative_ttl_seconds = 120;
    entries = [];
  };
  uses = 0;
  requests = [];
}

abbrev title_of : Result ServiceError (Option Candidate) × Enricher → String
title_of (ok (some candidate), s) = candidate.display_title
title_of _ = ""

enriches : title_of (enrich around discovered enricher) ≡ "Saga #7"
unfolding enrich lookup evict move_to_end put remove
enriches = refl

abbrev unsafe : DiscoveredRecord
unsafe = record discovered { source_reference = "http://libgen.gl/a" }

refuses_origin : (enrich around unsafe enricher).0 ≡ raised metadata_error
unfolding enrich
refuses_origin = refl

enrich-metadata_error_example : source_origin around "http://libgen.gl/a" ≡ raised metadata_error
enrich-metadata_error_example = enrich-metadata_error around unsafe enricher refuses_origin

abbrev other : DiscoveredRecord
other = record discovered { md5 = "ffffffffffffffffffffffffffffffff"; file_id = none }

enrich_many-IsBounded_example :
    IsBounded around
      (2 + 2 * 1)
      (discovered ∷ other ∷ [])
      enricher
      (enrich_many around (discovered ∷ other ∷ []) enricher)
enrich_many-IsBounded_example = enrich_many-IsBounded around (discovered ∷ other ∷ []) enricher
