-- ===== src/LibGen/Service/Tests.antt =====
-- A LibGen search in small surroundings, and the theorems at concrete inputs.
use Prim.Native.String
use pullbox_direct_providers.Prelude.{
  ◌≡◌, refl, true, Option, none, some, List, [], ◌∷◌, leb, if◌then◌else◌, ◌==◌, ℕ_eq, String_eq,
  List_eq, String,
}
use pullbox_direct_providers.Prelude.Result.{ok, raised, traverse}
use pullbox_direct_providers.Prelude.Text.{is_digit}
use pullbox_direct_providers.Contract.Net.{Url, Net, AddressResolver}
use pullbox_direct_providers.Contract.SearchTerms.{Unicode, collection_title_fragment}
use pullbox_direct_providers.Contract.Models.{SearchIntent}
use pullbox_direct_providers.LibGen.Cache.{BoundedTtlCache, new, set}
use pullbox_direct_providers.LibGen.Service.Origins.{source_error, operation_origins}
use pullbox_direct_providers.LibGen.Service.Origins.Public.{
  AreOrigins, operation_origins-AreOrigins,
}
use pullbox_direct_providers.LibGen.Service.Queries.{build_queries}
use pullbox_direct_providers.LibGen.Service.Bounded.{IsQueries, build_queries-IsQueries}
use pullbox_direct_providers.LibGen.Service.Search.{
  Source, SearchState, new_search_state, search, session_opened, session_closed, fetched,
}
use pullbox_direct_providers.LibGen.Service.Sessions.{Sessions, search-Sessions}
use pullbox_direct_providers.LibGen.Metadata.Records.{FileMetadata, EditionMetadata}
use pullbox_direct_providers.LibGen.Service.Resolve.{Artifact, Metadata, resolve}
use pullbox_direct_providers.LibGen.Service.Search.{failover, resolve_moves_on}

abbrev origin : String → Url
origin hostname = record {
  scheme = "https";
  netloc = hostname;
  hostname = some hostname;
  username = none;
  password = none;
  port = some none;
  path = "";
  query = "";
  fragment = "";
}

abbrev net : Net
net = record {
  urlsplit = λ s.
      if s == "https://libgen.gl"
      then some (origin "libgen.gl")
      else if s == "https://libgen.li"
      then some (origin "libgen.li")
      else none;
  urlunsplit = λ scheme netloc path query fragment. String.◌++◌ "https://" netloc;
  urljoin = λ base url. none;
  ip_address = λ s. if s == "93.184.216.34" then some true else none;
  casefold = λ s. s;
  show = λ n. if leb n 999 then "20" else "2020";
  decode = λ bytes. "";
  encoded_length = λ s. 0;
}

abbrev unicode : Unicode
unicode = record { is_decimal = is_digit; title = λ s. s }

abbrev intent : SearchIntent
intent = record {
  series_title = " Saga  of X";
  normalized_title = "saga of x";
  alternate_titles = "Sagas" ∷ [];
  issue_number = some "7";
  issue_type = none;
  volume = none;
  issue_title = none;
  series_year = none;
  release_year = none;
  year = some 2020;
}

queries :
    build_queries net unicode intent
    ≡ "Saga of X 007 2020" ∷ "Saga of X 7 2020" ∷ "Saga of X 7" ∷ []
unfolding build_queries
queries = refl

fragment : collection_title_fragment net unicode (some "vol. 2:  The  End") ≡ some "Vol 2 The End"
unfolding collection_title_fragment
fragment = refl

number_only : collection_title_fragment net unicode (some "vol. #2.5") ≡ none
unfolding collection_title_fragment
number_only = refl

build_queries-IsQueries_example : IsQueries 3 (build_queries net unicode intent)
build_queries-IsQueries_example = build_queries-IsQueries net unicode intent

abbrev resolver : AddressResolver
resolver host port = some ("93.184.216.34" ∷ [])

abbrev both : List String
both = "https://libgen.gl" ∷ "https://libgen.li" ∷ []

origins : operation_origins net resolver none ≡ ok both
unfolding operation_origins traverse
origins = refl

operation_origins-AreOrigins_example : AreOrigins net resolver none both
operation_origins-AreOrigins_example = operation_origins-AreOrigins net resolver none both origins

-- The first origin is rate limited; a page of the second has two records, one of them twice.
abbrev source : Source String String
source = record {
  fetch_text = λ o k url.
      if o == "https://libgen.gl"
      then raised (source_error "source_rate_limited" true)
      else ok "page";
  parse_search_html = λ html o. ok ("a" ∷ "a" ∷ "b" ∷ []);
  build_discovered_candidate = λ d. ok d;
  md5 = λ d. d;
  urlencode = λ parameters. "q";
  model_dump_json = λ i. "{}";
  read_at = λ o. 0;
  written_at = λ o. 1;
}

abbrev empty : BoundedTtlCache String (List String)
empty = record { max_entries = 512; ttl_seconds = 600; negative_ttl_seconds = 120; entries = [] }

abbrev start : SearchState String
start = record { search_cache = empty; events = [] }

started : Path (Option (SearchState String)) new_search_state (some start)
unfolding new_search_state new
started = refl

abbrev pair : List String
pair = "a" ∷ "b" ∷ []

abbrev found : SearchState String
found = record {
  search_cache = set empty 1 "https://libgen.li:20:{}" (some pair);
  events = session_opened ∷ fetched "https://libgen.li/index.php?q" ∷ session_closed ∷ [];
}

search-Sessions_example :
    Sessions 2 [] (search net unicode source resolver 5 intent none start).1.events
search-Sessions_example = search-Sessions net unicode source resolver 5 intent none start

abbrev file : FileMetadata
file = record {
  file_id = 7;
  md5 = "0123456789abcdef0123456789abcdef";
  pages = none;
  size_bytes = some 100;
  extension = some "cbz";
  locator_filename = some "Saga 007.cbz";
  comics_id = none;
  edition_id = some 3;
}

abbrev edition : EditionMetadata
edition = record {
  edition_id = 3;
  title = some "Saga";
  series_name = some "";
  title_add = none;
  publisher = none;
  year = none;
  cover_url = none;
  issue_number = none;
  issue_volume = some "2";
  edition_type = none;
}

abbrev metadata : Metadata
metadata = record {
  fetch_text = λ o k url max_bytes.
      if o == "https://libgen.gl" then raised (source_error "source_unavailable" true) else ok "{}";
  resolve_redirect = λ o url. ok "https://cdn.example/a";
  parse_file_metadata_by_md5 = λ payload md5. ok file;
  parse_edition_metadata = λ payload edition_id file_id. ok edition;
  file_metadata_url = λ o md5. o;
  edition_metadata_url = λ o edition_id. o;
  parse_comic_title = λ title. record {
    series_title = "Saga";
    issue_numbers = "7" ∷ [];
    volume = none;
    year = none;
  };
}

abbrev candidate : String
candidate = "libgen:0123456789abcdef0123456789abcdef"

abbrev artifact : Artifact
artifact = record {
  artifact_id = "libgen-direct:0123456789abcdef0123456789abcdef";
  coverage = record { issue_numbers = "7" ∷ []; volume = some "2"; description = some "Saga" };
  format = some "cbz";
  edition = none;
  size_bytes = some 100;
  mirror_id = "libgen:0123456789abcdef0123456789abcdef:direct";
  final_url = "https://cdn.example/a";
  checksum = "md5:0123456789abcdef0123456789abcdef";
}

resolves_second :
    resolve metadata net resolver candidate none
    ≡ (ok (artifact ∷ []), session_opened ∷ session_closed ∷ session_opened ∷ session_closed ∷ [])
unfolding resolve traverse operation_origins failover resolve_moves_on
resolves_second = refl
