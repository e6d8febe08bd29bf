-- ===== src/AnnasArchive/Tests.antt =====
-- Searches and resolutions of Anna's Archive in small surroundings, and the theorems at them.
use Prim.Native.String
use pullbox_direct_providers.Prelude.{
  ℕ, ◌≡◌, refl, false, not, Option, none, some, List, [], ◌∷◌, ◌++◌, arith, if◌then◌else◌, ◌==◌,
  ℕ_eq, String_eq, String, map, take, Pair_eq,
}
use pullbox_direct_providers.Prelude.Int.{ℤ, pos}
use pullbox_direct_providers.Prelude.Json.{str, int, obj, Fields, end, field}
use pullbox_direct_providers.Prelude.Result.{Result, ok, raised}
use pullbox_direct_providers.Prelude.Sorting.{filter}
use pullbox_direct_providers.Prelude.Text.{is_empty}
use pullbox_direct_providers.Contract.Net.{Url, Net}
use pullbox_direct_providers.Contract.Models.{Candidate, ParsedCandidate, SearchIntent}
use pullbox_direct_providers.Contract.SearchTerms.{Unicode}
use pullbox_direct_providers.AnnasArchive.Catalog.{
  anna_candidates_from_catalog, anna_candidate, is_mobile,
}
use pullbox_direct_providers.AnnasArchive.Catalog.Pipeline.{
  entries, anna_candidates_from_catalog-eq,
}
use pullbox_direct_providers.Contract.Failures.{Failure, runtime_error, value_error}
use pullbox_direct_providers.AnnasArchive.Search.{
  Source, search, validate_official_domain, primary_search, source_available, build_query, or_text,
  default_official_url,
}
use pullbox_direct_providers.AnnasArchive.Search.Outcomes.{IsTolerated, search-runtime_error}
use pullbox_direct_providers.AnnasArchive.Fetch.{
  answered, refused, http_error, unavailable, fetch_fast_download,
}
use pullbox_direct_providers.AnnasArchive.Resolve.{
  ResolveResult, FastDownloadFetcher, anna_md5, resolve,
}
use pullbox_direct_providers.AnnasArchive.Resolve.Rounds.{domain_indices}
use pullbox_direct_providers.AnnasArchive.Resolve.Requests.{
  IsFastDownload, resolve-IsFastDownload, resolve-InOrder,
}

abbrev url_of : String → Url
url_of host = record {
  scheme = "https";
  netloc = host;
  hostname = some host;
  username = none;
  password = none;
  port = some none;
  path = "";
  query = "";
  fragment = "";
}

abbrev net : Net
net = record {
  urlsplit = λ s.
      if s == "https://annas-archive.gd"
      then some (url_of "annas-archive.gd")
      else if s == "https://a.example/x"
      then some (url_of "a.example")
      else if s == "https://a.example/y"
      then some (url_of "a.example.")
      else none;
  urlunsplit = λ scheme netloc path query fragment. netloc;
  urljoin = λ base url. none;
  ip_address = λ s. none;
  casefold = λ s. s;
  show = λ n. if n == 2020 then "2020" else "4";
  decode = λ bytes. "";
  encoded_length = λ s. 0;
}

abbrev unicode : Unicode
unicode = record { is_decimal = λ c. false; title = λ s. s }

abbrev md5_a : String
md5_a = "0123456789abcdef0123456789abcdef"

abbrev md5_b : String
md5_b = "ffffffffffffffffffffffffffffffff"

abbrev parsed : ParsedCandidate
parsed = record {
  series_title = "Saga";
  issue_numbers = "7" ∷ [];
  volume = none;
  year = some 2020;
  publisher = none;
  language = none;
  format = some "cbz";
}

abbrev candidate : String → String → Candidate
candidate md5 title = record {
  provider_candidate_id = String.◌++◌ "libgen:" md5;
  source_reference = "https://libgen.gl/file";
  display_title = title;
  raw_title = title;
  parsed = parsed;
  provider_confidence = 65;
  content_fingerprint = some (String.◌++◌ "md5:" md5);
  provenance = [];
}

-- a mobile copy, a canonical file twice, and an entry without a fingerprint
abbrev catalog : List Candidate
catalog =
    candidate md5_b "Saga 7 (digital-mobile)"
    ∷ candidate md5_a "Saga 7"
    ∷ candidate md5_a "Saga 7"
    ∷ candidate "x" "Saga 8"
    ∷ []

canonical_first :
    map {B = String × ℕ}
      (λ c. (c.provider_candidate_id, c.provider_confidence))
      (anna_candidates_from_catalog net "https://annas-archive.gd" 5 catalog)
    ≡ (String.◌++◌ "anna:" md5_a, 65) ∷ (String.◌++◌ "anna:" md5_b, 60) ∷ []
unfolding anna_candidates_from_catalog
canonical_first = refl

anna_candidates_from_catalog-eq_example :
    anna_candidates_from_catalog net "https://annas-archive.gd" 1 catalog
    ≡ take 1 (
        map
          (anna_candidate net "https://annas-archive.gd")
          (entries (filter (λ c. not (is_mobile net c)) catalog ++ filter (is_mobile net) catalog)))
anna_candidates_from_catalog-eq_example =
    anna_candidates_from_catalog-eq net "https://annas-archive.gd" 1 catalog (omega arith)

abbrev intent : SearchIntent
intent = record {
  series_title = "Saga";
  normalized_title = "saga";
  alternate_titles = [];
  issue_number = some "7";
  issue_type = none;
  volume = none;
  issue_title = none;
  series_year = none;
  release_year = none;
  year = some 2020;
}

builds_query : build_query net unicode intent ≡ "Saga 7 2020"
unfolding build_query
builds_query = refl

-- a page that cannot be fetched, beside a catalog
abbrev source : Result Failure (List Candidate) → Source
source found = record {
  page_fetcher = λ url. raised (runtime_error "unavailable");
  parse_search_html = λ html domain. ok [];
  catalog_search = λ intent limit. found;
  urlencode = λ params. "";
}

abbrev by_catalog : List Candidate
by_catalog = anna_candidate net "https://annas-archive.gd" (candidate md5_a "Saga 7") ∷ []

falls_back : search net unicode (source (ok catalog)) none 1 intent ≡ ok by_catalog
unfolding search
falls_back = refl

fails :
    search net unicode (source (raised value_error)) none 1 intent
    ≡ raised (runtime_error "unavailable")
unfolding search
fails = refl

unavailable_source : source_available net unicode (source (ok [])) ≡ ok false
unfolding source_available
unavailable_source = refl

search-runtime_error_example :
    (domain : String) × (validate_official_domain net (or_text default_official_url none)
      ≡ ok domain)
    × (primary_search net unicode (source (raised value_error)) domain 1 intent
        ≡ raised (runtime_error "unavailable"))
    × IsTolerated (raised value_error)
search-runtime_error_example =
    search-runtime_error net unicode (source (raised value_error)) none 1 intent "unavailable" fails

abbrev payload : String → Fields
payload url =
    field "download_url" (str url)
      (field "account_fast_download_info" (obj (field "downloads_left" (int (pos 7)) end)) end)

-- two links to one host, spelled differently, and a third request that meets the quota
abbrev fetcher : FastDownloadFetcher
fetcher domain md5 key index =
    if index == 0
    then ok (200, payload "https://a.example/x")
    else if index == 2
    then ok (204, payload "https://a.example/y")
    else ok (429, end)

abbrev no_digits : String → Option ℤ
no_digits s = none

abbrev candidate_id : String
candidate_id = "anna:0123456789abcdef0123456789abcdef"

abbrev found : ResolveResult
found = record {
  artifacts =
      record {
        artifact_id = "anna-fast:0123456789abcdef0123456789abcdef";
        issue_ids = md5_a ∷ [];
        mirrors =
            record {
              mirror_id = "anna-fast:0123456789abcdef0123456789abcdef:0";
              host_kind = "generic_https";
              final_url = "https://a.example/x";
              checksum = "md5:0123456789abcdef0123456789abcdef";
            }
            ∷ [];
      }
      ∷ [];
  quota = some (record { remaining = some 7; limit = none; window_seconds = 64800 });
}

resolves : resolve net no_digits fetcher none candidate_id (some "key") ≡ (ok found, 0 ∷ 2 ∷ 4 ∷ [])
unfolding resolve
resolves = refl

resolve-IsFastDownload_example :
    (domain : String) × (md5 : String) × (key : String) × (validate_official_domain net
        (or_text default_official_url none)
      ≡ ok domain)
    × (anna_md5 net candidate_id ≡ ok md5)
    × (key ≡ or_text "" (some "key"))
    × (is_empty key ≡ false)
    × IsFastDownload net no_digits md5 (fetcher domain md5 key 0) found
unfolding resolve
resolve-IsFastDownload_example =
    resolve-IsFastDownload net no_digits fetcher none candidate_id (some "key") found refl

resolve-InOrder_example :
    (n : ℕ) × ((resolve net no_digits fetcher none candidate_id (some "key")).1
      ≡ take n domain_indices)
resolve-InOrder_example = resolve-InOrder net no_digits fetcher none candidate_id (some "key")

fetches :
    fetch_fast_download (λ body. some (obj end)) (answered 200 (ok (1 ∷ []) ∷ ok (2 ∷ []) ∷ []))
    ≡ (ok (200, end), 1)
unfolding fetch_fast_download
fetches = refl

unreachable :
    fetch_fast_download (λ body. none) (refused http_error)
    ≡ (raised (unavailable "source_unavailable"), 0)
unfolding fetch_fast_download
unreachable = refl
