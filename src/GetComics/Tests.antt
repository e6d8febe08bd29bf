-- ===== src/GetComics/Tests.antt =====
-- Searches and resolutions of GetComics in small surroundings, and the theorems at them.

use pullbox_direct_providers.Prelude.{
  ◌≡◌, refl, true, Option, none, some, List, [], ◌∷◌, arith, if◌then◌else◌, ◌==◌, ℕ_eq, String_eq,
  String,
}
use pullbox_direct_providers.Prelude.Int.{pos}
use pullbox_direct_providers.Prelude.Result.{ok, raised}
use pullbox_direct_providers.Prelude.Text.{is_digit}
use pullbox_direct_providers.Contract.Net.{Net}
use pullbox_direct_providers.Contract.Failures.{runtime_error, value_error}
use pullbox_direct_providers.Contract.Models.{Candidate, SearchIntent}
use pullbox_direct_providers.Contract.SearchTerms.{Unicode}
use pullbox_direct_providers.GetComics.Queries.{build_queries, standard_issue_fallback_queries}
use pullbox_direct_providers.GetComics.Queries.Bounds.{AreBounded, build_queries-AreBounded}
use pullbox_direct_providers.GetComics.Search.{PageSource, search, source_available}
use pullbox_direct_providers.GetComics.Search.Results.{AreResults, search-AreResults}
use pullbox_direct_providers.GetComics.Resolve.{
  Base64, decoded, malformed, not_ascii, candidate_url, candidate_identity, candidate_not_found,
  ReleaseSource, resolve, padding, is_candidate_path,
}
use pullbox_direct_providers.GetComics.Resolve.RoundTrip.{candidate_url-candidate_identity}

abbrev net : Net
net = record {
  urlsplit = λ s. none;
  urlunsplit = λ scheme netloc path query fragment. netloc;
  urljoin = λ base url. none;
  ip_address = λ s. none;
  casefold = λ s. s;
  show = λ n. if n == 2020 then "2020" else if n == 2012 then "2012" else "7";
  decode = λ bytes. "";
  encoded_length = λ s. 0;
}

abbrev unicode : Unicode
unicode = record { is_decimal = λ c. is_digit c; title = λ s. s }

abbrev intent : Option String → SearchIntent
intent issue = record {
  series_title = "saga";
  normalized_title = "saga";
  alternate_titles = [];
  issue_number = issue;
  issue_type = none;
  volume = none;
  issue_title = none;
  series_year = some 2012;
  release_year = some 2020;
  year = none;
}

exact :
    build_queries net unicode (intent (some "7")) ≡ "saga 7 2020" ∷ "saga 7" ∷ "saga 7 2012" ∷ []
unfolding build_queries
exact = refl

fallback :
    standard_issue_fallback_queries net unicode (intent (some "7")) ≡ "saga 2020" ∷ "saga 2012" ∷ []
unfolding standard_issue_fallback_queries
fallback = refl

abbrev volume_intent : SearchIntent
volume_intent = record (intent none) {
  issue_type = some "tpb";
  volume = some "2";
  issue_title = some "vol. 2: War";
}

collection :
    build_queries net unicode volume_intent
    ≡ "saga Vol 2 War" ∷ "saga Vol 2" ∷ "saga Volume 2" ∷ "saga 2020" ∷ "saga 2012" ∷ []
unfolding build_queries
collection = refl

build_queries-AreBounded_example : AreBounded 5 (build_queries net unicode volume_intent)
build_queries-AreBounded_example = build_queries-AreBounded net unicode volume_intent

abbrev candidate : String → String → Candidate
candidate id issue = record {
  provider_candidate_id = id;
  source_reference = "https://getcomics.org/saga";
  display_title = "Saga";
  raw_title = "Saga";
  parsed = record {
    series_title = "saga";
    issue_numbers = issue ∷ [];
    volume = none;
    year = some 2012;
    publisher = none;
    language = none;
    format = none;
  };
  provider_confidence = 75;
  content_fingerprint = none;
  provenance = [];
}

-- every page holds the same three candidates
abbrev source : PageSource
source = record {
  net = net;
  unicode = unicode;
  alphabet = record {
    is_alnum = λ c. true;
    int_of_text = λ s. if s == "7" then some (pos 7) else none;
  };
  urlencode = λ params. "";
  page_fetcher = λ url. ok "page";
  parse_search_html = λ html. ok (candidate "a" "6" ∷ candidate "b" "7" ∷ candidate "c" "8" ∷ []);
}

abbrev wanted : List Candidate
wanted = candidate "b" "7" ∷ candidate "a" "6" ∷ []

searched : search source (intent (some "7")) 2 ≡ ok wanted
unfolding search
searched = refl

-- An issue number that is no number cannot be normalised, and no handler expects the ValueError.
no_number : search source (intent (some "Annual")) 2 ≡ raised value_error
unfolding search
no_number = refl

search-AreResults_example : AreResults source (intent (some "7")) 2 wanted
search-AreResults_example = search-AreResults source (intent (some "7")) 2 wanted searched

available : source_available source ≡ ok true
unfolding source_available
available = refl

abbrev base64 : Base64
base64 = record {
  urlsafe_b64encode = λ path. "L2E=";
  urlsafe_b64decode =
      λ s. if s == "L2E=" then decoded "/a" else if s == "====" then malformed else not_ascii;
}

names : candidate_identity base64 "/a" ≡ ok "getcomics:L2E"
unfolding candidate_identity padding is_candidate_path
names = refl

candidate_url-candidate_identity_example :
    candidate_url base64 "getcomics:L2E" ≡ ok "https://getcomics.org/a"
unfolding candidate_identity padding is_candidate_path
candidate_url-candidate_identity_example =
    candidate_url-candidate_identity base64 "/a" "L2E" 1 "getcomics:L2E" refl refl (omega arith)
      refl refl refl names

-- An id with a character that is not ASCII, which base64 refuses with a plain ValueError.
not_found : candidate_url base64 "anna:L2E" ≡ raised candidate_not_found
unfolding candidate_url
not_found = refl

plain_value_error : candidate_url base64 "getcomics:é" ≡ raised value_error
unfolding candidate_url
plain_value_error = refl

abbrev release : ReleaseSource (List (String × Option String))
release = record {
  base64 = base64;
  page_fetcher = λ url. ok "page";
  redirect_resolver = λ url. if url == "x" then ok "https://host/x" else raised (runtime_error "");
  extract_source_redirect_links = λ html. ok ("x" ∷ "y" ∷ []);
  parse_release_html = λ html url links. ok links;
}

resolves : resolve release "getcomics:L2E" ≡ ok (("x", some "https://host/x") ∷ ("y", none) ∷ [])
unfolding resolve
resolves = refl
