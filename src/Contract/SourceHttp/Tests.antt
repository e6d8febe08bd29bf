-- ===== src/Contract/SourceHttp/Tests.antt =====
-- A fetch with a redirect in small surroundings, and the theorems on it at concrete inputs.
use Prim.Native.String
use pullbox_direct_providers.Prelude.{
  ◌≡◌, refl, true, false, none, some, [], ◌∷◌, if◌then◌else◌, ◌==◌, ℕ_eq, String_eq, List_eq,
  String,
}
use pullbox_direct_providers.Prelude.Result.{ok, raised, traverse}
use pullbox_direct_providers.Contract.Net.{Url, Net}
use pullbox_direct_providers.Contract.Resolver.Challenge.{detect_browser_challenge}
use pullbox_direct_providers.Contract.Resolver.Target.{
  validate_source_url, declared_url, all_global, normalize_domain, within_domain, rebuilt_url,
}
use pullbox_direct_providers.Contract.SourceHttp.{
  redirect_limit, Response, answered, requested, opened, response_closed, client_closed, complete,
  read_bounded, same_origin_source_redirect, bounded_location, safe_headers,
}
use pullbox_direct_providers.Contract.SourceHttp.Fetch.{
  Outside, Page, fetch_source_html, follow, prepend,
}
use pullbox_direct_providers.Contract.SourceHttp.Requests.{requests, opens, closes}
use pullbox_direct_providers.Contract.SourceHttp.Discipline.{
  RequestsOf, fetch_source_html-Requests, fetch_source_html-Closes,
}
use pullbox_direct_providers.Contract.SourceHttp.Pages.{
  IsRead, ComesFrom, fetch_source_html-ComesFrom,
}

abbrev at_path : String → Url
at_path path = record {
  scheme = "https";
  netloc = "libgen.gl";
  hostname = some "libgen.gl";
  username = none;
  password = none;
  port = some none;
  path = path;
  query = "";
  fragment = "";
}

abbrev net : Net
net = record {
  urlsplit = λ s.
      if s == "https://libgen.gl/a"
      then some (at_path "/a")
      else if s == "https://libgen.gl/b"
      then some (at_path "/b")
      else none;
  urlunsplit = λ scheme netloc path query fragment. String.◌++◌ "https://libgen.gl" path;
  urljoin = λ base url. some "https://libgen.gl/b";
  ip_address = λ s. if s == "93.184.216.34" then some true else none;
  casefold = λ s. s;
  show = λ n. "";
  decode = λ bytes. "";
  encoded_length = λ s. 0;
}

abbrev response : Response
response = record {
  status_code = 200;
  headers = [];
  location = none;
  encoding = none;
  chunks = (60 ∷ []) ∷ [];
  stream_end = complete;
}

abbrev moved : Response
moved = record response { status_code = 302; location = some "/b" }

abbrev outside : Outside
outside = record {
  lookups = λ k host port. some ("93.184.216.34" ∷ []);
  send = λ k url. if url == "https://libgen.gl/a" then answered moved else answered response;
  browser_resolver = λ ordinary url profile. ok none;
  decode = λ bytes encoding. "<";
}

fetched : fetch_source_html net outside "https://libgen.gl/a" ("libgen.gl" ∷ []) none true ≡ (
  ok "<",
  requested "https://libgen.gl/a"
      ∷ opened
      ∷ response_closed
      ∷ requested "https://libgen.gl/b"
      ∷ opened
      ∷ response_closed
      ∷ client_closed
      ∷ [],
)
unfolding fetch_source_html validate_source_url declared_url all_global normalize_domain
    within_domain rebuilt_url traverse read_bounded same_origin_source_redirect bounded_location
    safe_headers follow prepend detect_browser_challenge
fetched = refl

redirects_twice :
    (fetch_source_html net
      (record outside { send = λ k url. answered moved })
      "https://libgen.gl/a"
      ("libgen.gl" ∷ [])
      none
      false).0
    ≡ raised redirect_limit
unfolding fetch_source_html validate_source_url declared_url all_global normalize_domain
    within_domain rebuilt_url traverse read_bounded same_origin_source_redirect bounded_location
    safe_headers follow prepend detect_browser_challenge
redirects_twice = refl

fetch_source_html-Requests_example :
    RequestsOf net outside "https://libgen.gl/a" ("libgen.gl" ∷ []) (
      requests (fetch_source_html net outside "https://libgen.gl/a" ("libgen.gl" ∷ []) none true).1)
fetch_source_html-Requests_example =
    fetch_source_html-Requests net outside "https://libgen.gl/a" ("libgen.gl" ∷ []) none true

fetch_source_html-Closes_example :
    opens (fetch_source_html net outside "https://libgen.gl/a" ("libgen.gl" ∷ []) none true).1
    ≡ closes (fetch_source_html net outside "https://libgen.gl/a" ("libgen.gl" ∷ []) none true).1
fetch_source_html-Closes_example =
    fetch_source_html-Closes net outside "https://libgen.gl/a" ("libgen.gl" ∷ []) none true

fetch_source_html-ComesFrom_example :
    (page : Page) × IsRead outside page × ComesFrom net outside none "<" page
unfolding fetch_source_html validate_source_url declared_url all_global normalize_domain
    within_domain rebuilt_url traverse read_bounded same_origin_source_redirect bounded_location
    safe_headers follow prepend detect_browser_challenge
fetch_source_html-ComesFrom_example =
    fetch_source_html-ComesFrom net outside "https://libgen.gl/a" ("libgen.gl" ∷ []) none true "<"
      refl
