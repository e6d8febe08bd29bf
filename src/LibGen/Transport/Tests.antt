-- ===== src/LibGen/Transport/Tests.antt =====
-- A session of LibGen/Transport behind a browser challenge, and the theorems on it.

use pullbox_direct_providers.Prelude.{
  zero, suc, ◌≡◌, refl, true, none, some, List, [], ◌∷◌, if◌then◌else◌, ◌==◌, ℕ_eq, String_eq,
  List_eq, String,
}
use pullbox_direct_providers.Prelude.Result.{ok, traverse}
use pullbox_direct_providers.Prelude.Text.{any_char}
use pullbox_direct_providers.Contract.Net.{Url, Net}
use pullbox_direct_providers.Contract.Models.{flaresolverr_v1, ResolverProfile}
use pullbox_direct_providers.Contract.Resolver.Challenge.{
  detect_browser_challenge, normalized_headers,
}
use pullbox_direct_providers.Prelude.Dict.{put, lookup}
use pullbox_direct_providers.Contract.Resolver.Replies.{ResolverSolution}
use pullbox_direct_providers.Contract.Resolver.Target.{
  validate_source_url, declared_url, all_global, normalize_domain, within_domain, rebuilt_url,
}
use pullbox_direct_providers.Contract.SourceHttp.{Response, answered, complete}
use pullbox_direct_providers.LibGen.Transport.{Session, default_user_agent}
use pullbox_direct_providers.LibGen.Transport.Fetch.{
  Event, requested, opened, response_closed, browser_asked, Outside, fetch_text, resolve_redirect,
}
use pullbox_direct_providers.LibGen.Transport.Safety.{SafeFor, Kept}
use pullbox_direct_providers.LibGen.Transport.Operations.{fetch_text-Kept, resolve_redirect-Kept}
use pullbox_direct_providers.LibGen.Transport.Destination.{IsPublic, resolve_redirect-IsPublic}
use pullbox_direct_providers.LibGen.Transport.{new_session}
use pullbox_direct_providers.LibGen.Transport.Headers.{IsSafe}
use pullbox_direct_providers.LibGen.Transport.Lifetime.{
  constructed, after_redirect, Reachable-IsSafe,
}

abbrev at_host : String → Url
at_host hostname = record {
  scheme = "https";
  netloc = hostname;
  hostname = some hostname;
  username = none;
  password = none;
  port = some none;
  path = "/get";
  query = "";
  fragment = "";
}

abbrev origin_url : Url
origin_url = record (at_host "libgen.gl") { path = "" }

abbrev net : Net
net = record {
  urlsplit = λ s.
      if s == "https://libgen.gl/get"
      then some (at_host "libgen.gl")
      else if s == "https://libgen.gl"
      then some origin_url
      else if s == "https://cdn.example/a"
      then some (at_host "cdn.example")
      else none;
  urlunsplit = λ scheme netloc path query fragment. "https://libgen.gl/get";
  urljoin = λ base url. none;
  ip_address = λ s. if s == "93.184.216.34" then some true else none;
  casefold = λ s. s;
  show = λ n. "";
  decode = λ bytes. "just a moment";
  encoded_length = λ s. 0;
}

abbrev profile : ResolverProfile
profile = record {
  endpoint = "http://solver:8191";
  mode = flaresolverr_v1;
  timeout_ms = 60000;
  max_concurrency = 1;
  declared_domains = "libgen.gl" ∷ [];
  authentication_headers = [];
}

abbrev session : Session
session = record {
  source_host = "libgen.gl";
  resolver_profile = some profile;
  user_agent = default_user_agent;
  cookies = [];
}

-- The second cookie belongs to another domain.
abbrev solution : ResolverSolution
solution = record {
  final_url = "https://libgen.gl/get";
  status_code = 200;
  html = "";
  cookies =
      record { name = "cf"; value = "1"; domain = some ".libgen.gl"; path = none }
      ∷ record { name = "x"; value = "2"; domain = some "evil.example"; path = none }
      ∷ [];
  user_agent = some "Agent";
}

abbrev challenged : Response
challenged = record {
  status_code = 503;
  headers = ("cf-ray", "1") ∷ [];
  location = none;
  encoding = none;
  chunks = [];
  stream_end = complete;
}

abbrev moved : Response
moved = record challenged {
  status_code = 302;
  headers = [];
  location = some "https://cdn.example/a";
}

abbrev outside : Outside
outside = record {
  target_resolver = λ host port. some ("93.184.216.34" ∷ []);
  send = λ k url headers. elim k [ zero ↦ answered challenged | suc n ↦ answered moved ];
  browser_resolver =
      λ ordinary url p challenge. ok (some (record { challenge = challenge; solution = solution }));
  decode = λ bytes encoding. "";
}

abbrev resolved : List Event
resolved =
    requested "https://libgen.gl/get" (("Accept", "*/*") ∷ ("User-Agent", default_user_agent) ∷ [])
    ∷ opened
    ∷ browser_asked "https://libgen.gl/get"
    ∷ response_closed
    ∷ requested "https://libgen.gl/get"
        (("Accept", "*/*") ∷ ("User-Agent", "Agent") ∷ ("Cookie", "cf=1") ∷ [])
    ∷ opened
    ∷ response_closed
    ∷ []

resolves : (resolve_redirect net outside session "https://libgen.gl/get").2 ≡ resolved
unfolding resolve_redirect validate_source_url declared_url all_global normalize_domain
    within_domain rebuilt_url traverse detect_browser_challenge normalized_headers put lookup
resolves = refl

session-Safe : SafeFor net outside "libgen.gl" session
unfolding any_char
session-Safe = (record { agent = refl; kept = tt }, refl)

fetch_text-Kept_example :
    Kept net outside "libgen.gl" (fetch_text net outside session "https://libgen.gl/get" 1000)
fetch_text-Kept_example =
    fetch_text-Kept net outside "libgen.gl" session "https://libgen.gl/get" 1000 session-Safe

resolve_redirect-Kept_example :
    Kept net outside "libgen.gl" (resolve_redirect net outside session "https://libgen.gl/get")
resolve_redirect-Kept_example =
    resolve_redirect-Kept net outside "libgen.gl" session "https://libgen.gl/get" session-Safe

resolve_redirect-IsPublic_example : IsPublic net outside.target_resolver "https://cdn.example/a"
unfolding resolve_redirect validate_source_url declared_url all_global normalize_domain
    within_domain rebuilt_url traverse detect_browser_challenge normalized_headers put lookup
resolve_redirect-IsPublic_example =
    resolve_redirect-IsPublic net outside session "https://libgen.gl/get" "https://cdn.example/a"
      refl

made : new_session net "https://libgen.gl" (some profile) ≡ ok session
unfolding new_session
made = refl

Reachable-IsSafe_example :
    IsSafe net (resolve_redirect net outside session "https://libgen.gl/get").1
Reachable-IsSafe_example =
    Reachable-IsSafe net "https://libgen.gl" (some profile)
      (resolve_redirect net outside session "https://libgen.gl/get").1
      (after_redirect session outside "https://libgen.gl/get" (constructed session made))
