-- ===== src/Contract/Resolver/Flow/Tests.antt =====
-- A run of `resolve_after_challenge` in small surroundings, and its theorems at concrete inputs.
use pullbox_direct_providers.Prelude.{
  ◌≡◌, refl, true, Option, none, some, [], ◌∷◌, leb, if◌then◌else◌, ◌==◌, ℕ_eq, String_eq, List_eq,
}
use pullbox_direct_providers.Prelude.Result.{Result, ok, raised, traverse}
use pullbox_direct_providers.Contract.Net.{Url, Net, AddressResolver}
use pullbox_direct_providers.Contract.Models.{flaresolverr_v1, ResolverProfile}
use pullbox_direct_providers.Contract.Resolver.Runtime.{
  Runtime, closed, open_, enter, leave, record_success, record_failure,
}
use pullbox_direct_providers.Contract.Resolver.Target.{fails, validate_source_url}
use pullbox_direct_providers.Contract.Resolver.Target.Declared.{
  IsValidated, validate_source_url-IsValidated,
}
use pullbox_direct_providers.Contract.Resolver.Replies.{
  decode_solution, OrdinaryHttpResponse, ResolverSolution, ResolverOutcome, Raised,
  max_response_bytes, read_bounded_response, SolutionModels, receive, status_error,
}
use pullbox_direct_providers.Contract.Resolver.Flow.{
  perform_resolution, Surroundings, Effects, prepared_post, resolve_after_challenge,
}
use pullbox_direct_providers.Prelude.Dict.{put_all, put}
use pullbox_direct_providers.Contract.Resolver.Challenge.{cloudflare, raw}
use pullbox_direct_providers.Contract.Resolver.Replies.{timed_out, response}
use pullbox_direct_providers.Contract.Resolver.Target.{
  declared_url, all_global, normalize_domain, within_domain, rebuilt_url, resolver_operation_url,
  validated_auth_headers, checked_headers,
}
use pullbox_direct_providers.Contract.Resolver.Flow.Accounting.{
  expected_failures, active-resolve_after_challenge, failures-resolve_after_challenge,
}
use pullbox_direct_providers.Contract.Resolver.Flow.Solutions.{
  total, join, read_bounded_response_lem, OptionalSolutionValid, PostsValid,
  resolve_after_challenge-Valid,
}

abbrev page_url : Url
page_url = record {
  scheme = "https";
  netloc = "libgen.gl";
  hostname = some "libgen.gl";
  username = none;
  password = none;
  port = some none;
  path = "/a";
  query = "";
  fragment = "";
}

abbrev solver_url : Url
solver_url = record page_url {
  scheme = "http";
  netloc = "solver:8191";
  hostname = some "solver";
  path = "";
}

abbrev net : Net
net = record {
  urlsplit = λ s.
      if s == "https://libgen.gl/a"
      then some page_url
      else if s == "http://solver:8191"
      then some solver_url
      else none;
  urlunsplit = λ scheme netloc path query fragment.
      if scheme == "https" then "https://libgen.gl/a" else "http://solver:8191/v1";
  urljoin = λ base url. some url;
  ip_address = λ s. if s == "93.184.216.34" then some true else none;
  casefold = λ s. s;
  show = λ n. "";
  decode = λ bytes. "";
  encoded_length = λ s. 0;
}

abbrev solution : ResolverSolution
solution = record {
  final_url = "https://libgen.gl/a";
  status_code = 200;
  html = "<html></html>";
  cookies = [];
  user_agent = none;
}

abbrev models : SolutionModels
models = record { response_model = λ bytes. some ("ok", solution); trawl_model = λ bytes. none }

abbrev lookup_global : AddressResolver
lookup_global host port = some ("93.184.216.34" ∷ [])

abbrev env : Surroundings
env = record {
  entered_at = 5;
  failed_at = 6;
  first_lookup = lookup_global;
  second_lookup = lookup_global;
  answer = λ post. response 200 ((1 ∷ 2 ∷ []) ∷ []);
}

abbrev profile : ResolverProfile
profile = record {
  endpoint = "http://solver:8191";
  mode = flaresolverr_v1;
  timeout_ms = 60000;
  max_concurrency = 2;
  declared_domains = "libgen.gl" ∷ [];
  authentication_headers = [];
}

abbrev runtime : Runtime
runtime = record {
  max_concurrency = 2;
  failure_threshold = 3;
  cooldown_seconds = 60000;
  active = 1;
  failures = 2;
  state = closed;
  opened_at = none;
}

abbrev page : OrdinaryHttpResponse
page = record { status_code = 503; headers = []; body = raw [] }

call : Unit {0}
unfolding resolve_after_challenge prepared_post validate_source_url declared_url all_global
    perform_resolution receive status_error decode_solution read_bounded_response
    resolver_operation_url validated_auth_headers checked_headers normalize_domain within_domain
    rebuilt_url enter leave record_success record_failure traverse put_all put
call = tt

solves :
    (resolve_after_challenge net models env page "https://libgen.gl/a" profile
      (some cloudflare)
      runtime).1.runtime
    ≡ record runtime { failures = 0 }
unfolding call
solves = refl

times_out :
    (resolve_after_challenge net models
      (record env { answer = λ post. timed_out })
      page
      "https://libgen.gl/a"
      profile
      (some cloudflare)
      runtime).1.runtime.state
    ≡ open_
unfolding call
times_out = refl

active-resolve_after_challenge_example :
    (resolve_after_challenge net models env page "https://libgen.gl/a" profile
      (some cloudflare)
      runtime).1.runtime.active
    ≡ 1
active-resolve_after_challenge_example =
    active-resolve_after_challenge net models env profile page "https://libgen.gl/a"
      (some cloudflare) runtime

abbrev done : Result Raised (Option ResolverOutcome) × Effects
done =
    resolve_after_challenge net models env page "https://libgen.gl/a" profile (some cloudflare)
      runtime

failures-resolve_after_challenge_example :
    done.1.runtime.failures ≡ expected_failures done.0 done.1.posts 2
failures-resolve_after_challenge_example =
    failures-resolve_after_challenge net models env profile page "https://libgen.gl/a"
      (some cloudflare) runtime

resolve_after_challenge-Valid_example :
    OptionalSolutionValid net models env profile done.0
    × PostsValid net models env profile "https://libgen.gl/a" done.1.posts
resolve_after_challenge-Valid_example =
    resolve_after_challenge-Valid net models env page "https://libgen.gl/a" profile
      (some cloudflare) runtime

read_bounded_response_lem_example : read_bounded_response ((1 ∷ []) ∷ (2 ∷ []) ∷ []) ≡ (
    if leb (total ((1 ∷ []) ∷ (2 ∷ []) ∷ [])) max_response_bytes
    then ok (join ((1 ∷ []) ∷ (2 ∷ []) ∷ []))
    else raised (fails "resolver_response_too_large"))
read_bounded_response_lem_example = read_bounded_response_lem ((1 ∷ []) ∷ (2 ∷ []) ∷ [])

accepts :
    validate_source_url net lookup_global "https://libgen.gl/a" ("libgen.gl" ∷ [])
    ≡ ok "https://libgen.gl/a"
unfolding call
accepts = refl

validate_source_url-IsValidated_example :
    IsValidated net lookup_global "https://libgen.gl/a" ("libgen.gl" ∷ []) "https://libgen.gl/a"
validate_source_url-IsValidated_example =
    validate_source_url-IsValidated net lookup_global "https://libgen.gl/a" ("libgen.gl" ∷ [])
      "https://libgen.gl/a" accepts
