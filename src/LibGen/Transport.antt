-- ===== src/LibGen/Transport.antt =====
-- transport.py of providers/libgen/src/pullbox_provider_libgen: the session's state, its cookies
-- and headers, and the checks of URLs, bodies and statuses.
pub mod Fetch
pub mod Lifetime
mod Tests
pub mod Destination
pub mod Operations
pub mod Safety
pub mod Cookies
pub mod Headers
use Prim.Native.String
use Prim.Native.Char.{Char, code}
use pullbox_direct_providers.Prelude.{
  ℕ, zero, suc, ◌+◌, ◌*◌, Bool, true, false, not, ◌&&◌, ◌||◌, Option, none, some, List, [], ◌∷◌,
  ◌++◌, ltb, leb, nat_beq, if◌then◌else◌, length, ◌==◌, ℕ_eq, String_eq, String, any, all, contains,
  take,
}
use pullbox_direct_providers.Prelude.Result.{Result, ok, raised, ◌>>=◌, ◌>>◌, require, of_option}
use pullbox_direct_providers.Prelude.Text.{
  strip, lstrip, rstrip, is_blank, is_empty, is_char, is_digit, text_len, all_chars, any_char,
  has_infix, starts,
}
use pullbox_direct_providers.Contract.Net.{Url, Net, AddressResolver}
use pullbox_direct_providers.Contract.Models.{ResolverProfile}
use pullbox_direct_providers.Contract.Configuration.{is_none, is_https_port}
use pullbox_direct_providers.Contract.Resolver.Challenge.{
  BrowserChallengeKind, browser_challenge, raw, detect_browser_challenge, challenge_body_limit,
}
use pullbox_direct_providers.Contract.Resolver.Target.{
  ResolverError, within_domain, validate_source_url, all_global,
}
use pullbox_direct_providers.Contract.Resolver.Replies.{ResolverCookie, ResolverSolution}
use pullbox_direct_providers.LibGen.Service.Origins.{
  ServiceError, source_error, resolver_error, value_error,
}

pub record SessionCookie : Type 0 where
  pub name : String
  pub value : String
  pub domain : String
  pub path : String

pub record Session : Type 0 where
  pub source_host : String
  pub resolver_profile : Option ResolverProfile
  pub user_agent : String
  pub cookies : List SessionCookie

abbrev pub redirect_statuses : List ℕ
redirect_statuses = 301 ∷ 302 ∷ 303 ∷ 307 ∷ 308 ∷ []

abbrev pub max_text_bytes : ℕ
max_text_bytes = 2 * 1024 * 1024

abbrev pub max_redirect_length : ℕ
max_redirect_length = 4000

abbrev pub default_user_agent : String
default_user_agent = "PullboxDirectProvider/0.1"

abbrev pub is_line_break : Char → Bool
is_line_break c = is_char 13 c || is_char 10 c

abbrev pub breaks_line : String → Bool
breaks_line s = any_char is_line_break s

-- a or b, of an optional text
abbrev pub text_or_else : Option String → String → String
text_or_else none other = other
text_or_else (some s) other = if is_empty s then other else s

module _ (net : Net) where
  -- The constructor of `LibGenSourceSession`.
  unfoldable pub new_session : String → Option ResolverProfile → Result ServiceError Session
  new_session source_origin resolver_profile = do
    parsed ← of_option value_error (net.urlsplit source_origin)
    port ← of_option (source_error "source_origin_invalid" true) parsed.port
    hostname ← of_option (source_error "source_origin_invalid" true) parsed.hostname
    require
        (parsed.scheme == "https"
          && not (is_empty hostname)
          && is_none parsed.username
          && is_none parsed.password
          && is_https_port port
          && (parsed.path == "" || parsed.path == "/")
          && is_empty parsed.query
          && is_empty parsed.fragment)
        (source_error "source_origin_invalid" true)
    ok (record {
      source_host = net.casefold hostname;
      resolver_profile = resolver_profile;
      user_agent = default_user_agent;
      cookies = [];
    })

  -- `aclose`, the client apart
  unfoldable pub closed_session : Session → Session
  closed_session session = record session { user_agent = default_user_agent; cookies = [] }

  -- `_recognized_challenge`
  unfoldable pub recognized_challenge :
      ℕ → List (String × String) → List ℕ → Option BrowserChallengeKind
  unfolding has_infix detect_browser_challenge
  recognized_challenge status_code headers body =
      let sample = net.casefold (net.decode (take challenge_body_limit body)) in
      if nat_beq status_code 200
        && has_infix "<title>welcome to nginx!</title>" sample
        && has_infix "<h1>welcome to nginx!</h1>" sample
        && has_infix "further configuration is required" sample
      then some browser_challenge
      else detect_browser_challenge net status_code headers (raw body)

  -- `_raise_for_source_status`
  unfoldable pub raise_for_source_status : ℕ → Result ServiceError (Unit {0})
  raise_for_source_status status_code =
      if nat_beq status_code 429
      then raised (source_error "source_rate_limited" true)
      else if leb 400 status_code
      then raised (source_error "source_unavailable" true)
      else ok tt

  abbrev unavailable : Bool → ServiceError
  unavailable retryable = source_error "artifact_unavailable" retryable

  abbrev public_or : Result ResolverError (Unit {0}) → List String → Result ServiceError (Unit {0})
  public_or (ok u) addresses = ok u
  public_or (raised e) addresses =
      raised (unavailable (any (λ a. is_none (net.ip_address a)) addresses))

  -- The checks of `_validate_public_destination` on the URL alone, and the host.
  unfoldable pub destination_host : Option String → Result ServiceError (String × String)
  unfolding text_len strip
  destination_host raw_url = do
    location ← of_option (unavailable false) raw_url
    require (not (is_empty location) && leb (text_len location) max_redirect_length)
        (unavailable false)
    parsed ← of_option (unavailable false) (net.urlsplit (strip location))
    port ← of_option (unavailable false) parsed.port
    hostname ← of_option (unavailable false) parsed.hostname
    require
        (parsed.scheme == "https"
          && not (is_empty hostname)
          && is_none parsed.username
          && is_none parsed.password
          && is_https_port port
          && is_empty parsed.fragment)
        (unavailable false)
    ok (strip location, net.casefold hostname)

  -- `_validate_public_destination`: an address that cannot be read is an error that may be tried
  -- again, an address that is not global is not.
  unfoldable pub validate_public_destination :
      AddressResolver → Option String → Result ServiceError String
  unfolding destination_host all_global
  validate_public_destination resolve raw_url = do
    target ← destination_host raw_url
    addresses ← of_option (unavailable true) (resolve target.1 443)
    require (ltb 0 (length addresses)) (unavailable false)
    public_or (all_global net addresses) addresses
    ok target.0

  abbrev pub lift_target : Result ResolverError String → Result ServiceError String
  lift_target (ok url) = ok url
  lift_target (raised e) = raised (resolver_error e)

  -- parsed.hostname == host
  abbrev pub is_host : Option String → String → Bool
  is_host none host = false
  is_host (some hostname) host = hostname == host

  -- `_safe_source_url`
  unfoldable pub safe_source_url : AddressResolver → Session → String → Result ServiceError String
  unfolding validate_source_url
  safe_source_url resolve session raw_url = do
    safe_url ← lift_target (validate_source_url net resolve raw_url (session.source_host ∷ []))
    parsed ← of_option value_error (net.urlsplit safe_url)
    require (parsed.scheme == "https" && is_host parsed.hostname session.source_host)
        (source_error "source_url_rejected" false)
    ok safe_url
