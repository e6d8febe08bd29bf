-- ===== src/Contract/SourceHttp.antt =====
-- source_http.py of packages/provider_contract/src/pullbox_provider_contract: the fetch of a source
-- page with its one redirect, and the lookup of a redirect. What `client.send` and the DNS lookups
-- give is an argument, by the number of the request; what the code does to the responses and the
-- client is an event.
mod Tests
pub mod Pages
pub mod Discipline
pub mod Requests
pub mod Origin
pub mod Fetch
use Prim.Native.String
use pullbox_direct_providers.Prelude.{
  ℕ, zero, suc, ◌+◌, ◌*◌, Bool, true, false, not, ◌&&◌, ◌||◌, Option, none, some, List, [], ◌∷◌,
  ◌++◌, ltb, leb, nat_beq, if◌then◌else◌, length, ◌==◌, ℕ_eq, String_eq, String, contains,
}
use pullbox_direct_providers.Prelude.Result.{Result, ok, raised, ◌>>=◌, ◌>>◌, require, of_option}
use pullbox_direct_providers.Prelude.Text.{strip, text_len, is_empty, rstrip, is_char}
use pullbox_direct_providers.Contract.Net.{Url, Net, AddressResolver}
use pullbox_direct_providers.Contract.Models.{ResolverProfile}
use pullbox_direct_providers.Contract.Resolver.Challenge.{
  BrowserChallengeKind, Body, raw, detect_browser_challenge,
}
use pullbox_direct_providers.Contract.Resolver.Target.{
  ResolverError, is_set, folded_host, validate_source_url,
}
use pullbox_direct_providers.Contract.Resolver.Replies.{OrdinaryHttpResponse, ResolverOutcome}

-- The exceptions: the `RuntimeError`s, told apart by their messages, `BrowserChallengeRequiredError`,
-- those of the target check and of the browser resolver, and a cancellation.
pub data SourceError : Type 0 where
  unavailable response_too_large : SourceError
  redirect_limit redirect_invalid redirect_rejected not_redirected : SourceError
  no_page rate_limited : SourceError
  http_status : ℕ → SourceError
  challenge_required : SourceError
  resolver_error : ResolverError → SourceError
  cancellation : SourceError

-- How the stream of a body ends: at its end, by an httpx error, or by a cancellation.
pub data StreamEnd : Type 0 where
  complete broken aborted : StreamEnd

pub record Response : Type 0 where
  pub status_code : ℕ
  pub headers : List (String × String)
  -- headers.get("location")
  pub location : Option String
  pub encoding : Option String
  pub chunks : List (List ℕ)
  pub stream_end : StreamEnd

-- What `client.send` does: raise an httpx error or a TimeoutError, be cancelled, or answer.
pub data Exchange : Type 0 where
  send_failed send_cancelled : Exchange
  answered : Response → Exchange

pub data Event : Type 0 where
  requested : String → Event
  opened response_closed client_closed : Event
  browser_asked : String → Event

abbrev pub max_source_bytes : ℕ
max_source_bytes = 8 * 1024 * 1024

abbrev pub max_redirect_url_length : ℕ
max_redirect_url_length = 4000

abbrev pub redirect_status_codes : List ℕ
redirect_status_codes = 301 ∷ 302 ∷ 303 ∷ 307 ∷ 308 ∷ []

abbrev pub max_source_redirects : ℕ
max_source_redirects = 1

abbrev stream_result : StreamEnd → List ℕ → Result SourceError (List ℕ)
stream_result complete body = ok body
stream_result broken body = raised unavailable
stream_result aborted body = raised cancellation

-- The loop of `_read_bounded`, from the body read so far.
unfoldable pub read_stream : StreamEnd → List ℕ → List (List ℕ) → Result SourceError (List ℕ)
read_stream stream_end body [] = stream_result stream_end body
read_stream stream_end body (chunk ∷ chunks) =
    let rest = read_stream stream_end (body ++ chunk) chunks in
    if ltb max_source_bytes (length (body ++ chunk)) then raised response_too_large else rest

-- `_read_bounded`
unfoldable pub read_bounded : Response → Result SourceError (List ℕ)
unfolding read_stream
read_bounded response = read_stream response.stream_end [] response.chunks

-- `port or 443`
abbrev pub port_or_https : Option ℕ → ℕ
port_or_https none = 443
port_or_https (some zero) = 443
port_or_https (some (suc n)) = suc n

abbrev pub is_present : Option String → Bool
is_present none = false
is_present (some s) = true

-- A location that is there, not empty and not too long.
unfoldable pub bounded_location : Option String → Result SourceError String
bounded_location raw_location = do
  location ← of_option redirect_invalid raw_location
  require (not (is_empty location) && leb (text_len location) max_redirect_url_length)
      redirect_invalid
  ok location

module _ (net : Net) where
  -- hostname.casefold().rstrip(".") of both, neither missing nor empty
  unfoldable pub same_host : Option String → Option String → Bool
  unfolding folded_host
  same_host (some a) (some b) =
      not (is_empty a) && not (is_empty b) && folded_host net a == folded_host net b
  same_host _ _ = false

  unfoldable pub is_same_origin : Url → Option ℕ → Url → Option ℕ → Bool
  unfolding same_host
  is_same_origin source source_port destination destination_port =
      source.scheme == "https"
      && destination.scheme == "https"
      && same_host source.hostname destination.hostname
      && nat_beq (port_or_https source_port) (port_or_https destination_port)
      && not (is_set destination.username)
      && not (is_set destination.password)
      && is_empty destination.fragment

  -- `_same_origin_source_redirect`
  unfoldable pub same_origin_source_redirect : String → Option String → Result SourceError String
  unfolding bounded_location strip is_same_origin
  same_origin_source_redirect source_url raw_location = do
    location ← bounded_location raw_location
    source ← of_option redirect_invalid (net.urlsplit source_url)
    destination_url ← of_option redirect_invalid (net.urljoin source_url (strip location))
    destination ← of_option redirect_invalid (net.urlsplit destination_url)
    source_port ← of_option redirect_invalid source.port
    destination_port ← of_option redirect_invalid destination.port
    require (is_same_origin source source_port destination destination_port) redirect_rejected
    ok destination_url

  -- `_validate_redirect_destination`
  unfoldable pub validate_redirect_destination : Option String → Result SourceError String
  unfolding bounded_location strip
  validate_redirect_destination raw_url = do
    location ← bounded_location raw_url
    parsed ← of_option redirect_invalid (net.urlsplit (strip location))
    port ← of_option redirect_invalid parsed.port
    require
        (parsed.scheme == "https"
          && is_set parsed.hostname
          && not (is_present parsed.username)
          && not (is_present parsed.password))
        redirect_invalid
    ok (strip location)

  -- `_safe_headers`, over the items of a dict
  unfoldable pub safe_headers : List (String × String) → List (String × String)
  safe_headers [] = []
  safe_headers ((name, value) ∷ headers) =
      let rest = safe_headers headers in
      if contains (net.casefold name) ("cf-ray" ∷ "content-type" ∷ "retry-after" ∷ "server" ∷ [])
      then (name, value) ∷ rest
      else rest
