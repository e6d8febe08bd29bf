-- ===== src/LibGen/Transport/Fetch.antt =====
-- `fetch_text` and `resolve_redirect` of transport.py. What the client, the browser resolver and
-- the DNS lookups give is an argument; what is sent and closed is an event.

use pullbox_direct_providers.Prelude.{
  ℕ, Bool, true, false, not, Option, none, some, List, [], ◌∷◌, ◌++◌, ltb, leb, if◌then◌else◌,
  length, ℕ_eq, String, contains,
}
use pullbox_direct_providers.Prelude.Result.{Result, ok, raised, ◌>>=◌, ◌>>◌, require}
use pullbox_direct_providers.Contract.Net.{Net, AddressResolver}
use pullbox_direct_providers.Contract.Models.{ResolverProfile}
use pullbox_direct_providers.Contract.Resolver.Challenge.{BrowserChallengeKind, raw}
use pullbox_direct_providers.Contract.Resolver.Replies.{
  OrdinaryHttpResponse, ResolverOutcome, ResolverSolution,
}
use pullbox_direct_providers.Contract.SourceHttp.{
  Response, Exchange, send_failed, send_cancelled, answered, StreamEnd, complete, broken, aborted,
  safe_headers,
}
use pullbox_direct_providers.LibGen.Service.Origins.{
  ServiceError, source_error, challenge_required, cancelled,
}
use pullbox_direct_providers.LibGen.Transport.{
  Session, redirect_statuses, max_text_bytes, recognized_challenge, raise_for_source_status,
  validate_public_destination, safe_source_url,
}
use pullbox_direct_providers.LibGen.Transport.Cookies.{apply_solution_state, request_headers}

pub data Event : Type 0 where
  requested : String → List (String × String) → Event
  opened response_closed : Event
  browser_asked : String → Event

-- What a session meets outside, by the number of the request of an operation.
pub record Outside : Type 0 where
  pub target_resolver : AddressResolver
  pub send : ℕ → String → List (String × String) → Exchange
  pub browser_resolver :
      OrdinaryHttpResponse
      → String
      → ResolverProfile
      → BrowserChallengeKind
      → Result ServiceError (Option ResolverOutcome)
  pub decode : List ℕ → Option String → String

abbrev stream_result : StreamEnd → List ℕ → Result ServiceError (List ℕ)
stream_result complete body = ok body
stream_result broken body = raised (source_error "source_unavailable" true)
stream_result aborted body = raised cancelled

-- `_read_bounded`, from the body read so far; an httpx error is what `_send` turns it into
unfoldable pub read_text : StreamEnd → List ℕ → List (List ℕ) → Result ServiceError (List ℕ)
read_text stream_end body [] = stream_result stream_end body
read_text stream_end body (chunk ∷ chunks) =
    let rest = read_text stream_end (body ++ chunk) chunks in
    if ltb max_text_bytes (length (body ++ chunk))
    then raised (source_error "source_response_too_large" true)
    else rest

abbrev with_response :
    Response → Result ServiceError (List ℕ) → Result ServiceError (Response × List ℕ)
with_response response (ok body) = ok (response, body)
with_response response (raised e) = raised e

-- The answer of `_send`, and whether a response was opened.
unfoldable pub sent_body : Bool → Exchange → Result ServiceError (Response × List ℕ) × List Event
unfolding read_text
sent_body read_body send_failed = (raised (source_error "source_unavailable" true), [])
sent_body read_body send_cancelled = (raised cancelled, [])
sent_body false (answered response) = (ok (response, []), opened ∷ [])
sent_body true (answered response) =
    (with_response response (read_text response.stream_end [] response.chunks), opened ∷ [])

abbrev pub closing_on :
    {A : Type 0}
    → Result ServiceError A × Session × List Event
    → Result ServiceError A × Session × List Event
closing_on (result, session, events) = (result, session, events ++ response_closed ∷ [])

module _ (net : Net) (outside : Outside) where
  abbrev pub sent_with :
      Session
      → ℕ
      → String
      → Bool
      → Result ServiceError (List (String × String))
      → Result ServiceError (Response × List ℕ) × List Event
  sent_with session k safe_url read_body (raised e) = (raised e, [])
  sent_with session k safe_url read_body (ok headers) =
      let (result, events) = sent_body read_body (outside.send k safe_url headers) in
      (result, requested safe_url headers ∷ events)

  -- `_send`
  unfoldable pub send :
      Session → ℕ → String → String → Bool → Result ServiceError (Response × List ℕ) × List Event
  unfolding request_headers sent_body
  send session k safe_url accept read_body =
      sent_with session k safe_url read_body (request_headers net session safe_url accept)

  abbrev pub ordinary_of : Response → List ℕ → OrdinaryHttpResponse
  ordinary_of response body = record {
    status_code = response.status_code;
    headers = safe_headers net response.headers;
    body = raw body;
  }

  -- The solution of an outcome, if it is usable and small enough.
  unfoldable pub usable_solution : ℕ → Option ResolverOutcome → Result ServiceError ResolverSolution
  usable_solution max_bytes none = raised (source_error "browser_resolution_failed" true)
  usable_solution max_bytes (some outcome) =
      if leb 400 outcome.solution.status_code
      then raised (source_error "browser_resolution_failed" true)
      else if ltb max_bytes (net.encoded_length outcome.solution.html)
      then raised (source_error "source_response_too_large" true)
      else ok outcome.solution

  abbrev pub applied :
      Session → Result ServiceError (Session × String) → Result ServiceError String × Session
  applied session (ok (next, html)) = (ok html, next)
  applied session (raised e) = (raised e, session)

  abbrev pub asked_browser :
      Session
      → String
      → ResolverProfile
      → Response
      → List ℕ
      → BrowserChallengeKind
      → ℕ
      → Result ServiceError (Session × String)
  asked_browser session safe_url profile response body challenge max_bytes = do
    outcome ← outside.browser_resolver (ordinary_of response body) safe_url profile challenge
    solution ← usable_solution max_bytes outcome
    next ← apply_solution_state net session solution
    ok (next, solution.html)

  -- `_resolve_page`
  unfoldable pub resolve_page :
      Session
      → Option ResolverProfile
      → String
      → Response
      → List ℕ
      → BrowserChallengeKind
      → ℕ
      → Result ServiceError String × Session × List Event
  unfolding usable_solution apply_solution_state
  resolve_page session none safe_url response body challenge max_bytes =
      (raised challenge_required, session, [])
  resolve_page session (some profile) safe_url response body challenge max_bytes =
      let (result, next) =
        applied session
          (asked_browser session safe_url profile response body challenge max_bytes) in
      (result, next, browser_asked safe_url ∷ [])

  -- A body that is no challenge.
  unfoldable pub plain_text : Response → List ℕ → ℕ → Result ServiceError String
  unfolding raise_for_source_status
  plain_text response body max_bytes = do
    require (not (contains response.status_code redirect_statuses))
        (source_error "source_redirect_rejected" true)
    raise_for_source_status net response.status_code
    require (leb (length body) max_bytes) (source_error "source_response_too_large" true)
    ok (outside.decode body response.encoding)

  abbrev pub text_unless :
      Option BrowserChallengeKind
      → Session
      → String
      → Response
      → List ℕ
      → ℕ
      → Result ServiceError String × Session × List Event
  text_unless none session safe_url response body max_bytes =
      (plain_text response body max_bytes, session, [])
  text_unless (some challenge) session safe_url response body max_bytes =
      resolve_page session session.resolver_profile safe_url response body challenge max_bytes

  abbrev pub logged :
      {A : Type 0}
      → List Event
      → Result ServiceError A × Session × List Event
      → Result ServiceError A × Session × List Event
  logged before (result, session, events) = (result, session, before ++ events)

  abbrev pub text_sent :
      Session
      → String
      → ℕ
      → Result ServiceError (Response × List ℕ) × List Event
      → Result ServiceError String × Session × List Event
  text_sent session safe_url max_bytes (raised e, events) = (raised e, session, events)
  text_sent session safe_url max_bytes (ok (response, body), events) = logged events (
      closing_on (
        text_unless (recognized_challenge net response.status_code response.headers body) session
          safe_url response body max_bytes))

  abbrev pub text_at :
      Session → ℕ → Result ServiceError String → Result ServiceError String × Session × List Event
  text_at session max_bytes (raised e) = (raised e, session, [])
  text_at session max_bytes (ok safe_url) =
      text_sent session safe_url max_bytes
        (send session 0 safe_url "text/html, application/json" true)

  -- `fetch_text`: its result, the session after it, and its events
  unfoldable pub fetch_text :
      Session → String → ℕ → Result ServiceError String × Session × List Event
  unfolding safe_source_url send recognized_challenge resolve_page plain_text
  fetch_text session raw_url max_bytes =
      text_at session max_bytes (safe_source_url net outside.target_resolver session raw_url)

  -- `_redirect_destination`
  unfoldable pub redirect_destination : Response → Result ServiceError String
  unfolding raise_for_source_status validate_public_destination
  redirect_destination response =
      if contains response.status_code redirect_statuses
      then validate_public_destination net outside.target_resolver response.location
      else do
        raise_for_source_status net response.status_code
        raised (source_error "artifact_unavailable" true)

  abbrev pub retry_sent :
      Session
      → Result ServiceError (Response × List ℕ) × List Event
      → Result ServiceError String × Session × List Event
  retry_sent session (raised e, events) = (raised e, session, events)
  retry_sent session (ok (response, body), events) =
      logged events (closing_on (redirect_destination response, session, []))

  -- The second request, once the browser resolver has answered.
  abbrev pub retried :
      String
      → Result ServiceError String × Session × List Event
      → Result ServiceError String × Session × List Event
  retried safe_url (raised e, session, events) = (raised e, session, events)
  retried safe_url (ok html, session, events) =
      logged events (retry_sent session (send session 1 safe_url "*/*" false))

  abbrev pub redirect_unless :
      Option BrowserChallengeKind
      → Session
      → String
      → Response
      → List ℕ
      → List Event
      → Result ServiceError String × Session × List Event
  redirect_unless none session safe_url response body events =
      logged events (closing_on (redirect_destination response, session, []))
  redirect_unless (some challenge) session safe_url response body events = retried safe_url (
      logged events (
        closing_on (
          resolve_page session session.resolver_profile safe_url response body challenge
            max_text_bytes)))

  abbrev pub redirect_sent :
      Session
      → String
      → Result ServiceError (Response × List ℕ) × List Event
      → Result ServiceError String × Session × List Event
  redirect_sent session safe_url (raised e, events) = (raised e, session, events)
  redirect_sent session safe_url (ok (response, body), events) =
      redirect_unless (recognized_challenge net response.status_code response.headers body) session
        safe_url response body events

  abbrev pub redirect_at :
      Session → Result ServiceError String → Result ServiceError String × Session × List Event
  redirect_at session (raised e) = (raised e, session, [])
  redirect_at session (ok safe_url) =
      redirect_sent session safe_url (send session 0 safe_url "*/*" true)

  -- `resolve_redirect`
  unfoldable pub resolve_redirect :
      Session → String → Result ServiceError String × Session × List Event
  unfolding safe_source_url send recognized_challenge resolve_page redirect_destination
  resolve_redirect session raw_url =
      redirect_at session (safe_source_url net outside.target_resolver session raw_url)
