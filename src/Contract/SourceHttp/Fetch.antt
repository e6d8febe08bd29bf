-- ===== src/Contract/SourceHttp/Fetch.antt =====
-- `fetch_source_html` and `resolve_source_redirect` of source_http.py.

use pullbox_direct_providers.Prelude.{
  ℕ, zero, suc, Bool, true, false, Option, none, some, List, [], ◌∷◌, ◌++◌, leb, nat_beq,
  if◌then◌else◌, String, contains, ℕ_eq,
}
use pullbox_direct_providers.Prelude.Result.{Result, ok, raised, ◌>>=◌}
use pullbox_direct_providers.Contract.Net.{Net, AddressResolver}
use pullbox_direct_providers.Contract.Models.{ResolverProfile}
use pullbox_direct_providers.Contract.Resolver.Challenge.{
  BrowserChallengeKind, raw, detect_browser_challenge,
}
use pullbox_direct_providers.Contract.Resolver.Target.{ResolverError, validate_source_url}
use pullbox_direct_providers.Contract.Resolver.Replies.{OrdinaryHttpResponse, ResolverOutcome}
use pullbox_direct_providers.Contract.SourceHttp.{
  SourceError, unavailable, redirect_limit, not_redirected, no_page, rate_limited, http_status,
  challenge_required, resolver_error, cancellation, Response, Exchange, send_failed, send_cancelled,
  answered, Event, requested, opened, response_closed, client_closed, browser_asked,
  redirect_status_codes, max_source_redirects, read_bounded, same_origin_source_redirect,
  validate_redirect_destination, safe_headers,
}

-- What the fetch meets outside, by the number of the request: the DNS answers to the lookup before
-- it and what `client.send` does; then the browser resolver and `bytes.decode`.
pub record Outside : Type 0 where
  pub lookups : ℕ → AddressResolver
  pub send : ℕ → String → Exchange
  pub browser_resolver :
      OrdinaryHttpResponse → String → ResolverProfile → Result SourceError (Option ResolverOutcome)
  pub decode : List ℕ → Option String → String

-- The page that the loop ends with: `response`, `body` and `safe_url`.
pub record Page : Type 0 where
  pub response : Response
  pub body : List ℕ
  pub safe_url : String

-- The end of the loop: its result, whether `response` is not None, and the events so far.
pub record Fetched : Type 0 where
  pub result : Result SourceError Page
  pub response_open : Bool
  pub events : List Event

abbrev pub stops : SourceError → Bool → List Event → Fetched
stops e response_open events = record {
  result = raised e;
  response_open = response_open;
  events = events;
}

unfoldable pub prepend : List Event → Fetched → Fetched
prepend events f = record f { events = events ++ f.events }

abbrev pub page_of : Response → String → Result SourceError (List ℕ) → Result SourceError Page
page_of response safe_url (ok body) =
    ok (record { response = response; body = body; safe_url = safe_url })
page_of response safe_url (raised e) = raised e

-- One round of the loop: the request, and the reading of an answer that is no redirect; a redirect
-- is handed on.
unfoldable pub visit : String → (Response → Fetched) → Exchange → Fetched
unfolding read_bounded prepend
visit safe_url on_redirect send_failed = stops unavailable false (requested safe_url ∷ [])
visit safe_url on_redirect send_cancelled = stops cancellation false (requested safe_url ∷ [])
visit safe_url on_redirect (answered response) = prepend (requested safe_url ∷ opened ∷ []) (
    if contains response.status_code redirect_status_codes then on_redirect response else record {
      result = page_of response safe_url (read_bounded response);
      response_open = true;
      events = [];
    })

abbrev pub lift_resolver : Result ResolverError String → Result SourceError String
lift_resolver (ok url) = ok url
lift_resolver (raised e) = raised (resolver_error e)

-- A redirect that may be followed: the response is closed, then the next URL is validated.
unfoldable pub follow : (String → Fetched) → Result ResolverError String → Fetched
follow next (raised e) = stops (resolver_error e) false (response_closed ∷ [])
follow next (ok safe_url) = prepend (response_closed ∷ []) (next safe_url)

abbrev pub on_destination :
    (String → Result ResolverError String)
    → (String → Fetched)
    → Result SourceError String
    → Fetched
on_destination validate next (raised e) = stops e true []
on_destination validate next (ok redirected_url) = follow next (validate redirected_url)

module _ (net : Net) (outside : Outside) (declared_domains : List String) where
  -- The loop, with the redirects that are left and the number of the next request.
  unfoldable pub fetch_loop : ℕ → ℕ → String → Fetched
  unfolding visit follow
  fetch_loop zero k safe_url =
      visit safe_url (λ response. stops redirect_limit true []) (outside.send k safe_url)
  fetch_loop (suc left) k safe_url =
      visit safe_url
        (λ response.
          on_destination
            (λ url. validate_source_url net (outside.lookups (suc k)) url declared_domains)
            (fetch_loop left (suc k)) (same_origin_source_redirect net safe_url response.location))
        (outside.send k safe_url)

abbrev pub html_of : Option ResolverOutcome → Result SourceError String
html_of none = raised no_page
html_of (some outcome) = ok outcome.solution.html

module _ (net : Net) (outside : Outside) where
  abbrev pub ordinary_of : Page → OrdinaryHttpResponse
  ordinary_of page = record {
    status_code = page.response.status_code;
    headers = safe_headers net page.response.headers;
    body = raw page.body;
  }

  -- A page behind a browser challenge.
  unfoldable pub resolve_challenge :
      Option ResolverProfile → Page → Result SourceError String × List Event
  resolve_challenge none page = (raised challenge_required, [])
  resolve_challenge (some profile) page = (
    outside.browser_resolver (ordinary_of page) page.safe_url profile >>= html_of,
    browser_asked page.safe_url ∷ [],
  )

  -- A page without one.
  unfoldable pub plain_page : Page → Result SourceError String
  plain_page page =
      if nat_beq page.response.status_code 429
      then raised rate_limited
      else if leb 400 page.response.status_code
      then raised (http_status page.response.status_code)
      else ok (outside.decode page.body page.response.encoding)

  unfoldable pub deliver_unless :
      Option BrowserChallengeKind
      → Option ResolverProfile
      → Page
      → Result SourceError String × List Event
  unfolding resolve_challenge plain_page
  deliver_unless none profile page = (plain_page page, [])
  deliver_unless (some challenge) profile page = resolve_challenge profile page

  -- What is done with the end of the loop, before the `finally` block.
  unfoldable pub deliver :
      Option ResolverProfile → Result SourceError Page → Result SourceError String × List Event
  unfolding deliver_unless
  deliver profile (raised e) = (raised e, [])
  deliver profile (ok page) =
      deliver_unless
        (detect_browser_challenge net page.response.status_code
          (safe_headers net page.response.headers) (raw page.body))
        profile page

  -- The `finally` block.
  unfoldable pub closing : Bool → Bool → List Event
  closing response_open owns_client =
      (if response_open then response_closed ∷ [] else [])
      ++ (if owns_client then client_closed ∷ [] else [])

  unfoldable pub finish :
      Option ResolverProfile → Bool → Fetched → Result SourceError String × List Event
  unfolding deliver closing
  finish profile owns_client fetched =
      let (result, events) = deliver profile fetched.result in
      (result, fetched.events ++ (events ++ closing fetched.response_open owns_client))

  abbrev pub fetch_validated :
      List String
      → Option ResolverProfile
      → Bool
      → Result ResolverError String
      → Result SourceError String × List Event
  fetch_validated declared_domains profile owns_client (raised e) = (raised (resolver_error e), [])
  fetch_validated declared_domains profile owns_client (ok safe_url) =
      finish profile owns_client
        (fetch_loop net outside declared_domains max_source_redirects 0 safe_url)

  -- `fetch_source_html`, and the events of its run
  unfoldable pub fetch_source_html :
      String → List String → Option ResolverProfile → Bool → Result SourceError String × List Event
  unfolding fetch_loop finish
  fetch_source_html raw_url declared_domains profile owns_client =
      fetch_validated declared_domains profile owns_client
        (validate_source_url net (outside.lookups 0) raw_url declared_domains)

  -- The answer of `resolve_source_redirect`, and whether a response is open.
  unfoldable pub redirect_answer : Exchange → Result SourceError String × Bool
  redirect_answer send_failed = (raised unavailable, false)
  redirect_answer send_cancelled = (raised cancellation, false)
  redirect_answer (answered response) = (
    if contains response.status_code redirect_status_codes
        then validate_redirect_destination net response.location
        else raised not_redirected,
    true,
  )

  abbrev pub redirect_validated :
      Bool → Result ResolverError String → Result SourceError String × List Event
  redirect_validated owns_client (raised e) = (raised (resolver_error e), [])
  redirect_validated owns_client (ok safe_url) =
      let (result, response_open) = redirect_answer (outside.send 0 safe_url) in
      (
        result,
        requested safe_url ∷ (if response_open then opened ∷ [] else [])
            ++ closing response_open owns_client,
      )

  -- `resolve_source_redirect`, and the events of its run
  unfoldable pub resolve_source_redirect :
      String → List String → Bool → Result SourceError String × List Event
  unfolding redirect_answer closing
  resolve_source_redirect raw_url declared_domains owns_client =
      redirect_validated owns_client
        (validate_source_url net (outside.lookups 0) raw_url declared_domains)
