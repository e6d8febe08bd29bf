-- ===== src/LibGen/Transport/Destination.antt =====
-- The artifact destinations that transport.py returns.
use pullbox_direct_providers.Prelude.{
  refl, ap, ◌⊎◌, inl, inr, ℕ, ◌≡◌, subst, true, false, ◌&&◌, not, Option, none, some, List, arith,
  ltb, leb, length, ◌==◌, ℕ_eq, String_eq, String, eq_iff, Bool-cases, contains,
}
use pullbox_direct_providers.Prelude.Result.{
  Result, ok, raised, of_option, >>=-eq-ok, require-eq-ok, ok-injective, of_option-eq-ok,
}
use pullbox_direct_providers.Prelude.Text.{strip, text_len, is_empty}
use pullbox_direct_providers.Contract.Net.{Url, Net, AddressResolver}
use pullbox_direct_providers.Contract.Configuration.{is_none, is_https_port}
use pullbox_direct_providers.Contract.Resolver.Target.{ResolverError, all_global}
use pullbox_direct_providers.Contract.SourceHttp.{Response}
use pullbox_direct_providers.Contract.Resolver.Challenge.{BrowserChallengeKind}
use pullbox_direct_providers.LibGen.Service.Origins.{ServiceError}
use pullbox_direct_providers.LibGen.Transport.{
  Session, redirect_statuses, max_redirect_length, max_text_bytes, destination_host, unavailable,
  public_or, validate_public_destination, safe_source_url, recognized_challenge,
}
use pullbox_direct_providers.LibGen.Transport.Fetch.{
  Event, Outside, closing_on, send, redirect_destination, logged, retry_sent, retried,
  redirect_unless, redirect_sent, redirect_at, resolve_redirect, resolve_page,
}

module _ (net : Net) where
  -- An https URL on the default port, without credentials and fragment, whose host resolved to at
  -- least one address, all of them global.
  pub record IsPublic (resolve : AddressResolver) (url : String) : Type 0 where
    pub parsed : Url
    pub hostname : String
    pub addresses : List String
    pub read : net.urlsplit url ≡ some parsed
    pub named : parsed.hostname ≡ some hostname
    pub scheme : parsed.scheme ≡ "https"
    pub port : Option ℕ
    pub port_read : parsed.port ≡ some port
    pub default_port : (port ≡ none) ⊎ (port ≡ some 443)
    pub no_username : is_none parsed.username ≡ true
    pub no_password : is_none parsed.password ≡ true
    pub no_fragment : is_empty parsed.fragment ≡ true
    pub resolved : resolve (net.casefold hostname) 443 ≡ some addresses
    pub reachable : ltb 0 (length addresses) ≡ true
    pub global : all_global net addresses ≡ ok tt

  public_or-eq-ok :
      (r : Result ResolverError (Unit {0})) (addresses : List String)
      → public_or net r addresses ≡ ok tt
      → r ≡ ok tt
  public_or-eq-ok (ok tt) addresses h = cc
  public_or-eq-ok (raised e) addresses h = cc

  -- A host with its location.
  record IsTarget (url host : String) : Type 0 where
    parsed : Url
    hostname : String
    read : net.urlsplit url ≡ some parsed
    named : parsed.hostname ≡ some hostname
    folded : host ≡ net.casefold hostname
    scheme : parsed.scheme ≡ "https"
    port : Option ℕ
    port_read : parsed.port ≡ some port
    default_port : (port ≡ none) ⊎ (port ≡ some 443)
    no_username : is_none parsed.username ≡ true
    no_password : is_none parsed.password ≡ true
    no_fragment : is_empty parsed.fragment ≡ true

  is_https_port-cases :
      (port : Option ℕ) → is_https_port port ≡ true → (port ≡ none) ⊎ (port ≡ some 443)
  is_https_port-cases none h = inl refl
  is_https_port-cases (some p) h = inr (ap some (ground arith))

  destination_host-IsTarget :
      (raw_url : Option String) (target : String × String)
      → destination_host net raw_url ≡ ok target
      → IsTarget target.0 target.1
  unfolding destination_host
  destination_host-IsTarget raw_url target h =
      let (location, a, h₁) = >>=-eq-ok (of_option (unavailable net false) raw_url) _ h in
      let (sized, h₂) =
        require-eq-ok (not (is_empty location) && leb (text_len location) max_redirect_length)
          (unavailable net false) _ h₁ in
      let (parsed, b, h₃) =
        >>=-eq-ok (of_option (unavailable net false) (net.urlsplit (strip location))) _ h₂ in
      let (port, c, h₄) = >>=-eq-ok (of_option (unavailable net false) parsed.port) _ h₃ in
      let (hostname, d, h₅) = >>=-eq-ok (of_option (unavailable net false) parsed.hostname) _ h₄ in
      let (plain, h₆) =
        require-eq-ok
          (parsed.scheme == "https"
            && not (is_empty hostname)
            && is_none parsed.username
            && is_none parsed.password
            && is_https_port port
            && is_empty parsed.fragment)
          (unavailable net false) (ok (strip location, net.casefold hostname)) h₅ in
      let found : IsTarget (strip location) (net.casefold hostname) = record {
        parsed = parsed;
        hostname = hostname;
        read = of_option-eq-ok (unavailable net false) (net.urlsplit (strip location)) b;
        named = of_option-eq-ok (unavailable net false) parsed.hostname d;
        folded = refl;
        scheme = (eq_iff parsed.scheme "https").0 (ground arith);
        port = port;
        port_read = of_option-eq-ok (unavailable net false) parsed.port c;
        default_port = is_https_port-cases port (ground arith);
        no_username = ground arith;
        no_password = ground arith;
        no_fragment = ground arith;
      } in
      subst (λ t. IsTarget t.0 t.1) (ok-injective h₆) found

  validate_public_destination-IsPublic :
      (resolve : AddressResolver) (raw_url : Option String) (url : String)
      → validate_public_destination net resolve raw_url ≡ ok url
      → IsPublic resolve url
  unfolding validate_public_destination
  validate_public_destination-IsPublic resolve raw_url url h =
      let (target, a, h₁) = >>=-eq-ok (destination_host net raw_url) _ h in
      let (addresses, b, h₂) =
        >>=-eq-ok (of_option (unavailable net true) (resolve target.1 443)) _ h₁ in
      let (reachable, h₃) = require-eq-ok (ltb 0 (length addresses)) (unavailable net false) _ h₂ in
      let (u, c, h₄) = >>=-eq-ok (public_or net (all_global net addresses) addresses) _ h₃ in
      let t = destination_host-IsTarget raw_url target a in
      let resolved : resolve target.1 443 ≡ some addresses =
        of_option-eq-ok (unavailable net true) (resolve target.1 443) b in
      let found : IsPublic resolve target.0 = record {
        parsed = t.parsed;
        hostname = t.hostname;
        addresses = addresses;
        read = t.read;
        named = t.named;
        scheme = t.scheme;
        port = t.port;
        port_read = t.port_read;
        default_port = t.default_port;
        no_username = t.no_username;
        no_password = t.no_password;
        no_fragment = t.no_fragment;
        resolved = subst (λ s. resolve s 443 ≡ some addresses) t.folded resolved;
        reachable = reachable;
        global = public_or-eq-ok (all_global net addresses) addresses c;
      } in
      subst (IsPublic resolve) (ok-injective h₄) found

module _ (net : Net) (outside : Outside) where
  redirect_destination-IsPublic :
      (response : Response) (url : String)
      → redirect_destination net outside response ≡ ok url
      → IsPublic net outside.target_resolver url
  unfolding redirect_destination
  redirect_destination-IsPublic response url h =
      elim (Bool-cases (contains response.status_code redirect_statuses)) [
        | inl redirects ↦
            validate_public_destination-IsPublic net outside.target_resolver response.location url
              (ground arith)
        | inr other ↦ absurd (ground arith)
      ]

  -- A returned URL is public.
  abbrev pub PublicResult : Result ServiceError String → Type 0
  PublicResult (raised e) = Unit
  PublicResult (ok url) = IsPublic net outside.target_resolver url

  destination-Public :
      (response : Response) (result : Result ServiceError String)
      → redirect_destination net outside response ≡ result
      → PublicResult result
  destination-Public response (raised e) h = tt
  destination-Public response (ok url) h = redirect_destination-IsPublic response url h

  retry_sent-Public :
      (session : Session) (answer : Result ServiceError (Response × List ℕ) × List Event)
      → PublicResult (retry_sent net outside session answer).0
  retry_sent-Public session (raised e, events) = tt
  retry_sent-Public session (ok (response, body), events) = destination-Public response _ refl

  retried-Public :
      (url : String) (done : Result ServiceError String × Session × List Event)
      → PublicResult (retried net outside url done).0
  retried-Public url (raised e, session, events) = tt
  retried-Public url (ok html, session, events) =
      retry_sent-Public session (send net outside session 1 url "*/*" false)

  redirect_unless-Public :
      (challenge : Option BrowserChallengeKind) (session : Session) (url : String)
      (response : Response) (body : List ℕ) (events : List Event)
      → PublicResult (redirect_unless net outside challenge session url response body events).0
  redirect_unless-Public none session url response body events = destination-Public response _ refl
  redirect_unless-Public (some challenge) session url response body events = retried-Public url (
      logged net outside events (
        closing_on (
          resolve_page net outside session session.resolver_profile url response body challenge
            max_text_bytes)))

  redirect_sent-Public :
      (session : Session) (url : String)
      (answer : Result ServiceError (Response × List ℕ) × List Event)
      → PublicResult (redirect_sent net outside session url answer).0
  redirect_sent-Public session url (raised e, events) = tt
  redirect_sent-Public session url (ok (response, body), events) =
      redirect_unless-Public (recognized_challenge net response.status_code response.headers body)
        session url response body events

  redirect_at-Public :
      (session : Session) (url : Result ServiceError String)
      → PublicResult (redirect_at net outside session url).0
  redirect_at-Public session (raised e) = tt
  redirect_at-Public session (ok url) =
      redirect_sent-Public session url (send net outside session 0 url "*/*" true)

  -- A destination that `resolve_redirect` returns, on the first request or after a challenge, is an
  -- https URL on the default port, without credentials and fragment, whose host resolved to at least
  -- one address and to global ones only.
  pub resolve_redirect-IsPublic :
      (session : Session) (raw_url url : String)
      → (resolve_redirect net outside session raw_url).0 ≡ ok url
      → IsPublic net outside.target_resolver url
  unfolding resolve_redirect
  resolve_redirect-IsPublic session raw_url url h =
      subst PublicResult h
        (redirect_at-Public session (safe_source_url net outside.target_resolver session raw_url))
