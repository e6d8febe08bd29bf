-- ===== src/LibGen/Transport/Safety.antt =====
-- What the sessions of transport.py send, and what state they keep.

use pullbox_direct_providers.Prelude.{
  ℕ, ◌≡◌, refl, ap, ◌∙◌, subst, Bool, true, false, ◌&&◌, Option, none, some, List, [], ◌∷◌, arith,
  ◌==◌, ℕ_eq, String_eq, String, All, All-append, eq_iff,
}
use pullbox_direct_providers.Prelude.Result.{
  Result, ok, raised, of_option, >>=-eq-ok, require-eq-ok, ok-injective, of_option-eq-ok,
}
use pullbox_direct_providers.Contract.Net.{Url, Net}
use pullbox_direct_providers.Contract.Models.{ResolverProfile}
use pullbox_direct_providers.Contract.Resolver.Challenge.{BrowserChallengeKind}
use pullbox_direct_providers.Contract.Resolver.Target.{ResolverError, validate_source_url}
use pullbox_direct_providers.Contract.Resolver.Target.Declared.{
  IsValidated, validate_source_url-IsValidated,
}
use pullbox_direct_providers.Contract.SourceHttp.{
  Response, Exchange, send_failed, send_cancelled, answered,
}
use pullbox_direct_providers.LibGen.Service.Origins.{ServiceError, source_error, value_error}
use pullbox_direct_providers.LibGen.Transport.{Session, safe_source_url, lift_target, is_host}
use pullbox_direct_providers.LibGen.Transport.Cookies.{apply_solution_state, request_headers}
use pullbox_direct_providers.LibGen.Transport.Headers.{
  IsClean, IsSafe, AllClean, request_headers-AllClean, apply_solution_state-IsSafe,
}
use pullbox_direct_providers.LibGen.Transport.Fetch.{
  Event, requested, response_closed, Outside, sent_body, closing_on, sent_with, send,
  usable_solution, applied, asked_browser, ordinary_of, resolve_page, logged,
}

module _ (net : Net) (outside : Outside) (host : String) where
  -- A URL that a session may ask for: validated for its host alone, and https.
  pub record IsSourceUrl (url : String) : Type 0 where
    pub raw_url : String
    pub validated : IsValidated net outside.target_resolver raw_url (host ∷ []) url
    pub parsed : Url
    pub read : net.urlsplit url ≡ some parsed
    pub scheme : parsed.scheme ≡ "https"
    pub of_host : is_host net parsed.hostname host ≡ true

  -- A request is for such a URL, and no header of it breaks its line.
  abbrev pub EventSafe : Event → Type 0
  EventSafe (requested url headers) = IsSourceUrl url × AllClean net headers
  EventSafe _ = Unit

  abbrev pub SafeFor : Session → Type 0
  SafeFor session = IsSafe net session × (session.source_host ≡ host)

  -- After an operation the session is safe for the same host, and its requests were safe.
  abbrev pub Kept : {A : Type 0} → Result ServiceError A × Session × List Event → Type 0
  Kept (result, session, events) = SafeFor session × All EventSafe events

  pub closing_on-Kept :
      {A : Type 0} (done : Result ServiceError A × Session × List Event)
      → Kept done
      → Kept (closing_on done)
  closing_on-Kept (result, session, events) (safe, h) =
      (safe, All-append EventSafe events (response_closed ∷ []) h (tt, tt))

  pub logged-Kept :
      {A : Type 0} (before : List Event) (done : Result ServiceError A × Session × List Event)
      → All EventSafe before
      → Kept done
      → Kept (logged net outside before done)
  logged-Kept before (result, session, events) h (safe, k) =
      (safe, All-append EventSafe before events h k)

  lift_target-eq-ok :
      (r : Result ResolverError String) (url : String) → lift_target net r ≡ ok url → r ≡ ok url
  lift_target-eq-ok (ok u) url h = cc
  lift_target-eq-ok (raised e) url h = cc

  pub safe_source_url-IsSourceUrl :
      (session : Session) (raw_url url : String)
      → session.source_host ≡ host
      → safe_source_url net outside.target_resolver session raw_url ≡ ok url
      → IsSourceUrl url
  unfolding safe_source_url
  safe_source_url-IsSourceUrl session raw_url url same h =
      let (safe, a, h₁) =
        >>=-eq-ok
          (lift_target net
            (validate_source_url net outside.target_resolver raw_url (session.source_host ∷ [])))
          _ h in
      let (parsed, b, h₂) = >>=-eq-ok (of_option value_error (net.urlsplit safe)) _ h₁ in
      let (fits, h₃) =
        require-eq-ok (parsed.scheme == "https" && is_host net parsed.hostname session.source_host)
          (source_error "source_url_rejected" false) (ok safe) h₂ in
      let validated =
        validate_source_url-IsValidated net outside.target_resolver raw_url
          (session.source_host ∷ []) safe (lift_target-eq-ok _ safe a) in
      let source : IsSourceUrl safe = record {
        raw_url = raw_url;
        validated =
            subst (λ s. IsValidated net outside.target_resolver raw_url (s ∷ []) safe) same
              validated;
        parsed = parsed;
        read = of_option-eq-ok value_error (net.urlsplit safe) b;
        scheme = (eq_iff parsed.scheme "https").0 (ground arith);
        of_host = subst (λ s. is_host net parsed.hostname s ≡ true) same (ground arith);
      } in
      subst IsSourceUrl (ok-injective h₃) source

  sent_body-Safe :
      (read_body : Bool) (exchange : Exchange) → All EventSafe (sent_body read_body exchange).1
  unfolding sent_body
  sent_body-Safe true send_failed = tt
  sent_body-Safe false send_failed = tt
  sent_body-Safe true send_cancelled = tt
  sent_body-Safe false send_cancelled = tt
  sent_body-Safe true (answered response) = (tt, tt)
  sent_body-Safe false (answered response) = (tt, tt)

  sent_with-Safe :
      (session : Session) (k : ℕ) (url accept : String) (read_body : Bool)
      (headers : Result ServiceError (List (String × String)))
      → IsSafe net session
      → IsSourceUrl url
      → IsClean accept
      → request_headers net session url accept ≡ headers
      → All EventSafe (sent_with net outside session k url read_body headers).1
  sent_with-Safe session k url accept read_body (raised e) safe source clean h = tt
  sent_with-Safe session k url accept read_body (ok headers) safe source clean h = (
    (source, request_headers-AllClean net session url accept headers safe clean h),
    sent_body-Safe read_body (outside.send k url headers),
  )

  pub send-Safe :
      (session : Session) (k : ℕ) (url accept : String) (read_body : Bool)
      → IsSafe net session
      → IsSourceUrl url
      → IsClean accept
      → All EventSafe (send net outside session k url accept read_body).1
  unfolding send
  send-Safe session k url accept read_body safe source clean =
      sent_with-Safe session k url accept read_body _ safe source clean refl

  applied-SafeFor :
      (session : Session) (result : Result ServiceError (Session × String))
      → SafeFor session
      → ((next : Session) (html : String) → result ≡ ok (next, html) → SafeFor next)
      → SafeFor (applied net outside session result).1
  applied-SafeFor session (ok (next, html)) safe h = h next html refl
  applied-SafeFor session (raised e) safe h = safe

  asked_browser-SafeFor :
      (session : Session) (url : String) (profile : ResolverProfile) (response : Response)
      (body : List ℕ) (challenge : BrowserChallengeKind) (max_bytes : ℕ)
      → SafeFor session
      → (next : Session) (html : String)
      → asked_browser net outside session url profile response body challenge max_bytes
        ≡ ok (next, html)
      → SafeFor next
  asked_browser-SafeFor session url profile response body challenge max_bytes (safe, same) next html
        h =
      let (outcome, a, h₁) =
        >>=-eq-ok
          (outside.browser_resolver (ordinary_of net outside response body) url profile challenge) _
          h in
      let (solution, b, h₂) = >>=-eq-ok (usable_solution net outside max_bytes outcome) _ h₁ in
      let (after, c, h₃) = >>=-eq-ok (apply_solution_state net session solution) _ h₂ in
      let (safe', same') = apply_solution_state-IsSafe net session after solution safe c in
      subst SafeFor (ap (λ p. p.0) (ok-injective h₃)) (safe', same' ∙ same)

  pub resolve_page-Kept :
      (session : Session) (profile : Option ResolverProfile) (url : String) (response : Response)
      (body : List ℕ) (challenge : BrowserChallengeKind) (max_bytes : ℕ)
      → SafeFor session
      → Kept (resolve_page net outside session profile url response body challenge max_bytes)
  unfolding resolve_page
  resolve_page-Kept session none url response body challenge max_bytes safe = (safe, tt)
  resolve_page-Kept session (some profile) url response body challenge max_bytes safe = (
    applied-SafeFor session
        (asked_browser net outside session url profile response body challenge max_bytes) safe
        (asked_browser-SafeFor session url profile response body challenge max_bytes safe),
    (tt, tt),
  )
