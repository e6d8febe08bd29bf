-- ===== src/LibGen/Transport/Operations.antt =====
-- The two operations of a session of transport.py, with what they send and return.

use pullbox_direct_providers.Prelude.{
  ℕ, ◌≡◌, refl, true, false, Option, none, some, List, [], ℕ_eq, String_eq, String, All,
}
use pullbox_direct_providers.Prelude.Result.{Result, ok, raised}
use pullbox_direct_providers.Prelude.Text.{any_char}
use pullbox_direct_providers.Contract.Net.{Net}
use pullbox_direct_providers.Contract.Resolver.Challenge.{BrowserChallengeKind}
use pullbox_direct_providers.Contract.SourceHttp.{Response}
use pullbox_direct_providers.LibGen.Service.Origins.{ServiceError}
use pullbox_direct_providers.LibGen.Transport.{
  Session, max_text_bytes, recognized_challenge, safe_source_url,
}
use pullbox_direct_providers.LibGen.Transport.Headers.{IsClean}
use pullbox_direct_providers.LibGen.Transport.Fetch.{
  Event, Outside, closing_on, send, resolve_page, text_unless, logged, text_sent, text_at,
  fetch_text, redirect_destination, retry_sent, retried, redirect_unless, redirect_sent,
  redirect_at, resolve_redirect,
}
use pullbox_direct_providers.LibGen.Transport.Safety.{
  IsSourceUrl, EventSafe, SafeFor, Kept, closing_on-Kept, logged-Kept, safe_source_url-IsSourceUrl,
  send-Safe, resolve_page-Kept,
}

text_accept-IsClean : IsClean "text/html, application/json"
unfolding any_char
text_accept-IsClean = refl

any_accept-IsClean : IsClean "*/*"
unfolding any_char
any_accept-IsClean = refl

module _ (net : Net) (outside : Outside) (host : String) where
  text_unless-Kept :
      (challenge : Option BrowserChallengeKind) (session : Session) (url : String)
      (response : Response) (body : List ℕ) (max_bytes : ℕ)
      → SafeFor net outside host session
      → Kept net outside host
          (text_unless net outside challenge session url response body max_bytes)
  text_unless-Kept none session url response body max_bytes safe = (safe, tt)
  text_unless-Kept (some challenge) session url response body max_bytes safe =
      resolve_page-Kept net outside host session session.resolver_profile url response body
        challenge max_bytes safe

  text_sent-Kept :
      (session : Session) (url : String) (max_bytes : ℕ)
      (answer : Result ServiceError (Response × List ℕ) × List Event)
      → SafeFor net outside host session
      → All (EventSafe net outside host) answer.1
      → Kept net outside host (text_sent net outside session url max_bytes answer)
  text_sent-Kept session url max_bytes (raised e, events) safe h = (safe, h)
  text_sent-Kept session url max_bytes (ok (response, body), events) safe h =
      let challenge = recognized_challenge net response.status_code response.headers body in
      logged-Kept net outside host events
        (closing_on (text_unless net outside challenge session url response body max_bytes)) h
        (closing_on-Kept net outside host
          (text_unless net outside challenge session url response body max_bytes)
          (text_unless-Kept challenge session url response body max_bytes safe))

  text_at-Kept :
      (session : Session) (raw_url : String) (max_bytes : ℕ) (url : Result ServiceError String)
      → SafeFor net outside host session
      → safe_source_url net outside.target_resolver session raw_url ≡ url
      → Kept net outside host (text_at net outside session max_bytes url)
  text_at-Kept session raw_url max_bytes (raised e) safe h = (safe, tt)
  text_at-Kept session raw_url max_bytes (ok url) (safe, same) h =
      text_sent-Kept session url max_bytes _ (safe, same)
        (send-Safe net outside host session 0 url "text/html, application/json" true safe
          (safe_source_url-IsSourceUrl net outside host session raw_url url same h)
          text_accept-IsClean)

  -- Whatever the source and the browser resolver answer to a `fetch_text` of a safe session: each
  -- request asks for an https URL that was validated for the session's host, no header of it holds a
  -- line break, and the session is safe after it, for the same host.
  pub fetch_text-Kept :
      (session : Session) (raw_url : String) (max_bytes : ℕ)
      → SafeFor net outside host session
      → Kept net outside host (fetch_text net outside session raw_url max_bytes)
  unfolding fetch_text
  fetch_text-Kept session raw_url max_bytes safe =
      text_at-Kept session raw_url max_bytes _ safe refl

  retry_sent-Kept :
      (session : Session) (answer : Result ServiceError (Response × List ℕ) × List Event)
      → SafeFor net outside host session
      → All (EventSafe net outside host) answer.1
      → Kept net outside host (retry_sent net outside session answer)
  retry_sent-Kept session (raised e, events) safe h = (safe, h)
  retry_sent-Kept session (ok (response, body), events) safe h =
      logged-Kept net outside host events
        (closing_on (redirect_destination net outside response, session, [])) h (safe, (tt, tt))

  retried-Kept :
      (url : String) (done : Result ServiceError String × Session × List Event)
      → IsSourceUrl net outside host url
      → Kept net outside host done
      → Kept net outside host (retried net outside url done)
  retried-Kept url (raised e, session, events) source kept = kept
  retried-Kept url (ok html, session, events) source ((safe, same), h) =
      logged-Kept net outside host events
        (retry_sent net outside session (send net outside session 1 url "*/*" false)) h
        (retry_sent-Kept session (send net outside session 1 url "*/*" false) (safe, same)
          (send-Safe net outside host session 1 url "*/*" false safe source any_accept-IsClean))

  redirect_unless-Kept :
      (challenge : Option BrowserChallengeKind) (session : Session) (url : String)
      (response : Response) (body : List ℕ) (events : List Event)
      → SafeFor net outside host session
      → IsSourceUrl net outside host url
      → All (EventSafe net outside host) events
      → Kept net outside host
          (redirect_unless net outside challenge session url response body events)
  redirect_unless-Kept none session url response body events safe source h =
      logged-Kept net outside host events
        (closing_on (redirect_destination net outside response, session, [])) h (safe, (tt, tt))
  redirect_unless-Kept (some challenge) session url response body events safe source h =
      let page =
        resolve_page net outside session session.resolver_profile url response body challenge
          max_text_bytes in
      retried-Kept url (logged net outside events (closing_on page)) source (
        logged-Kept net outside host events (closing_on page) h (
          closing_on-Kept net outside host page (
            resolve_page-Kept net outside host session session.resolver_profile url response body
              challenge max_text_bytes safe)))

  redirect_sent-Kept :
      (session : Session) (url : String)
      (answer : Result ServiceError (Response × List ℕ) × List Event)
      → SafeFor net outside host session
      → IsSourceUrl net outside host url
      → All (EventSafe net outside host) answer.1
      → Kept net outside host (redirect_sent net outside session url answer)
  redirect_sent-Kept session url (raised e, events) safe source h = (safe, h)
  redirect_sent-Kept session url (ok (response, body), events) safe source h =
      redirect_unless-Kept (recognized_challenge net response.status_code response.headers body)
        session url response body events safe source h

  redirect_at-Kept :
      (session : Session) (raw_url : String) (url : Result ServiceError String)
      → SafeFor net outside host session
      → safe_source_url net outside.target_resolver session raw_url ≡ url
      → Kept net outside host (redirect_at net outside session url)
  redirect_at-Kept session raw_url (raised e) safe h = (safe, tt)
  redirect_at-Kept session raw_url (ok url) (safe, same) h =
      let source = safe_source_url-IsSourceUrl net outside host session raw_url url same h in
      redirect_sent-Kept session url _ (safe, same) source
        (send-Safe net outside host session 0 url "*/*" true safe source any_accept-IsClean)

  -- The same of a `resolve_redirect`, whose second request carries the state that the browser
  -- resolver returned.
  pub resolve_redirect-Kept :
      (session : Session) (raw_url : String)
      → SafeFor net outside host session
      → Kept net outside host (resolve_redirect net outside session raw_url)
  unfolding resolve_redirect
  resolve_redirect-Kept session raw_url safe = redirect_at-Kept session raw_url _ safe refl
