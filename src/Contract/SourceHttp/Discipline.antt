-- ===== src/Contract/SourceHttp/Discipline.antt =====
-- What the two operations of source_http.py ask for, and that they close what they open.
use mathlib.Core.List.{append-nil}
use pullbox_direct_providers.Prelude.{
  subst, ◌≡◌, refl, ap, sym, ◌∙◌, Bool, true, false, Option, none, some, List, [], ◌∷◌, ◌++◌, arith,
  String,
}
use pullbox_direct_providers.Prelude.Result.{Result, ok, raised}
use pullbox_direct_providers.Contract.Net.{Net}
use pullbox_direct_providers.Contract.Models.{ResolverProfile}
use pullbox_direct_providers.Contract.Resolver.Challenge.{BrowserChallengeKind}
use pullbox_direct_providers.Contract.Resolver.Target.{ResolverError, validate_source_url}
use pullbox_direct_providers.Contract.Resolver.Target.Declared.{
  IsValidated, validate_source_url-IsValidated,
}
use pullbox_direct_providers.Contract.SourceHttp.{SourceError, Event, max_source_redirects}
use pullbox_direct_providers.Contract.SourceHttp.Fetch.{
  Outside, Page, Fetched, deliver, deliver_unless, closing, finish, fetch_validated,
  fetch_source_html,
}
use pullbox_direct_providers.Contract.SourceHttp.Requests.{
  requests, opens, closes, requests-append, opens-append, closes-append, one_if, Balanced,
  RequestsAfter, RequestsFrom, fetch_loop-Requests, fetch_loop-Balanced,
}

-- Events that neither ask, nor open, nor close.
abbrev IsQuiet : List Event → Type 0
IsQuiet events = (requests events ≡ []) × (opens events ≡ 0) × (closes events ≡ 0)

module _ (net : Net) (outside : Outside) where
  deliver_unless-IsQuiet :
      (challenge : Option BrowserChallengeKind) (profile : Option ResolverProfile) (page : Page)
      → IsQuiet (deliver_unless net outside challenge profile page).1
  unfolding deliver_unless
  deliver_unless-IsQuiet none profile page = (refl, refl, refl)
  deliver_unless-IsQuiet (some c) none page = (refl, refl, refl)
  deliver_unless-IsQuiet (some c) (some profile) page = (refl, refl, refl)

  deliver-IsQuiet :
      (profile : Option ResolverProfile) (result : Result SourceError Page)
      → IsQuiet (deliver net outside profile result).1
  unfolding deliver
  deliver-IsQuiet profile (raised e) = (refl, refl, refl)
  deliver-IsQuiet profile (ok page) = deliver_unless-IsQuiet _ profile page

  requests-closing :
      (response_open owns_client : Bool)
      → requests (closing net outside response_open owns_client) ≡ []
  unfolding closing
  requests-closing true true = refl
  requests-closing true false = refl
  requests-closing false true = refl
  requests-closing false false = refl

  opens-closing :
      (response_open owns_client : Bool) → opens (closing net outside response_open owns_client) ≡ 0
  unfolding closing
  opens-closing true true = refl
  opens-closing true false = refl
  opens-closing false true = refl
  opens-closing false false = refl

  closes-closing :
      (response_open owns_client : Bool)
      → closes (closing net outside response_open owns_client) ≡ one_if response_open
  unfolding closing
  closes-closing true true = refl
  closes-closing true false = refl
  closes-closing false true = refl
  closes-closing false false = refl

  requests-finish :
      (profile : Option ResolverProfile) (owns_client : Bool) (f : Fetched)
      → requests (finish net outside profile owns_client f).1 ≡ requests f.events
  unfolding finish
  requests-finish profile owns_client f =
      let events = (deliver net outside profile f.result).1 in
      let after = closing net outside f.response_open owns_client in
      let (quiet, no_opens, no_closes) = deliver-IsQuiet profile f.result in
      requests-append f.events (events ++ after)
      ∙ (ap (λ us. requests f.events ++ us)
            (requests-append events after
              ∙ (ap (λ us. us ++ requests after) quiet
                  ∙ requests-closing f.response_open owns_client))
          ∙ append-nil (requests f.events))

  opens-finish :
      (profile : Option ResolverProfile) (owns_client : Bool) (f : Fetched)
      → Balanced f
      → opens (finish net outside profile owns_client f).1
        ≡ closes (finish net outside profile owns_client f).1
  unfolding finish
  opens-finish profile owns_client f balanced =
      let events = (deliver net outside profile f.result).1 in
      let after = closing net outside f.response_open owns_client in
      let (u, no_opens, no_closes) = deliver-IsQuiet profile f.result in
      omega (
        arith,
        balanced,
        no_opens,
        no_closes,
        opens-append f.events (events ++ after),
        opens-append events after,
        closes-append f.events (events ++ after),
        closes-append events after,
        opens-closing f.response_open owns_client,
        closes-closing f.response_open owns_client,
      )

  -- The requests of a fetch: at most one that the caller's URL was validated for, and after it at
  -- most one more, for a validated form of a destination of the same origin.
  abbrev pub RequestsOf : String → List String → List String → Type 0
  RequestsOf raw_url declared_domains [] = Unit
  RequestsOf raw_url declared_domains (asked ∷ later) =
      IsValidated net (outside.lookups 0) raw_url declared_domains asked
      × RequestsAfter net outside declared_domains max_source_redirects 0 asked later

  from-RequestsOf :
      (raw_url : String) (declared_domains : List String) (safe_url : String) (us : List String)
      → IsValidated net (outside.lookups 0) raw_url declared_domains safe_url
      → RequestsFrom net outside declared_domains max_source_redirects 0 safe_url us
      → RequestsOf raw_url declared_domains us
  from-RequestsOf raw_url declared_domains safe_url [] valid h = tt
  from-RequestsOf raw_url declared_domains safe_url (asked ∷ later) valid (same, h) = (
    subst (IsValidated net (outside.lookups 0) raw_url declared_domains) (sym same) valid,
    subst (λ u. RequestsAfter net outside declared_domains max_source_redirects 0 u later)
        (sym same) h,
  )

  fetch_validated-Requests :
      (raw_url : String) (declared_domains : List String) (profile : Option ResolverProfile)
      (owns_client : Bool) (validated : Result ResolverError String)
      → validate_source_url net (outside.lookups 0) raw_url declared_domains ≡ validated
      → RequestsOf raw_url declared_domains
          (requests (fetch_validated net outside declared_domains profile owns_client validated).1)
  fetch_validated-Requests raw_url declared_domains profile owns_client (raised e) h = tt
  fetch_validated-Requests raw_url declared_domains profile owns_client (ok safe_url) h =
      subst (RequestsOf raw_url declared_domains) (sym (requests-finish profile owns_client _)) (
        from-RequestsOf raw_url declared_domains safe_url _
          (validate_source_url-IsValidated net (outside.lookups 0) raw_url declared_domains safe_url
            h)
          (fetch_loop-Requests net outside declared_domains max_source_redirects 0 safe_url))

  -- Whatever the servers answer, `fetch_source_html` makes at most two requests: the first asks for
  -- a validated form of the caller's URL, the second for a validated form of an https destination
  -- of the same host and port as the first.
  pub fetch_source_html-Requests :
      (raw_url : String) (declared_domains : List String) (profile : Option ResolverProfile)
      (owns_client : Bool)
      → RequestsOf raw_url declared_domains
          (requests (fetch_source_html net outside raw_url declared_domains profile owns_client).1)
  unfolding fetch_source_html
  fetch_source_html-Requests raw_url declared_domains profile owns_client =
      fetch_validated-Requests raw_url declared_domains profile owns_client _ refl

  fetch_validated-Closes :
      (declared_domains : List String) (profile : Option ResolverProfile) (owns_client : Bool)
      (validated : Result ResolverError String)
      → (let events =
            (fetch_validated net outside declared_domains profile owns_client validated).1 in
          opens events ≡ closes events)
  fetch_validated-Closes declared_domains profile owns_client (raised e) = refl
  fetch_validated-Closes declared_domains profile owns_client (ok safe_url) =
      opens-finish profile owns_client _
        (fetch_loop-Balanced net outside declared_domains max_source_redirects 0 safe_url)

  -- However `fetch_source_html` ends, by an exception or a cancellation too, it has closed exactly
  -- as many responses as it has opened.
  pub fetch_source_html-Closes :
      (raw_url : String) (declared_domains : List String) (profile : Option ResolverProfile)
      (owns_client : Bool)
      → (let events =
            (fetch_source_html net outside raw_url declared_domains profile owns_client).1 in
          opens events ≡ closes events)
  unfolding fetch_source_html
  fetch_source_html-Closes raw_url declared_domains profile owns_client =
      fetch_validated-Closes declared_domains profile owns_client _
