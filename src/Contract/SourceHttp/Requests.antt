-- ===== src/Contract/SourceHttp/Requests.antt =====
-- The requests that source_http.py makes, and what it closes.
use pullbox_direct_providers.Prelude.{
  ℕ, zero, suc, ◌+◌, ◌≡◌, refl, ap, sym, subst, ◌⊎◌, inl, inr, Bool, true, false, Option, List, [],
  ◌∷◌, ◌++◌, arith, ℕ_eq, Bool-cases, String, contains,
}
use pullbox_direct_providers.Prelude.Result.{Result, ok, raised}
use pullbox_direct_providers.Contract.Net.{Net}
use pullbox_direct_providers.Contract.Resolver.Target.{ResolverError, validate_source_url}
use pullbox_direct_providers.Contract.Resolver.Target.Declared.{
  IsValidated, validate_source_url-IsValidated,
}
use pullbox_direct_providers.Contract.SourceHttp.{
  SourceError, redirect_limit, Response, Exchange, send_failed, send_cancelled, answered, Event,
  requested, opened, response_closed, client_closed, browser_asked, redirect_status_codes,
  same_origin_source_redirect,
}
use pullbox_direct_providers.Contract.SourceHttp.Origin.{
  IsSameOrigin, same_origin_source_redirect-IsSameOrigin,
}
use pullbox_direct_providers.Contract.SourceHttp.Fetch.{
  Outside, Fetched, stops, prepend, visit, follow, on_destination, fetch_loop,
}

-- The URLs of the requests, in order.
abbrev pub requests : List Event → List String
requests [] = []
requests (requested url ∷ events) = url ∷ requests events
requests (_ ∷ events) = requests events

-- How often a response was opened, and how often one was closed.
abbrev pub opens : List Event → ℕ
opens [] = 0
opens (opened ∷ events) = suc (opens events)
opens (_ ∷ events) = opens events

abbrev pub closes : List Event → ℕ
closes [] = 0
closes (response_closed ∷ events) = suc (closes events)
closes (_ ∷ events) = closes events

pub requests-append : (a b : List Event) → requests (a ++ b) ≡ requests a ++ requests b
requests-append [] b = refl
requests-append (requested url ∷ a) b = ap (λ us. url ∷ us) (requests-append a b)
requests-append (opened ∷ a) b = requests-append a b
requests-append (response_closed ∷ a) b = requests-append a b
requests-append (client_closed ∷ a) b = requests-append a b
requests-append (browser_asked url ∷ a) b = requests-append a b

pub opens-append : (a b : List Event) → opens (a ++ b) ≡ opens a + opens b
opens-append [] b = omega arith
opens-append (requested url ∷ a) b = opens-append a b
opens-append (opened ∷ a) b = omega (arith, opens-append a b)
opens-append (response_closed ∷ a) b = opens-append a b
opens-append (client_closed ∷ a) b = opens-append a b
opens-append (browser_asked url ∷ a) b = opens-append a b

pub closes-append : (a b : List Event) → closes (a ++ b) ≡ closes a + closes b
closes-append [] b = omega arith
closes-append (requested url ∷ a) b = closes-append a b
closes-append (opened ∷ a) b = closes-append a b
closes-append (response_closed ∷ a) b = omega (arith, closes-append a b)
closes-append (client_closed ∷ a) b = closes-append a b
closes-append (browser_asked url ∷ a) b = closes-append a b

abbrev pub one_if : Bool → ℕ
one_if true = 1
one_if false = 0

-- Every response that was opened is closed, but for the one that the end of the loop holds.
abbrev pub Balanced : Fetched → Type 0
Balanced f = opens f.events ≡ closes f.events + one_if f.response_open

visit-Balanced :
    (url : String) (on_redirect : Response → Fetched) (x : Exchange)
    → ((r : Response)
        → opens (on_redirect r).events + 1
          ≡ closes (on_redirect r).events + one_if (on_redirect r).response_open)
    → Balanced (visit url on_redirect x)
unfolding visit prepend
visit-Balanced url on_redirect send_failed h = refl
visit-Balanced url on_redirect send_cancelled h = refl
visit-Balanced url on_redirect (answered r) h =
    elim (Bool-cases (contains r.status_code redirect_status_codes)) [
      | inl redirects ↦ rw (redirects, visit) omega (arith, h r)
      | inr final ↦ rw (final, visit) refl
    ]

-- A visit asks for its URL, and then for what the redirect asks for.
visit-requests :
    (url : String) (on_redirect : Response → Fetched) (x : Exchange)
    → (requests (visit url on_redirect x).events ≡ url ∷ [])
      ⊎ ((r : Response) × (requests (visit url on_redirect x).events
            ≡ url ∷ requests (on_redirect r).events))
unfolding visit prepend
visit-requests url on_redirect send_failed = inl refl
visit-requests url on_redirect send_cancelled = inl refl
visit-requests url on_redirect (answered r) =
    elim (Bool-cases (contains r.status_code redirect_status_codes)) [
      | inl redirects ↦ inr (r, rw (redirects, visit) refl)
      | inr final ↦ inl (rw (final, visit) refl)
    ]

module _ (net : Net) (outside : Outside) (declared_domains : List String) where
  -- The requests after one for `url`, with so many redirects left: each asks for a validated form
  -- of a destination of the same origin as the request before it.
  abbrev pub RequestsAfter : ℕ → ℕ → String → List String → Type 0
  RequestsAfter left k url [] = Unit
  RequestsAfter zero k url (asked ∷ later) = ⊥
  RequestsAfter (suc left) k url (asked ∷ later) =
      (destination : String) × IsSameOrigin net url destination
      × IsValidated net (outside.lookups (suc k)) destination declared_domains asked
      × RequestsAfter left (suc k) asked later

  abbrev pub RequestsFrom : ℕ → ℕ → String → List String → Type 0
  RequestsFrom left k url [] = ⊥
  RequestsFrom left k url (asked ∷ later) = (asked ≡ url) × RequestsAfter left k url later

  follows :
      (left k : ℕ) (url : String) (us : List String) (destination v : String)
      → IsSameOrigin net url destination
      → IsValidated net (outside.lookups (suc k)) destination declared_domains v
      → RequestsFrom left (suc k) v us
      → RequestsAfter (suc left) k url us
  follows left k url [] destination v same valid h = tt
  follows left k url (asked ∷ later) destination v same valid (eq, h) = (
    destination,
    same,
    subst (IsValidated net (outside.lookups (suc k)) destination declared_domains) (sym eq) valid,
    subst (λ u. RequestsAfter left (suc k) u later) (sym eq) h,
  )

  follow-Requests :
      (left k : ℕ) (url destination : String) (next : String → Fetched)
      → IsSameOrigin net url destination
      → ((v : String) → RequestsFrom left (suc k) v (requests (next v).events))
      → (validated : Result ResolverError String)
      → validate_source_url net (outside.lookups (suc k)) destination declared_domains ≡ validated
      → RequestsAfter (suc left) k url (requests (follow next validated).events)
  unfolding follow prepend
  follow-Requests left k url destination next same h (raised e) eq = tt
  follow-Requests left k url destination next same h (ok v) eq =
      follows left k url (requests (next v).events) destination v same
        (validate_source_url-IsValidated net (outside.lookups (suc k)) destination declared_domains
          v eq)
        (h v)

  on_destination-Requests :
      (left k : ℕ) (url : String) (location : Option String) (next : String → Fetched)
      → ((v : String) → RequestsFrom left (suc k) v (requests (next v).events))
      → (destination : Result SourceError String)
      → same_origin_source_redirect net url location ≡ destination
      → RequestsAfter (suc left) k url (
          requests
            (on_destination
              (λ d. validate_source_url net (outside.lookups (suc k)) d declared_domains)
              next
              destination).events)
  on_destination-Requests left k url location next h (raised e) eq = tt
  on_destination-Requests left k url location next h (ok d) eq =
      follow-Requests left k url d next
        (same_origin_source_redirect-IsSameOrigin net url location d eq) h _ refl

  pub fetch_loop-Requests :
      (left k : ℕ) (url : String)
      → RequestsFrom left k url
          (requests (fetch_loop net outside declared_domains left k url).events)
  unfolding fetch_loop
  fetch_loop-Requests zero k url =
      elim (visit-requests url (λ r. stops redirect_limit true []) (outside.send k url)) [
        | inl one ↦ rw one (refl, tt)
        | inr (r, more) ↦ rw more (refl, tt)
      ]
  fetch_loop-Requests (suc left) k url =
      let next = fetch_loop net outside declared_domains left (suc k) in
      let on_redirect : Response → Fetched = λ r.
        on_destination (λ d. validate_source_url net (outside.lookups (suc k)) d declared_domains)
          next (same_origin_source_redirect net url r.location) in
      elim (visit-requests url on_redirect (outside.send k url)) [
        | inl one ↦ rw one (refl, tt)
        | inr (r, more) ↦ rw more (
          refl,
          on_destination-Requests left k url r.location next
              (λ v. fetch_loop-Requests left (suc k) v) _ refl,
        )
      ]

  -- After a redirect one response is open, and it is closed before the next request.
  follow-Balanced :
      (next : String → Fetched) (validated : Result ResolverError String)
      → ((v : String) → Balanced (next v))
      → opens (follow next validated).events + 1
        ≡ closes (follow next validated).events + one_if (follow next validated).response_open
  unfolding follow prepend
  follow-Balanced next (raised e) h = refl
  follow-Balanced next (ok v) h = omega (arith, h v)

  on_destination-Balanced :
      (validate : String → Result ResolverError String) (next : String → Fetched)
      (destination : Result SourceError String)
      → ((v : String) → Balanced (next v))
      → opens (on_destination validate next destination).events + 1
        ≡ closes (on_destination validate next destination).events
          + one_if (on_destination validate next destination).response_open
  on_destination-Balanced validate next (raised e) h = refl
  on_destination-Balanced validate next (ok d) h = follow-Balanced next (validate d) h

  pub fetch_loop-Balanced :
      (left k : ℕ) (url : String) → Balanced (fetch_loop net outside declared_domains left k url)
  unfolding fetch_loop
  fetch_loop-Balanced zero k url =
      visit-Balanced url (λ r. stops redirect_limit true []) (outside.send k url) (λ r. refl)
  fetch_loop-Balanced (suc left) k url = visit-Balanced url _ (outside.send k url) λ r.
      on_destination-Balanced
        (λ d. validate_source_url net (outside.lookups (suc k)) d declared_domains)
        (fetch_loop net outside declared_domains left (suc k))
        (same_origin_source_redirect net url r.location) (λ v. fetch_loop-Balanced left (suc k) v)
