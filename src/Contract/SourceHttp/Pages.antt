-- ===== src/Contract/SourceHttp/Pages.antt =====
-- The pages that source_http.py returns.
use mathlib.Core.List.{append-nil, append_assoc}
use pullbox_direct_providers.Prelude.{
  ℕ, zero, suc, ◌+◌, ◌≤◌, ◌≡◌, refl, ap, sym, ◌∙◌, subst, ◌⊎◌, inl, inr, Bool, true, false, Option,
  none, some, List, [], ◌∷◌, ◌++◌, arith, ltb, leb, length, ℕ_eq, Bool-cases, String, contains,
}
use pullbox_direct_providers.Prelude.Result.{Result, ok, raised, >>=-eq-ok, ok-injective}
use pullbox_direct_providers.Contract.Net.{Net}
use pullbox_direct_providers.Contract.Models.{ResolverProfile}
use pullbox_direct_providers.Contract.Resolver.Challenge.{
  BrowserChallengeKind, raw, detect_browser_challenge,
}
use pullbox_direct_providers.Contract.Resolver.Target.{ResolverError, validate_source_url}
use pullbox_direct_providers.Contract.Resolver.Replies.{ResolverOutcome}
use pullbox_direct_providers.Contract.Resolver.Flow.Solutions.{join}
use pullbox_direct_providers.Contract.SourceHttp.{
  SourceError, redirect_limit, StreamEnd, complete, broken, aborted, Response, Exchange,
  send_failed, send_cancelled, answered, max_source_bytes, redirect_status_codes,
  max_source_redirects, read_stream, read_bounded, same_origin_source_redirect, safe_headers,
}
use pullbox_direct_providers.Contract.SourceHttp.Fetch.{
  Outside, Page, Fetched, stops, prepend, page_of, visit, follow, on_destination, fetch_loop,
  html_of, ordinary_of, deliver_unless, deliver, finish, fetch_validated, fetch_source_html,
}

-- A body that was read whole: at most 8 MiB, in the order of its chunks, to the end of the stream.
pub record IsWhole (response : Response) (body : List ℕ) : Type 0 where
  pub bounded : length body ≤ max_source_bytes
  pub in_order : body ≡ join response.chunks
  pub ended : response.stream_end ≡ complete

stream-Whole :
    (stream_end : StreamEnd) (body : List ℕ) (chunks : List (List ℕ)) {result : List ℕ}
    → length body ≤ max_source_bytes
    → read_stream stream_end body chunks ≡ ok result
    → (length result ≤ max_source_bytes) × (result ≡ body ++ join chunks) × (stream_end ≡ complete)
unfolding read_stream
stream-Whole complete body [] small h =
    let same = ok-injective h in
    (subst (λ b. length b ≤ max_source_bytes) same small, sym same ∙ sym (append-nil body), refl)
stream-Whole broken body [] small h = cc
stream-Whole aborted body [] small h = cc
stream-Whole stream_end body (chunk ∷ chunks) small h =
    elim (Bool-cases (ltb max_source_bytes (length (body ++ chunk)))) [
      | inl large ↦ absurd (ground arith)
      | inr fits ↦
          let (bounded, in_order, ended) =
            stream-Whole stream_end (body ++ chunk) chunks (ground arith) (ground arith) in
          (bounded, in_order ∙ append_assoc body chunk (join chunks), ended)
    ]

read_bounded-IsWhole :
    (response : Response) (body : List ℕ) → read_bounded response ≡ ok body → IsWhole response body
unfolding read_bounded
read_bounded-IsWhole response body h =
    let (bounded, in_order, ended) =
      stream-Whole response.stream_end [] response.chunks (omega arith) h in
    record { bounded = bounded; in_order = in_order; ended = ended }

module _ (outside : Outside) where
  -- What the loop ends with: the answer to the first request or, after one redirect, to the second.
  -- It is no redirect, and its body was read whole.
  pub record IsRead (page : Page) : Type 0 where
    pub number : ℕ
    pub first_or_second : number ≤ 1
    pub sent : outside.send number page.safe_url ≡ answered page.response
    pub no_redirect : contains page.response.status_code redirect_status_codes ≡ false
    pub whole : IsWhole page.response page.body

  abbrev AllRead : Result SourceError Page → Type 0
  AllRead (raised e) = Unit
  AllRead (ok page) = IsRead page

  page_of-Read :
      (k : ℕ) (response : Response) (safe_url : String) (body : Result SourceError (List ℕ))
      → k ≤ 1
      → outside.send k safe_url ≡ answered response
      → contains response.status_code redirect_status_codes ≡ false
      → read_bounded response ≡ body
      → AllRead (page_of response safe_url body)
  page_of-Read k response safe_url (raised e) early sent final h = tt
  page_of-Read k response safe_url (ok body) early sent final h = record {
    number = k;
    first_or_second = early;
    sent = sent;
    no_redirect = final;
    whole = read_bounded-IsWhole response body h;
  }

  visit-Read :
      (k : ℕ) (url : String) (on_redirect : Response → Fetched) (x : Exchange)
      → k ≤ 1
      → outside.send k url ≡ x
      → ((r : Response) → AllRead (on_redirect r).result)
      → AllRead (visit url on_redirect x).result
  unfolding visit prepend
  visit-Read k url on_redirect send_failed early sent h = tt
  visit-Read k url on_redirect send_cancelled early sent h = tt
  visit-Read k url on_redirect (answered r) early sent h =
      elim (Bool-cases (contains r.status_code redirect_status_codes)) [
        | inl redirects ↦ rw (redirects, visit) (h r)
        | inr final ↦ rw (final, visit) (page_of-Read k r url _ early sent final refl)
      ]

  follow-Read :
      (next : String → Fetched) (validated : Result ResolverError String)
      → ((v : String) → AllRead (next v).result)
      → AllRead (follow next validated).result
  unfolding follow prepend
  follow-Read next (raised e) h = tt
  follow-Read next (ok v) h = h v

  on_destination-Read :
      (validate : String → Result ResolverError String) (next : String → Fetched)
      (destination : Result SourceError String)
      → ((v : String) → AllRead (next v).result)
      → AllRead (on_destination validate next destination).result
  unfolding follow prepend
  on_destination-Read validate next (raised e) h = tt
  on_destination-Read validate next (ok d) h = follow-Read next (validate d) h

module _ (net : Net) (outside : Outside) (declared_domains : List String) where
  fetch_loop-Read :
      (left k : ℕ) (url : String)
      → left + k ≤ 1
      → AllRead outside (fetch_loop net outside declared_domains left k url).result
  unfolding fetch_loop
  fetch_loop-Read zero k url early =
      visit-Read outside k url (λ r. stops redirect_limit true []) (outside.send k url)
        (omega arith) refl (λ r. tt)
  fetch_loop-Read (suc left) k url early =
      visit-Read outside k url _ (outside.send k url) (omega arith) refl λ r.
        on_destination-Read outside
          (λ d. validate_source_url net (outside.lookups (suc k)) d declared_domains)
          (fetch_loop net outside declared_domains left (suc k))
          (same_origin_source_redirect net url r.location)
          (λ v. fetch_loop-Read left (suc k) v (omega arith))

module _ (net : Net) (outside : Outside) where
  abbrev pub challenge_of_page : Page → Option BrowserChallengeKind
  challenge_of_page page =
      detect_browser_challenge net page.response.status_code
        (safe_headers net page.response.headers) (raw page.body)

  -- Where a returned text comes from: a page without a challenge and with a status below 400, or
  -- the browser resolver, for a page with a challenge and with a profile.
  abbrev pub ComesFrom : Option ResolverProfile → String → Page → Type 0
  ComesFrom profile html page =
      ((challenge_of_page page ≡ none)
        × (leb 400 page.response.status_code ≡ false)
        × (html ≡ outside.decode page.body page.response.encoding))
      ⊎ ((challenge : BrowserChallengeKind) × (given : ResolverProfile)
          × (outcome : ResolverOutcome) × (challenge_of_page page ≡ some challenge)
          × (profile ≡ some given)
          × (outside.browser_resolver (ordinary_of net outside page) page.safe_url given
              ≡ ok (some outcome))
          × (html ≡ outcome.solution.html))

  html_of-eq-ok :
      (o : Option ResolverOutcome) (html : String)
      → html_of o ≡ ok html
      → (outcome : ResolverOutcome) × (o ≡ some outcome) × (html ≡ outcome.solution.html)
  html_of-eq-ok none html h = cc
  html_of-eq-ok (some outcome) html h = (outcome, refl, ok-injective (sym h))

  deliver_unless-ComesFrom :
      (profile : Option ResolverProfile) (page : Page) (html : String)
      (challenge : Option BrowserChallengeKind)
      → challenge_of_page page ≡ challenge
      → (deliver_unless net outside challenge profile page).0 ≡ ok html
      → ComesFrom profile html page
  unfolding deliver_unless
  deliver_unless-ComesFrom profile page html none quiet h = inl (quiet, ground arith, ground arith)
  deliver_unless-ComesFrom none page html (some challenge) seen h = cc
  deliver_unless-ComesFrom (some given) page html (some challenge) seen h =
      let (o, asked, h₁) =
        >>=-eq-ok (outside.browser_resolver (ordinary_of net outside page) page.safe_url given)
          html_of h in
      let (outcome, found, same) = html_of-eq-ok o html h₁ in
      inr (challenge, given, outcome, seen, refl, asked ∙ ap ok found, same)

  finish-ComesFrom :
      (profile : Option ResolverProfile) (owns_client : Bool) (f : Fetched) (html : String)
      (result : Result SourceError Page)
      → f.result ≡ result
      → AllRead outside result
      → (deliver net outside profile result).0 ≡ ok html
      → (page : Page) × IsRead outside page × ComesFrom profile html page
  unfolding deliver
  finish-ComesFrom profile owns_client f html (raised e) same read h = cc
  finish-ComesFrom profile owns_client f html (ok page) same read h =
      (page, read, deliver_unless-ComesFrom profile page html _ refl h)

  fetch_validated-ComesFrom :
      (declared_domains : List String) (profile : Option ResolverProfile) (owns_client : Bool)
      (html : String) (validated : Result ResolverError String)
      → (fetch_validated net outside declared_domains profile owns_client validated).0 ≡ ok html
      → (page : Page) × IsRead outside page × ComesFrom profile html page
  unfolding finish
  fetch_validated-ComesFrom declared_domains profile owns_client html (raised e) h = cc
  fetch_validated-ComesFrom declared_domains profile owns_client html (ok safe_url) h =
      let f = fetch_loop net outside declared_domains max_source_redirects 0 safe_url in
      finish-ComesFrom profile owns_client f html f.result refl
        (fetch_loop-Read net outside declared_domains max_source_redirects 0 safe_url (omega arith))
        h

  -- A text that `fetch_source_html` returns is made from the answer to its first or its second
  -- request, which is no redirect and was read whole, within 8 MiB. It is the decoded body of this
  -- answer, which then is no challenge and has a status below 400; or it is the page of the browser
  -- resolver, which was asked because the answer was a challenge and a profile was given.
  pub fetch_source_html-ComesFrom :
      (raw_url : String) (declared_domains : List String) (profile : Option ResolverProfile)
      (owns_client : Bool) (html : String)
      → (fetch_source_html net outside raw_url declared_domains profile owns_client).0 ≡ ok html
      → (page : Page) × IsRead outside page × ComesFrom profile html page
  unfolding fetch_source_html
  fetch_source_html-ComesFrom raw_url declared_domains profile owns_client html h =
      fetch_validated-ComesFrom declared_domains profile owns_client html _ h
