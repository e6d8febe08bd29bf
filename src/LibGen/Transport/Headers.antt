-- ===== src/LibGen/Transport/Headers.antt =====
-- The headers that a session of transport.py sends.
use Prim.Native.String
use Prim.Native.Char.{Char}
use text.Mathlib.TextLemmas.{nil-append, cons-append}
use pullbox_direct_providers.Prelude.{
  ◌≡◌, refl, sym, ◌∙◌, subst, inl, inr, Bool, true, false, ◌||◌, Option, none, some, List, [], ◌∷◌,
  arith, ℕ_eq, String_eq, String, All, Bool-cases,
}
use pullbox_direct_providers.Prelude.Result.{ok, of_option, >>=-eq-ok, ok-injective}
use pullbox_direct_providers.Prelude.Text.{all_chars, any_char}
use pullbox_direct_providers.Contract.Net.{Net}
use pullbox_direct_providers.Contract.Resolver.Replies.{ResolverCookie, ResolverSolution}
use pullbox_direct_providers.LibGen.Service.Origins.{value_error}
use pullbox_direct_providers.LibGen.Transport.{
  SessionCookie, Session, is_line_break, breaks_line, text_or_else,
}
use pullbox_direct_providers.LibGen.Transport.Cookies.{
  is_token_char, is_cookie_name, session_cookie, is_kept, kept_cookies, is_user_agent,
  with_user_agent, apply_solution_state, is_sent, pair_of, cookie_pairs, join_pairs, with_cookie,
  request_headers,
}

any_char-append :
    (p : Char → Bool) (a b : String) → any_char p (String.◌++◌ a b) ≡ (any_char p a || any_char p b)
unfolding any_char
any_char-append p String.[] b = rw (nil-append b) refl
any_char-append p (String.◌∷◌ c s) b =
    rw (cons-append c s b) (ground (arith, any_char-append p s b))

-- No carriage return and no line feed: the text cannot end a header.
abbrev pub IsClean : String → Type 0
IsClean s = breaks_line s ≡ false

append-IsClean : (a b : String) → IsClean a → IsClean b → IsClean (String.◌++◌ a b)
append-IsClean a b h k = ground (arith, any_char-append is_line_break a b)

token-unbroken : (c : Char) → is_token_char c ≡ true → is_line_break c ≡ false
unfolding is_token_char
token-unbroken c h = ground arith

tokens-IsClean : (s : String) → all_chars is_token_char s ≡ true → IsClean s
unfolding all_chars any_char
tokens-IsClean String.[] h = refl
tokens-IsClean (String.◌∷◌ c s) h =
    ground (arith, token-unbroken c (ground arith), tokens-IsClean s (ground arith))

equals-IsClean : IsClean "="
unfolding any_char
equals-IsClean = refl

separator-IsClean : IsClean "; "
unfolding any_char
separator-IsClean = refl

module _ (net : Net) where
  -- A session whose headers are safe: its user agent breaks no line, and each of its cookies was
  -- kept for its host, so has a token for a name, a value that breaks no line, and a domain that the
  -- host lies in.
  pub record IsSafe (session : Session) : Type 0 where
    pub agent : IsClean session.user_agent
    pub kept : All (λ cookie. is_kept net session.source_host cookie ≡ true) session.cookies

  kept_pair-IsClean :
      (host : String) (cookie : SessionCookie)
      → is_kept net host cookie ≡ true
      → IsClean (pair_of net cookie)
  unfolding is_kept is_cookie_name
  kept_pair-IsClean host cookie h =
      append-IsClean cookie.name (String.◌++◌ "=" cookie.value)
        (tokens-IsClean cookie.name (ground arith))
        (append-IsClean "=" cookie.value equals-IsClean (ground arith))

  cookie_pairs-IsClean :
      (source_host host path : String) (cookies : List SessionCookie)
      → All (λ cookie. is_kept net source_host cookie ≡ true) cookies
      → All IsClean (cookie_pairs net host path cookies)
  unfolding cookie_pairs
  cookie_pairs-IsClean source_host host path [] h = tt
  cookie_pairs-IsClean source_host host path (cookie ∷ cookies) (kept, h) =
      elim (Bool-cases (is_sent net host path cookie)) [
        | inl sent ↦
            rw (sent, cookie_pairs)
              (
                kept_pair-IsClean source_host cookie kept,
                cookie_pairs-IsClean source_host host path cookies h,
              )
        | inr held ↦ rw (held, cookie_pairs) (cookie_pairs-IsClean source_host host path cookies h)
      ]

  join_pairs-IsClean : (pairs : List String) → All IsClean pairs → IsClean (join_pairs net pairs)
  unfolding join_pairs any_char
  join_pairs-IsClean [] h = refl
  join_pairs-IsClean (s ∷ []) (clean, h) = clean
  join_pairs-IsClean (s ∷ t ∷ pairs) (clean, h) =
      append-IsClean s (String.◌++◌ "; " (join_pairs net (t ∷ pairs))) clean (
        append-IsClean "; " (join_pairs net (t ∷ pairs)) separator-IsClean
          (join_pairs-IsClean (t ∷ pairs) h))

  -- The values of headers that break no line.
  abbrev pub AllClean : List (String × String) → Type 0
  AllClean = All (λ header. IsClean header.1)

  with_cookie-AllClean :
      (pairs : List String) → All IsClean pairs → AllClean (with_cookie net pairs)
  with_cookie-AllClean [] h = tt
  with_cookie-AllClean (pair ∷ pairs) h = (join_pairs-IsClean (pair ∷ pairs) h, tt)

  pub request_headers-AllClean :
      (session : Session) (raw_url accept : String) (headers : List (String × String))
      → IsSafe session
      → IsClean accept
      → request_headers net session raw_url accept ≡ ok headers
      → AllClean headers
  unfolding request_headers
  request_headers-AllClean session raw_url accept headers safe clean h =
      let (parsed, a, h₁) = >>=-eq-ok (of_option value_error (net.urlsplit raw_url)) _ h in
      subst AllClean (ok-injective h₁) (
        clean,
        (
          safe.agent,
          with_cookie-AllClean _ (
              cookie_pairs-IsClean session.source_host (text_or_else parsed.hostname "")
                (text_or_else (some parsed.path) "/") session.cookies safe.kept),
        ),
      )

  kept_cookies-Kept :
      (session : Session) (cookies : List ResolverCookie)
      → All
          (λ cookie. is_kept net session.source_host cookie ≡ true)
          (kept_cookies net session cookies)
  unfolding kept_cookies
  kept_cookies-Kept session [] = tt
  kept_cookies-Kept session (cookie ∷ cookies) =
      elim (Bool-cases (is_kept net session.source_host (session_cookie net session cookie))) [
        | inl kept ↦ rw (kept, kept_cookies) (kept, kept_cookies-Kept session cookies)
        | inr dropped ↦ rw (dropped, kept_cookies) (kept_cookies-Kept session cookies)
      ]

  user_agent-IsClean : (s : String) → is_user_agent net s ≡ true → IsClean s
  unfolding is_user_agent
  user_agent-IsClean s h = ground arith

  with_user_agent_taken :
      (session : Session) (s : String)
      → is_user_agent net s ≡ true
      → with_user_agent net session (some s) ≡ ok (record session { user_agent = s })
  unfolding with_user_agent
  with_user_agent_taken session s fine = rw fine refl

  with_user_agent-IsSafe :
      (session next : Session) (agent : Option String)
      → IsSafe session
      → with_user_agent net session agent ≡ ok next
      → IsSafe next × (next.source_host ≡ session.source_host)
  unfolding with_user_agent
  with_user_agent-IsSafe session next none safe h =
      subst (λ s. IsSafe s × (s.source_host ≡ session.source_host)) (ok-injective h) (safe, refl)
  with_user_agent-IsSafe session next (some s) safe h = elim (Bool-cases (is_user_agent net s)) [
    | inl fine ↦
        subst (λ t. IsSafe t × (t.source_host ≡ session.source_host))
          (ok-injective (sym (with_user_agent_taken session s fine) ∙ h))
          (record { agent = user_agent-IsClean s fine; kept = safe.kept }, refl)
    | inr bad ↦ absurd (ground arith)
  ]

  -- Whatever solution the browser resolver returns: if `_apply_solution_state` takes it, the
  -- session is safe after it, for the same host.
  pub apply_solution_state-IsSafe :
      (session next : Session) (solution : ResolverSolution)
      → IsSafe session
      → apply_solution_state net session solution ≡ ok next
      → IsSafe next × (next.source_host ≡ session.source_host)
  unfolding apply_solution_state
  apply_solution_state-IsSafe session next solution safe h =
      let (agreed, a, h₁) = >>=-eq-ok (with_user_agent net session solution.user_agent) _ h in
      let (safe', host) = with_user_agent-IsSafe session agreed solution.user_agent safe a in
      subst (λ s. IsSafe s × (s.source_host ≡ session.source_host)) (ok-injective h₁)
        (record { agent = safe'.agent; kept = kept_cookies-Kept agreed solution.cookies }, host)
