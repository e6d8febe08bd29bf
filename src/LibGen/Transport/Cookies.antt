-- ===== src/LibGen/Transport/Cookies.antt =====
-- `_COOKIE_NAME`, `_apply_solution_state` and `_request_headers` of transport.py.
use Prim.Native.String
use Prim.Native.Char.{Char, code}
use pullbox_direct_providers.Prelude.{
  Bool, true, not, ◌&&◌, ◌||◌, Option, none, some, List, [], ◌∷◌, leb, if◌then◌else◌, ℕ_eq,
  String_eq, String, contains,
}
use pullbox_direct_providers.Prelude.Result.{Result, ok, raised, ◌>>=◌, of_option}
use pullbox_direct_providers.Prelude.Text.{
  lstrip, rstrip, is_blank, is_empty, is_char, is_digit, text_len, all_chars, any_char, starts,
}
use pullbox_direct_providers.Contract.Net.{Net}
use pullbox_direct_providers.Contract.Resolver.Target.{within_domain}
use pullbox_direct_providers.Contract.Resolver.Replies.{ResolverCookie, ResolverSolution}
use pullbox_direct_providers.LibGen.Service.Origins.{ServiceError, source_error, value_error}
use pullbox_direct_providers.LibGen.Transport.{SessionCookie, Session, breaks_line, text_or_else}

-- [!#$%&'*+.^_`|~0-9A-Za-z-]
unfoldable pub is_token_char : Char → Bool
is_token_char c =
    is_digit c
    || (leb b'A' (code c) && leb (code c) b'Z')
    || (leb b'a' (code c) && leb (code c) b'z')
    || contains (code c)
        (33 ∷ 35 ∷ 36 ∷ 37 ∷ 38 ∷ 39 ∷ 42 ∷ 43 ∷ 45 ∷ 46 ∷ 94 ∷ 95 ∷ 96 ∷ 124 ∷ 126 ∷ [])

-- `_COOKIE_NAME`
unfoldable pub is_cookie_name : String → Bool
unfolding all_chars is_token_char text_len
is_cookie_name name = not (is_empty name) && leb (text_len name) 256 && all_chars is_token_char name

module _ (net : Net) where
  -- The domain and path of a solution's cookie.
  unfoldable pub cookie_domain : Session → ResolverCookie → String
  unfolding lstrip rstrip
  cookie_domain session cookie =
      rstrip (is_char b'.')
        (lstrip (is_char b'.') (net.casefold (text_or_else cookie.domain session.source_host)))

  unfoldable pub session_cookie : Session → ResolverCookie → SessionCookie
  unfolding cookie_domain
  session_cookie session cookie = record {
    name = cookie.name;
    value = cookie.value;
    domain = cookie_domain session cookie;
    path = text_or_else cookie.path "/";
  }

  -- The condition under which a cookie is kept.
  unfoldable pub is_kept : String → SessionCookie → Bool
  unfolding is_cookie_name text_len any_char within_domain starts
  is_kept source_host cookie =
      is_cookie_name cookie.name
      && leb (text_len cookie.value) 16384
      && not (breaks_line cookie.value)
      && within_domain source_host cookie.domain
      && starts "/" cookie.path
      && leb (text_len cookie.path) 2000

  unfoldable pub kept_cookies : Session → List ResolverCookie → List SessionCookie
  unfolding session_cookie is_kept
  kept_cookies session [] = []
  kept_cookies session (cookie ∷ cookies) =
      let rest = kept_cookies session cookies in
      if is_kept session.source_host (session_cookie session cookie)
      then session_cookie session cookie ∷ rest
      else rest

  unfoldable pub is_user_agent : String → Bool
  unfolding is_blank text_len any_char
  is_user_agent s = not (is_blank s) && leb (text_len s) 500 && not (breaks_line s)

  unfoldable pub with_user_agent : Session → Option String → Result ServiceError Session
  unfolding is_user_agent
  with_user_agent session none = ok session
  with_user_agent session (some s) =
      if is_user_agent s
      then ok (record session { user_agent = s })
      else raised (source_error "browser_resolution_failed" true)

  -- `_apply_solution_state`
  unfoldable pub apply_solution_state : Session → ResolverSolution → Result ServiceError Session
  unfolding with_user_agent kept_cookies
  apply_solution_state session solution = do
    next ← with_user_agent session solution.user_agent
    ok (record next { cookies = kept_cookies next solution.cookies })

  -- The test of a cookie for a request, and its "name=value".
  unfoldable pub is_sent : String → String → SessionCookie → Bool
  unfolding within_domain starts
  is_sent host path cookie = within_domain host cookie.domain && starts cookie.path path

  abbrev pub pair_of : SessionCookie → String
  pair_of cookie = String.◌++◌ cookie.name (String.◌++◌ "=" cookie.value)

  -- "; ".join of the pairs of the cookies that are sent, and whether there are any
  unfoldable pub cookie_pairs : String → String → List SessionCookie → List String
  unfolding is_sent
  cookie_pairs host path [] = []
  cookie_pairs host path (cookie ∷ cookies) =
      let rest = cookie_pairs host path cookies in
      if is_sent host path cookie then pair_of cookie ∷ rest else rest

  unfoldable pub join_pairs : List String → String
  join_pairs [] = ""
  join_pairs (s ∷ []) = s
  join_pairs (s ∷ t ∷ pairs) = String.◌++◌ s (String.◌++◌ "; " (join_pairs (t ∷ pairs)))

  abbrev pub with_cookie : List String → List (String × String)
  with_cookie [] = []
  with_cookie (pair ∷ pairs) = ("Cookie", join_pairs (pair ∷ pairs)) ∷ []

  -- `_request_headers`, where the URL was validated before and so is one
  unfoldable pub request_headers :
      Session → String → String → Result ServiceError (List (String × String))
  unfolding cookie_pairs join_pairs
  request_headers session raw_url accept = do
    parsed ← of_option value_error (net.urlsplit raw_url)
    ok (
        ("Accept", accept)
        ∷ ("User-Agent", session.user_agent)
        ∷ with_cookie (
            cookie_pairs (text_or_else parsed.hostname "") (text_or_else (some parsed.path) "/")
              session.cookies))
