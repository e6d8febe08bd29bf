-- ===== src/Contract/Resolver/Target.antt =====
-- The checks of resolver.py on URLs, domains and headers.
pub mod Declared
use Prim.Native.String
use pullbox_direct_providers.Prelude.{
  ℕ, zero, suc, ◌+◌, ◌-◌, ◌≤◌, ◌<◌, ◌≡◌, ◌≢◌, refl, ap, sym, ◌∙◌, subst, ◌⊎◌, inl, inr, ◌↔◌, Bool,
  true, false, not, ◌&&◌, ◌||◌, Option, none, some, List, [], ◌∷◌, ◌++◌, map, arith, ltb, leb,
  nat_beq, if◌then◌else◌, length, Eq, ◌==◌, ℕ_eq, String_eq, All, Exists, Bool-cases, Option-cases,
  length-append, String, eq_iff, eq_refl, any, all, contains, contains_iff, contains-append,
  List_eq,
}
use pullbox_direct_providers.Prelude.Dict.{lookup, put}
use pullbox_direct_providers.Prelude.Result.{
  Result, ok, raised, ◌>>=◌, ◌>>◌, require, of_option, traverse,
}
use pullbox_direct_providers.Prelude.Text.{
  strip, lstrip, rstrip, text_len, any_char, is_char, is_space, ends_with, starts, is_empty,
}
use pullbox_direct_providers.Contract.Net.{Url, Net, AddressResolver}
use pullbox_direct_providers.Contract.Models.{
  ResolverMode, flaresolverr_v1, trawl_scrape, ResolverProfile,
}

-- `ProviderResolverError`, without its message.
pub record ResolverError : Type 0 where
  pub code : String
  pub retryable : Bool

abbrev pub fails : String → ResolverError
fails code = record { code = code; retryable = false }

abbrev pub fails_retryable : String → ResolverError
fails_retryable code = record { code = code; retryable = true }

abbrev pub rejected : ResolverError
rejected = fails "resolver_target_rejected"

-- bool(value) of an optional text
abbrev pub is_set : Option String → Bool
is_set none = false
is_set (some s) = not (is_empty s)

-- "." + domain
abbrev pub dotted : String → String
dotted domain = String.◌++◌ "." domain

-- host == domain or host.endswith(f".{domain}")
unfoldable pub within_domain : String → String → Bool
unfolding ends_with
within_domain host domain = host == domain || ends_with (dotted domain) host

abbrev pub is_literal : Option Bool → Bool
is_literal none = false
is_literal (some g) = true

module _ (net : Net) where
  unfoldable pub normalize_domain : String → Result ResolverError String
  unfolding strip lstrip rstrip any_char text_len
  normalize_domain raw_domain =
      let value = rstrip (is_char b'.') (lstrip (is_char b'.') (net.casefold (strip raw_domain))) in
      if is_empty value
        || ltb 253 (text_len value)
        || any_char (λ c. is_char b'/' c || is_char b':' c || is_char b'@' c) value
      then raised rejected
      else ok value

  -- The host name that the checks compare: casefolded, without trailing dots.
  unfoldable pub folded_host : String → String
  unfolding rstrip
  folded_host hostname = rstrip (is_char b'.') (net.casefold hostname)

  abbrev default_port : String → ℕ
  default_port scheme = if scheme == "https" then 443 else 80

  -- `port or default`
  abbrev pub effective_port : Url → Option ℕ → ℕ
  effective_port url none = default_port url.scheme
  effective_port url (some zero) = default_port url.scheme
  effective_port url (some (suc n)) = suc n

  -- `ip_address` of each, and `is_global` of all
  unfoldable pub all_global : List String → Result ResolverError (Unit {0})
  all_global addresses = do
    globals ← traverse (λ a. of_option rejected (net.ip_address a)) addresses
    require (all (λ g. g) globals) rejected

  -- The checks of `_validate_source_url` on the URL alone: the URL, its host and its port.
  unfoldable pub plain_target : String → Result ResolverError (Url × String × ℕ)
  unfolding strip folded_host
  plain_target raw_url = do
    parsed ← of_option rejected (net.urlsplit (strip raw_url))
    port ← of_option rejected parsed.port
    hostname ← of_option rejected parsed.hostname
    require
        ((parsed.scheme == "http" || parsed.scheme == "https")
          && not (is_empty hostname)
          && not (is_set parsed.username)
          && not (is_set parsed.password)
          && is_empty parsed.fragment)
        rejected
    require (not (is_literal (net.ip_address (folded_host hostname)))) rejected
    ok (parsed, folded_host hostname, effective_port parsed port)

  -- Those checks, and that of the declared domains.
  unfoldable pub declared_url : String → List String → Result ResolverError (Url × String × ℕ)
  unfolding plain_target
  declared_url raw_url declared_domains = do
    target ← plain_target raw_url
    domains ← traverse normalize_domain declared_domains
    require (any (within_domain target.1) domains) rejected
    ok target

  -- The URL that `_validate_source_url` returns.
  unfoldable pub rebuilt_url : Url × String × ℕ → String
  rebuilt_url (url, host, port) =
      net.urlunsplit url.scheme
        (if nat_beq port (default_port url.scheme)
          then host
          else String.◌++◌ host (String.◌++◌ ":" (net.show port)))
        (if is_empty url.path then "/" else url.path) url.query ""

  -- `_validate_source_url`
  unfoldable pub validate_source_url :
      AddressResolver → String → List String → Result ResolverError String
  validate_source_url resolve raw_url declared_domains = do
    target ← declared_url raw_url declared_domains
    addresses ← of_option rejected (resolve target.1 target.2)
    require (ltb 0 (length addresses)) rejected
    all_global addresses
    ok (rebuilt_url target)

  -- `_resolver_operation_url`
  unfoldable pub resolver_operation_url : ResolverProfile → Result ResolverError String
  unfolding strip
  resolver_operation_url profile = do
    parsed ← of_option (fails "resolver_endpoint_rejected") (net.urlsplit (strip profile.endpoint))
    require
        ((parsed.scheme == "http" || parsed.scheme == "https")
          && is_set parsed.hostname
          && not (is_set parsed.username)
          && not (is_set parsed.password)
          && is_empty parsed.query
          && is_empty parsed.fragment
          && (parsed.path == "" || parsed.path == "/"))
        (fails "resolver_endpoint_rejected")
    ok (
        net.urlunsplit parsed.scheme parsed.netloc
          (elim profile.mode [ trawl_scrape ↦ "/scrape" | flaresolverr_v1 ↦ "/v1" ]) "" "")

abbrev pub forbidden_headers : List String
forbidden_headers =
    "connection" ∷ "content-length" ∷ "content-type" ∷ "cookie" ∷ "host" ∷ "proxy-authenticate"
    ∷ "proxy-authorization" ∷ "set-cookie" ∷ "te" ∷ "trailer" ∷ "transfer-encoding" ∷ "upgrade" ∷ []

module _ (net : Net) where
  unfoldable pub is_safe_header : String → String → Bool
  unfolding any_char is_space starts
  is_safe_header name value =
      not (is_empty name)
      && not (any_char is_space name)
      && not (contains (net.casefold name) forbidden_headers)
      && not (starts "proxy-" (net.casefold name))
      && not (any_char (λ c. is_char 13 c || is_char 10 c) value)

  unfoldable pub checked_headers :
      List (String × String) → Result ResolverError (List (String × String))
  checked_headers [] = ok []
  checked_headers ((name, value) ∷ headers) = do
    require (is_safe_header name value) (fails "resolver_auth_rejected")
    rest ← checked_headers headers
    ok ((name, value) ∷ rest)

  -- `_validated_auth_headers`, over a dict, whose names are distinct
  unfoldable pub validated_auth_headers :
      List (String × String) → Result ResolverError (List (String × String))
  validated_auth_headers headers = do
    require (leb (length headers) 4) (fails "resolver_auth_rejected")
    checked_headers headers
