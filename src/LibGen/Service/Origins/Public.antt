-- ===== src/LibGen/Service/Origins/Public.antt =====
-- The origins that `_operation_origins` of service.py returns: which URLs they come from, and what
-- kind of host they have.

use pullbox_direct_providers.Prelude.{
  ℕ, ◌≤◌, ◌≡◌, refl, sym, subst, ◌⊎◌, inl, inr, true, false, not, ◌&&◌, ◌||◌, Option, none, some,
  List, [], ◌∷◌, arith, ltb, leb, length, ◌==◌, ℕ_eq, String_eq, String, Bool-cases, All, contains,
  eq_iff,
}
use pullbox_direct_providers.Prelude.Result.{
  Result, ok, raised, of_option, >>=-eq-ok, require-eq-ok, ok-injective, of_option-eq-ok,
}
use pullbox_direct_providers.Prelude.Text.{strip, is_blank, is_empty, text_len}
use pullbox_direct_providers.Contract.Net.{Url, Net, AddressResolver}
use pullbox_direct_providers.Contract.Configuration.{is_none, is_https_port}
use pullbox_direct_providers.Contract.Hostname.{is_public_source_hostname_syntax}
use pullbox_direct_providers.Contract.Resolver.Target.{ResolverError, folded_host, all_global}
use pullbox_direct_providers.Contract.Resolver.Target.Declared.{either-eq, all_global-global}
use pullbox_direct_providers.LibGen.Service.Origins.{
  ServiceError, origin_error, known_source_urls, origin_host_of, validate_source_origin, alternates,
  operation_origins, lift_addresses, or_default, alternate_or,
}
use pullbox_direct_providers.Contract.Hostname.Public.{IsPublicHost, hostname_syntax-IsPublicHost}

module _ (net : Net) where
  -- The origin of a URL: https on its default port, without credentials, path, query and fragment,
  -- rebuilt from its folded host alone, which is public and resolved to global addresses only.
  pub record IsOriginOf (resolve : AddressResolver) (raw_url origin : String) : Type 0 where
    pub parsed : Url
    pub port : Option ℕ
    pub hostname : String
    pub addresses : List String
    pub read : net.urlsplit (strip raw_url) ≡ some parsed
    pub port_read : parsed.port ≡ some port
    pub named : parsed.hostname ≡ some hostname
    pub scheme : parsed.scheme ≡ "https"
    pub no_username : parsed.username ≡ none
    pub no_password : parsed.password ≡ none
    pub default_port : (port ≡ none) ⊎ (port ≡ some 443)
    pub no_path : (parsed.path ≡ "") ⊎ (parsed.path ≡ "/")
    pub no_query : is_empty parsed.query ≡ true
    pub no_fragment : is_empty parsed.fragment ≡ true
    pub public_host : IsPublicHost net (folded_host net hostname)
    pub resolved : resolve (folded_host net hostname) 443 ≡ some addresses
    pub reachable : 1 ≤ length addresses
    pub global : All (λ a. net.ip_address a ≡ some true) addresses
    pub rebuilt : origin ≡ net.urlunsplit "https" (folded_host net hostname) "" "" ""

  https_port-default : (o : Option ℕ) → is_https_port o ≡ true → (o ≡ none) ⊎ (o ≡ some 443)
  https_port-default none h = inl refl
  https_port-default (some n) h = inr (ground arith)

  is_none-none : (o : Option String) → is_none o ≡ true → o ≡ none
  is_none-none none h = refl
  is_none-none (some s) h = cc

  lift_addresses-eq-ok :
      (r : Result ResolverError (Unit {0})) → lift_addresses r ≡ ok tt → r ≡ ok tt
  lift_addresses-eq-ok (ok tt) h = refl
  lift_addresses-eq-ok (raised e) h = cc

  validate_source_origin-IsOriginOf :
      (resolve : AddressResolver) (raw_url origin : String)
      → validate_source_origin net resolve raw_url ≡ ok origin
      → IsOriginOf resolve raw_url origin
  unfolding validate_source_origin origin_host_of
  validate_source_origin-IsOriginOf resolve raw_url origin h =
      let (host, a, h₁) = >>=-eq-ok (origin_host_of net raw_url) _ h in
      let (sized, b₁) =
        require-eq-ok (not (is_blank raw_url) && leb (text_len raw_url) 2000) origin_error _ a in
      let (parsed, read, b₂) =
        >>=-eq-ok (of_option origin_error (net.urlsplit (strip raw_url))) _ b₁ in
      let (port, port_read, b₃) = >>=-eq-ok (of_option origin_error parsed.port) _ b₂ in
      let (hostname, named, b₄) = >>=-eq-ok (of_option origin_error parsed.hostname) _ b₃ in
      let (plain, b₅) =
        require-eq-ok
          (parsed.scheme == "https"
            && not (is_empty hostname)
            && is_none parsed.username
            && is_none parsed.password
            && is_https_port port
            && (parsed.path == "" || parsed.path == "/")
            && is_empty parsed.query
            && is_empty parsed.fragment)
          origin_error _ b₄ in
      let (public, b₆) =
        require-eq-ok (is_public_source_hostname_syntax net (folded_host net hostname)) origin_error
          (ok (folded_host net hostname)) b₅ in
      let same : folded_host net hostname ≡ host = ok-injective b₆ in
      let (addresses, found, h₂) = >>=-eq-ok (of_option origin_error (resolve host 443)) _ h₁ in
      let (reachable, h₃) = require-eq-ok (ltb 0 (length addresses)) origin_error _ h₂ in
      let (_, c, h₄) = >>=-eq-ok (lift_addresses (all_global net addresses)) _ h₃ in
      record {
        parsed = parsed;
        port = port;
        hostname = hostname;
        addresses = addresses;
        read = of_option-eq-ok origin_error _ read;
        port_read = of_option-eq-ok origin_error _ port_read;
        named = of_option-eq-ok origin_error _ named;
        scheme = (eq_iff parsed.scheme "https").0 (ground arith);
        no_username = is_none-none parsed.username (ground arith);
        no_password = is_none-none parsed.password (ground arith);
        default_port = https_port-default port (ground arith);
        no_path = either-eq parsed.path "" "/" (ground arith);
        no_query = ground arith;
        no_fragment = ground arith;
        public_host = hostname_syntax-IsPublicHost net (folded_host net hostname) public;
        resolved = rw same (of_option-eq-ok origin_error (resolve host 443) found);
        reachable = ground arith;
        global =
            all_global-global net addresses (lift_addresses-eq-ok (all_global net addresses) c);
        rebuilt = rw same (ok-injective (sym h₄));
      }

  -- The URL of the configuration, or the default one.
  abbrev pub configured : Option String → String
  configured none = "https://libgen.gl"
  configured (some url) = url

  -- At most one origin, of a known source URL other than the preferred origin.
  abbrev pub AtMostOne : AddressResolver → String → List String → Type 0
  AtMostOne resolve preferred [] = Unit
  AtMostOne resolve preferred (origin ∷ []) =
      (raw_url : String) × (contains raw_url known_source_urls ≡ true)
      × (¬ (raw_url ≡ preferred))
      × IsOriginOf resolve raw_url origin
  AtMostOne resolve preferred (origin ∷ next ∷ origins) = ⊥

  alternate_or-AtMostOne :
      (resolve : AddressResolver) (preferred candidate : String)
      (validated : Result ServiceError String) (rest : List String)
      → contains candidate known_source_urls ≡ true
      → candidate == preferred ≡ false
      → validate_source_origin net resolve candidate ≡ validated
      → AtMostOne resolve preferred rest
      → AtMostOne resolve preferred (alternate_or net validated rest)
  alternate_or-AtMostOne resolve preferred candidate (ok origin) rest known other h one = (
    candidate,
    known,
    λ same. let equal = (eq_iff candidate preferred).1 same in cc,
    validate_source_origin-IsOriginOf resolve candidate origin h,
  )
  alternate_or-AtMostOne resolve preferred candidate (raised e) rest known other h one = one

  alternates-AtMostOne :
      (resolve : AddressResolver) (preferred : String) (candidates : List String)
      → All (λ c. contains c known_source_urls ≡ true) candidates
      → AtMostOne resolve preferred (alternates net resolve preferred candidates)
  unfolding alternates
  alternates-AtMostOne resolve preferred [] h = tt
  alternates-AtMostOne resolve preferred (candidate ∷ candidates) (known, h) =
      elim (Bool-cases (candidate == preferred)) [
        | inl same ↦ rw (same, alternates) (alternates-AtMostOne resolve preferred candidates h)
        | inr other ↦
            rw (other, alternates)
              (alternate_or-AtMostOne resolve preferred candidate
                (validate_source_origin net resolve candidate) _ known other refl
                (alternates-AtMostOne resolve preferred candidates h))
      ]

  -- The origins of an operation: that of the configured URL, and at most one more.
  abbrev pub AreOrigins : AddressResolver → Option String → List String → Type 0
  AreOrigins resolve source_url [] = ⊥
  AreOrigins resolve source_url (preferred ∷ others) =
      IsOriginOf resolve (configured source_url) preferred × AtMostOne resolve preferred others

  or_default-configured :
      (source_url : Option String) → or_default net source_url ≡ configured source_url
  or_default-configured none = refl
  or_default-configured (some url) = refl

  -- An operation uses the origin of the configured URL, or of the default one, and besides it at most
  -- one origin of a known source URL that is another one. Each URL is https on the default port,
  -- without credentials, path, query and fragment; its host is no special name and none below one, no
  -- address that is read as such, and no IPv4 address in ASCII notations; it resolved to at least one
  -- address, all of them global, and the origin is rebuilt from it alone.
  pub operation_origins-AreOrigins :
      (resolve : AddressResolver) (source_url : Option String) (origins : List String)
      → operation_origins net resolve source_url ≡ ok origins
      → AreOrigins resolve source_url origins
  unfolding operation_origins
  operation_origins-AreOrigins resolve source_url origins h =
      let (preferred, a, h₁) =
        >>=-eq-ok (validate_source_origin net resolve (or_default net source_url)) _ h in
      subst (AreOrigins resolve source_url) (ok-injective h₁) (
        subst (λ u. IsOriginOf resolve u preferred) (or_default-configured source_url)
            (validate_source_origin-IsOriginOf resolve (or_default net source_url) preferred a),
        alternates-AtMostOne resolve preferred known_source_urls
            (refl, (refl, (refl, (refl, (refl, tt))))),
      )
