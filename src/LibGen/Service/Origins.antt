-- ===== src/LibGen/Service/Origins.antt =====
-- `validate_source_origin` and `_operation_origins` of service.py, with the errors of the service.
-- `_is_public_source_hostname_syntax` stands in Contract/Hostname.
pub mod Public
use pullbox_direct_providers.Prelude.{
  Bool, not, ◌&&◌, ◌||◌, Option, none, some, List, [], ◌∷◌, ltb, leb, if◌then◌else◌, length, ◌==◌,
  ℕ_eq, String_eq, String,
}
use pullbox_direct_providers.Prelude.Result.{Result, ok, raised, ◌>>=◌, ◌>>◌, require, of_option}
use pullbox_direct_providers.Prelude.Text.{strip, is_blank, is_empty, text_len}
use pullbox_direct_providers.Contract.Net.{Net, AddressResolver}
use pullbox_direct_providers.Contract.Hostname.{is_public_source_hostname_syntax}
use pullbox_direct_providers.Contract.Resolver.Target.{ResolverError, folded_host, all_global}
use pullbox_direct_providers.Contract.Configuration.{is_none, is_https_port}

-- The exceptions that the service tells apart, without their messages. `ValueError` is one that is
-- none of its subclasses here.
pub data ServiceError : Type 0 where
  origin_error layout_error metadata_error challenge_required value_error : ServiceError
  source_error : String → Bool → ServiceError
  resolver_error : ResolverError → ServiceError
  cancelled : ServiceError
  other_error : ServiceError

abbrev pub known_source_urls : List String
known_source_urls =
    "https://libgen.gl" ∷ "https://libgen.li" ∷ "https://libgen.vg" ∷ "https://libgen.la"
    ∷ "https://libgen.bz" ∷ []

abbrev pub default_source_url : String
default_source_url = "https://libgen.gl"

abbrev lift_addresses : Result ResolverError (Unit {0}) → Result ServiceError (Unit {0})
lift_addresses (ok u) = ok u
lift_addresses (raised e) = raised origin_error

module _ (net : Net) where
  -- The checks of `validate_source_origin` on the URL alone, and its host.
  unfoldable pub origin_host_of : String → Result ServiceError String
  unfolding is_blank text_len strip folded_host is_public_source_hostname_syntax
  origin_host_of raw_url = do
    require (not (is_blank raw_url) && leb (text_len raw_url) 2000) origin_error
    parsed ← of_option origin_error (net.urlsplit (strip raw_url))
    port ← of_option origin_error parsed.port
    hostname ← of_option origin_error parsed.hostname
    require
        (parsed.scheme == "https"
          && not (is_empty hostname)
          && is_none parsed.username
          && is_none parsed.password
          && is_https_port port
          && (parsed.path == "" || parsed.path == "/")
          && is_empty parsed.query
          && is_empty parsed.fragment)
        origin_error
    require (is_public_source_hostname_syntax net (folded_host net hostname)) origin_error
    ok (folded_host net hostname)

  -- `validate_source_origin`
  unfoldable pub validate_source_origin : AddressResolver → String → Result ServiceError String
  unfolding origin_host_of all_global
  validate_source_origin resolve raw_url = do
    host ← origin_host_of raw_url
    addresses ← of_option origin_error (resolve host 443)
    require (ltb 0 (length addresses)) origin_error
    lift_addresses (all_global net addresses)
    ok (net.urlunsplit "https" host "" "" "")

  abbrev or_default : Option String → String
  or_default none = default_source_url
  or_default (some url) = url

  abbrev alternate_or : Result ServiceError String → List String → List String
  alternate_or (ok alternate) rest = alternate ∷ []
  alternate_or (raised e) rest = rest

  -- The loop of `_operation_origins`: the first other known origin that is valid.
  unfoldable pub alternates : AddressResolver → String → List String → List String
  unfolding validate_source_origin
  alternates resolve preferred [] = []
  alternates resolve preferred (candidate ∷ candidates) =
      let rest = alternates resolve preferred candidates in
      if candidate == preferred
      then rest
      else alternate_or (validate_source_origin resolve candidate) rest

  -- `_operation_origins`, for the configured source URL if there is one. Every host is looked up
  -- at most once, so the resolver is a function here.
  unfoldable pub operation_origins :
      AddressResolver → Option String → Result ServiceError (List String)
  unfolding alternates
  operation_origins resolve source_url = do
    preferred ← validate_source_origin resolve (or_default source_url)
    ok (preferred ∷ alternates resolve preferred known_source_urls)
