-- ===== src/Contract/Net.antt =====
-- What the program takes from Python's library for URLs, addresses and case folding, whose
-- behaviour rests on tables: `urllib.parse`, `ipaddress` and `str.casefold`.
use pullbox_direct_providers.Prelude.{ℕ, Bool, Option, List, ℕ_eq, String_eq, String, List_eq}

-- A parsed URL. Reading `port` may raise ValueError, which is the outer `none`.
pub record Url : Type 0 where
  pub scheme : String
  pub netloc : String
  pub hostname : Option String
  pub username : Option String
  pub password : Option String
  pub port : Option (Option ℕ)
  pub path : String
  pub query : String
  pub fragment : String

pub record Net : Type 0 where
  -- `urlsplit`; `none` is a ValueError
  pub urlsplit : String → Option Url
  -- `urlunsplit` of scheme, netloc, path, query and fragment
  pub urlunsplit : String → String → String → String → String → String
  pub urljoin : String → String → Option String
  -- `ip_address`; `none` is a ValueError, and a parsed address shows its `is_global`
  pub ip_address : String → Option Bool
  pub casefold : String → String
  -- `str` of a number
  pub show : ℕ → String
  -- `bytes.decode("utf-8", errors="ignore")`, and the length in bytes of `str.encode("utf-8")`
  pub decode : List ℕ → String
  pub encoded_length : String → ℕ

-- A DNS lookup of a host and port; `none` is an OSError or a TimeoutError.
abbrev pub AddressResolver : Type 0
AddressResolver = String → ℕ → Option (List String)
