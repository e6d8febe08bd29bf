-- ===== src/AnnasArchive/Search.antt =====
-- `validate_official_domain`, `_build_query`, `search` and the two probes of
-- providers/annas_archive/src/pullbox_provider_annas_archive/service.py. The page fetcher, the
-- parser of pages and the catalog are arguments, as the constructor takes them.
pub mod Outcomes
use Prim.Native.String
use pullbox_direct_providers.Contract.Failures.{Failure, protocol_error, runtime_error, value_error}
use pullbox_direct_providers.Prelude.{
  ℕ, Bool, true, false, not, ◌&&◌, ◌||◌, Option, none, some, List, [], ◌∷◌, ◌++◌, if◌then◌else◌,
  take, contains, ◌==◌, String_eq, String,
}
use pullbox_direct_providers.Prelude.Result.{Result, ok, raised, ◌>>=◌, require, ◌>>◌, of_option}
use pullbox_direct_providers.Prelude.Text.{strip, rstrip, is_char, is_empty, text_take}
use pullbox_direct_providers.Contract.Net.{Net, Url}
use pullbox_direct_providers.Contract.Models.{Candidate, SearchIntent, ProtocolError}
use pullbox_direct_providers.Contract.SearchTerms.{
  Unicode, is_collection_intent, collection_title_fragment,
}
use pullbox_direct_providers.LibGen.Service.Queries.{text_or, year_or, join_texts}
use pullbox_direct_providers.AnnasArchive.Catalog.{anna_candidates_from_catalog}

abbrev pub supported_official_domains : List String
supported_official_domains = "annas-archive.gl" ∷ "annas-archive.pk" ∷ "annas-archive.gd" ∷ []

abbrev pub supported_official_urls : List String
supported_official_urls =
    "https://annas-archive.gl" ∷ "https://annas-archive.pk" ∷ "https://annas-archive.gd" ∷ []

abbrev pub default_official_url : String
default_official_url = "https://annas-archive.gd"

-- `_domain_error`
abbrev pub domain_error : Failure
domain_error =
    protocol_error
      (record { status_code = 422; code = "invalid_source_domain"; retry_after_seconds = none })

-- not value
abbrev pub no_text : Option String → Bool
no_text none = true
no_text (some s) = is_empty s

abbrev pub or_text : String → Option String → String
or_text other none = other
or_text other (some s) = s

abbrev pub no_port : Option ℕ → Bool
no_port none = true
no_port (some n) = false

abbrev pub is_supported_host : Option String → Bool
is_supported_host none = false
is_supported_host (some host) = contains host supported_official_domains

-- The checks on the parsed URL. A port that cannot be read is the ValueError of `parsed.port`,
-- which nothing catches here.
unfoldable pub checked_domain : String → Url → Result Failure String
checked_domain value parsed = do
  require
      (contains value supported_official_urls
        && parsed.scheme == "https"
        && is_supported_host parsed.hostname
        && no_text parsed.username
        && no_text parsed.password)
      domain_error
  port ← of_option value_error parsed.port
  require
      (no_port port && is_empty parsed.path && is_empty parsed.query && is_empty parsed.fragment)
      domain_error
  ok value

-- `validate_official_domain`
unfoldable pub validate_official_domain : Net → String → Result Failure String
unfolding strip rstrip checked_domain
validate_official_domain net raw_domain = do
  let value = rstrip (is_char b'/') (strip raw_domain)
  parsed ← of_option domain_error (net.urlsplit value)
  checked_domain value parsed

-- The constructor's arguments and the parser: what a search meets outside.
pub record Source : Type 0 where
  pub page_fetcher : String → Result Failure String
  pub parse_search_html : String → String → Result Failure (List Candidate)
  pub catalog_search : SearchIntent → ℕ → Result Failure (List Candidate)
  pub urlencode : List (String × String) → String

abbrev pub number_text : Net → Option ℕ → List String
number_text net none = []
number_text net (some n) = net.show n ∷ []

abbrev pub word_text : Option String → List String
word_text none = []
word_text (some s) = if is_empty s then [] else s ∷ []

-- [value] if value else [], of a year
abbrev pub year_text : Net → Option ℕ → List String
unfolding year_or
year_text net year = number_text net (year_or year none)

module _ (net : Net) (unicode : Unicode) where
  -- `" ".join(parts)[:700]`
  unfoldable pub joined_query : List String → String
  unfolding join_texts text_take
  joined_query parts = text_take 700 (join_texts net parts)

  unfoldable pub plain_query : SearchIntent → String
  unfolding joined_query
  plain_query intent =
      joined_query
        (intent.series_title ∷ word_text intent.issue_number ++ year_text net intent.year)

  abbrev pub volume_query : SearchIntent → List String → String
  volume_query intent [] = plain_query intent
  volume_query intent (volume ∷ _) = joined_query (
      intent.series_title
      ∷ "Vol"
      ∷ volume
      ∷ year_text net (year_or intent.release_year intent.year))

  abbrev pub collection_query : SearchIntent → Option String → String
  collection_query intent none =
      volume_query intent (word_text (text_or intent.volume intent.issue_number))
  collection_query intent (some fragment) =
      if is_empty fragment
      then volume_query intent (word_text (text_or intent.volume intent.issue_number))
      else text_take 700 (String.◌++◌ intent.series_title (String.◌++◌ " " fragment))

  -- `_build_query`
  unfoldable pub build_query : SearchIntent → String
  unfolding is_collection_intent collection_title_fragment plain_query joined_query text_or year_or
      text_take
  build_query intent =
      if is_collection_intent net unicode intent.issue_type
      then collection_query intent (collection_title_fragment net unicode intent.issue_title)
      else plain_query intent

  module _ (source : Source) where
    abbrev pub hostname_of : Option Url → String
    hostname_of none = "annas-archive.gd"
    hostname_of (some parsed) =
        let host = or_text "" parsed.hostname in if is_empty host then "annas-archive.gd" else host

    unfoldable pub search_url : String → SearchIntent → String
    unfolding build_query
    search_url domain intent = String.◌++◌ domain (
        String.◌++◌ "/search?" (
          source.urlencode
            (("q", build_query intent) ∷ ("ext", "cbz") ∷ ("ext", "cbr") ∷ ("ext", "pdf") ∷ [])))

    -- The page of the official domain, cut at the limit.
    unfoldable pub primary_search : String → ℕ → SearchIntent → Result Failure (List Candidate)
    unfolding search_url
    primary_search domain limit intent = do
      html ← source.page_fetcher (search_url domain intent)
      candidates ← source.parse_search_html html (hostname_of (net.urlsplit domain))
      ok (take limit candidates)

    -- raise primary_error from None, or return []
    abbrev pub primary_failure : Option Failure → Result Failure (List Candidate)
    primary_failure none = ok []
    primary_failure (some e) = raised e

    -- What the catalog's answer makes of the search.
    unfoldable pub after_catalog :
        String
        → ℕ
        → Option Failure
        → Result Failure (List Candidate)
        → Result Failure (List Candidate)
    unfolding anna_candidates_from_catalog
    after_catalog domain limit primary_error (ok candidates) =
        ok (anna_candidates_from_catalog net domain limit candidates)
    after_catalog domain limit primary_error (raised (runtime_error e)) =
        primary_failure primary_error
    after_catalog domain limit primary_error (raised value_error) = primary_failure primary_error
    after_catalog domain limit primary_error (raised e) = raised e

    -- What the primary search leads to, with whether the catalog was asked.
    unfoldable pub after_primary :
        String
        → ℕ
        → SearchIntent
        → Result Failure (List Candidate)
        → Result Failure (List Candidate)
    unfolding after_catalog
    after_primary domain limit intent (ok []) =
        after_catalog domain limit none (source.catalog_search intent limit)
    after_primary domain limit intent (ok (c ∷ cs)) = ok (c ∷ cs)
    after_primary domain limit intent (raised (runtime_error e)) =
        after_catalog domain limit (some (runtime_error e)) (source.catalog_search intent limit)
    after_primary domain limit intent (raised e) = raised e

    -- `search`, with the text of the configured domain, if one is configured
    unfoldable pub search : Option String → ℕ → SearchIntent → Result Failure (List Candidate)
    unfolding validate_official_domain primary_search after_primary
    search configured limit intent = do
      domain ← validate_official_domain net (or_text default_official_url configured)
      after_primary domain limit intent (primary_search domain limit intent)

    -- Whether a page was fetched; RuntimeError is the one exception that is no failure of the probe.
    abbrev pub probed : Result Failure String → Result Failure Bool
    probed (ok html) = ok true
    probed (raised (runtime_error e)) = ok false
    probed (raised e) = raised e

    unfoldable pub available_at : List String → Result Failure Bool
    available_at [] = ok false
    available_at (url ∷ urls) = do
      let later = available_at urls
      found ← probed (source.page_fetcher url)
      if found then ok true else later

    -- `source_available`
    unfoldable pub source_available : Result Failure Bool
    unfolding available_at
    source_available = available_at supported_official_urls

    unfoldable pub reachability_of : List (String × String) → Result Failure (List (String × Bool))
    reachability_of [] = ok []
    reachability_of ((domain, url) ∷ rest) = do
      found ← probed (source.page_fetcher url)
      later ← reachability_of rest
      ok ((domain, found) ∷ later)

    -- `source_reachability`
    unfoldable pub source_reachability : Result Failure (List (String × Bool))
    unfolding reachability_of
    source_reachability = reachability_of (
        ("annas-archive.gl", "https://annas-archive.gl")
        ∷ ("annas-archive.pk", "https://annas-archive.pk")
        ∷ ("annas-archive.gd", "https://annas-archive.gd")
        ∷ [])
