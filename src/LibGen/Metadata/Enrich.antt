-- ===== src/LibGen/Metadata/Enrich.antt =====
-- `LibGenMetadataEnricher.enrich` of metadata.py, over the cache of cache.py.
pub mod Requests
use Prim.Native.String
use pullbox_direct_providers.Prelude.{
  ℕ, zero, suc, ◌+◌, Bool, true, false, not, ◌&&◌, ◌||◌, Option, none, some, List, [], ◌∷◌, ◌++◌,
  map, leb, ltb, all, if◌then◌else◌, length, ◌==◌, ℕ_eq, String_eq, String,
}
use pullbox_direct_providers.Prelude.Result.{Result, ok, raised, ◌>>=◌, ◌>>◌, require, of_option}
use pullbox_direct_providers.Prelude.Sorting.{unique_by}
use pullbox_direct_providers.Prelude.Text.{is_empty}
use pullbox_direct_providers.Contract.Net.{Net}
use pullbox_direct_providers.Contract.ComicParser.{ComicTitleEvidence}
use pullbox_direct_providers.Contract.Configuration.{is_https_port}
use pullbox_direct_providers.Contract.Models.{Candidate}
use pullbox_direct_providers.Contract.SearchTerms.{Unicode}
use pullbox_direct_providers.LibGen.Cache
use pullbox_direct_providers.LibGen.Cache.{BoundedTtlCache, CacheLookup}
use pullbox_direct_providers.LibGen.Service.Origins.{ServiceError, metadata_error, value_error}
use pullbox_direct_providers.LibGen.Service.Queries.{year_or, join_texts}
use pullbox_direct_providers.LibGen.Metadata.Records.{
  DiscoveredRecord, FileMetadata, EditionMetadata, Python,
}
use pullbox_direct_providers.LibGen.Metadata.Parse.{parse_file_metadata}
use pullbox_direct_providers.LibGen.Metadata.Editions.{parse_edition_metadata}
use pullbox_direct_providers.LibGen.Metadata.Candidates.{build_candidate}
use pullbox_direct_providers.LibGen.Metadata.Keys.{
  file_fields, edition_fields, Surroundings, bounded_identifiers, shown, colon, source_origin,
  json_url, file_metadata_url, edition_metadata_url, comma_joined, file_metadata_ids_url,
  edition_metadata_ids_url, file_cache_key, edition_cache_key,
}

-- A value of the cache.
pub data Cached : Type 0 where
  file_entry : FileMetadata → Cached
  edition_entry : EditionMetadata → Cached

-- What a file's and an edition's entry hold, where None and an entry of the other kind hold nothing.
abbrev pub cached_file : Option Cached → Option FileMetadata
cached_file (some (file_entry file)) = some file
cached_file _ = none

abbrev pub cached_edition : Option Cached → Option EditionMetadata
cached_edition (some (edition_entry edition)) = some edition
cached_edition _ = none

-- The enricher's cache, with how often it was used and the URLs that were requested, oldest first.
pub record Enricher : Type 0 where
  pub cache : BoundedTtlCache String Cached
  pub uses : ℕ
  pub requests : List String

-- Outcome of a `try` whose `except LibGenMetadataError` leaves nothing.
abbrev pub tolerated {ℓ} : {A : Type ℓ} → Result ServiceError A → Result ServiceError (Option A)
tolerated (ok a) = ok (some a)
tolerated (raised metadata_error) = ok none
tolerated (raised e) = raised e

abbrev pub map_option : {A B : Type 0} → (A → B) → Option A → Option B
map_option f none = none
map_option f (some a) = some (f a)

module _ (around : Surroundings) where
  -- `self._cache.get(key)`
  unfoldable pub look : String → Enricher → Enricher × CacheLookup Cached
  unfolding Cache.get
  look key s =
      let (cache, found) = Cache.get s.cache (around.clock s.uses) key in
      (record s { cache = cache; uses = s.uses + 1 }, found)

  -- `self._cache.set(key, value)`
  unfoldable pub store : String → Option Cached → Enricher → Enricher
  unfolding Cache.set
  store key value s = record s {
    cache = Cache.set s.cache (around.clock s.uses) key value;
    uses = s.uses + 1;
  }

  -- `await self._fetcher(url)`
  unfoldable pub fetch : String → Enricher → Result ServiceError String × Enricher
  fetch url s =
      (around.fetcher (length s.requests) url, record s { requests = s.requests ++ url ∷ [] })

  -- What is kept of a parsed answer, and the state with it.
  abbrev pub kept :
      {A : Type 0}
      → String
      → (A → Cached)
      → Result ServiceError (Option A)
      → Enricher
      → Result ServiceError (Option A) × Enricher
  unfolding store
  kept key entry (raised e) s = (raised e, s)
  kept key entry (ok value) s = (ok value, store key (map_option entry value) s)

  abbrev pub file_parsed :
      DiscoveredRecord → Result ServiceError String → Result ServiceError (Option FileMetadata)
  unfolding parse_file_metadata
  file_parsed discovered answer =
      tolerated
        (answer >>= λ payload. parse_file_metadata around.net around.python payload discovered)

  abbrev pub edition_parsed :
      ℕ → ℕ → Result ServiceError String → Result ServiceError (Option EditionMetadata)
  unfolding parse_edition_metadata
  edition_parsed edition_id file_id answer = tolerated (
      answer >>= λ payload.
      parse_edition_metadata around.net around.unicode around.python payload edition_id file_id)

  -- The file's metadata, from the cache or the source.
  unfoldable pub file_metadata_of :
      String
      → DiscoveredRecord
      → Enricher × CacheLookup Cached
      → Result ServiceError (Option FileMetadata) × Enricher
  unfolding fetch file_metadata_url store file_cache_key parse_file_metadata
  file_metadata_of origin discovered (s, found) =
      let (answer, s') = fetch (file_metadata_url around origin discovered.md5) s in
      if found.hit
      then (ok (cached_file found.value), s)
      else kept (file_cache_key around origin discovered) file_entry (file_parsed discovered answer)
          s'

  abbrev pub edition_found :
      String
      → FileMetadata
      → ℕ
      → Enricher × CacheLookup Cached
      → Result ServiceError (Option EditionMetadata) × Enricher
  unfolding fetch edition_metadata_url store edition_cache_key parse_edition_metadata
  edition_found origin file edition_id (s, found) =
      let (answer, s') = fetch (edition_metadata_url around origin edition_id) s in
      if found.hit
      then (ok (cached_edition found.value), s)
      else kept (edition_cache_key around origin file) edition_entry
          (edition_parsed edition_id file.file_id answer) s'

  -- The edition's metadata, if the file names one, from the cache or the source.
  unfoldable pub edition_metadata_of :
      String
      → FileMetadata
      → Option ℕ
      → Enricher
      → Result ServiceError (Option EditionMetadata) × Enricher
  unfolding look fetch edition_metadata_url store edition_cache_key parse_edition_metadata
  edition_metadata_of origin file none s = (ok none, s)
  edition_metadata_of origin file (some edition_id) s =
      edition_found origin file edition_id (look (edition_cache_key around origin file) s)

  abbrev pub with_edition :
      DiscoveredRecord
      → FileMetadata
      → Result ServiceError (Option EditionMetadata) × Enricher
      → Result ServiceError (Option Candidate) × Enricher
  unfolding build_candidate
  with_edition discovered file (raised e, s) = (raised e, s)
  with_edition discovered file (ok edition, s) =
      (ok (some (build_candidate around.net around.parse_comic_title discovered file edition)), s)

  -- What follows once the file's metadata is there.
  unfoldable pub with_file :
      String
      → DiscoveredRecord
      → Result ServiceError (Option FileMetadata) × Enricher
      → Result ServiceError (Option Candidate) × Enricher
  unfolding edition_metadata_of build_candidate
  with_file origin discovered (raised e, s) = (raised e, s)
  with_file origin discovered (ok none, s) = (ok none, s)
  with_file origin discovered (ok (some file), s) =
      with_edition discovered file (edition_metadata_of origin file file.edition_id s)

  abbrev pub enrich_at :
      DiscoveredRecord
      → Result ServiceError String
      → Enricher
      → Result ServiceError (Option Candidate) × Enricher
  unfolding with_file file_metadata_of look file_cache_key
  enrich_at discovered (raised e) s = (raised e, s)
  enrich_at discovered (ok origin) s =
      with_file origin discovered
        (file_metadata_of origin discovered (look (file_cache_key around origin discovered) s))

  -- `enrich`
  unfoldable pub enrich :
      DiscoveredRecord → Enricher → Result ServiceError (Option Candidate) × Enricher
  unfolding source_origin with_file file_metadata_of look file_cache_key
  enrich discovered s = enrich_at discovered (source_origin around discovered.source_reference) s
