-- ===== src/LibGen/Metadata/Pending.antt =====
-- The requests that `LibGenMetadataEnricher.enrich_many` of metadata.py shares between records: one
-- for the files that the cache lacks, and one for their editions.
pub mod Counts
use pullbox_direct_providers.Prelude.{
  ℕ, Bool, true, false, Option, none, some, List, [], ◌∷◌, ◌++◌, map, if◌then◌else◌, nat_beq,
  length, ◌==◌, ℕ_eq, String_eq, String,
}
use pullbox_direct_providers.Prelude.Dict.{lookup, put}
use pullbox_direct_providers.Prelude.Result.{Result, ok, raised, ◌>>=◌, ◌>>◌, require, traverse}
use pullbox_direct_providers.Prelude.Sorting.{unique_by}
use pullbox_direct_providers.Contract.Models.{Candidate}
use pullbox_direct_providers.LibGen.Cache.{CacheLookup}
use pullbox_direct_providers.LibGen.Service.Origins.{ServiceError, metadata_error}
use pullbox_direct_providers.LibGen.Metadata.Records.{
  DiscoveredRecord, FileMetadata, EditionMetadata,
}
use pullbox_direct_providers.LibGen.Metadata.Parse.{parse_file_metadata}
use pullbox_direct_providers.LibGen.Metadata.Editions.{parse_edition_metadata}
use pullbox_direct_providers.LibGen.Metadata.Candidates.{build_candidate}
use pullbox_direct_providers.LibGen.Metadata.Keys.{
  Surroundings, source_origin, file_metadata_ids_url, edition_metadata_ids_url, file_cache_key,
  edition_cache_key,
}
use pullbox_direct_providers.LibGen.Metadata.Enrich.{
  Cached, Enricher, file_entry, edition_entry, cached_file, cached_edition, tolerated, map_option,
  look, store, fetch, file_parsed, edition_parsed, enrich,
}

abbrev pub Files : Type 0
Files = List (String × Option FileMetadata)

abbrev pub Editions : Type 0
Editions = List (ℕ × Option EditionMetadata)

-- The records of a batch, sorted by what the cache and the record itself have.
pub record Sorted : Type 0 where
  pub state : Enricher
  pub files : Files
  pub pending : List DiscoveredRecord
  pub individual : List DiscoveredRecord

-- The same of the editions that the files name.
pub record SortedEditions : Type 0 where
  pub state : Enricher
  pub editions : Editions
  pub pending : List (FileMetadata × ℕ)

abbrev pub has_id : Option ℕ → Bool
has_id none = false
has_id (some n) = true

-- The identities that are there.
abbrev pub ids_of : List DiscoveredRecord → List ℕ
ids_of [] = []
ids_of (d ∷ ds) = elim d.file_id [ none ↦ ids_of ds | some n ↦ n ∷ ids_of ds ]

abbrev pub flattened : {A : Type 0} → Option (Option A) → Option A
flattened none = none
flattened (some o) = o

-- An exception ends a loop in the state `s`.
abbrev pub unless_raised {ℓ κ} :
    {A : Type ℓ} {B : Type κ}
    → Result ServiceError A
    → Enricher
    → (A → Result ServiceError B × Enricher)
    → Result ServiceError B × Enricher
unless_raised (raised e) s next = (raised e, s)
unless_raised (ok a) s next = next a

module _ (around : Surroundings) where
  abbrev pub classified : DiscoveredRecord → Enricher × CacheLookup Cached → Sorted → Sorted
  unfolding put
  classified d (s, found) b =
      if found.hit
      then record b { state = s; files = put d.md5 (cached_file found.value) b.files }
      else if has_id d.file_id
      then record b { state = s; pending = b.pending ++ d ∷ [] }
      else record b { state = s; individual = b.individual ++ d ∷ [] }

  -- The first loop of `enrich_many`.
  unfoldable pub classify : String → List DiscoveredRecord → Sorted → Sorted
  unfolding look file_cache_key put
  classify origin [] b = b
  classify origin (d ∷ ds) b =
      classify origin ds (classified d (look around (file_cache_key around origin d) b.state) b)

  -- What the shared answer says of each pending record.
  unfoldable pub store_files :
      String
      → String
      → List DiscoveredRecord
      → Files
      → Enricher
      → Result ServiceError Files × Enricher
  unfolding store file_cache_key parse_file_metadata put
  store_files origin payload [] files s = (ok files, s)
  store_files origin payload (d ∷ ds) files s =
      unless_raised (file_parsed around d (ok payload)) s (λ found.
        store_files origin payload ds (put d.md5 found files)
          (store around (file_cache_key around origin d) (map_option file_entry found) s))

  abbrev pub files_answered :
      String
      → List DiscoveredRecord
      → Files
      → Result ServiceError String × Enricher
      → Result ServiceError Files × Enricher
  unfolding store_files
  files_answered origin pending files (raised e, s) = (raised e, s)
  files_answered origin pending files (ok payload, s) = store_files origin payload pending files s

  abbrev pub files_requested :
      String
      → List DiscoveredRecord
      → Files
      → Enricher
      → Result ServiceError String
      → Result ServiceError Files × Enricher
  unfolding fetch store_files
  files_requested origin pending files s (raised e) = (raised e, s)
  files_requested origin pending files s (ok url) =
      files_answered origin pending files (fetch around url s)

  -- The files of a batch, after the request for the pending ones if there are any.
  unfoldable pub files_of :
      String → List DiscoveredRecord → Files → Enricher → Result ServiceError Files × Enricher
  unfolding fetch store_files file_metadata_ids_url
  files_of origin [] files s = (ok files, s)
  files_of origin (d ∷ ds) files s =
      files_requested origin (d ∷ ds) files s
        (file_metadata_ids_url around origin (ids_of (d ∷ ds)))

  abbrev pub edition_classified :
      FileMetadata → ℕ → Enricher × CacheLookup Cached → SortedEditions → SortedEditions
  unfolding put
  edition_classified file edition_id (s, found) b =
      if found.hit
      then record b {
        state = s;
        editions = put file.file_id (cached_edition found.value) b.editions;
      }
      else record b { state = s; pending = b.pending ++ (file, edition_id) ∷ [] }

  abbrev pub named_edition : String → FileMetadata → SortedEditions → Option ℕ → SortedEditions
  unfolding look edition_cache_key put
  named_edition origin file b none = b
  named_edition origin file b (some edition_id) =
      edition_classified file edition_id
        (look around (edition_cache_key around origin file) b.state) b

  abbrev pub classify_edition : String → Option FileMetadata → SortedEditions → SortedEditions
  unfolding look edition_cache_key put
  classify_edition origin none b = b
  classify_edition origin (some file) b = named_edition origin file b file.edition_id

  -- The loop over `file_metadata_by_md5.values()`.
  unfoldable pub classify_editions : String → Files → SortedEditions → SortedEditions
  unfolding look edition_cache_key put
  classify_editions origin [] b = b
  classify_editions origin ((md5, file) ∷ files) b =
      classify_editions origin files (classify_edition origin file b)

  unfoldable pub store_editions :
      String
      → String
      → List (FileMetadata × ℕ)
      → Editions
      → Enricher
      → Result ServiceError Editions × Enricher
  unfolding store edition_cache_key parse_edition_metadata put
  store_editions origin payload [] editions s = (ok editions, s)
  store_editions origin payload ((file, edition_id) ∷ rest) editions s =
      unless_raised (edition_parsed around edition_id file.file_id (ok payload)) s (λ found.
        store_editions origin payload rest (put file.file_id found editions)
          (store around (edition_cache_key around origin file) (map_option edition_entry found) s))

  abbrev pub editions_answered :
      String
      → List (FileMetadata × ℕ)
      → Editions
      → Result ServiceError String × Enricher
      → Result ServiceError Editions × Enricher
  unfolding store_editions
  editions_answered origin pending editions (raised e, s) = (raised e, s)
  editions_answered origin pending editions (ok payload, s) =
      store_editions origin payload pending editions s

  abbrev pub editions_requested :
      String
      → List (FileMetadata × ℕ)
      → Editions
      → Enricher
      → Result ServiceError String
      → Result ServiceError Editions × Enricher
  unfolding fetch store_editions
  editions_requested origin pending editions s (raised e) = (raised e, s)
  editions_requested origin pending editions s (ok url) =
      editions_answered origin pending editions (fetch around url s)

  unfoldable pub editions_of :
      String
      → List (FileMetadata × ℕ)
      → Editions
      → Enricher
      → Result ServiceError Editions × Enricher
  unfolding fetch store_editions edition_metadata_ids_url
  editions_of origin [] editions s = (ok editions, s)
  editions_of origin (p ∷ ps) editions s =
      editions_requested origin (p ∷ ps) editions s
        (edition_metadata_ids_url around origin (map (λ q. q.1) (p ∷ ps)))
