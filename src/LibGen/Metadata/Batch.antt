-- ===== src/LibGen/Metadata/Batch.antt =====
-- `LibGenMetadataEnricher.enrich_many` of metadata.py: one request for the files of a batch and one
-- for their editions, and one record at a time for those without a file identity.
pub mod Requests
use pullbox_direct_providers.Prelude.{
  ℕ, Bool, true, false, Option, none, some, List, [], ◌∷◌, ◌++◌, map, if◌then◌else◌, nat_beq,
  length, ◌==◌, ℕ_eq, String_eq, String,
}
use pullbox_direct_providers.Prelude.Dict.{lookup, put}
use pullbox_direct_providers.Prelude.Result.{Result, ok, raised, ◌>>=◌, ◌>>◌, require, traverse}
use pullbox_direct_providers.Prelude.Sorting.{unique_by}
use pullbox_direct_providers.Contract.Models.{Candidate}
use pullbox_direct_providers.LibGen.Cache.{CacheLookup}
use pullbox_direct_providers.LibGen.Service.Origins.{ServiceError, metadata_error}
use pullbox_direct_providers.LibGen.Metadata.Records.{
  DiscoveredRecord, FileMetadata, EditionMetadata,
}
use pullbox_direct_providers.LibGen.Metadata.Parse.{parse_file_metadata}
use pullbox_direct_providers.LibGen.Metadata.Editions.{parse_edition_metadata}
use pullbox_direct_providers.LibGen.Metadata.Candidates.{build_candidate}
use pullbox_direct_providers.LibGen.Metadata.Keys.{
  Surroundings, source_origin, file_metadata_ids_url, edition_metadata_ids_url, file_cache_key,
  edition_cache_key,
}
use pullbox_direct_providers.LibGen.Metadata.Enrich.{
  Cached, Enricher, file_entry, edition_entry, cached_file, cached_edition, tolerated, map_option,
  look, store, fetch, file_parsed, edition_parsed, enrich,
}
use pullbox_direct_providers.LibGen.Metadata.Pending.{
  Files, Editions, has_id, ids_of, flattened, unless_raised, classified, classify, store_files,
  files_answered, files_requested, files_of, edition_classified, named_edition, classify_edition,
  classify_editions, store_editions, editions_answered, editions_requested, editions_of, Sorted,
  SortedEditions,
}

module _ (around : Surroundings) where
  abbrev pub batch_edition : Editions → FileMetadata → Option EditionMetadata
  unfolding lookup
  batch_edition editions file = elim file.edition_id [
    | none ↦ none
    | some edition_id ↦ flattened (lookup file.file_id editions)
  ]

  abbrev pub with_candidate :
      Files → Editions → DiscoveredRecord → List (String × Candidate) → List (String × Candidate)
  unfolding lookup put build_candidate
  with_candidate files editions d found = elim (flattened (lookup d.md5 files)) [
    | none ↦ found
    | some file ↦
        put d.md5
          (build_candidate around.net around.parse_comic_title d file (batch_edition editions file))
          found
  ]

  -- The candidates of the records whose file is known.
  unfoldable pub batch_candidates :
      Files
      → Editions
      → List DiscoveredRecord
      → List (String × Candidate)
      → List (String × Candidate)
  unfolding lookup put build_candidate
  batch_candidates files editions [] found = found
  batch_candidates files editions (d ∷ ds) found =
      batch_candidates files editions ds (with_candidate files editions d found)

  abbrev pub put_found :
      String → Option Candidate → List (String × Candidate) → List (String × Candidate)
  unfolding put
  put_found md5 none found = found
  put_found md5 (some candidate) found = put md5 candidate found

  -- The records without a file identity, one at a time.
  unfoldable pub enrich_each :
      List DiscoveredRecord
      → List (String × Candidate)
      → Enricher
      → Result ServiceError (List (String × Candidate)) × Enricher
  unfolding enrich put
  enrich_each [] found s = (ok found, s)
  enrich_each (d ∷ ds) found s =
      let (result, s') = enrich around d s in
      unless_raised result s' (λ candidate. enrich_each ds (put_found d.md5 candidate found) s')

  abbrev pub preceded_by : Option Candidate → List Candidate → List Candidate
  preceded_by none rest = rest
  preceded_by (some candidate) rest = candidate ∷ rest

  -- The candidates in the order of the records.
  unfoldable pub candidates_in_order :
      List DiscoveredRecord → List (String × Candidate) → List Candidate
  unfolding lookup
  candidates_in_order [] found = []
  candidates_in_order (d ∷ ds) found =
      preceded_by (lookup d.md5 found) (candidates_in_order ds found)

  abbrev pub ordered :
      List DiscoveredRecord
      → Result ServiceError (List (String × Candidate)) × Enricher
      → Result ServiceError (List Candidate) × Enricher
  unfolding candidates_in_order
  ordered ds (raised e, s) = (raised e, s)
  ordered ds (ok found, s) = (ok (candidates_in_order ds found), s)

  abbrev pub with_editions :
      List DiscoveredRecord
      → List DiscoveredRecord
      → Files
      → Result ServiceError Editions × Enricher
      → Result ServiceError (List Candidate) × Enricher
  unfolding candidates_in_order enrich_each batch_candidates
  with_editions ds individual files (raised e, s) = (raised e, s)
  with_editions ds individual files (ok editions, s) =
      ordered ds (enrich_each individual (batch_candidates files editions ds []) s)

  abbrev pub with_files :
      String
      → List DiscoveredRecord
      → List DiscoveredRecord
      → Result ServiceError Files × Enricher
      → Result ServiceError (List Candidate) × Enricher
  unfolding candidates_in_order enrich_each batch_candidates editions_of classify_editions
  with_files origin ds individual (raised e, s) = (raised e, s)
  with_files origin ds individual (ok files, s) =
      let b =
        classify_editions around origin files (record { state = s; editions = []; pending = [] }) in
      with_editions ds individual files (editions_of around origin b.pending b.editions b.state)

  -- A batch of one origin.
  unfoldable pub enrich_batch :
      String → List DiscoveredRecord → Enricher → Result ServiceError (List Candidate) × Enricher
  unfolding classify files_of candidates_in_order enrich_each batch_candidates editions_of
      classify_editions
  enrich_batch origin ds s =
      let b =
        classify around origin ds
          (record { state = s; files = []; pending = []; individual = [] }) in
      with_files origin ds b.individual (files_of around origin b.pending b.files b.state)

  -- The one origin of the records.
  abbrev pub one_origin : List String → Result ServiceError String
  one_origin (origin ∷ []) = ok origin
  one_origin _ = raised metadata_error

  abbrev pub batch_origin : List DiscoveredRecord → Result ServiceError String
  unfolding source_origin traverse unique_by
  batch_origin ds = traverse (λ d. source_origin around d.source_reference) ds >>= λ origins.
      one_origin (unique_by (λ o. o) origins)

  abbrev pub batch_at :
      List DiscoveredRecord
      → Enricher
      → Result ServiceError String
      → Result ServiceError (List Candidate) × Enricher
  unfolding enrich_batch
  batch_at ds s (raised e) = (raised e, s)
  batch_at ds s (ok origin) = enrich_batch origin ds s

  abbrev pub listed :
      Result ServiceError (Option Candidate) × Enricher
      → Result ServiceError (List Candidate) × Enricher
  listed (raised e, s) = (raised e, s)
  listed (ok none, s) = (ok [], s)
  listed (ok (some candidate), s) = (ok (candidate ∷ []), s)

  -- `enrich_many`
  unfoldable pub enrich_many :
      List DiscoveredRecord → Enricher → Result ServiceError (List Candidate) × Enricher
  unfolding enrich enrich_batch source_origin traverse unique_by
  enrich_many [] s = (ok [], s)
  enrich_many (d ∷ []) s = listed (enrich around d s)
  enrich_many (d ∷ e ∷ ds) s = batch_at (d ∷ e ∷ ds) s (batch_origin (d ∷ e ∷ ds))
