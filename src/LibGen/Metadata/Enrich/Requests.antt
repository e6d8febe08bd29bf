-- ===== src/LibGen/Metadata/Enrich/Requests.antt =====
-- How many requests `enrich` makes, and which errors it lets through.
use pullbox_direct_providers.Prelude.{
  ℕ, ◌+◌, ◌≤◌, ◌≡◌, ap, Bool, true, false, Option, none, some, [], ◌∷◌, arith, if◌then◌else◌,
  length, String, String_eq, length-append, ◌≢◌,
}
use pullbox_direct_providers.Prelude.Result.{Result, ok, raised}
use pullbox_direct_providers.LibGen.Cache.{CacheLookup}
use pullbox_direct_providers.LibGen.Service.Origins.{
  ServiceError, metadata_error, origin_error, layout_error, challenge_required, value_error,
  source_error, resolver_error, cancelled, other_error,
}
use pullbox_direct_providers.LibGen.Metadata.Records.{
  DiscoveredRecord, FileMetadata, EditionMetadata,
}
use pullbox_direct_providers.LibGen.Metadata.Keys.{
  Surroundings, source_origin, file_metadata_url, edition_metadata_url, file_cache_key,
  edition_cache_key,
}
use pullbox_direct_providers.LibGen.Metadata.Enrich.{
  Cached, Enricher, tolerated, kept, look, store, fetch, file_metadata_of, edition_metadata_of,
  edition_found, with_edition, with_file, enrich_at, enrich, file_parsed, edition_parsed,
  file_entry, edition_entry, cached_file, cached_edition,
}

-- An exception is the same one, whatever the result would have been.
ap_raised {ℓ κ} :
    {A : Type ℓ} {B : Type κ} {e f : ServiceError}
    → Path (Result ServiceError A) (raised e) (raised f)
    → Path (Result ServiceError B) (raised e) (raised f)
ap_raised {e = e} {f = f} h = let same : e ≡ f = cc in ap raised same

abbrev pub count : Enricher → ℕ
count s = length s.requests

tolerated-metadata {ℓ} :
    {A : Type ℓ} (r : Result ServiceError A) → tolerated r ≢ raised metadata_error
tolerated-metadata (ok a) h = cc
tolerated-metadata (raised metadata_error) h = cc
tolerated-metadata (raised origin_error) h = cc
tolerated-metadata (raised layout_error) h = cc
tolerated-metadata (raised challenge_required) h = cc
tolerated-metadata (raised value_error) h = cc
tolerated-metadata (raised (source_error c b)) h = cc
tolerated-metadata (raised (resolver_error e)) h = cc
tolerated-metadata (raised cancelled) h = cc
tolerated-metadata (raised other_error) h = cc

module _ (around : Surroundings) where
  -- A step that makes at most `n` requests and raises no LibGenMetadataError.
  abbrev pub Tame : {A : Type 0} → ℕ → Enricher → Result ServiceError A × Enricher → Type 0
  Tame n s outcome = (count outcome.1 ≤ count s + n) × (outcome.0 ≢ raised metadata_error)

  kept-Tame :
      {A : Type 0} (key url : String) (entry : A → Cached) (x : Result ServiceError (Option A))
      (s : Enricher)
      → x ≢ raised metadata_error
      → Tame 1 s (kept around key entry x (fetch around url s).1)
  unfolding fetch store
  kept-Tame key url entry (raised e) s h =
      let longer = length-append s.requests (url ∷ []) in (omega arith, λ eq. h (ap_raised eq))
  kept-Tame key url entry (ok value) s h =
      let longer = length-append s.requests (url ∷ []) in (omega arith, λ eq. cc)

  if-Tame :
      {A : Type 0} (n : ℕ) (s : Enricher) (b : Bool) (x y : Result ServiceError A × Enricher)
      → Tame n s x
      → Tame n s y
      → Tame n s (if b then x else y)
  if-Tame n s true x y h k = h
  if-Tame n s false x y h k = k

  file_metadata_of-Tame :
      (origin : String) (d : DiscoveredRecord) (s : Enricher) (found : CacheLookup Cached)
      → Tame 1 s (file_metadata_of around origin d (s, found))
  unfolding file_metadata_of
  file_metadata_of-Tame origin d s found =
      let url = file_metadata_url around origin d.md5 in
      let answer = (fetch around url s).0 in
      if-Tame 1 s found.hit (ok (cached_file found.value), s)
        (kept around (file_cache_key around origin d) file_entry (file_parsed around d answer)
          (fetch around url s).1)
        (omega arith, λ eq. cc)
        (kept-Tame (file_cache_key around origin d) url file_entry (file_parsed around d answer) s
          (tolerated-metadata _))

  edition_found-Tame :
      (origin : String) (file : FileMetadata) (n : ℕ) (s : Enricher) (found : CacheLookup Cached)
      → Tame 1 s (edition_found around origin file n (s, found))
  unfolding edition_found
  edition_found-Tame origin file n s found =
      let url = edition_metadata_url around origin n in
      let answer = (fetch around url s).0 in
      if-Tame 1 s found.hit (ok (cached_edition found.value), s)
        (kept around (edition_cache_key around origin file) edition_entry
          (edition_parsed around n file.file_id answer) (fetch around url s).1)
        (omega arith, λ eq. cc)
        (kept-Tame (edition_cache_key around origin file) url edition_entry
          (edition_parsed around n file.file_id answer) s (tolerated-metadata _))

  edition_metadata_of-Tame :
      (origin : String) (file : FileMetadata) (o : Option ℕ) (s : Enricher)
      → Tame 1 s (edition_metadata_of around origin file o s)
  unfolding edition_metadata_of look
  edition_metadata_of-Tame origin file none s = (omega arith, λ eq. cc)
  edition_metadata_of-Tame origin file (some n) s =
      let (s', found) = look around (edition_cache_key around origin file) s in
      edition_found-Tame origin file n s' found

  with_edition-Tame :
      (n : ℕ) (d : DiscoveredRecord) (file : FileMetadata) (s : Enricher)
      (outcome : Result ServiceError (Option EditionMetadata) × Enricher)
      → Tame n s outcome
      → Tame n s (with_edition around d file outcome)
  unfolding with_edition
  with_edition-Tame n d file s (raised e, s') (few, tame) = (few, λ eq. tame (ap_raised eq))
  with_edition-Tame n d file s (ok edition, s') (few, tame) = (few, λ eq. cc)

  with_file-Tame :
      (origin : String) (d : DiscoveredRecord) (s : Enricher)
      (outcome : Result ServiceError (Option FileMetadata) × Enricher)
      → Tame 1 s outcome
      → Tame 2 s (with_file around origin d outcome)
  unfolding with_file
  with_file-Tame origin d s (raised e, s') (few, tame) = (omega arith, λ eq. tame (ap_raised eq))
  with_file-Tame origin d s (ok none, s') (few, tame) = (omega arith, λ eq. cc)
  with_file-Tame origin d s (ok (some file), s') (few, tame) =
      let (more, still) =
        with_edition-Tame 1 d file s' (edition_metadata_of around origin file file.edition_id s')
          (edition_metadata_of-Tame origin file file.edition_id s') in
      (omega arith, still)

  enrich_at-Tame :
      (d : DiscoveredRecord) (origin : String) (s : Enricher)
      → Tame 2 s (enrich_at around d (ok origin) s)
  unfolding look enrich_at with_file
  enrich_at-Tame d origin s =
      let (s', found) = look around (file_cache_key around origin d) s in
      with_file-Tame origin d s (file_metadata_of around origin d (s', found))
        (file_metadata_of-Tame origin d s' found)

  enrich_at-count :
      (d : DiscoveredRecord) (origin : Result ServiceError String) (s : Enricher)
      → count (enrich_at around d origin s).1 ≤ count s + 2
  unfolding enrich_at
  enrich_at-count d (raised e) s = omega arith
  enrich_at-count d (ok origin) s = (enrich_at-Tame d origin s).0

  enrich_at-error :
      (d : DiscoveredRecord) (origin : Result ServiceError String) (s : Enricher)
      → (enrich_at around d origin s).0 ≡ raised metadata_error
      → origin ≡ raised metadata_error
  unfolding enrich_at
  enrich_at-error d (raised e) s h = ap_raised h
  enrich_at-error d (ok origin) s h = absurd ((enrich_at-Tame d origin s).1 h)

-- An enrichment makes at most two requests.
pub enrich-count :
    (around : Surroundings) (d : DiscoveredRecord) (s : Enricher)
    → count (enrich around d s).1 ≤ count s + 2
unfolding enrich
enrich-count around d s = enrich_at-count around d (source_origin around d.source_reference) s

-- An enrichment raises a LibGenMetadataError only where the record's source reference has no safe
-- origin, whatever the fetcher answers or raises.
pub enrich-metadata_error :
    (around : Surroundings) (d : DiscoveredRecord) (s : Enricher)
    → (enrich around d s).0 ≡ raised metadata_error
    → source_origin around d.source_reference ≡ raised metadata_error
unfolding enrich
enrich-metadata_error around d s =
    enrich_at-error around d (source_origin around d.source_reference) s
