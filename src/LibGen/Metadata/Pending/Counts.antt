-- ===== src/LibGen/Metadata/Pending/Counts.antt =====
-- How many requests a batch shares.
use pullbox_direct_providers.Prelude.{
  ℕ, suc, ◌+◌, ◌≤◌, ◌≡◌, refl, ◌∙◌, inl, inr, Option, none, some, List, [], ◌∷◌, map, arith,
  if◌then◌else◌, length, String, String_eq, ℕ_eq, Bool-cases, length-append,
}
use pullbox_direct_providers.Prelude.Dict.{put}
use pullbox_direct_providers.Prelude.Result.{Result, ok, raised}
use pullbox_direct_providers.LibGen.Cache.{CacheLookup}
use pullbox_direct_providers.LibGen.Service.Origins.{ServiceError}
use pullbox_direct_providers.LibGen.Metadata.Records.{DiscoveredRecord, FileMetadata}
use pullbox_direct_providers.LibGen.Metadata.Keys.{
  Surroundings, file_cache_key, edition_cache_key, file_metadata_ids_url, edition_metadata_ids_url,
}
use pullbox_direct_providers.LibGen.Metadata.Enrich.{
  Cached, Enricher, look, store, fetch, file_parsed, edition_parsed, map_option, file_entry,
  edition_entry,
}
use pullbox_direct_providers.LibGen.Metadata.Enrich.Requests.{count}
use pullbox_direct_providers.LibGen.Metadata.Pending.{
  Files, Editions, Sorted, SortedEditions, has_id, classified, classify, store_files,
  files_answered, files_requested, files_of, edition_classified, named_edition, classify_edition,
  classify_editions, store_editions, editions_answered, editions_requested, editions_of, ids_of,
  unless_raised,
}

-- How many records have no file identity.
abbrev pub unkeyed : List DiscoveredRecord → ℕ
unkeyed [] = 0
unkeyed (d ∷ ds) = if has_id d.file_id then unkeyed ds else suc (unkeyed ds)

pub unless_raised-count {ℓ κ} :
    {A : Type ℓ} {B : Type κ} (r : Result ServiceError A) (s : Enricher)
    (next : A → Result ServiceError B × Enricher) (n : ℕ)
    → count s ≤ n
    → ((a : A) → count (next a).1 ≤ n)
    → count (unless_raised r s next).1 ≤ n
unless_raised-count (raised e) s next n h k = h
unless_raised-count (ok a) s next n h k = k a

module _ (around : Surroundings) where
  classified_lem :
      (d : DiscoveredRecord) (s : Enricher) (found : CacheLookup Cached) (b : Sorted)
      → (count (classified around d (s, found) b).state ≡ count s)
        × (length (classified around d (s, found) b).individual
            ≤ length b.individual + (if has_id d.file_id then 0 else 1))
  unfolding classified
  classified_lem d s found b = elim (Bool-cases found.hit) [
    | inl hit ↦ rw hit (refl, omega arith)
    | inr miss ↦
        let longer = length-append b.individual (d ∷ []) in
        elim (Bool-cases (has_id d.file_id)) [
          | inl keyed ↦ rw (miss, keyed) (refl, omega arith)
          | inr bare ↦ rw (miss, bare) (refl, omega arith)
        ]
  ]

  pub classify_lem :
      (origin : String) (ds : List DiscoveredRecord) (b : Sorted)
      → (count (classify around origin ds b).state ≡ count b.state)
        × (length (classify around origin ds b).individual ≤ length b.individual + unkeyed ds)
  unfolding classify look
  classify_lem origin [] b = (refl, omega arith)
  classify_lem origin (d ∷ ds) b =
      let (s, found) = look around (file_cache_key around origin d) b.state in
      let next = classified around d (s, found) b in
      let (same, few) = classify_lem origin ds next in
      let (kept, more) = classified_lem d s found b in (omega arith, ground arith)

  store_files-count :
      (origin payload : String) (ds : List DiscoveredRecord) (files : Files) (s : Enricher)
      → count (store_files around origin payload ds files s).1 ≤ count s
  unfolding store_files store
  store_files-count origin payload [] files s = omega arith
  store_files-count origin payload (d ∷ ds) files s =
      unless_raised-count (file_parsed around d (ok payload)) s _ (count s) (omega arith) (λ found.
        let ih =
          store_files-count origin payload ds (put d.md5 found files)
            (store around (file_cache_key around origin d) (map_option file_entry found) s) in
        omega arith)

  files_answered-count :
      (origin : String) (ds : List DiscoveredRecord) (files : Files)
      (answer : Result ServiceError String) (s : Enricher)
      → count (files_answered around origin ds files (answer, s)).1 ≤ count s
  unfolding files_answered
  files_answered-count origin ds files (raised e) s = omega arith
  files_answered-count origin ds files (ok payload) s = store_files-count origin payload ds files s

  files_requested-count :
      (origin : String) (ds : List DiscoveredRecord) (files : Files) (s : Enricher)
      (url : Result ServiceError String)
      → count (files_requested around origin ds files s url).1 ≤ count s + 1
  unfolding files_requested fetch
  files_requested-count origin ds files s (raised e) = omega arith
  files_requested-count origin ds files s (ok url) =
      let (answer, s') = fetch around url s in
      let longer = length-append s.requests (url ∷ []) in
      let same = files_answered-count origin ds files answer s' in omega arith

  pub files_of-count :
      (origin : String) (ds : List DiscoveredRecord) (files : Files) (s : Enricher)
      → count (files_of around origin ds files s).1 ≤ count s + 1
  unfolding files_of fetch
  files_of-count origin [] files s = omega arith
  files_of-count origin (d ∷ ds) files s =
      files_requested-count origin (d ∷ ds) files s
        (file_metadata_ids_url around origin (ids_of (d ∷ ds)))

  edition_classified-count :
      (file : FileMetadata) (n : ℕ) (s : Enricher) (found : CacheLookup Cached) (b : SortedEditions)
      → count (edition_classified around file n (s, found) b).state ≡ count s
  unfolding edition_classified
  edition_classified-count file n s found b = elim (Bool-cases found.hit) [
    | inl hit ↦ rw hit refl
    | inr miss ↦ rw miss refl
  ]

  named_edition-count :
      (origin : String) (file : FileMetadata) (b : SortedEditions) (o : Option ℕ)
      → count (named_edition around origin file b o).state ≡ count b.state
  unfolding named_edition look
  named_edition-count origin file b none = refl
  named_edition-count origin file b (some n) =
      let (s, found) = look around (edition_cache_key around origin file) b.state in
      edition_classified-count file n s found b

  classify_edition-count :
      (origin : String) (file : Option FileMetadata) (b : SortedEditions)
      → count (classify_edition around origin file b).state ≡ count b.state
  unfolding classify_edition
  classify_edition-count origin none b = refl
  classify_edition-count origin (some file) b = named_edition-count origin file b file.edition_id

  pub classify_editions-count :
      (origin : String) (files : Files) (b : SortedEditions)
      → count (classify_editions around origin files b).state ≡ count b.state
  unfolding classify_editions
  classify_editions-count origin [] b = refl
  classify_editions-count origin ((md5, file) ∷ files) b =
      classify_editions-count origin files (classify_edition around origin file b)
      ∙ classify_edition-count origin file b

  store_editions-count :
      (origin payload : String) (ps : List (FileMetadata × ℕ)) (editions : Editions) (s : Enricher)
      → count (store_editions around origin payload ps editions s).1 ≤ count s
  unfolding store_editions store
  store_editions-count origin payload [] editions s = omega arith
  store_editions-count origin payload ((file, n) ∷ ps) editions s =
      unless_raised-count (edition_parsed around n file.file_id (ok payload)) s _ (count s)
        (omega arith)
        (λ found.
          let ih = store_editions-count origin payload ps (put file.file_id found editions) (
            store around (edition_cache_key around origin file) (map_option edition_entry found)
              s) in
          omega arith)

  editions_answered-count :
      (origin : String) (ps : List (FileMetadata × ℕ)) (editions : Editions)
      (answer : Result ServiceError String) (s : Enricher)
      → count (editions_answered around origin ps editions (answer, s)).1 ≤ count s
  unfolding editions_answered
  editions_answered-count origin ps editions (raised e) s = omega arith
  editions_answered-count origin ps editions (ok payload) s =
      store_editions-count origin payload ps editions s

  editions_requested-count :
      (origin : String) (ps : List (FileMetadata × ℕ)) (editions : Editions) (s : Enricher)
      (url : Result ServiceError String)
      → count (editions_requested around origin ps editions s url).1 ≤ count s + 1
  unfolding editions_requested fetch
  editions_requested-count origin ps editions s (raised e) = omega arith
  editions_requested-count origin ps editions s (ok url) =
      let (answer, s') = fetch around url s in
      let longer = length-append s.requests (url ∷ []) in
      let same = editions_answered-count origin ps editions answer s' in omega arith

  pub editions_of-count :
      (origin : String) (ps : List (FileMetadata × ℕ)) (editions : Editions) (s : Enricher)
      → count (editions_of around origin ps editions s).1 ≤ count s + 1
  unfolding editions_of
  editions_of-count origin [] editions s = omega arith
  editions_of-count origin (p ∷ ps) editions s =
      editions_requested-count origin (p ∷ ps) editions s
        (edition_metadata_ids_url around origin (map (λ q. q.1) (p ∷ ps)))
