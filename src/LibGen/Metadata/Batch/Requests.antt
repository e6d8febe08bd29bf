-- ===== src/LibGen/Metadata/Batch/Requests.antt =====
-- How many requests `enrich_many` makes, and how many candidates it returns.
use pullbox_direct_providers.Prelude.{
  ℕ, suc, ◌+◌, ◌*◌, ◌≤◌, ◌≡◌, subst, Option, none, some, List, [], ◌∷◌, arith, length, String,
  String_eq, ℕ_eq,
}
use pullbox_direct_providers.Prelude.Dict.{lookup}
use pullbox_direct_providers.Prelude.Result.{Result, ok, raised, ok-injective}
use pullbox_direct_providers.Contract.Models.{Candidate}
use pullbox_direct_providers.LibGen.Service.Origins.{ServiceError}
use pullbox_direct_providers.LibGen.Metadata.Records.{DiscoveredRecord}
use pullbox_direct_providers.LibGen.Metadata.Keys.{Surroundings}
use pullbox_direct_providers.LibGen.Metadata.Enrich.{Enricher, enrich}
use pullbox_direct_providers.LibGen.Metadata.Enrich.Requests.{count, enrich-count}
use pullbox_direct_providers.LibGen.Metadata.Pending.{
  Files, Editions, Sorted, SortedEditions, classify, files_of, classify_editions, editions_of,
}
use pullbox_direct_providers.LibGen.Metadata.Pending.Counts.{
  unkeyed, unless_raised-count, classify_lem, files_of-count, classify_editions-count,
  editions_of-count,
}
use pullbox_direct_providers.LibGen.Metadata.Batch.{
  batch_candidates, put_found, enrich_each, preceded_by, candidates_in_order, ordered,
  with_editions, with_files, enrich_batch, batch_origin, batch_at, listed, enrich_many,
}

module _ (around : Surroundings) where
  enrich_each-count :
      (ds : List DiscoveredRecord) (found : List (String × Candidate)) (s : Enricher)
      → count (enrich_each around ds found s).1 ≤ count s + 2 * length ds
  unfolding enrich_each
  enrich_each-count [] found s = omega arith
  enrich_each-count (d ∷ ds) found s =
      let (result, s') = enrich around d s in
      let few = enrich-count around d s in
      unless_raised-count result s' _ (count s + 2 * length (d ∷ ds)) (omega arith) (λ candidate.
        let ih = enrich_each-count ds (put_found around d.md5 candidate found) s' in omega arith)

  length-preceded_by-le :
      (o : Option Candidate) (rest : List Candidate)
      → length (preceded_by around o rest) ≤ suc (length rest)
  length-preceded_by-le none rest = omega arith
  length-preceded_by-le (some c) rest = omega arith

  length-candidates_in_order-le :
      (ds : List DiscoveredRecord) (found : List (String × Candidate))
      → length (candidates_in_order around ds found) ≤ length ds
  unfolding candidates_in_order
  length-candidates_in_order-le [] found = omega arith
  length-candidates_in_order-le (d ∷ ds) found =
      let ih = length-candidates_in_order-le ds found in
      let one = length-preceded_by-le (lookup d.md5 found) (candidates_in_order around ds found) in
      omega arith

  -- At most so many further requests, and at most one candidate for each record.
  unfoldable pub IsBounded :
      ℕ
      → List DiscoveredRecord
      → Enricher
      → Result ServiceError (List Candidate) × Enricher
      → Type 0
  IsBounded n ds s outcome =
      (count outcome.1 ≤ count s + n)
      × ((cs : List Candidate) → outcome.0 ≡ ok cs → length cs ≤ length ds)

  ordered-IsBounded :
      (n : ℕ) (ds : List DiscoveredRecord) (s : Enricher)
      (outcome : Result ServiceError (List (String × Candidate)) × Enricher)
      → count outcome.1 ≤ count s + n
      → IsBounded n ds s (ordered around ds outcome)
  unfolding IsBounded ordered
  ordered-IsBounded n ds s (raised e, s') few = (few, λ cs eq. cc)
  ordered-IsBounded n ds s (ok found, s') few = (
    few,
    λ cs eq.
        subst (λ l. length l ≤ length ds) (ok-injective eq)
          (length-candidates_in_order-le ds found),
  )

  with_editions-IsBounded :
      (n : ℕ) (ds individual : List DiscoveredRecord) (files : Files) (s : Enricher)
      (outcome : Result ServiceError Editions × Enricher)
      → count outcome.1 + 2 * length individual ≤ count s + n
      → IsBounded n ds s (with_editions around ds individual files outcome)
  unfolding with_editions IsBounded
  with_editions-IsBounded n ds individual files s (raised e, s') few = (omega arith, λ cs eq. cc)
  with_editions-IsBounded n ds individual files s (ok editions, s') few =
      let found = batch_candidates around files editions ds [] in
      let more = enrich_each-count individual found s' in
      ordered-IsBounded n ds s (enrich_each around individual found s') (omega arith)

  with_files-IsBounded :
      (n : ℕ) (origin : String) (ds individual : List DiscoveredRecord) (s : Enricher)
      (outcome : Result ServiceError Files × Enricher)
      → count outcome.1 + 1 + 2 * length individual ≤ count s + n
      → IsBounded n ds s (with_files around origin ds individual outcome)
  unfolding with_files IsBounded
  with_files-IsBounded n origin ds individual s (raised e, s') few = (omega arith, λ cs eq. cc)
  with_files-IsBounded n origin ds individual s (ok files, s') few =
      let start : SortedEditions = record { state = s'; editions = []; pending = [] } in
      let b = classify_editions around origin files start in
      let same = classify_editions-count around origin files start in
      let more = editions_of-count around origin b.pending b.editions b.state in
      with_editions-IsBounded n ds individual files s
        (editions_of around origin b.pending b.editions b.state) (omega arith)

  enrich_batch-IsBounded :
      (origin : String) (ds : List DiscoveredRecord) (s : Enricher)
      → IsBounded (2 + 2 * unkeyed ds) ds s (enrich_batch around origin ds s)
  unfolding enrich_batch
  enrich_batch-IsBounded origin ds s =
      let start : Sorted = record { state = s; files = []; pending = []; individual = [] } in
      let b = classify around origin ds start in
      let (same, few) = classify_lem around origin ds start in
      let more = files_of-count around origin b.pending b.files b.state in
      with_files-IsBounded (2 + 2 * unkeyed ds) origin ds b.individual s
        (files_of around origin b.pending b.files b.state) (omega arith)

  listed-IsBounded :
      (d : DiscoveredRecord) (s : Enricher)
      (outcome : Result ServiceError (Option Candidate) × Enricher)
      → count outcome.1 ≤ count s + 2
      → IsBounded (2 + 2 * unkeyed (d ∷ [])) (d ∷ []) s (listed around outcome)
  unfolding IsBounded
  listed-IsBounded d s (raised e, s') few = (omega arith, λ cs eq. cc)
  listed-IsBounded d s (ok none, s') few =
      (omega arith, λ cs eq. subst (λ l. length l ≤ 1) (ok-injective eq) (omega arith))
  listed-IsBounded d s (ok (some c), s') few =
      (omega arith, λ cs eq. subst (λ l. length l ≤ 1) (ok-injective eq) (omega arith))

  batch_at-IsBounded :
      (ds : List DiscoveredRecord) (s : Enricher) (origin : Result ServiceError String)
      → IsBounded (2 + 2 * unkeyed ds) ds s (batch_at around ds s origin)
  unfolding IsBounded batch_at
  batch_at-IsBounded ds s (raised e) = (omega arith, λ cs eq. cc)
  batch_at-IsBounded ds s (ok origin) = enrich_batch-IsBounded origin ds s

empty_batch : (around : Surroundings) (s : Enricher) → IsBounded around 2 [] s (ok [], s)
unfolding IsBounded
empty_batch around s =
    (omega arith, λ cs eq. subst (λ l. length l ≤ 0) (ok-injective eq) (omega arith))

-- A batch makes at most two requests and two more for each record without a file identity, whatever
-- the cache holds and the source answers, and returns at most one candidate for each record.
pub enrich_many-IsBounded :
    (around : Surroundings) (ds : List DiscoveredRecord) (s : Enricher)
    → IsBounded around (2 + 2 * unkeyed ds) ds s (enrich_many around ds s)
unfolding enrich_many
enrich_many-IsBounded around [] s = empty_batch around s
enrich_many-IsBounded around (d ∷ []) s =
    listed-IsBounded around d s (enrich around d s) (enrich-count around d s)
enrich_many-IsBounded around (d ∷ e ∷ ds) s =
    batch_at-IsBounded around (d ∷ e ∷ ds) s (batch_origin around (d ∷ e ∷ ds))
