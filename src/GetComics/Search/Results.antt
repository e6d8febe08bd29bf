-- ===== src/GetComics/Search/Results.antt =====
-- What a search of GetComics returns: at most as many candidates as asked for, no two with one id.
use pullbox_direct_providers.Prelude.{
  ℕ, ◌≤◌, ◌≡◌, refl, subst, ◌∙◌, inl, inr, Bool, true, false, not, ◌&&◌, Option, none, some, List,
  [], ◌∷◌, ◌++◌, take, arith, leb, if◌then◌else◌, length, length-take-le, String_eq, String,
  Bool-cases,
}
use pullbox_direct_providers.Prelude.Distinct.{
  has_key, DistinctBy, Disjoint, has_key-append, has_key-filter, take-DistinctBy, filter-DistinctBy,
  append-DistinctBy, filter-Disjoint,
}
use pullbox_direct_providers.Prelude.Result.{Result, ok, raised, ◌>>=◌, >>=-eq-ok, ok-injective}
use pullbox_direct_providers.Contract.Failures.{Failure}
use pullbox_direct_providers.Contract.Models.{Candidate, SearchIntent}
use pullbox_direct_providers.GetComics.Queries.{build_queries, standard_issue_fallback_queries}
use pullbox_direct_providers.GetComics.Coverage.{
  for_each_candidate, covers, partition, partitioned, prioritize_requested_issue_coverage,
  requested_issue,
}
use pullbox_direct_providers.GetComics.Search.{
  PageSource, Found, append_search_candidates, exact_search, fallback_search, with_fallbacks,
  after_exact, after_query, coverage, coverage_of_issue, finished, is_collection, search,
}
use pullbox_direct_providers.GetComics.Search.Fresh.{
  id_of, IsFresh, append_search_candidates-IsFresh,
}

chosen-ok {ℓ} :
    {A : Type ℓ} (a b : Bool) (x y z : Result Failure A) (P : A → Type 0) (o : A)
    → (x ≡ ok o → P o)
    → (y ≡ ok o → P o)
    → (z ≡ ok o → P o)
    → (if a then x else if b then y else z) ≡ ok o
    → P o
chosen-ok true b x y z P o f g k h = f h
chosen-ok false true x y z P o f g k h = g h
chosen-ok false false x y z P o f g k h = k h

module _ (source : PageSource) where
  module _ (intent : SearchIntent) (limit : ℕ) where
    -- A list of candidates with distinct ids, at most as many as the limit.
    unfoldable pub AreResults : List Candidate → Type 0
    AreResults cs = (length cs ≤ limit) × DistinctBy id_of cs

    take-AreResults : (cs : List Candidate) → DistinctBy id_of cs → AreResults (take limit cs)
    unfolding AreResults
    take-AreResults cs h = (length-take-le limit cs, take-DistinctBy id_of limit cs h)

    -- The two parts of a list by the intent.
    abbrev AreParts : List Candidate → List Candidate × List Candidate → Type 0
    AreParts cs (covering, others) =
        DistinctBy id_of covering
        × DistinctBy id_of others
        × Disjoint id_of covering others
        × ((k : String) → has_key id_of k covering ≡ true → has_key id_of k cs ≡ true)
        × ((k : String) → has_key id_of k others ≡ true → has_key id_of k cs ≡ true)

    for_each-AreParts :
        (issue : Result Failure (Option String)) (cs : List Candidate)
        (parts : List Candidate × List Candidate)
        → for_each_candidate issue ([], []) (partition source.net source.alphabet intent) cs
          ≡ ok parts
        → DistinctBy id_of cs
        → AreParts cs parts
    unfolding partition
    for_each-AreParts issue [] parts h distinct =
        subst (AreParts []) (ok-injective h)
          (tt, tt, λ k there. refl, λ k there. there, λ k there. there)
    for_each-AreParts (raised e) (c ∷ cs) parts h distinct = cc
    for_each-AreParts (ok issue) (c ∷ cs) parts h distinct =
        let test = covers source.net source.alphabet intent issue in
        subst (AreParts (c ∷ cs)) (ok-injective h) (
          filter-DistinctBy id_of test (c ∷ cs) distinct,
          filter-DistinctBy id_of (λ c. not (test c)) (c ∷ cs) distinct,
          filter-Disjoint id_of test (c ∷ cs) distinct,
          λ k. has_key-filter id_of test k (c ∷ cs),
          λ k. has_key-filter id_of (λ c. not (test c)) k (c ∷ cs),
        )

    -- The parts of the fallbacks around a list that has none of their ids.
    joined-DistinctBy :
        (exact fallback covering others : List Candidate)
        → DistinctBy id_of exact
        → Disjoint id_of fallback exact
        → AreParts fallback (covering, others)
        → DistinctBy id_of (covering ++ (exact ++ others))
    joined-DistinctBy exact fallback covering others distinct apart (a, b, split, in_a, in_b) =
        append-DistinctBy id_of covering (exact ++ others) a
          (append-DistinctBy id_of exact others distinct b (λ k there.
            elim (Bool-cases (has_key id_of k others)) [
              | inl found ↦ let none_there = apart k (in_b k found) in cc
              | inr h ↦ h
            ]))
          (λ k there.
            let not_exact = apart k (in_a k there) in
            let not_other = split k there in has_key-append id_of k exact others ∙ ground arith)

    partitioned-AreParts :
        (cs : List Candidate) (parts : List Candidate × List Candidate)
        → partitioned source.net source.alphabet intent cs ≡ ok parts
        → DistinctBy id_of cs
        → AreParts cs parts
    unfolding partitioned
    partitioned-AreParts cs parts h =
        for_each-AreParts (requested_issue source.net source.alphabet intent.issue_number) cs parts
          h

    prioritize-DistinctBy :
        (cs ds : List Candidate)
        → prioritize_requested_issue_coverage source.net source.alphabet intent cs ≡ ok ds
        → DistinctBy id_of cs
        → DistinctBy id_of ds
    unfolding prioritize_requested_issue_coverage
    prioritize-DistinctBy cs ds h distinct =
        let (parts, split, last) =
          >>=-eq-ok (partitioned source.net source.alphabet intent cs)
            (λ parts. ok (parts.0 ++ parts.1)) h in
        let (a, b, apart, _, _) = partitioned-AreParts cs parts split distinct in
        subst (DistinctBy id_of) (ok-injective last)
          (append-DistinctBy id_of parts.0 parts.1 a b apart)

    -- What the loop over the exact queries ends with: results, or a fresh list.
    abbrev IsExact : Found × Option (List Candidate) → Type 0
    IsExact (found, none) = IsFresh [] found
    IsExact (found, some cs) = AreResults cs

    prioritized-IsExact :
        (found : Found) (prioritized : Result Failure (List Candidate))
        (outcome : Found × Option (List Candidate))
        → ((cs : List Candidate) → prioritized ≡ ok cs → DistinctBy id_of cs)
        → (prioritized >>= λ cs. ok (found, some (take limit cs))) ≡ ok outcome
        → IsExact outcome
    unfolding AreResults
    prioritized-IsExact found (ok cs) outcome distinct h =
        subst IsExact (ok-injective h) (take-AreResults cs (distinct cs refl))
    prioritized-IsExact found (raised e) outcome distinct h = cc

    after_query-IsExact :
        (found : Found) (covered : Bool) (prioritized : Result Failure (List Candidate))
        (later : Result Failure (Found × Option (List Candidate)))
        (outcome : Found × Option (List Candidate))
        → IsFresh [] found
        → ((cs : List Candidate) → prioritized ≡ ok cs → DistinctBy id_of cs)
        → (later ≡ ok outcome → IsExact outcome)
        → after_query source intent limit found covered prioritized later ≡ ok outcome
        → IsExact outcome
    after_query-IsExact found covered prioritized later outcome fresh distinct ih h =
        chosen-ok (not (is_collection source intent limit) && covered)
          (leb limit (length found.candidates) && is_collection source intent limit)
          (prioritized >>= λ cs. ok (found, some (take limit cs)))
          (ok (found, some (take limit found.candidates))) later IsExact outcome
          (prioritized-IsExact found prioritized outcome distinct)
          (λ eq. subst IsExact (ok-injective eq) (take-AreResults found.candidates fresh.0)) ih h

    exact_search-IsExact :
        (queries : List String) (found : Found) (outcome : Found × Option (List Candidate))
        → IsFresh [] found
        → exact_search source intent limit queries found ≡ ok outcome
        → IsExact outcome
    unfolding exact_search
    exact_search-IsExact [] found outcome fresh h = subst IsExact (ok-injective h) fresh
    exact_search-IsExact (query ∷ queries) found outcome fresh h =
        let (next, appended, r1) = >>=-eq-ok (append_search_candidates source query found) _ h in
        let (covered, _, last) =
          >>=-eq-ok (coverage_of_issue source intent limit next.candidates) _ r1 in
        let still = append_search_candidates-IsFresh source [] query found next appended fresh in
        after_query-IsExact next covered
          (prioritize_requested_issue_coverage source.net source.alphabet intent next.candidates)
          (exact_search source intent limit queries next) outcome still
          (λ cs eq. prioritize-DistinctBy next.candidates cs eq still.0)
          (exact_search-IsExact queries next outcome still) last

    fallback_search-IsFresh :
        (base : List Candidate) (queries : List String) (found next : Found)
        → IsFresh base found
        → fallback_search source intent limit queries found ≡ ok next
        → IsFresh base next
    unfolding fallback_search
    fallback_search-IsFresh base [] found next fresh h = subst (IsFresh base) (ok-injective h) fresh
    fallback_search-IsFresh base (query ∷ queries) found next fresh h =
        let (more, appended, r1) = >>=-eq-ok (append_search_candidates source query found) _ h in
        let (covered, _, last) = >>=-eq-ok (coverage source intent limit more.candidates) _ r1 in
        let still = append_search_candidates-IsFresh source base query found more appended fresh in
        chosen-ok covered false (ok more) (ok more)
          (fallback_search source intent limit queries more) (IsFresh base) next
          (λ eq. subst (IsFresh base) (ok-injective eq) still)
          (λ eq. subst (IsFresh base) (ok-injective eq) still)
          (fallback_search-IsFresh base queries more next still) last

    with_fallbacks-AreResults :
        (queries : List String) (found : Found) (cs : List Candidate)
        → IsFresh [] found
        → with_fallbacks source intent limit queries found ≡ ok cs
        → AreResults cs
    unfolding with_fallbacks
    with_fallbacks-AreResults queries found cs (distinct, seen, _, _) h =
        let start : Found = record { candidates = []; seen = found.seen } in
        let (fallback, searched, r1) =
          >>=-eq-ok (fallback_search source intent limit queries start) _ h in
        let (parts, split, last) =
          >>=-eq-ok (partitioned source.net source.alphabet intent fallback.candidates) _ r1 in
        let (fresh, _, _, apart) =
          fallback_search-IsFresh found.candidates queries start fallback
            (tt, λ k there. cc, seen, λ k there. cc) searched in
        let parted = partitioned-AreParts fallback.candidates parts split fresh in
        subst AreResults (ok-injective last) (
          take-AreResults (parts.0 ++ (found.candidates ++ parts.1)) (
            joined-DistinctBy found.candidates fallback.candidates parts.0 parts.1 distinct apart
              parted))

    after_exact-AreResults :
        (queries : List String) (found : Found) (cs : List Candidate)
        → IsFresh [] found
        → after_exact source intent limit queries found ≡ ok cs
        → AreResults cs
    unfolding after_exact
    after_exact-AreResults [] found cs fresh h =
        subst AreResults (ok-injective h) (take-AreResults found.candidates fresh.0)
    after_exact-AreResults (q ∷ qs) found cs fresh h =
        let (covered, _, last) = >>=-eq-ok (coverage source intent limit found.candidates) _ h in
        let whole = take-AreResults found.candidates fresh.0 in
        chosen-ok covered false (ok (take limit found.candidates))
          (ok (take limit found.candidates)) (with_fallbacks source intent limit (q ∷ qs) found)
          AreResults cs (λ eq. subst AreResults (ok-injective eq) whole)
          (λ eq. subst AreResults (ok-injective eq) whole)
          (with_fallbacks-AreResults (q ∷ qs) found cs fresh) last

    finished-AreResults :
        (outcome : Found × Option (List Candidate)) (cs : List Candidate)
        → IsExact outcome
        → finished source intent limit outcome ≡ ok cs
        → AreResults cs
    unfolding finished
    finished-AreResults (found, none) cs fresh h =
        after_exact-AreResults (standard_issue_fallback_queries source.net source.unicode intent)
          found cs fresh h
    finished-AreResults (found, some ds) cs results h = subst AreResults (ok-injective h) results

-- A search of GetComics that returns has at most as many candidates as asked for, and no two of
-- them have one id, whatever its pages hold.
pub search-AreResults :
    (source : PageSource) (intent : SearchIntent) (limit : ℕ) (cs : List Candidate)
    → search source intent limit ≡ ok cs
    → AreResults source intent limit cs
unfolding search
search-AreResults source intent limit cs h =
    let start : Found = record { candidates = []; seen = [] } in
    let queries = build_queries source.net source.unicode intent in
    let (outcome, searched, last) =
      >>=-eq-ok (exact_search source intent limit queries start) (finished source intent limit) h in
    finished-AreResults source intent limit outcome cs
      (exact_search-IsExact source intent limit queries start outcome
        (tt, λ k there. there, λ k there. there, λ k there. refl) searched)
      last
