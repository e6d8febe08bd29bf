-- ===== src/GetComics/Search.antt =====
-- `search`, `_append_search_candidates` and `source_available` of
-- providers/getcomics/src/pullbox_provider_getcomics/service.py. The page fetcher and the parser of
-- pages are arguments.
pub mod Fresh
pub mod Results
use Prim.Native.String
use pullbox_direct_providers.Prelude.{
  ℕ, Bool, true, false, not, ◌&&◌, ◌||◌, Option, none, some, List, [], ◌∷◌, ◌++◌, take, leb,
  if◌then◌else◌, contains, length, String_eq, String,
}
use pullbox_direct_providers.Prelude.Result.{Result, ok, raised, ◌>>=◌}
use pullbox_direct_providers.Contract.Net.{Net}
use pullbox_direct_providers.Contract.Failures.{
  Failure, protocol_error, runtime_error, value_error, cancelled, other_error,
}
use pullbox_direct_providers.Contract.Models.{Candidate, SearchIntent}
use pullbox_direct_providers.Contract.SearchTerms.{Unicode, is_collection_intent}
use pullbox_direct_providers.GetComics.Queries.{build_queries, standard_issue_fallback_queries}
use pullbox_direct_providers.GetComics.Coverage.{
  Alphabet, has_requested_issue_coverage, partitioned, prioritize_requested_issue_coverage,
}

abbrev pub base_url : String
base_url = "https://getcomics.org"

-- What a search meets outside.
pub record PageSource : Type 0 where
  pub net : Net
  pub unicode : Unicode
  pub alphabet : Alphabet
  pub urlencode : List (String × String) → String
  pub page_fetcher : String → Result Failure String
  pub parse_search_html : String → Result Failure (List Candidate)

-- `candidates` and `seen_candidate_ids` of a search.
pub record Found : Type 0 where
  pub candidates : List Candidate
  pub seen : List String

-- The loop of `_append_search_candidates`.
unfoldable pub add_candidates : List Candidate → Found → Found
add_candidates [] found = found
add_candidates (c ∷ cs) found = add_candidates cs (
    if contains c.provider_candidate_id found.seen then found else record {
      candidates = found.candidates ++ c ∷ [];
      seen = c.provider_candidate_id ∷ found.seen;
    })

module _ (source : PageSource) where
  -- `_append_search_candidates`
  unfoldable pub append_search_candidates : String → Found → Result Failure Found
  unfolding add_candidates
  append_search_candidates query found = do
    html ←
        source.page_fetcher
          (String.◌++◌ base_url (String.◌++◌ "/?" (source.urlencode (("s", query) ∷ []))))
    parsed ← source.parse_search_html html
    ok (add_candidates parsed found)

  module _ (intent : SearchIntent) (limit : ℕ) where
    abbrev pub is_collection : Bool
    unfolding is_collection_intent
    is_collection = is_collection_intent source.net source.unicode intent.issue_type

    abbrev pub coverage : List Candidate → Result Failure Bool
    unfolding has_requested_issue_coverage
    coverage cs = has_requested_issue_coverage source.net source.alphabet intent cs

    -- What the loop over the exact queries returns, or the candidates that it ends with.
    abbrev pub after_query :
        Found
        → Bool
        → Result Failure (List Candidate)
        → Result Failure (Found × Option (List Candidate))
        → Result Failure (Found × Option (List Candidate))
    after_query found covered prioritized later =
        if not is_collection && covered
        then (prioritized >>= λ cs. ok (found, some (take limit cs)))
        else if leb limit (length found.candidates) && is_collection
        then ok (found, some (take limit found.candidates))
        else later

    abbrev pub coverage_of_issue : List Candidate → Result Failure Bool
    unfolding has_requested_issue_coverage
    coverage_of_issue cs = if is_collection then ok false else coverage cs

    -- The loop over the exact queries.
    unfoldable pub exact_search :
        List String → Found → Result Failure (Found × Option (List Candidate))
    unfolding append_search_candidates is_collection_intent has_requested_issue_coverage
        prioritize_requested_issue_coverage
    exact_search [] found = ok (found, none)
    exact_search (query ∷ queries) found = append_search_candidates query found >>= λ next.
        coverage_of_issue next.candidates >>= λ covered.
        after_query next covered
          (prioritize_requested_issue_coverage source.net source.alphabet intent next.candidates)
          (exact_search queries next)

    -- The loop over the fallback queries, which stops once a candidate covers the issue.
    unfoldable pub fallback_search : List String → Found → Result Failure Found
    unfolding append_search_candidates has_requested_issue_coverage
    fallback_search [] found = ok found
    fallback_search (query ∷ queries) found = do
      next ← append_search_candidates query found
      covered ← coverage next.candidates
      if covered then ok next else fallback_search queries next

    -- The fallbacks that cover the intent come before the exact results, and the others behind.
    unfoldable pub with_fallbacks : List String → Found → Result Failure (List Candidate)
    unfolding fallback_search partitioned
    with_fallbacks queries found = do
      fallback ← fallback_search queries (record { candidates = []; seen = found.seen })
      parts ← partitioned source.net source.alphabet intent fallback.candidates
      ok (take limit (parts.0 ++ (found.candidates ++ parts.1)))

    -- What follows the loop over the exact queries.
    unfoldable pub after_exact : List String → Found → Result Failure (List Candidate)
    unfolding with_fallbacks has_requested_issue_coverage
    after_exact [] found = ok (take limit found.candidates)
    after_exact (q ∷ qs) found = do
      covered ← coverage found.candidates
      if covered then ok (take limit found.candidates) else with_fallbacks (q ∷ qs) found

    abbrev pub finished : Found × Option (List Candidate) → Result Failure (List Candidate)
    unfolding after_exact standard_issue_fallback_queries
    finished (found, some result) = ok result
    finished (found, none) =
        after_exact (standard_issue_fallback_queries source.net source.unicode intent) found

    -- `search`
    unfoldable pub search : Result Failure (List Candidate)
    unfolding exact_search after_exact build_queries standard_issue_fallback_queries
    search =
        exact_search (build_queries source.net source.unicode intent)
          (record { candidates = []; seen = [] })
        >>= finished

  -- `source_available`
  unfoldable pub available_after : Result Failure String → Result Failure Bool
  available_after (ok html) = ok true
  available_after (raised (runtime_error e)) = ok false
  available_after (raised e) = raised e

  unfoldable pub source_available : Result Failure Bool
  unfolding available_after
  source_available = available_after (source.page_fetcher base_url)
