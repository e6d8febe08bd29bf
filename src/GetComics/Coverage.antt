-- ===== src/GetComics/Coverage.antt =====
-- `_candidate_covers_intent`, `_has_requested_issue_coverage`,
-- `_prioritize_requested_issue_coverage`, `_intent_series_titles` and `_normalized_series_title` of
-- providers/getcomics/src/pullbox_provider_getcomics/service.py. The check of a candidate normalises
-- the requested issue number, which raises ValueError where `normalize_issue` does.
use Prim.Native.Char.{Char}
use pullbox_direct_providers.Prelude.{
  ℕ, Bool, true, false, not, ◌&&◌, Option, none, some, List, [], ◌∷◌, ◌++◌, map, any, if◌then◌else◌,
  contains, ℕ_eq, String_eq, String,
}
use pullbox_direct_providers.Prelude.Int.{ℤ}
use pullbox_direct_providers.Prelude.Result.{Result, ok, raised, ◌>>=◌}
use pullbox_direct_providers.Prelude.Sorting.{filter}
use pullbox_direct_providers.Prelude.Text.{is_empty}
use pullbox_direct_providers.Contract.Net.{Net}
use pullbox_direct_providers.Contract.ComicParser.{normalize_issue}
use pullbox_direct_providers.Contract.Failures.{Failure, value_error}
use pullbox_direct_providers.Contract.Models.{Candidate, SearchIntent}
use pullbox_direct_providers.GetComics.Queries.{listed_number, truthy_text, is_empty_list}

-- The characters of a text that pass.
unfoldable pub kept_chars : (Char → Bool) → String → String
kept_chars p String.[] = String.[]
kept_chars p (String.◌∷◌ c s) = let rest = kept_chars p s in if p c then String.◌∷◌ c rest else rest

-- `str.isalnum` of a character, and `int` of a text, where `none` is a ValueError.
pub record Alphabet : Type 0 where
  pub is_alnum : Char → Bool
  pub int_of_text : String → Option ℤ

abbrev pub or_value_error : Option String → Result Failure (Option String)
or_value_error none = raised value_error
or_value_error (some s) = ok (some s)

abbrev pub year_fits : List ℕ → Option ℕ → Bool
year_fits expected none = true
year_fits [] (some year) = true
year_fits (n ∷ ns) (some year) = contains year (n ∷ ns)

module _ (net : Net) (alphabet : Alphabet) where
  -- `_normalized_series_title`
  unfoldable pub normalized_series_title : String → String
  unfolding kept_chars
  normalized_series_title value = kept_chars alphabet.is_alnum (net.casefold value)

  -- `_intent_series_titles`
  unfoldable pub intent_series_titles : SearchIntent → List String
  unfolding normalized_series_title filter
  intent_series_titles intent =
      filter (λ s. not (is_empty s))
        (map normalized_series_title
          (intent.series_title ∷ intent.normalized_title ∷ intent.alternate_titles))

  -- The issue that is asked for, normalised, if there is one.
  unfoldable pub requested_issue : Option String → Result Failure (Option String)
  unfolding normalize_issue
  requested_issue none = ok none
  requested_issue (some issue) = or_value_error (normalize_issue net alphabet.int_of_text issue)

  abbrev pub expected_years : SearchIntent → List ℕ
  expected_years intent =
      listed_number intent.release_year
      ++ (listed_number intent.series_year ++ listed_number intent.year)

  -- `_candidate_covers_intent`, for the normalised issue
  unfoldable pub covers : SearchIntent → Option String → Candidate → Bool
  unfolding normalized_series_title intent_series_titles
  covers intent none candidate = false
  covers intent (some issue) candidate =
      contains issue candidate.parsed.issue_numbers
      && contains (normalized_series_title candidate.parsed.series_title)
          (intent_series_titles intent)
      && year_fits (expected_years intent) candidate.parsed.year

-- A check of candidates that normalises the issue anew for each: without a candidate it does not.
abbrev pub for_each_candidate {ℓ} :
    {A : Type ℓ}
    → Result Failure (Option String)
    → A
    → (Option String → List Candidate → A)
    → List Candidate
    → Result Failure A
for_each_candidate issue default check [] = ok default
for_each_candidate (raised e) default check (c ∷ cs) = raised e
for_each_candidate (ok issue) default check (c ∷ cs) = ok (check issue (c ∷ cs))

module _ (net : Net) (alphabet : Alphabet) (intent : SearchIntent) where
  abbrev pub any_covers : Result Failure (Option String) → List Candidate → Result Failure Bool
  unfolding covers
  any_covers issue candidates =
      for_each_candidate issue false (λ n cs. any (covers net alphabet intent n) cs) candidates

  -- `_has_requested_issue_coverage`
  unfoldable pub has_requested_issue_coverage : List Candidate → Result Failure Bool
  unfolding requested_issue covers
  has_requested_issue_coverage candidates =
      if is_empty_list (truthy_text intent.issue_number)
      then ok false
      else any_covers (requested_issue net alphabet intent.issue_number) candidates

  -- The candidates that cover the intent, and the others.
  unfoldable pub partition : Option String → List Candidate → List Candidate × List Candidate
  unfolding covers filter
  partition issue candidates = (
    filter (covers net alphabet intent issue) candidates,
    filter (λ c. not (covers net alphabet intent issue c)) candidates,
  )

  -- Both comprehensions over the candidates.
  unfoldable pub partitioned : List Candidate → Result Failure (List Candidate × List Candidate)
  unfolding requested_issue partition
  partitioned candidates =
      for_each_candidate (requested_issue net alphabet intent.issue_number) ([], []) partition
        candidates

  -- `_prioritize_requested_issue_coverage`
  unfoldable pub prioritize_requested_issue_coverage :
      List Candidate → Result Failure (List Candidate)
  unfolding partitioned
  prioritize_requested_issue_coverage candidates = do
    parts ← partitioned candidates
    ok (parts.0 ++ parts.1)
