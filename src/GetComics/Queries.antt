-- ===== src/GetComics/Queries.antt =====
-- `_build_query`, `_build_queries`, `_standard_issue_exact_queries` and
-- `_standard_issue_fallback_queries` of
-- providers/getcomics/src/pullbox_provider_getcomics/service.py.
pub mod Bounds
use Prim.Native.String
use pullbox_direct_providers.Prelude.{
  ℕ, zero, suc, Bool, true, false, not, ◌&&◌, ◌||◌, Option, none, some, List, [], ◌∷◌, ◌++◌, map,
  take, nat_beq, if◌then◌else◌, contains, ◌==◌, ℕ_eq, String_eq, String,
}
use pullbox_direct_providers.Prelude.Sorting.{unique_by}
use pullbox_direct_providers.Prelude.Text.{is_empty, text_take}
use pullbox_direct_providers.Contract.Net.{Net}
use pullbox_direct_providers.Contract.Models.{SearchIntent}
use pullbox_direct_providers.Contract.SearchTerms.{
  Unicode, is_collection_intent, collection_title_fragment, collection_title_number,
}
use pullbox_direct_providers.LibGen.Service.Queries.{text_or, year_or, join_texts}

-- list(dict.fromkeys(xs))
abbrev pub distinct_numbers : List ℕ → List ℕ
unfolding unique_by
distinct_numbers ns = unique_by (λ n. n) ns

abbrev pub listed_number : Option ℕ → List ℕ
listed_number none = []
listed_number (some n) = n ∷ []

-- [value] if value else []
abbrev pub truthy_text : Option String → List String
truthy_text none = []
truthy_text (some s) = if is_empty s then [] else s ∷ []

abbrev pub is_none : {A : Type 0} → Option A → Bool
is_none none = true
is_none (some a) = false

-- The year of the release, or the year of an intent that has neither that nor a series year.
unfoldable pub preferred_year : SearchIntent → Option ℕ
preferred_year intent =
    if is_none intent.release_year && is_none intent.series_year
    then intent.year
    else intent.release_year

unfoldable pub compatibility_year : SearchIntent → Option ℕ
unfolding year_or
compatibility_year intent = year_or intent.series_year intent.year

abbrev pub is_empty_list : List String → Bool
is_empty_list [] = true
is_empty_list (s ∷ ss) = false

-- issue_type == "volume"
abbrev pub is_volume : Option String → Bool
is_volume none = false
is_volume (some s) = s == "volume"

abbrev pub same_number : ℕ → Option ℕ → Bool
same_number n none = false
same_number n (some m) = nat_beq n m

-- A query is added unless it is there.
unfoldable pub add_new : String → List String → List String
add_new query queries = if contains query queries then queries else queries ++ query ∷ []

-- f"{a} {b}"
abbrev pub spaced : String → String → String
spaced a b = String.◌++◌ a (String.◌++◌ " " b)

-- s[:700]
abbrev pub cut : String → String
unfolding text_take
cut s = text_take 700 s

module _ (net : Net) (unicode : Unicode) where
  abbrev pub year_texts : Option ℕ → List String
  unfolding year_or
  year_texts year = map (λ n. net.show n) (listed_number (year_or year none))

  -- `_build_query`
  unfoldable pub build_query : SearchIntent → String
  unfolding join_texts text_take
  build_query intent = cut (
      join_texts net
        (intent.series_title ∷ truthy_text intent.issue_number ++ year_texts intent.year))

  -- The exact queries of an issue number.
  unfoldable pub exact_queries : SearchIntent → String → List String
  unfolding preferred_year compatibility_year unique_by text_take
  exact_queries intent issue =
      let base = spaced intent.series_title issue in
      let with_year : ℕ → String = λ n. cut (spaced base (net.show n)) in
      take 3 (
        unique_by (λ q. q)
          (map with_year (listed_number (preferred_year intent))
            ++ cut base ∷ map with_year (listed_number (compatibility_year intent))))

  abbrev pub exact_of : SearchIntent → List String → List String
  exact_of intent [] = build_query intent ∷ []
  exact_of intent (issue ∷ _) = exact_queries intent issue

  -- `_standard_issue_exact_queries`
  unfoldable pub standard_issue_exact_queries : SearchIntent → List String
  unfolding build_query exact_queries
  standard_issue_exact_queries intent = exact_of intent (truthy_text intent.issue_number)

  abbrev pub year_queries : SearchIntent → List ℕ → List String
  year_queries intent [] = cut intent.series_title ∷ []
  year_queries intent (n ∷ ns) =
      map (λ m. cut (spaced intent.series_title (net.show m))) (take 2 (n ∷ ns))

  -- `_standard_issue_fallback_queries`
  unfoldable pub standard_issue_fallback_queries : SearchIntent → List String
  unfolding is_collection_intent preferred_year compatibility_year unique_by text_take
  standard_issue_fallback_queries intent =
      if is_collection_intent net unicode intent.issue_type
        || is_empty_list (truthy_text intent.issue_number)
      then []
      else year_queries intent (
          distinct_numbers
            (listed_number (preferred_year intent) ++ listed_number (compatibility_year intent)))

  -- The queries for a volume.
  abbrev pub volume_queries : SearchIntent → List String → List String
  volume_queries intent [] = []
  volume_queries intent (volume ∷ _) =
      cut (spaced intent.series_title (spaced "Vol" volume))
      ∷ (if is_volume intent.issue_type
          then cut (spaced intent.series_title (spaced "Volume" volume)) ∷ []
          else [])

  -- The queries that the title gives.
  unfoldable pub title_queries : SearchIntent → Option String → List String
  unfolding build_query text_or text_take
  title_queries intent none = build_query intent ∷ []
  title_queries intent (some fragment) =
      cut (spaced intent.series_title fragment)
      ∷ volume_queries intent (truthy_text (text_or intent.volume intent.issue_number))

  -- The queries for the volume that the title names.
  unfoldable pub with_title_volume : SearchIntent → Option String → List String → List String
  unfolding add_new text_take
  with_title_volume intent none queries = queries
  with_title_volume intent (some volume) queries =
      add_new (cut (spaced intent.series_title (spaced "Volume" volume)))
        (add_new (cut (spaced intent.series_title (spaced "Vol" volume))) queries)

  -- " ".join of the parts that are not empty
  abbrev pub title_and_year : SearchIntent → String
  title_and_year intent = join_texts net (
      truthy_text (some intent.series_title)
      ++ year_texts (year_or intent.release_year intent.year))

  abbrev pub series_year_query : SearchIntent → List ℕ → List String → List String
  series_year_query intent [] queries = queries
  series_year_query intent (n ∷ _) queries =
      if same_number n (year_or intent.release_year intent.year)
      then queries
      else add_new (cut (spaced intent.series_title (net.show n))) queries

  -- The fallbacks of a collection that has a volume.
  unfoldable pub with_year_fallbacks : SearchIntent → Option String → List String → List String
  unfolding add_new join_texts year_or text_take
  with_year_fallbacks intent none queries = queries
  with_year_fallbacks intent (some volume) queries =
      series_year_query intent (listed_number (year_or intent.series_year none))
        (add_new (cut (title_and_year intent)) queries)

  -- `_build_queries`
  unfoldable pub build_queries : SearchIntent → List String
  unfolding is_collection_intent standard_issue_exact_queries collection_title_fragment
      collection_title_number title_queries with_title_volume with_year_fallbacks
  build_queries intent =
      if is_collection_intent net unicode intent.issue_type
      then take 5 (
          with_year_fallbacks intent intent.volume (
            with_title_volume intent (collection_title_number net unicode intent.issue_title)
              (title_queries intent (collection_title_fragment net unicode intent.issue_title))))
      else standard_issue_exact_queries intent
