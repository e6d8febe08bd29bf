-- ===== src/GetComics/Queries/Bounds.antt =====
-- How many queries GetComics is asked, and how long they are.
use pullbox_direct_providers.Prelude.{
  ℕ, suc, ◌≤◌, inl, inr, Option, none, some, List, [], ◌∷◌, ◌++◌, map, take, arith, length,
  length-append, length-take-le, All, All-append, All-take, contains, Bool-cases, String, String_eq,
}
use pullbox_direct_providers.Prelude.Measures.{text_len-text_take-le}
use pullbox_direct_providers.Prelude.Sorting.{unique_by, All-unique_by}
use pullbox_direct_providers.Prelude.Text.{text_len}
use pullbox_direct_providers.Contract.Net.{Net}
use pullbox_direct_providers.Contract.Models.{SearchIntent}
use pullbox_direct_providers.Contract.SearchTerms.{
  Unicode, is_collection_intent, collection_title_fragment, collection_title_number,
}
use pullbox_direct_providers.LibGen.Service.Queries.{text_or, year_or}
use pullbox_direct_providers.GetComics.Queries.{
  listed_number, truthy_text, preferred_year, compatibility_year, add_new, spaced, cut, is_volume,
  build_query, exact_queries, exact_of, standard_issue_exact_queries, volume_queries, title_queries,
  with_title_volume, series_year_query, with_year_fallbacks, build_queries, title_and_year,
  same_number,
}

abbrev IsShort : String → Type 0
unfolding text_len
IsShort q = text_len q ≤ 700

-- At least one query and at most `n`, each of at most 700 characters.
abbrev pub AreBounded : ℕ → List String → Type 0
unfolding text_len
AreBounded n queries =
    (1 ≤ length queries) × (length queries ≤ n) × All (λ q. text_len q ≤ 700) queries

-- At least one query, each of at most 700 characters.
abbrev AreShort : List String → Type 0
unfolding text_len
AreShort queries = (1 ≤ length queries) × All (λ q. text_len q ≤ 700) queries

cut-IsShort : (s : String) → text_len (cut s) ≤ 700
unfolding cut
cut-IsShort s = text_len-text_take-le 700 s

add_new-AreShort : (s : String) (qs : List String) → AreShort qs → AreShort (add_new (cut s) qs)
unfolding add_new AreShort cut
add_new-AreShort s qs (some_there, short) =
    let longer = length-append qs (cut s ∷ []) in
    elim (Bool-cases (contains (cut s) qs)) [
      | inl old ↦ rw old (some_there, short)
      | inr new ↦ rw new (
        omega arith,
        All-append (λ q. text_len q ≤ 700) qs (cut s ∷ []) short (cut-IsShort s, tt),
      )
    ]

map-cut-All :
    {A : Type 0} (f : A → String) (xs : List A)
    → All (λ q. text_len q ≤ 700) (map (λ x. cut (f x)) xs)
unfolding cut
map-cut-All f [] = tt
map-cut-All f (x ∷ xs) = (cut-IsShort (f x), map-cut-All f xs)

-- What is cut at a positive length keeps a query.
take-AreBounded : (n : ℕ) (qs : List String) → AreShort qs → AreBounded (suc n) (take (suc n) qs)
unfolding AreShort AreBounded
take-AreBounded n [] (some_there, short) = absurd (omega arith)
take-AreBounded n (q ∷ qs) (some_there, (h, short)) =
    let few = length-take-le n qs in
    (omega arith, omega arith, (h, All-take (λ q. text_len q ≤ 700) n qs short))

unique_by-AreShort : (qs : List String) → AreShort qs → AreShort (unique_by (λ q. q) qs)
unfolding AreShort unique_by
unique_by-AreShort [] h = h
unique_by-AreShort (q ∷ qs) (some_there, short) =
    (omega arith, All-unique_by (λ q. text_len q ≤ 700) (λ q. q) (q ∷ qs) short)

front-AreShort :
    (front : List String) (base : String) (back : List String)
    → All (λ q. text_len q ≤ 700) front
    → All (λ q. text_len q ≤ 700) back
    → AreShort (front ++ cut base ∷ back)
unfolding AreShort
front-AreShort front base back h k =
    let longer = length-append front (cut base ∷ back) in
    (
      omega arith,
      All-append (λ q. text_len q ≤ 700) front (cut base ∷ back) h (cut-IsShort base, k),
    )

module _ (net : Net) (unicode : Unicode) where
  exact_queries-AreBounded :
      (intent : SearchIntent) (issue : String)
      → AreBounded 3 (exact_queries net unicode intent issue)
  unfolding exact_queries
  exact_queries-AreBounded intent issue =
      let base = spaced intent.series_title issue in
      let with_year : ℕ → String = λ n. spaced base (net.show n) in
      let front = map (λ n. cut (with_year n)) (listed_number (preferred_year intent)) in
      let back = map (λ n. cut (with_year n)) (listed_number (compatibility_year intent)) in
      take-AreBounded 2 (unique_by (λ q. q) (front ++ cut base ∷ back)) (
        unique_by-AreShort (front ++ cut base ∷ back) (
          front-AreShort front base back
            (map-cut-All with_year (listed_number (preferred_year intent)))
            (map-cut-All with_year (listed_number (compatibility_year intent)))))

  exact_of-AreBounded :
      (intent : SearchIntent) (issues : List String)
      → AreBounded 5 (exact_of net unicode intent issues)
  unfolding build_query AreBounded
  exact_of-AreBounded intent [] = (omega arith, omega arith, (cut-IsShort _, tt))
  exact_of-AreBounded intent (issue ∷ _) =
      let (some_there, few, short) = exact_queries-AreBounded intent issue in
      (some_there, omega arith, short)

  volume_queries-All :
      (intent : SearchIntent) (volumes : List String)
      → All (λ q. text_len q ≤ 700) (volume_queries net unicode intent volumes)
  volume_queries-All intent [] = tt
  volume_queries-All intent (volume ∷ _) = elim (Bool-cases (is_volume intent.issue_type)) [
    | inl h ↦ rw h (cut-IsShort _, (cut-IsShort _, tt))
    | inr h ↦ rw h (cut-IsShort _, tt)
  ]

  title_queries-AreShort :
      (intent : SearchIntent) (fragment : Option String)
      → AreShort (title_queries net unicode intent fragment)
  unfolding title_queries AreShort build_query
  title_queries-AreShort intent none = (omega arith, (cut-IsShort _, tt))
  title_queries-AreShort intent (some fragment) = (
    omega arith,
    (
      cut-IsShort _,
      volume_queries-All intent (truthy_text (text_or intent.volume intent.issue_number)),
    ),
  )

  with_title_volume-AreShort :
      (intent : SearchIntent) (volume : Option String) (qs : List String)
      → AreShort qs
      → AreShort (with_title_volume net unicode intent volume qs)
  unfolding with_title_volume
  with_title_volume-AreShort intent none qs h = h
  with_title_volume-AreShort intent (some volume) qs h =
      add_new-AreShort (spaced intent.series_title (spaced "Volume" volume)) _
        (add_new-AreShort (spaced intent.series_title (spaced "Vol" volume)) qs h)

  series_year_query-AreShort :
      (intent : SearchIntent) (years : List ℕ) (qs : List String)
      → AreShort qs
      → AreShort (series_year_query net unicode intent years qs)
  series_year_query-AreShort intent [] qs h = h
  series_year_query-AreShort intent (n ∷ _) qs h =
      elim (Bool-cases (same_number n (year_or intent.release_year intent.year))) [
        | inl same ↦ rw same h
        | inr other ↦ rw other (add_new-AreShort (spaced intent.series_title (net.show n)) qs h)
      ]

  with_year_fallbacks-AreShort :
      (intent : SearchIntent) (volume : Option String) (qs : List String)
      → AreShort qs
      → AreShort (with_year_fallbacks net unicode intent volume qs)
  unfolding with_year_fallbacks
  with_year_fallbacks-AreShort intent none qs h = h
  with_year_fallbacks-AreShort intent (some volume) qs h =
      series_year_query-AreShort intent (listed_number (year_or intent.series_year none))
        (add_new (cut (title_and_year net unicode intent)) qs)
        (add_new-AreShort (title_and_year net unicode intent) qs h)

-- Every search intent gives at least one query and at most five, and none has more than 700
-- characters.
pub build_queries-AreBounded :
    (net : Net) (unicode : Unicode) (intent : SearchIntent)
    → AreBounded 5 (build_queries net unicode intent)
unfolding build_queries standard_issue_exact_queries
build_queries-AreBounded net unicode intent =
    let titled =
      title_queries net unicode intent (collection_title_fragment net unicode intent.issue_title) in
    let number = collection_title_number net unicode intent.issue_title in
    let numbered = with_title_volume net unicode intent number titled in
    elim (Bool-cases (is_collection_intent net unicode intent.issue_type)) [
      | inl collection ↦ rw collection (
          take-AreBounded 4 (with_year_fallbacks net unicode intent intent.volume numbered) (
            with_year_fallbacks-AreShort net unicode intent intent.volume numbered (
              with_title_volume-AreShort net unicode intent number titled (
                title_queries-AreShort net unicode intent
                  (collection_title_fragment net unicode intent.issue_title)))))
      | inr single ↦
          rw single (exact_of-AreBounded net unicode intent (truthy_text intent.issue_number))
    ]
