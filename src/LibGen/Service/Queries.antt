-- ===== src/LibGen/Service/Queries.antt =====
-- `_build_queries`, `_zero_padded_issue_number` and `_title_fallback_query` of service.py.
use Prim.Native.String
use pullbox_direct_providers.Prelude.{
  ℕ, zero, suc, Bool, true, false, not, ◌&&◌, Option, none, some, List, [], ◌∷◌, ◌++◌, nat_beq,
  if◌then◌else◌, length, ◌==◌, ℕ_eq, String_eq, String, contains,
}
use pullbox_direct_providers.Prelude.Text.{
  strip, rstrip, is_space, is_empty, is_digit, all_chars, text_len, text_take, collapse,
}
use pullbox_direct_providers.Contract.Net.{Net}
use pullbox_direct_providers.Contract.Models.{SearchIntent}
use pullbox_direct_providers.Contract.SearchTerms.{
  Unicode, is_collection_intent, collection_title_fragment,
}

-- A part of a query: a text or a year, either of which may be None.
pub data Part : Type 0 where
  words : Option String → Part
  number : Option ℕ → Part

-- a or b, of optional years and texts
unfoldable pub year_or : Option ℕ → Option ℕ → Option ℕ
year_or none b = b
year_or (some zero) b = b
year_or (some (suc n)) b = some (suc n)

unfoldable pub text_or : Option String → Option String → Option String
text_or none b = b
text_or (some s) b = if is_empty s then b else some s

abbrev pub is_truthy : Option String → Bool
is_truthy none = false
is_truthy (some s) = not (is_empty s)

-- s.zfill(3), of ASCII digits
unfoldable pub zfill : String → String
unfolding text_len
zfill s =
    if nat_beq (text_len s) 0
    then "000"
    else if nat_beq (text_len s) 1
    then String.◌++◌ "00" s
    else if nat_beq (text_len s) 2
    then String.◌++◌ "0" s
    else s

-- `_zero_padded_issue_number`
unfoldable pub zero_padded_issue_number : Option String → Option String
unfolding all_chars zfill
zero_padded_issue_number none = none
zero_padded_issue_number (some s) =
    if not (is_empty s) && all_chars is_digit s then some (zfill s) else none

-- [variant] if the test holds
abbrev when : Bool → List Part → List (List Part)
when true variant = variant ∷ []
when false variant = []

abbrev first_title : List String → List Part → List (List Part)
first_title [] parts = []
first_title (title ∷ titles) parts = (words (some title) ∷ parts) ∷ []

-- title is truthy: the two titles; if not, the first alternate title
abbrev last_of_collection : Bool → List Part → List (List Part) → List (List Part)
last_of_collection true named alternate = named ∷ []
last_of_collection false named alternate = alternate

unfoldable pub collection_variants : SearchIntent → Option String → Option ℕ → List (List Part)
unfolding text_or
collection_variants intent title year =
    let series = words (some intent.series_title) in
    let ordinal = text_or intent.volume intent.issue_number in
    when (is_truthy title) (series ∷ words title ∷ number year ∷ [])
    ++ (when (is_truthy ordinal) (series ∷ words (some "Vol") ∷ words ordinal ∷ number year ∷ [])
        ++ last_of_collection (is_truthy title) (series ∷ words title ∷ []) (
            first_title intent.alternate_titles
              (words (some "Vol") ∷ words ordinal ∷ number year ∷ [])))

abbrev differs : Option String → Option String → Bool
differs none other = false
differs (some padded) none = true
differs (some padded) (some s) = not (padded == s)

unfoldable pub issue_variants : SearchIntent → Option ℕ → List (List Part)
unfolding zero_padded_issue_number
issue_variants intent year =
    let series = words (some intent.series_title) in
    let padded = zero_padded_issue_number intent.issue_number in
    let issue = words intent.issue_number in
    when (differs padded intent.issue_number) (series ∷ words padded ∷ number year ∷ [])
    ++ ((series ∷ issue ∷ number year ∷ []) ∷ (series ∷ issue ∷ []) ∷ [])
    ++ first_title intent.alternate_titles (issue ∷ number year ∷ [])

module _ (net : Net) where
  -- " ".join of the parts that are there, each with its words joined
  abbrev part_text : Part → Option String
  part_text (words none) = none
  part_text (words (some s)) = some (collapse s)
  part_text (number none) = none
  part_text (number (some n)) = some (collapse (net.show n))

  abbrev joined_to : Option String → List String → List String
  joined_to none texts = texts
  joined_to (some s) texts = s ∷ texts

  unfoldable pub part_texts : List Part → List String
  unfolding collapse
  part_texts [] = []
  part_texts (part ∷ parts) = joined_to (part_text part) (part_texts parts)

  unfoldable pub join_texts : List String → String
  join_texts [] = ""
  join_texts (s ∷ []) = s
  join_texts (s ∷ t ∷ texts) = String.◌++◌ s (String.◌++◌ " " (join_texts (t ∷ texts)))

  -- s[:500].rstrip()
  unfoldable pub bounded_query : String → String
  unfolding text_take rstrip is_space
  bounded_query s = rstrip is_space (text_take 500 s)

  unfoldable pub query_of : List Part → String
  unfolding part_texts join_texts bounded_query strip
  query_of parts = bounded_query (strip (join_texts (part_texts parts)))

  -- A query is added unless it is empty or there.
  unfoldable pub add_query : String → List String → List String
  add_query query queries =
      if not (is_empty query) && not (contains query queries)
      then queries ++ query ∷ []
      else queries

  -- The loop of `_build_queries`, which stops at three queries.
  unfoldable pub collect_queries : List (List Part) → List String → List String
  unfolding query_of add_query
  collect_queries [] queries = queries
  collect_queries (parts ∷ variants) queries =
      let added = add_query (query_of parts) queries in
      let rest = collect_queries variants added in if nat_beq (length added) 3 then added else rest

module _ (net : Net) (unicode : Unicode) where
  unfoldable pub variants_of : SearchIntent → List (List Part)
  unfolding year_or is_collection_intent collection_title_fragment collection_variants
      issue_variants
  variants_of intent =
      let year = year_or intent.release_year intent.year in
      if is_collection_intent net unicode intent.issue_type
      then collection_variants intent (collection_title_fragment net unicode intent.issue_title)
          year
      else issue_variants intent year

  -- `_build_queries`
  unfoldable pub build_queries : SearchIntent → List String
  unfolding variants_of collect_queries
  build_queries intent = collect_queries net (variants_of intent) []

  -- `_title_fallback_query`
  unfoldable pub title_fallback_query : SearchIntent → String
  unfolding collapse bounded_query
  title_fallback_query intent = bounded_query net (collapse intent.series_title)
