-- ===== src/LibGen/Service/Bounded.antt =====
-- The queries that service.py builds.

use Prim.Native.Char.{Char}
use pullbox_direct_providers.Prelude.{
  ℕ, suc, ◌+◌, ◌≤◌, ◌≡◌, refl, inl, inr, Bool, false, not, ◌&&◌, List, [], ◌∷◌, ◌++◌, arith,
  nat_beq, length, length-append, ℕ_eq, String_eq, String, All, All-append, contains,
  contains-append, Bool-cases, eq_iff,
}
use pullbox_direct_providers.Prelude.Measures.{text_len-text_take-le}
use pullbox_direct_providers.Prelude.Text.{
  strip, rstrip, rstrip_cons, is_space, is_empty, text_len, text_take,
}
use pullbox_direct_providers.Contract.Net.{Net}
use pullbox_direct_providers.Contract.SearchTerms.{Unicode}
use pullbox_direct_providers.Contract.Models.{SearchIntent}
use pullbox_direct_providers.LibGen.Service.Queries.{
  Part, join_texts, part_texts, bounded_query, query_of, add_query, collect_queries, variants_of,
  build_queries,
}

text_len-rstrip_cons-le :
    (p : Char → Bool) (c : Char) (s : String) → text_len (rstrip_cons p c s) ≤ text_len s + 1
unfolding text_len rstrip_cons
text_len-rstrip_cons-le p c String.[] = elim (Bool-cases (p c)) [
  | inl drops ↦ rw (drops, rstrip_cons) (omega arith)
  | inr keeps ↦ rw (keeps, rstrip_cons) (omega arith)
]
text_len-rstrip_cons-le p c (String.◌∷◌ d s) = omega arith

text_len-rstrip-le : (p : Char → Bool) (s : String) → text_len (rstrip p s) ≤ text_len s
unfolding text_len rstrip
text_len-rstrip-le p String.[] = omega arith
text_len-rstrip-le p (String.◌∷◌ c s) =
    omega (arith, text_len-rstrip_cons-le p c (rstrip p s), text_len-rstrip-le p s)

-- A query: not empty, at most 500 characters.
abbrev pub IsQuery : String → Type 0
IsQuery query = (is_empty query ≡ false) × (text_len query ≤ 500)

-- No query stands twice.
abbrev pub NoRepeats : List String → Type 0
NoRepeats [] = Unit
NoRepeats (query ∷ queries) = (contains query queries ≡ false) × NoRepeats queries

append-NoRepeats :
    (query : String) (queries : List String)
    → NoRepeats queries
    → contains query queries ≡ false
    → NoRepeats (queries ++ query ∷ [])
append-NoRepeats query [] h fresh = (refl, tt)
append-NoRepeats query (q ∷ queries) (new, h) fresh = (
  ground (arith, contains-append q queries (query ∷ []), eq_iff q query, eq_iff query q),
  append-NoRepeats query queries h (ground arith),
)

-- At most so many queries, all of them proper and distinct.
pub record IsQueries (n : ℕ) (queries : List String) : Type 0 where
  pub few : length queries ≤ n
  pub proper : All IsQuery queries
  pub distinct : NoRepeats queries

module _ (net : Net) where
  text_len-query_of-le : (parts : List Part) → text_len (query_of net parts) ≤ 500
  unfolding query_of bounded_query
  text_len-query_of-le parts =
      let s = text_take 500 (strip (join_texts net (part_texts net parts))) in
      omega (
        arith,
        text_len-rstrip-le is_space s,
        text_len-text_take-le 500 (strip (join_texts net (part_texts net parts))),
      )

  add_query-IsQueries :
      (n : ℕ) (query : String) (queries : List String)
      → text_len query ≤ 500
      → IsQueries n queries
      → IsQueries (n + 1) (add_query net query queries)
  unfolding add_query
  add_query-IsQueries n query queries short h =
      elim (Bool-cases (not (is_empty query) && not (contains query queries))) [
        | inl new ↦
            rw (new, add_query)
              (record {
                few = omega (arith, length-append queries (query ∷ []), h.few);
                proper =
                    All-append IsQuery queries (query ∷ []) h.proper ((ground arith, short), tt);
                distinct = append-NoRepeats query queries h.distinct (ground arith);
              })
        | inr old ↦
            rw (old, add_query)
              (record { few = omega (arith, h.few); proper = h.proper; distinct = h.distinct })
      ]

  below :
      (n : ℕ) (queries : List String)
      → IsQueries (suc n) queries
      → nat_beq (length queries) (suc n) ≡ false
      → IsQueries n queries
  below n queries h other =
      let few = h.few in record { few = ground arith; proper = h.proper; distinct = h.distinct }

  collect_queries-IsQueries :
      (variants : List (List Part)) (queries : List String)
      → IsQueries 2 queries
      → IsQueries 3 (collect_queries net variants queries)
  unfolding collect_queries
  collect_queries-IsQueries [] queries h = record {
    few = omega (arith, h.few);
    proper = h.proper;
    distinct = h.distinct;
  }
  collect_queries-IsQueries (parts ∷ variants) queries h =
      let added = add_query net (query_of net parts) queries in
      let grown : IsQueries 3 added =
        add_query-IsQueries 2 (query_of net parts) queries (text_len-query_of-le parts) h in
      elim (Bool-cases (nat_beq (length added) 3)) [
        | inl full ↦ rw (full, collect_queries) grown
        | inr more ↦
            rw (more, collect_queries)
              (collect_queries-IsQueries variants added (below 2 added grown more))
      ]

module _ (net : Net) (unicode : Unicode) where
  -- Every search intent gives at most three queries, no two the same, none empty and none longer
  -- than 500 characters.
  pub build_queries-IsQueries :
      (intent : SearchIntent) → IsQueries 3 (build_queries net unicode intent)
  unfolding build_queries
  build_queries-IsQueries intent =
      collect_queries-IsQueries net (variants_of net unicode intent) []
        (record { few = omega arith; proper = tt; distinct = tt })
