-- ===== src/GetComics/Search/Fresh.antt =====
-- What the candidates of a search of GetComics keep: distinct ids, all of them seen.
use pullbox_direct_providers.Prelude.{
  ◌≡◌, refl, sym, subst, ◌∙◌, ◌⊎◌, inl, inr, Bool, true, false, List, [], ◌∷◌, ◌++◌, arith,
  if◌then◌else◌, contains, ◌==◌, String_eq, String, Bool-cases, eq_iff,
}
use pullbox_direct_providers.Prelude.Distinct.{
  has_key, DistinctBy, Disjoint, has_key-append, append-DistinctBy,
}
use pullbox_direct_providers.Prelude.Result.{ok, >>=-eq-ok, ok-injective}
use pullbox_direct_providers.Contract.Models.{Candidate}
use pullbox_direct_providers.GetComics.Search.{
  PageSource, Found, add_candidates, append_search_candidates,
}

abbrev pub id_of : Candidate → String
id_of c = c.provider_candidate_id

-- What the lists of a search keep: distinct ids, all of them seen, and none of those in `base`.
abbrev pub IsFresh : List Candidate → Found → Type 0
IsFresh base found =
    DistinctBy id_of found.candidates
    × ((k : String) → has_key id_of k found.candidates ≡ true → contains k found.seen ≡ true)
    × ((k : String) → has_key id_of k base ≡ true → contains k found.seen ≡ true)
    × Disjoint id_of found.candidates base

abbrev added : Candidate → Found → Found
added c found = record {
  candidates = found.candidates ++ c ∷ [];
  seen = c.provider_candidate_id ∷ found.seen;
}

-- An id that was not seen is none of the ids that were.
unseen_id :
    (k : String) (c : Candidate) (xs : List Candidate) (seen : List String)
    → contains c.provider_candidate_id seen ≡ false
    → (has_key id_of k xs ≡ true → contains k seen ≡ true)
    → k ≡ c.provider_candidate_id
    → has_key id_of k xs ≡ false
unseen_id k c xs seen new known same = elim (Bool-cases (has_key id_of k xs)) [
  | inl there ↦ let found = subst (λ j. contains j seen ≡ true) same (known there) in cc
  | inr h ↦ h
]

-- A candidate behind a list: its id, or one of the list.
id_cases :
    (k : String) (xs : List Candidate) (c : Candidate)
    → has_key id_of k (xs ++ c ∷ []) ≡ true
    → (has_key id_of k xs ≡ true) ⊎ (k ≡ c.provider_candidate_id)
id_cases k xs c there =
    let whole = sym (has_key-append id_of k xs (c ∷ [])) ∙ there in
    elim (Bool-cases (has_key id_of k xs)) [
      | inl h ↦ inl h
      | inr h ↦ inr ((eq_iff k c.provider_candidate_id).0 (ground arith))
    ]

added-IsFresh :
    (base : List Candidate) (c : Candidate) (found : Found)
    → contains c.provider_candidate_id found.seen ≡ false
    → IsFresh base found
    → IsFresh base (added c found)
added-IsFresh base c found new (distinct, seen, known, apart) =
    let candidates = found.candidates in
    (
      append-DistinctBy id_of candidates (c ∷ []) distinct (refl, tt)
          (λ k there. elim (Bool-cases (k == c.provider_candidate_id)) [
            | inl same ↦
                let none_there =
                  unseen_id k c candidates found.seen new (seen k)
                    ((eq_iff k c.provider_candidate_id).0 same) in
                cc
            | inr other ↦ ground arith
          ]),
      λ k there. elim (id_cases k candidates c there) [
        | inl old ↦ let was_seen = seen k old in ground arith
        | inr same ↦ let equal = (eq_iff k c.provider_candidate_id).1 same in ground arith
      ],
      λ k there. let old = known k there in ground arith,
      λ k there. elim (id_cases k candidates c there) [
        | inl old ↦ apart k old
        | inr same ↦ unseen_id k c base found.seen new (known k) same
      ],
    )

if-IsFresh :
    (base : List Candidate) (b : Bool) (x y : Found)
    → (b ≡ true → IsFresh base x)
    → (b ≡ false → IsFresh base y)
    → IsFresh base (if b then x else y)
if-IsFresh base true x y h k = h refl
if-IsFresh base false x y h k = k refl

add_candidates-IsFresh :
    (base cs : List Candidate) (found : Found)
    → IsFresh base found
    → IsFresh base (add_candidates cs found)
unfolding add_candidates
add_candidates-IsFresh base [] found h = h
add_candidates-IsFresh base (c ∷ cs) found h =
    add_candidates-IsFresh base cs
      (if contains c.provider_candidate_id found.seen then found else added c found)
      (if-IsFresh base (contains c.provider_candidate_id found.seen) found (added c found)
        (λ old. h) (λ new. added-IsFresh base c found new h))

module _ (source : PageSource) where
  pub append_search_candidates-IsFresh :
      (base : List Candidate) (query : String) (found next : Found)
      → append_search_candidates source query found ≡ ok next
      → IsFresh base found
      → IsFresh base next
  unfolding append_search_candidates
  append_search_candidates-IsFresh base query found next h fresh =
      let (html, _, r1) = >>=-eq-ok (source.page_fetcher _) _ h in
      let (parsed, _, last) = >>=-eq-ok (source.parse_search_html html) _ r1 in
      subst (IsFresh base) (ok-injective last) (add_candidates-IsFresh base parsed found fresh)
