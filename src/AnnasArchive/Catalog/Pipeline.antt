-- ===== src/AnnasArchive/Catalog/Pipeline.antt =====
-- `_anna_candidates_from_catalog` as a pipeline of list operations.
use mathlib.Core.List.{append-nil, append_assoc}
use pullbox_direct_providers.Prelude.{
  ℕ, zero, suc, ◌-◌, ◌<◌, ◌≡◌, refl, ap, sym, ◌∙◌, inl, inr, ◌⊎◌, true, false, not, ◌&&◌, List, [],
  ◌∷◌, ◌++◌, map, arith, nat_beq, if◌then◌else◌, length, String_eq, String, take, contains,
  Bool-cases, length-append,
}
use pullbox_direct_providers.Prelude.Sorting.{
  filter, sorted_by, sorted_by-partition, unique_by, unseen, filter-unseen, filter-other_seen,
}
use pullbox_direct_providers.Contract.Net.{Net}
use pullbox_direct_providers.Contract.Models.{Candidate}
use pullbox_direct_providers.AnnasArchive.Catalog.{
  is_catalog_entry, fingerprint_md5, is_mobile, anna_candidate, catalog_loop,
  anna_candidates_from_catalog, catalog_candidate_rank,
}

-- The valid entries of a list, the first of each MD5.
unfoldable pub entries : List Candidate → List Candidate
unfolding filter unique_by
entries cs = unique_by fingerprint_md5 (filter is_catalog_entry cs)

-- what is left of the entries once some MD5s were seen
abbrev left : List String → List Candidate → List Candidate
left seen cs = filter (unseen fingerprint_md5 seen) (entries cs)

left_invalid :
    (seen : List String) (c : Candidate) (cs : List Candidate)
    → is_catalog_entry c ≡ false
    → left seen (c ∷ cs) ≡ left seen cs
unfolding entries filter
left_invalid seen c cs h = rw h

left_seen :
    (seen : List String) (c : Candidate) (cs : List Candidate)
    → is_catalog_entry c ≡ true
    → contains (fingerprint_md5 c) seen ≡ true
    → left seen (c ∷ cs) ≡ left seen cs
unfolding entries filter unique_by
left_seen seen c cs h k =
    rw (h, k) (filter-other_seen fingerprint_md5 (fingerprint_md5 c) seen (entries cs) k)

left_new :
    (seen : List String) (c : Candidate) (cs : List Candidate)
    → is_catalog_entry c ≡ true
    → contains (fingerprint_md5 c) seen ≡ false
    → left seen (c ∷ cs) ≡ c ∷ left (fingerprint_md5 c ∷ seen) cs
unfolding entries filter unique_by
left_new seen c cs h k =
    rw (h, k)
      (ap (◌∷◌ c) (sym (filter-unseen fingerprint_md5 (fingerprint_md5 c) seen (entries cs))))

take-suc {ℓ} :
    {A : Type ℓ} (n m : ℕ) (x : A) (xs : List A) → n ≡ suc m → take n (x ∷ xs) ≡ x ∷ take m xs
take-suc n m x xs h = rw h

take-nil {ℓ} : {A : Type ℓ} (n : ℕ) → Path (List A) (take n []) []
take-nil zero = refl
take-nil (suc n) = refl

entry_cases :
    (seen : List String) (c : Candidate)
    → ((is_catalog_entry c && not (contains (fingerprint_md5 c) seen) ≡ true)
        × ((cs : List Candidate) → left seen (c ∷ cs) ≡ c ∷ left (fingerprint_md5 c ∷ seen) cs))
      ⊎ ((is_catalog_entry c && not (contains (fingerprint_md5 c) seen) ≡ false)
          × ((cs : List Candidate) → left seen (c ∷ cs) ≡ left seen cs))
entry_cases seen c = elim (Bool-cases (is_catalog_entry c)) [
  | inr h ↦ inr (rw h, λ cs. left_invalid seen c cs h)
  | inl h ↦ elim (Bool-cases (contains (fingerprint_md5 c) seen)) [
    | inl k ↦ inr (rw (h, k), λ cs. left_seen seen c cs h k)
    | inr k ↦ inl (rw (h, k), λ cs. left_new seen c cs h k)
  ]
]

module _ (net : Net) (domain : String) (limit : ℕ) where
  renamed : List String → List Candidate → List Candidate
  unfolding anna_candidate
  renamed seen cs = map (anna_candidate net domain) (left seen cs)

  loop_skips :
      (c : Candidate) (cs candidates : List Candidate) (seen : List String)
      → (is_catalog_entry c && not (contains (fingerprint_md5 c) seen)) ≡ false
      → catalog_loop net domain limit (c ∷ cs) candidates seen
        ≡ catalog_loop net domain limit cs candidates seen
  unfolding catalog_loop
  loop_skips c cs candidates seen h = ground arith

  loop_adds :
      (c : Candidate) (cs candidates : List Candidate) (seen : List String)
      → (is_catalog_entry c && not (contains (fingerprint_md5 c) seen)) ≡ true
      → let added = candidates ++ anna_candidate net domain c ∷ [] in
        catalog_loop net domain limit (c ∷ cs) candidates seen ≡ (
          if nat_beq (length added) limit
          then added
          else catalog_loop net domain limit cs added (fingerprint_md5 c ∷ seen))
  unfolding catalog_loop
  loop_adds c cs candidates seen h = ground arith

  loop_nil :
      (candidates : List Candidate) (seen : List String)
      → catalog_loop net domain limit [] candidates seen
        ≡ candidates ++ take (limit - length candidates) (renamed seen [])
  unfolding renamed catalog_loop entries filter
  loop_nil candidates seen =
      rw (take-nil {A = Candidate} (limit - length candidates)) (sym (append-nil candidates))

  loop_kept :
      (x : Candidate) (later : List Candidate) (candidates xs : List Candidate)
      → length candidates < limit
      → (length (candidates ++ x ∷ []) < limit
          → later ≡ (candidates ++ x ∷ []) ++ take (limit - length (candidates ++ x ∷ [])) xs)
      → (if nat_beq (length (candidates ++ x ∷ [])) limit then candidates ++ x ∷ [] else later)
        ≡ candidates ++ take (limit - length candidates) (x ∷ xs)
  loop_kept x later candidates xs h ih =
      let added = length-append candidates (x ∷ []) in
      elim (Bool-cases (nat_beq (length (candidates ++ x ∷ [])) limit)) [
        | inl full ↦ rw (full, take-suc (limit - length candidates) 0 x xs (ground arith)) refl
        | inr more ↦
            rw
              (
                more,
                take-suc (limit - length candidates) (limit - length (candidates ++ x ∷ [])) x xs
                    (ground arith),
              )
              (ih (ground arith)
                ∙ append_assoc candidates (x ∷ [])
                    (take (limit - length (candidates ++ x ∷ [])) xs))
      ]

  -- The loop adds to the candidates what the limit leaves of the renamed entries.
  loop_lem :
      (cs candidates : List Candidate) (seen : List String)
      → length candidates < limit
      → catalog_loop net domain limit cs candidates seen
        ≡ candidates ++ take (limit - length candidates) (renamed seen cs)
  unfolding renamed
  loop_lem [] candidates seen h = loop_nil candidates seen
  loop_lem (c ∷ cs) candidates seen h = elim (entry_cases seen c) [
    | inl (kept, eq) ↦
        loop_adds c cs candidates seen kept
        ∙ loop_kept (anna_candidate net domain c)
            (catalog_loop net domain limit cs (candidates ++ anna_candidate net domain c ∷ [])
              (fingerprint_md5 c ∷ seen))
            candidates (renamed (fingerprint_md5 c ∷ seen) cs) h
            (λ more.
              loop_lem cs (candidates ++ anna_candidate net domain c ∷ [])
                (fingerprint_md5 c ∷ seen) more)
        ∙ ap
            (λ l.
              candidates ++ take (limit - length candidates) (map (anna_candidate net domain) l))
            (sym (eq cs))
    | inr (skipped, eq) ↦
        loop_skips c cs candidates seen skipped
        ∙ loop_lem cs candidates seen h
        ∙ ap
            (λ l.
              candidates ++ take (limit - length candidates) (map (anna_candidate net domain) l))
            (sym (eq cs))
  ]

filter-unseen_none : (cs : List Candidate) → filter (unseen fingerprint_md5 []) cs ≡ cs
unfolding filter
filter-unseen_none [] = refl
filter-unseen_none (c ∷ cs) = ap (◌∷◌ c) (filter-unseen_none cs)

-- The catalog's candidates for a positive limit are the first of each MD5 among the valid entries,
-- those of canonical files before those of mobile ones and each in the catalog's order, renamed and
-- cut at the limit.
pub anna_candidates_from_catalog-eq :
    (net : Net) (domain : String) (limit : ℕ) (cs : List Candidate)
    → 0 < limit
    → anna_candidates_from_catalog net domain limit cs
      ≡ take limit (
          map
            (anna_candidate net domain)
            (entries (filter (λ c. not (is_mobile net c)) cs ++ filter (is_mobile net) cs)))
unfolding anna_candidates_from_catalog renamed
anna_candidates_from_catalog-eq net domain limit cs h =
    let ranked = sorted_by (catalog_candidate_rank net) cs in
    let whole : limit - 0 ≡ limit = omega arith in
    loop_lem net domain limit ranked [] [] h
    ∙ ap (λ n. take n (renamed net domain limit [] ranked)) whole
    ∙ ap (λ l. take limit (map (anna_candidate net domain) l))
        (filter-unseen_none (entries ranked) ∙ ap entries (sorted_by-partition (is_mobile net) cs))
